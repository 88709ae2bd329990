-- ===== src/Triage/Conf.antt =====
-- `loadTriageConf` of link/triage.go, from the lines of triage.conf as `strings.Fields` splits them. The
-- checks of the file itself (a regular file of this user with mode 0600) are not modelled;
-- strconv.ParseFloat and the reading of the key file are parameters.
use khala_network.Common.{
  ℕ, Str, lit, str_eq, List, [], ◌∷◌, Option, none, some, Result, ok, err, ◌>>=◌, ◌>>◌, guard,
  if◌then◌else◌, false, not, ◌&&◌, ◌||◌, ◌==◌,
}
use khala_network.Config.{is_abs}
use khala_network.Text.Strings.{cut_prefix, present, trim_space}
use khala_network.Text.Numbers.{Int64, parse_int}
use khala_network.Text.Floats.{Float64, number, in_unit, less}

pub data TriageConfError : Type 0 where
  bad_line bad_budget bad_threshold unknown_key bad_provider two_keys relative_key_file
        unread_key_file no_key :
      TriageConfError

pub record TriageConf : Type 0 where
  pub model : Str
  pub endpoint : Str
  pub key : Str
  pub max_per_hour : ℕ
  pub threshold_action : Float64
  pub threshold_reply : Float64
  pub threshold_urgent : Float64

-- The variables of the loop over the lines; a threshold is `none` where its pointer is nil.
pub record Reading : Type 0 where
  pub conf : TriageConf
  pub threshold : Float64
  pub action : Option Float64
  pub reply : Option Float64
  pub urgent : Option Float64
  pub provider : Str
  pub key_file : Str

-- The float64 nearest to 0.7.
abbrev pub default_threshold : Float64
default_threshold = number false 0x3fe6666666666666

abbrev pub initial : Reading
initial = record {
  conf = record {
    model = lit "jev-latest";
    endpoint = lit "https://api.typesafe.ai/v1/systemone";
    key = [];
    max_per_hour = 600;
    threshold_action = default_threshold;
    threshold_reply = default_threshold;
    threshold_urgent = default_threshold;
  };
  threshold = default_threshold;
  action = none;
  reply = none;
  urgent = none;
  provider = [];
  key_file = [];
}

abbrev pub budget_of : Option Int64 → Reading → Result TriageConfError Reading
budget_of none r = err bad_budget
budget_of (some i) r =
    if i.negative || (i.magnitude == 0)
    then err bad_budget
    else ok (record r { conf = record r.conf { max_per_hour = i.magnitude } })

-- A threshold that parses and is in 0..1 goes where `put` puts it.
abbrev pub threshold_of : Option Float64 → (Float64 → Reading) → Result TriageConfError Reading
threshold_of none put = err bad_threshold
threshold_of (some v) put = if in_unit v then ok (put v) else err bad_threshold

module _ (parse_float : Str → Option Float64) where
  unfoldable pub read_key : Str → Str → Reading → Result TriageConfError Reading
  unfolding less
  read_key name value r =
      if str_eq name (lit "provider")
      then ok (record r { provider = value })
      else if str_eq name (lit "key")
      then ok (record r { conf = record r.conf { key = value } })
      else if str_eq name (lit "key-file")
      then ok (record r { key_file = value })
      else if str_eq name (lit "model")
      then ok (record r { conf = record r.conf { model = value } })
      else if str_eq name (lit "endpoint")
      then ok (record r { conf = record r.conf { endpoint = value } })
      else if str_eq name (lit "max-per-hour")
      then budget_of (parse_int value) r
      else if str_eq name (lit "threshold")
      then threshold_of (parse_float value) (λ v. record r { threshold = v })
      else if str_eq name (lit "threshold-action")
      then threshold_of (parse_float value) (λ v. record r { action = some v })
      else if str_eq name (lit "threshold-reply")
      then threshold_of (parse_float value) (λ v. record r { reply = some v })
      else if str_eq name (lit "threshold-urgent")
      then threshold_of (parse_float value) (λ v. record r { urgent = some v })
      else err unknown_key

  unfoldable pub read_conf_line : List Str → Reading → Result TriageConfError Reading
  read_conf_line [] r = ok r
  read_conf_line (name ∷ []) r = if present (cut_prefix (lit "#") name) then ok r else err bad_line
  read_conf_line (name ∷ value ∷ []) r =
      if present (cut_prefix (lit "#") name) then ok r else read_key name value r
  read_conf_line (name ∷ value ∷ _ ∷ _) r =
      if present (cut_prefix (lit "#") name) then ok r else err bad_line

  unfoldable pub read_conf_lines : List (List Str) → Reading → Result TriageConfError Reading
  read_conf_lines [] r = ok r
  read_conf_lines (line ∷ lines) r = read_conf_line line r >>= λ r'. read_conf_lines lines r'

abbrev pub or_common : Option Float64 → Float64 → Float64
or_common (some v) common = v
or_common none common = common

abbrev pub key_of : (Str → Option Str) → Reading → Result TriageConfError Str
key_of read_file r =
    if str_eq r.key_file []
    then ok r.conf.key
    else guard (is_abs r.key_file) relative_key_file >> elim (read_file r.key_file) [
      | none ↦ err unread_key_file
      | some text ↦ ok (trim_space text)
    ]

abbrev pub conf_of : Str → Reading → TriageConf
conf_of key r = record r.conf {
  key = key;
  threshold_action = or_common r.action r.threshold;
  threshold_reply = or_common r.reply r.threshold;
  threshold_urgent = or_common r.urgent r.threshold;
}

abbrev pub with_key : Reading → Str → Result TriageConfError TriageConf
with_key r [] = err no_key
with_key r (c ∷ key) = ok (conf_of (c ∷ key) r)

-- The checks after the loop.
unfoldable pub finish_conf : (Str → Option Str) → Reading → Result TriageConfError TriageConf
finish_conf read_file r =
    if not (str_eq r.provider (lit "typesafe"))
    then err bad_provider
    else if not (str_eq r.conf.key []) && not (str_eq r.key_file [])
    then err two_keys
    else key_of read_file r >>= with_key r

unfoldable pub load_triage_conf :
    (Str → Option Float64)
    → (Str → Option Str)
    → List (List Str)
    → Result TriageConfError TriageConf
load_triage_conf parse_float read_file lines =
    read_conf_lines parse_float lines initial >>= finish_conf read_file
