-- ===== src/Triage/Thresholds.antt =====
-- What a configuration that `loadTriageConf` of link/triage.go accepts is like.
use khala_network.Common.{
  ℕ, zero, suc, ◌≤◌, ◌<◌, ◌≡◌, ◌≢◌, Str, lit, str_eq, List, [], ◌∷◌, Option, none, some, Result,
  err, if◌then◌else◌, Bool, true, false, not, ◌&&◌, ◌||◌, ◌==◌, arith, Returns, Returns-bind,
  Returns-at, ◌⊎◌, inl, inr, Bool-cases,
}
use khala_network.Text.Strings.{cut_prefix, present}
use khala_network.Text.Numbers.{Int64, parse_int}
use khala_network.Text.Floats.{Float64, nan, number, in_unit, less}
use khala_network.Triage.Conf.{
  TriageConfError, TriageConf, Reading, initial, budget_of, threshold_of, read_key, read_conf_line,
  read_conf_lines, or_common, key_of, with_key, finish_conf, load_triage_conf, bad_provider,
  two_keys,
}

-- A float64 in 0..1, of which negative zero is one, or no number at all: the code accepts a NaN.
pub data InUnit : Float64 → Type 0 where
  not_a_number : InUnit nan
  in_range : (bits : ℕ) → bits ≤ 0x3ff0000000000000 → InUnit (number false bits)
  negative_zero : InUnit (number true 0)

in_unit-InUnit : (v : Float64) → in_unit v ≡ true → InUnit v
unfolding less
in_unit-InUnit nan e = not_a_number
in_unit-InUnit (number false bits) e = in_range bits (ground arith)
in_unit-InUnit (number true zero) e = negative_zero
in_unit-InUnit (number true (suc bits)) e = absurd (ground arith)

abbrev Given : Option Float64 → Type 0
Given none = Unit
Given (some v) = InUnit v

record SoundParts (budget : ℕ) (threshold : Float64) (action reply urgent : Option Float64)
    : Type 0 where
  positive : 0 < budget
  common : InUnit threshold
  for_action : Given action
  for_reply : Given reply
  for_urgent : Given urgent

abbrev Sound : Reading → Type 0
Sound r = SoundParts r.conf.max_per_hour r.threshold r.action r.reply r.urgent

-- A configuration that can be worked with: there is a budget, a key, and each threshold is in 0..1 or NaN.
pub record IsUsable (c : TriageConf) : Type 0 where
  pub budget : 0 < c.max_per_hour
  pub keyed : c.key ≢ []
  pub action : InUnit c.threshold_action
  pub reply : InUnit c.threshold_reply
  pub urgent : InUnit c.threshold_urgent

abbrev Read : Result TriageConfError Reading → Type 0
Read m = Returns Sound m

Read-if :
    (b : Bool) (x y : Result TriageConfError Reading) → Read x → Read y → Read (if b then x else y)
Read-if true x y p q = p
Read-if false x y p q = q

initial-Sound : Sound initial
unfolding less
initial-Sound = record {
  positive = omega arith;
  common = in_range _ (omega arith);
  for_action = tt;
  for_reply = tt;
  for_urgent = tt;
}

budget_of-Sound : (i : Option Int64) (r : Reading) → Sound r → Read (budget_of i r)
budget_of-Sound none r s = tt
budget_of-Sound (some i) r s = split (Bool-cases (i.negative || (i.magnitude == 0)))
  where
    split :
        ((i.negative || (i.magnitude == 0)) ≡ true) ⊎ ((i.negative || (i.magnitude == 0)) ≡ false)
        → Read (budget_of (some i) r)
    split (inl e) = rw e tt
    split (inr e) = rw e (record {
      positive = ground (arith, e);
      common = s.common;
      for_action = s.for_action;
      for_reply = s.for_reply;
      for_urgent = s.for_urgent;
    })

threshold_of-Sound :
    (o : Option Float64) (put : Float64 → Reading)
    → ((v : Float64) → InUnit v → Sound (put v))
    → Read (threshold_of o put)
threshold_of-Sound none put h = tt
threshold_of-Sound (some v) put h = split (Bool-cases (in_unit v))
  where
    split : (in_unit v ≡ true) ⊎ (in_unit v ≡ false) → Read (threshold_of (some v) put)
    split (inl e) = rw e (h v (in_unit-InUnit v e))
    split (inr e) = rw e tt

module _ (parse_float : Str → Option Float64) where
  read_key-Sound :
      (name value : Str) (r : Reading) → Sound r → Read (read_key parse_float name value r)
  unfolding read_key
  read_key-Sound name value r s = Read-if (str_eq name (lit "provider")) _ _ s (
      Read-if (str_eq name (lit "key")) _ _ s (
        Read-if (str_eq name (lit "key-file")) _ _ s (
          Read-if (str_eq name (lit "model")) _ _ s (
            Read-if (str_eq name (lit "endpoint")) _ _ s (
              Read-if (str_eq name (lit "max-per-hour")) _ _ (budget_of-Sound (parse_int value) r s)
                (Read-if (str_eq name (lit "threshold")) _ _
                  (threshold_of-Sound (parse_float value) (λ v. record r { threshold = v })
                    common_set)
                  (Read-if (str_eq name (lit "threshold-action")) _ _
                    (threshold_of-Sound (parse_float value) (λ v. record r { action = some v })
                      action_set)
                    (Read-if (str_eq name (lit "threshold-reply")) _ _
                      (threshold_of-Sound (parse_float value) (λ v. record r { reply = some v })
                        reply_set)
                      (Read-if (str_eq name (lit "threshold-urgent")) _ _
                        (threshold_of-Sound (parse_float value) (λ v. record r { urgent = some v })
                          urgent_set)
                        tt)))))))))
    where
      common_set : (v : Float64) → InUnit v → Sound (record r { threshold = v })
      common_set v u = record {
        positive = s.positive;
        common = u;
        for_action = s.for_action;
        for_reply = s.for_reply;
        for_urgent = s.for_urgent;
      }

      action_set : (v : Float64) → InUnit v → Sound (record r { action = some v })
      action_set v u = record {
        positive = s.positive;
        common = s.common;
        for_action = u;
        for_reply = s.for_reply;
        for_urgent = s.for_urgent;
      }

      reply_set : (v : Float64) → InUnit v → Sound (record r { reply = some v })
      reply_set v u = record {
        positive = s.positive;
        common = s.common;
        for_action = s.for_action;
        for_reply = u;
        for_urgent = s.for_urgent;
      }

      urgent_set : (v : Float64) → InUnit v → Sound (record r { urgent = some v })
      urgent_set v u = record {
        positive = s.positive;
        common = s.common;
        for_action = s.for_action;
        for_reply = s.for_reply;
        for_urgent = u;
      }

  read_conf_line-Sound :
      (line : List Str) (r : Reading) → Sound r → Read (read_conf_line parse_float line r)
  unfolding read_conf_line
  read_conf_line-Sound [] r s = s
  read_conf_line-Sound (name ∷ []) r s = Read-if (present (cut_prefix (lit "#") name)) _ _ s tt
  read_conf_line-Sound (name ∷ value ∷ []) r s =
      Read-if (present (cut_prefix (lit "#") name)) _ _ s (read_key-Sound name value r s)
  read_conf_line-Sound (name ∷ value ∷ _ ∷ _) r s =
      Read-if (present (cut_prefix (lit "#") name)) _ _ s tt

  read_conf_lines-Sound :
      (lines : List (List Str)) (r : Reading) → Sound r → Read (read_conf_lines parse_float lines r)
  unfolding read_conf_lines
  read_conf_lines-Sound [] r s = s
  read_conf_lines-Sound (line ∷ lines) r s =
      Returns-bind Sound (read_conf_line parse_float line r) _ (λ r' e.
        read_conf_lines-Sound lines r' (Returns-at Sound _ e (read_conf_line-Sound line r s)))

or_common-InUnit : (o : Option Float64) (v : Float64) → Given o → InUnit v → InUnit (or_common o v)
or_common-InUnit none v g u = u
or_common-InUnit (some w) v g u = g

Usable-if :
    (b : Bool) (e : TriageConfError) (m : Result TriageConfError TriageConf)
    → Returns IsUsable m
    → Returns IsUsable (if b then err e else m)
Usable-if true e m h = tt
Usable-if false e m h = h

with_key-IsUsable : (r : Reading) (key : Str) → Sound r → Returns IsUsable (with_key r key)
with_key-IsUsable r [] s = tt
with_key-IsUsable r (c ∷ key) s = record {
  budget = s.positive;
  keyed = λ e. absurd (ground arith);
  action = or_common-InUnit r.action r.threshold s.for_action s.common;
  reply = or_common-InUnit r.reply r.threshold s.for_reply s.common;
  urgent = or_common-InUnit r.urgent r.threshold s.for_urgent s.common;
}

finish_conf-IsUsable :
    (read_file : Str → Option Str) (r : Reading)
    → Sound r
    → Returns IsUsable (finish_conf read_file r)
unfolding finish_conf
finish_conf-IsUsable read_file r s =
    let keyed =
      Returns-bind IsUsable (key_of read_file r) (with_key r)
        (λ key _. with_key-IsUsable r key s) in
    Usable-if (not (str_eq r.provider (lit "typesafe"))) bad_provider _
      (Usable-if (not (str_eq r.conf.key []) && not (str_eq r.key_file [])) two_keys _ keyed)

-- Whatever the lines are, `loadTriageConf` refuses them or returns a configuration with a budget of at
-- least one letter an hour, a key, and three thresholds, each of them in 0..1 or NaN.
pub load_triage_conf-IsUsable :
    (parse_float : Str → Option Float64) (read_file : Str → Option Str) (lines : List (List Str))
    → Returns IsUsable (load_triage_conf parse_float read_file lines)
unfolding load_triage_conf
load_triage_conf-IsUsable parse_float read_file lines =
    Returns-bind IsUsable (read_conf_lines parse_float lines initial) _ (λ r e.
      finish_conf-IsUsable read_file r
        (Returns-at Sound _ e (read_conf_lines-Sound parse_float lines initial initial-Sound)))
