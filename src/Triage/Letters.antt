-- ===== src/Triage/Letters.antt =====
-- The letters and the answers that link/triage.go handles: `readTriageMessage` from the file's text,
-- `triageTag`, and `ask` with the loop of `judge` around it. JSON, sha256 and UTF-8's `RuneStart` are the
-- standard library's; the letter's JSON text is a parameter.
use khala_network.Common.{
  ℕ, zero, suc, ◌+◌, ◌-◌, ◌*◌, ◌^◌, Str, lit, List, [], ◌∷◌, ◌++◌, Option, none, some, Result, ok,
  err, ◌>>=◌, if◌then◌else◌, Bool, true, false, not, ◌||◌, ◌==◌,
}
use khala_network.Conduit.Schedule.{second}
use khala_network.Text.Numbers.{decimal}
use khala_network.Text.Floats.{Float64, in_unit, at_least, less}
use khala_network.Triage.Conf.{TriageConf}

-- The three probabilities of an answer.
pub record Nouls : Type 0 where
  pub needs_action : Float64
  pub awaits_reply : Float64
  pub time_sensitive : Float64

-- A judgment, or a failure where `error` is not empty. The model's name, the tokens and the latency are
-- not modelled: nothing reads them.
pub record TriageEntry : Type 0 where
  pub id : Str
  pub asked_at : ℕ
  pub nouls : Nouls
  pub digest : Str
  pub error : Str

abbrev pub tag_if : Bool → Str → List Str → List Str
tag_if true tag tags = tag ∷ tags
tag_if false tag tags = tags

-- `strings.Join` with a comma.
unfoldable pub joined : List Str → Str
joined [] = []
joined (t ∷ []) = t
joined (t ∷ u ∷ ts) = t ++ (44 ∷ joined (u ∷ ts))

unfoldable pub tags_or_fyi : List Str → Str
unfolding joined
tags_or_fyi [] = lit "fyi"
tags_or_fyi (t ∷ ts) = joined (t ∷ ts)

-- The tags of three decisions, and `triageTag`.
unfoldable pub tag_of : Bool → Bool → Bool → Str
unfolding tags_or_fyi
tag_of action reply urgent =
    tags_or_fyi
      (tag_if action (lit "action") (tag_if reply (lit "reply") (tag_if urgent (lit "urgent") [])))

unfoldable pub triage_tag : TriageEntry → TriageConf → Str
unfolding at_least tag_of
triage_tag e c =
    tag_of (at_least e.nouls.needs_action c.threshold_action)
      (at_least e.nouls.awaits_reply c.threshold_reply)
      (at_least e.nouls.time_sensitive c.threshold_urgent)

-- What `ask` meets: a request that cannot be built, no response, no body, or a status with what
-- encoding/json makes of the body, an answer or an error.
pub data Response : Type 0 where
  unbuilt unsent unread : Str → Response
  replied : ℕ → Result Str (Str → Option Float64) → Response

pub data AskError : Type 0 where
  build_failed request_failed read_failed decode_failed lacks : Str → AskError
  http_status : ℕ → AskError

-- One probability of the answers: missing, or out of 0..1.
unfoldable pub noul_of : (Str → Option Float64) → Str → Result AskError Float64
unfolding less
noul_of answers id = elim (answers id) [
  | none ↦ err (lacks id)
  | some v ↦ if in_unit v then ok v else err (lacks id)
]

unfoldable pub ask : Response → Result AskError Nouls
ask (unbuilt why) = err (build_failed why)
ask (unsent why) = err (request_failed why)
ask (unread why) = err (read_failed why)
ask (replied status decoded) =
    if not (status == 200) then err (http_status status) else elim decoded [
      | err why ↦ err (decode_failed why)
      | ok answers ↦ noul_of answers (lit "needs_action") >>= λ action.
          noul_of answers (lit "awaits_reply") >>= λ reply.
          noul_of answers (lit "time_sensitive") >>= λ urgent.
          ok (record { needs_action = action; awaits_reply = reply; time_sensitive = urgent })
    ]

-- `err.Error()`.
abbrev pub error_text : AskError → Str
error_text (build_failed why) = lit "build request: " ++ why
error_text (request_failed why) = lit "request: " ++ why
error_text (read_failed why) = lit "read response: " ++ why
error_text (decode_failed why) = lit "decode response: " ++ why
error_text (http_status status) = lit "HTTP " ++ decimal status
error_text (lacks id) = lit "response lacks a noul in 0..1 for " ++ id

abbrev pub is_rate_limited : Result AskError Nouls → Bool
is_rate_limited (err (http_status status)) = (status == 429) || (status == 529)
is_rate_limited _ = false

abbrev pub triage_tries : ℕ
triage_tries = 3

-- How the tries ended (`none`: rate limited on each), how many requests were sent, and how long the
-- worker slept between them.
pub record Asked : Type 0 where
  pub verdict : Option (Result AskError Nouls)
  pub requests : ℕ
  pub slept : ℕ

abbrev again : ℕ → Asked → Asked
again pause a = record { verdict = a.verdict; requests = a.requests + 1; slept = pause + a.slept }

-- The loop of `judge` from a try on, where `left` further ones may follow it.
unfoldable pub ask_from : ℕ → ℕ → (ℕ → Response) → Asked
unfolding ask
ask_from zero try responses =
    let result = ask (responses try) in
    if is_rate_limited result
    then record { verdict = none; requests = 1; slept = 0 }
    else record { verdict = some result; requests = 1; slept = 0 }
ask_from (suc left) try responses =
    let result = ask (responses try) in
    let rest = ask_from left (try + 1) responses in
    if is_rate_limited result
    then again (2 ^ (try - 1) * second) rest
    else record { verdict = some result; requests = 1; slept = 0 }

unfoldable pub ask_until : (ℕ → Response) → Asked
ask_until responses = ask_from (triage_tries - 1) 1 responses
