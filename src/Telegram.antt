-- ===== src/Telegram.antt =====
-- The retries of link/telegram.go: `retryAfter`, `isPermanent`, `nextBackoff` and `callRetry`. Times are
-- nanoseconds.
use khala_network.Common.{
  ℕ, zero, suc, ◌+◌, ◌*◌, ◌≡◌, List, [], ◌∷◌, Option, none, some, if◌then◌else◌, Bool, true, false,
  not, ◌&&◌, ◌||◌, ltb, leb, ◌==◌,
}
pub mod Retries

abbrev pub one_second : ℕ
one_second = 1000000000

abbrev pub max_backoff : ℕ
max_backoff = 60000000000

abbrev pub max_attempts : ℕ
max_attempts = 10

-- An error of a call: of the Bot API, with status 0 when there was no answer, or another one.
pub data CallError : Type 0 where
  api_error : ℕ → ℕ → CallError
  other_error : CallError

unfoldable pub retry_after : CallError → ℕ
retry_after other_error = 0
retry_after (api_error status delay) =
    if status == 429 then (if delay == 0 then one_second else delay) else 0

unfoldable pub is_permanent : CallError → Bool
is_permanent other_error = false
is_permanent (api_error status delay) = leb 400 status && (ltb status 500 && not (status == 429))

unfoldable pub next_backoff : ℕ → ℕ
next_backoff previous =
    if previous == 0
    then one_second
    else if ltb max_backoff (previous * 2)
    then max_backoff
    else previous * 2

-- What the calls meet, by the number of the attempt from 0.
pub record Calls : Type 0 where
  pub call : ℕ → Option CallError
  pub is_cancelled : ℕ → Bool
  pub sleep_fails : ℕ → Bool

-- What `callRetry` returns, the number of its calls, and its sleeps.
pub record Retried : Type 0 where
  pub error : Option CallError
  pub calls : ℕ
  pub sleeps : List ℕ

abbrev pub ends : Option CallError → ℕ → Retried
ends error calls = record { error = error; calls = calls; sleeps = [] }

abbrev pub slept : ℕ → Retried → Retried
slept delay t = record t { sleeps = delay ∷ t.sleeps }

-- The attempts that are left, the number of the next one, the backoff and the last error.
unfoldable pub retry_from : Calls → ℕ → ℕ → ℕ → Option CallError → Retried
retry_from c zero n backoff last = ends last n
retry_from c (suc left) n backoff last = elim (c.call n) [
  | none ↦ ends none (n + 1)
  | some e ↦
      let requested = retry_after e in
      let backoff' = if requested == 0 then next_backoff backoff else backoff in
      let delay = if requested == 0 then backoff' else requested in
      let rest = retry_from c left (n + 1) backoff' (some e) in
      if is_permanent e || c.is_cancelled n
      then ends (some e) (n + 1)
      else if c.sleep_fails n
      then slept delay (ends (some e) (n + 1))
      else slept delay rest
]

unfoldable pub call_retry : Calls → Retried
unfolding retry_from
call_retry c = retry_from c max_attempts 0 0 none
