-- ===== src/Triage/Tries.antt =====
-- The tries of one letter in link/triage.go.
use khala_network.Common.{
  ℕ, ◌+◌, ◌-◌, ◌*◌, ◌^◌, ◌≤◌, ◌<◌, ◌≡◌, refl, Option, none, some, Result, Bool, true, false, arith,
  ◌⊎◌, inl, inr, Bool-cases,
}
use khala_network.Conduit.Schedule.{second}
use khala_network.Triage.Letters.{
  Nouls, Response, AskError, ask, is_rate_limited, triage_tries, Asked, ask_from, ask_until,
}

abbrev pub is_limited : (ℕ → Response) → ℕ → Bool
is_limited responses try = is_rate_limited (ask (responses try))

-- How the tries end: with the first response that is not a rate limit, or for want of tries.
abbrev pub EndsWith : (ℕ → Response) → ℕ → Option (Result AskError Nouls) → Type 0
EndsWith responses requests none =
    (requests ≡ triage_tries) × (is_limited responses requests ≡ true)
EndsWith responses requests (some r) =
    (r ≡ ask (responses requests)) × (is_limited responses requests ≡ false)

pub record Tried (responses : ℕ → Response) (a : Asked) : Type 0 where
  pub requested : 0 < a.requests
  pub bounded : a.requests ≤ triage_tries
  pub paced : a.slept + second ≡ 2 ^ (a.requests - 1) * second
  pub limited : (try : ℕ) → 0 < try → try < a.requests → is_limited responses try ≡ true
  pub ends : EndsWith responses a.requests a.verdict

only_one : (n : ℕ) → 0 < n → n < 2 → n ≡ 1
only_one n h k = omega arith

one_or_two : (n : ℕ) → 0 < n → n < 3 → (n ≡ 1) ⊎ (n ≡ 2)
one_or_two n h k = ground arith

-- A letter is asked about at least once and at most `triageTries` times, every response but the last was
-- a rate limit, and the worker sleeps one second after the first, two after the second: n requests take
-- 2 ^ (n - 1) - 1 seconds of sleep. The last response is the result, unless all were rate limits.
pub ask_until-Tried : (responses : ℕ → Response) → Tried responses (ask_until responses)
unfolding ask_until ask_from
ask_until-Tried responses =
    first (Bool-cases (is_limited responses 1)) (Bool-cases (is_limited responses 2))
      (Bool-cases (is_limited responses 3))
  where
    first :
        (is_limited responses 1 ≡ true) ⊎ (is_limited responses 1 ≡ false)
        → (is_limited responses 2 ≡ true) ⊎ (is_limited responses 2 ≡ false)
        → (is_limited responses 3 ≡ true) ⊎ (is_limited responses 3 ≡ false)
        → Tried responses (ask_until responses)
    first (inr e) _ _ = rw e (record {
      requested = omega arith;
      bounded = omega arith;
      paced = refl;
      limited = λ try h k. absurd (omega (arith, h, k));
      ends = (refl, e);
    })
    first (inl d) (inr e) _ =
        rw (d, e)
          (record {
            requested = omega arith;
            bounded = omega arith;
            paced = refl;
            limited = λ try h k. rw (only_one try h k) d;
            ends = (refl, e);
          })
    first (inl c) (inl d) (inr e) =
        rw (c, d, e)
          (record {
            requested = omega arith;
            bounded = omega arith;
            paced = refl;
            limited = λ try h k. elim (one_or_two try h k) [ inl p ↦ rw p c | inr p ↦ rw p d ];
            ends = (refl, e);
          })
    first (inl c) (inl d) (inl e) =
        rw (c, d, e)
          (record {
            requested = omega arith;
            bounded = omega arith;
            paced = refl;
            limited = λ try h k. elim (one_or_two try h k) [ inl p ↦ rw p c | inr p ↦ rw p d ];
            ends = (refl, e);
          })
