-- ===== src/Telegram/Retries.antt =====
-- How often and how long `callRetry` of link/telegram.go tries.
use khala_network.Common.{
  ℕ, zero, suc, ◌+◌, ◌-◌, ◌*◌, ◌^◌, ◌≤◌, ◌<◌, ◌≡◌, ◌≢◌, refl, subst, List, [], ◌∷◌, ltb, Bool-cases,
  ==_iff, sym, ap, ◌∙◌, length, Option, none, some, if◌then◌else◌, Bool, true, false, ◌||◌, ◌==◌,
  arith, ◌⊎◌, inl, inr,
}
use khala_network.Telegram.{
  one_second, max_attempts, CallError, api_error, other_error, retry_after, is_permanent,
  next_backoff, Calls, Retried, ends, slept, retry_from, call_retry,
}

-- The k-th sleep that the service did not ask for: a second, doubled each time, and a minute at most.
abbrev pub backoff_at : ℕ → ℕ
backoff_at k =
    let doubled = 2 ^ k * 1000000000 in if ltb 60000000000 doubled then 60000000000 else doubled

-- The sleeps between the calls from the n-th on, after k sleeps that the service did not ask for. After
-- status 429 the sleep is as long as the service asks for, or a second where it does not say.
pub data Pauses (c : Calls) : ℕ → ℕ → List ℕ → Type 0 where
  no_more : (n k : ℕ) → Pauses c n k []
  asked :
      (n k delay : ℕ) (ds : List ℕ)
      → c.call n ≡ some (api_error 429 delay)
      → Pauses c (n + 1) k ds
      → Pauses c n k ((if delay == 0 then 1000000000 else delay) ∷ ds)
  backed_off :
      (n k : ℕ) (e : CallError) (ds : List ℕ)
      → c.call n ≡ some e
      → ((delay : ℕ) → e ≢ api_error 429 delay)
      → Pauses c (n + 1) (k + 1) ds
      → Pauses c n k (backoff_at k ∷ ds)

-- The backoff that the code has after k such sleeps.
abbrev backoff_after : ℕ → ℕ
backoff_after zero = 0
backoff_after (suc k) = backoff_at k

power_positive : (k : ℕ) → 0 < 2 ^ k
power_positive zero = omega arith
power_positive (suc k) = omega (arith, power_positive k)

next_backoff-after : (k : ℕ) → next_backoff (backoff_after k) ≡ backoff_at k
unfolding next_backoff
next_backoff-after zero = refl
next_backoff-after (suc k) = ground (arith, power_positive k)

-- From that call on: so many calls at most, the result is that of the last one, and each but perhaps
-- the last is followed by a sleep.
pub record Ended (c : Calls) (first most k : ℕ) (t : Retried) : Type 0 where
  pub started : first ≤ t.calls
  pub bounded : t.calls ≤ most
  pub result : t.error ≡ c.call (t.calls - 1)
  pub sleeps : length t.sleeps ≤ t.calls - first
  pub pauses : Pauses c first k t.sleeps

-- The same, with a call if one is left.
pub record Run (c : Calls) (first left k : ℕ) (t : Retried) : Type 0 where
  pub some_call : 0 < left → first < t.calls
  pub ended : Ended c first (first + left) k t

previous : (n : ℕ) → n + 1 - 1 ≡ n
previous n = omega arith

ends-Ended :
    (c : Calls) (n most k : ℕ) (o : Option CallError)
    → n ≤ most
    → o ≡ c.call (n - 1)
    → Ended c n most k (ends o n)
ends-Ended c n most k o h e = record {
  started = omega arith;
  bounded = h;
  result = e;
  sleeps = omega arith;
  pauses = no_more n k;
}

made_now :
    (c : Calls) (n left k : ℕ) (o : Option CallError)
    → c.call n ≡ o
    → Run c n (suc left) k (ends o (n + 1))
made_now c n left k o e = record {
  some_call = λ h. omega arith;
  ended = record {
    started = omega arith;
    bounded = omega arith;
    result = sym (ap c.call (previous n) ∙ e);
    sleeps = omega arith;
    pauses = no_more n k;
  };
}

made_slept :
    (c : Calls) (n left most delay k next : ℕ) (t : Retried)
    → most ≤ n + suc left
    → ((ds : List ℕ) → Pauses c (n + 1) next ds → Pauses c n k (delay ∷ ds))
    → Ended c (n + 1) most next t
    → Run c n (suc left) k (slept delay t)
made_slept c n left most delay k next t h w e = record {
  some_call = λ p. omega (arith, e.started);
  ended = record {
    started = omega (arith, e.started);
    bounded = omega (arith, e.bounded);
    result = e.result;
    sleeps = omega (arith, e.started, e.sleeps);
    pauses = w t.sleeps e.pauses;
  };
}

Run-if :
    {c : Calls} {n left k : ℕ} (b : Bool) (x y : Retried)
    → Run c n left k x
    → Run c n left k y
    → Run c n left k (if b then x else y)
Run-if true x y p q = p
Run-if false x y p q = q

-- The sleep after an error, and the backoff that it leaves.
abbrev Slept : Calls → ℕ → ℕ → ℕ → ℕ → Type 0
Slept c n k backoff' delay =
    (next : ℕ) × (backoff' ≡ backoff_after next)
    × ((ds : List ℕ) → Pauses c (n + 1) next ds → Pauses c n k (delay ∷ ds))

Slept-unasked :
    (c : Calls) (n k backoff : ℕ) (e : CallError)
    → c.call n ≡ some e
    → backoff ≡ backoff_after k
    → ((delay : ℕ) → e ≢ api_error 429 delay)
    → Slept c n k (next_backoff backoff) (next_backoff backoff)
Slept-unasked c n k backoff e f b other =
    let at = ap next_backoff b ∙ next_backoff-after k in
    (
      suc k,
      at,
      λ ds p.
          subst (λ d. Pauses c n k (d ∷ ds)) (sym at)
            (backed_off n k e ds f other (subst (λ m. Pauses c (n + 1) m ds) (omega arith) p)),
    )

Slept-asked :
    (c : Calls) (n k backoff delay : ℕ)
    → c.call n ≡ some (api_error 429 delay)
    → backoff ≡ backoff_after k
    → Slept c n k backoff (if delay == 0 then one_second else delay)
Slept-asked c n k backoff delay f b = (k, b, λ ds p. asked n k delay ds f p)

pause_after :
    (c : Calls) (n k backoff : ℕ) (e : CallError)
    → c.call n ≡ some e
    → backoff ≡ backoff_after k
    → let requested = retry_after e in
      let backoff' = if requested == 0 then next_backoff backoff else backoff in
      Slept c n k backoff' (if requested == 0 then backoff' else requested)
unfolding retry_after
pause_after c n k backoff other_error f b =
    Slept-unasked c n k backoff other_error f b (λ delay e. cc)
pause_after c n k backoff (api_error status delay) f b = elim (Bool-cases (status == 429)) [
  | inr other ↦
      rw other
        (Slept-unasked c n k backoff (api_error status delay) f b (λ d e. absurd (ground arith)))
  | inl e ↦
      let same = (==_iff status 429).0 e in
      let found = f ∙ ap (λ s. some (api_error s delay)) same in
      rw e (by_delay (Bool-cases (delay == 0)) found)
]
  where
    by_delay :
        (delay == 0 ≡ true) ⊎ (delay == 0 ≡ false)
        → c.call n ≡ some (api_error 429 delay)
        → let requested = if delay == 0 then one_second else delay in
          let backoff' = if requested == 0 then next_backoff backoff else backoff in
          Slept c n k backoff' (if requested == 0 then backoff' else requested)
    by_delay s found =
        let some_time : ((if delay == 0 then one_second else delay) == 0) ≡ false = ground arith in
        rw some_time (Slept-asked c n k backoff delay found b)

retry_from-Run :
    (c : Calls) (left n k backoff : ℕ) (last : Option CallError)
    → backoff ≡ backoff_after k
    → (left ≡ 0 → last ≡ c.call (n - 1))
    → Run c n left k (retry_from c left n backoff last)
unfolding retry_from
retry_from-Run c zero n k backoff last b h = record {
  some_call = λ p. absurd (omega arith);
  ended = ends-Ended c n (n + 0) k last (omega arith) (h refl);
}
retry_from-Run c (suc left) n k backoff last b h =
    by_call (c.call n) refl (λ m k d e b' h'. retry_from-Run c left m k d (some e) b' h')
  where
    Rest : Type 0
    Rest =
        (m k d : ℕ) (e : CallError)
        → d ≡ backoff_after k
        → (left ≡ 0 → some e ≡ c.call (m - 1))
        → Run c m left k (retry_from c left m d (some e))

    by_call :
        (o : Option CallError)
        → c.call n ≡ o
        → Rest
        → Run c n (suc left) k (elim o [
          | none ↦ ends none (n + 1)
          | some e ↦
              let requested = retry_after e in
              let backoff' = if requested == 0 then next_backoff backoff else backoff in
              let delay = if requested == 0 then backoff' else requested in
              let rest = retry_from c left (n + 1) backoff' (some e) in
              if is_permanent e || c.is_cancelled n
              then ends (some e) (n + 1)
              else if c.sleep_fails n
              then slept delay (ends (some e) (n + 1))
              else slept delay rest
        ])
    by_call none f r = made_now c n left k none f
    by_call (some e) f r =
        let (next, b', w) = pause_after c n k backoff e f b in
        let made = sym (ap c.call (previous n) ∙ f) in
        Run-if (is_permanent e || c.is_cancelled n) _ _ (made_now c n left k (some e) f) (
          Run-if (c.sleep_fails n) _ _
            (made_slept c n left (n + suc left) _ k next _ (omega arith) w
              (ends-Ended c (n + 1) (n + suc left) next (some e) (omega arith) made))
            (made_slept c n left (n + 1 + left) _ k next _ (omega arith) w
              ((r (n + 1) next _ e b' (λ z. made)).ended)))

-- `callRetry` makes from one to ten calls and returns what the last one did. There are no more sleeps than
-- calls. The n-th follows the n-th call: after status 429 it is as long as the service asked for, or a
-- second if it did not say; after any other error it is a second, doubled at each such error, up to a
-- minute.
pub call_retry-Run : (c : Calls) → Run c 0 10 0 (call_retry c)
unfolding call_retry
call_retry-Run c = retry_from-Run c max_attempts 0 0 0 none refl (λ e. absurd (ground arith))
