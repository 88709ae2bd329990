-- ===== src/Rolling.antt =====
-- Rolling windows: `rateLimiter.wait` of link/gateway.go keeps
-- the times of the events of the last window, the oldest first. Times are nanoseconds.
use khala_network.Common.{
  ℕ, ◌+◌, ◌-◌, ◌≤◌, ◌<◌, ◌≡◌, refl, List, [], ◌∷◌, ◌++◌, length, filter, All, if◌then◌else◌, Bool,
  true, false, ◌&&◌, ltb, leb, arith, ◌⊎◌, inl, inr, Bool-cases,
}

-- `now.Sub(stamp) < window`.
abbrev pub fresh : ℕ → ℕ → ℕ → Bool
fresh window now stamp = ltb (now - stamp) window

-- One try: whether the event may happen now, and the stamps after it.
unfoldable pub attempt : ℕ → ℕ → ℕ → List ℕ → Bool × List ℕ
attempt limit window now stamps =
    let keep = filter (fresh window now) stamps in
    if ltb (length keep) limit then (true, keep ++ (now ∷ [])) else (false, keep)

-- `wait`: how long to sleep after a try that was refused.
unfoldable pub delay : ℕ → ℕ → List ℕ → ℕ
delay window now [] = 0
delay window now (stamp ∷ stamps) = stamp + window - now

-- A run of tries at the given times: the times at which events happened, after those before.
unfoldable pub run : ℕ → ℕ → List ℕ → List ℕ → List ℕ → List ℕ
run limit window stamps events [] = events
run limit window stamps events (now ∷ times) =
    let (granted, stamps') = attempt limit window now stamps in
    run limit window stamps' (if granted then events ++ (now ∷ []) else events) times

abbrev pub count : (ℕ → Bool) → List ℕ → ℕ
count p xs = length (filter p xs)

-- `b ≤ a < b + window`.
abbrev pub in_window : ℕ → ℕ → ℕ → Bool
in_window window b a = leb b a && ltb a (b + window)

count-append : (p : ℕ → Bool) (xs ys : List ℕ) → count p (xs ++ ys) ≡ count p xs + count p ys
count-append p [] ys = omega arith
count-append p (x ∷ xs) ys = ground (arith, count-append p xs ys)

count_le :
    (p q : ℕ → Bool) (xs : List ℕ) → All (λ x. p x ≡ true → q x ≡ true) xs → count p xs ≤ count q xs
count_le p q [] h = omega arith
count_le p q (x ∷ xs) h = ground (arith, count_le p q xs h.1, h.0)

count-filter :
    (p q : ℕ → Bool) (xs : List ℕ)
    → ((x : ℕ) → p x ≡ true → q x ≡ true)
    → count p (filter q xs) ≡ count p xs
count-filter p q [] h = refl
count-filter p q (x ∷ xs) h = ground (arith, count-filter p q xs h, h x)

-- Events that are fresh at `now` or later are all among the stamps.
abbrev pub Tracks : ℕ → ℕ → List ℕ → List ℕ → Type 0
Tracks window now stamps events =
    (later : ℕ)
    → now ≤ later
    → count (fresh window later) events ≡ count (fresh window later) stamps

-- Times that never go back.
unfoldable pub Forward : ℕ → List ℕ → Type 0
Forward now [] = Unit {0}
Forward now (time ∷ times) = (now ≤ time) × Forward time times

pub kept-Tracks :
    (window before now : ℕ) (stamps events : List ℕ)
    → before ≤ now
    → Tracks window before stamps events
    → Tracks window now (filter (fresh window now) stamps) events
kept-Tracks window before now stamps events h t later g = ground (
  arith,
  t later (omega arith),
  count-filter (fresh window later) (fresh window now) stamps (λ x e. ground (arith, e)),
)

pub granted-Tracks :
    (window now : ℕ) (keep events : List ℕ)
    → Tracks window now keep events
    → Tracks window now (keep ++ (now ∷ [])) (events ++ (now ∷ []))
granted-Tracks window now keep events t later g = ground (
  arith,
  t later g,
  count-append (fresh window later) keep (now ∷ []),
  count-append (fresh window later) events (now ∷ []),
)

-- The events of a window that `now` falls into are fresh at `now`.
window_fresh :
    (window b now : ℕ) (events : List ℕ)
    → in_window window b now ≡ true
    → count (in_window window b) events ≤ count (fresh window now) events
window_fresh window b now [] h = omega arith
window_fresh window b now (e ∷ events) h = ground (arith, window_fresh window b now events h, h)

abbrev pub Within : ℕ → ℕ → List ℕ → Type 0
Within limit window events = (b : ℕ) → count (in_window window b) events ≤ limit

pub granted-Within :
    (limit window now : ℕ) (events : List ℕ)
    → Within limit window events
    → count (fresh window now) events < limit
    → Within limit window (events ++ (now ∷ []))
granted-Within limit window now events w h b = split (Bool-cases (in_window window b now))
  where
    split :
        (in_window window b now ≡ true) ⊎ (in_window window b now ≡ false)
        → count (in_window window b) (events ++ (now ∷ [])) ≤ limit
    split (inl e) = ground (
      arith,
      h,
      window_fresh window b now events e,
      e,
      count-append (in_window window b) events (now ∷ []),
    )
    split (inr e) = ground (arith, w b, e, count-append (in_window window b) events (now ∷ []))

-- Room among the kept stamps is room for one more event that is fresh.
pub kept-count :
    (limit window now : ℕ) (stamps events : List ℕ)
    → Tracks window now (filter (fresh window now) stamps) events
    → ltb (length (filter (fresh window now) stamps)) limit ≡ true
    → count (fresh window now) events < limit
kept-count limit window now stamps events t e = ground (
  arith,
  e,
  t now (omega arith),
  count-filter (fresh window now) (fresh window now) stamps (λ x g. g),
)

run-Within :
    (limit window before : ℕ) (stamps events times : List ℕ)
    → Tracks window before stamps events
    → Within limit window events
    → Forward before times
    → Within limit window (run limit window stamps events times)
unfolding run attempt Forward
run-Within limit window before stamps events [] t w f = w
run-Within limit window before stamps events (now ∷ times) t w f =
    split (λ stamps' events' t' w'. run-Within limit window now stamps' events' times t' w' f.1)
      (Bool-cases (ltb (length keep) limit))
  where
    keep : List ℕ
    keep = filter (fresh window now) stamps

    tracked : Tracks window now keep events
    tracked = kept-Tracks window before now stamps events f.0 t

    split :
        ((stamps' events' : List ℕ)
          → Tracks window now stamps' events'
          → Within limit window events'
          → Within limit window (run limit window stamps' events' times))
        → (ltb (length keep) limit ≡ true) ⊎ (ltb (length keep) limit ≡ false)
        → Within limit window (run limit window stamps events (now ∷ times))
    split next (inl e) = rw e (
        next (keep ++ (now ∷ [])) (events ++ (now ∷ []))
          (granted-Tracks window now keep events tracked)
          (granted-Within limit window now events w
            (kept-count limit window now stamps events tracked e)))
    split next (inr e) = rw e (next keep events tracked w)

-- Whatever the times are at which it is asked, as long as they do not go back, the limiter lets no
-- more than `limit` events into any window of the given length, whenever the window begins.
pub run_bounded :
    (limit window before : ℕ) (times : List ℕ)
    → Forward before times
    → (b : ℕ) → count (in_window window b) (run limit window [] [] times) ≤ limit
run_bounded limit window before times f =
    run-Within limit window before [] [] times (λ later g. refl) (λ b. omega arith) f

count_true : (p : ℕ → Bool) (xs : List ℕ) → count p xs ≤ length xs
count_true p [] = omega arith
count_true p (x ∷ xs) = ground (arith, count_true p xs)

-- A full set of stamps whose first has just left the window has room.
expired_room :
    (limit window now : ℕ) (keep : List ℕ)
    → 0 < limit
    → length keep ≤ limit
    → All (λ stamp. fresh window now stamp ≡ true) keep
    → length (filter (fresh window (now + delay window now keep)) keep) < limit
unfolding delay
expired_room limit window now [] positive fits h = ground (arith, positive)
expired_room limit window now (stamp ∷ keep) positive fits h =
    ground (arith, fits, h.0, count_true (fresh window (now + (stamp + window - now))) keep)

filter-All : (p : ℕ → Bool) (xs : List ℕ) → All (λ x. p x ≡ true) (filter p xs)
filter-All p [] = tt
filter-All p (x ∷ xs) = split (filter-All p xs) (Bool-cases (p x))
  where
    split :
        All (λ y. p y ≡ true) (filter p xs)
        → (p x ≡ true) ⊎ (p x ≡ false)
        → All (λ y. p y ≡ true) (filter p (x ∷ xs))
    split rest (inl e) = rw e (e, rest)
    split rest (inr e) = rw e rest

-- What a try that was refused keeps.
attempt_refused :
    (limit window now : ℕ) (stamps keep : List ℕ)
    → attempt limit window now stamps ≡ (false, keep)
    → (limit ≤ length (filter (fresh window now) stamps))
      × (filter (fresh window now) stamps ≡ keep)
unfolding attempt
attempt_refused limit window now stamps keep e =
    split e (Bool-cases (ltb (length (filter (fresh window now) stamps)) limit))
  where
    split :
        attempt limit window now stamps ≡ (false, keep)
        → (ltb (length (filter (fresh window now) stamps)) limit ≡ true)
          ⊎ (ltb (length (filter (fresh window now) stamps)) limit ≡ false)
        → (limit ≤ length (filter (fresh window now) stamps))
          × (filter (fresh window now) stamps ≡ keep)
    split f (inl g) = ground (arith, f, g)
    split f (inr g) = ground (arith, f, g)

-- A caller that is refused and sleeps as long as `delay` says is let through by its next try, when no
-- other try comes between: one sleep is enough.
pub attempt-delay :
    (limit window now : ℕ) (stamps keep : List ℕ)
    → 0 < limit
    → length stamps ≤ limit
    → attempt limit window now stamps ≡ (false, keep)
    → (attempt limit window (now + delay window now keep) keep).0 ≡ true
unfolding attempt
attempt-delay limit window now stamps keep positive fits e = ground (
  arith,
  attempt_refused limit window now stamps keep e,
  count_true (fresh window now) stamps,
  filter-All (fresh window now) stamps,
  expired_room limit window now (filter (fresh window now) stamps) positive,
)
