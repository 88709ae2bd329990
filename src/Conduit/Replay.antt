-- ===== src/Conduit/Replay.antt =====
-- `restoreState` of link/conduit.go on the journals that a session's rounds have left.
use khala_network.Common.{
  ℕ, zero, suc, ◌+◌, ◌/◌, ◌≤◌, ◌<◌, ◌≡◌, refl, sym, subst, ap, ◌∙◌, Str, str_eq, List, [], ◌∷◌,
  ◌++◌, Option, none, some, if◌then◌else◌, Bool, true, false, not, ◌&&◌, ltb, arith, lt→ltb, All,
}
use khala_network.Conduit.Schedule.{second, notification_retry_after}
use khala_network.Conduit.Ring.{Target, NotifierState, Sidecar, Journal, World}
use khala_network.Conduit.Restore.{
  bare_state, is_current, from_sidecar, insert_journal, sort_journals, count_journal, date_journal,
  replay, latest_of, any_current, is_after, schedule_after, seen_by, restore_from, restore_with,
  restore_state,
}
use khala_network.Conduit.Pace.{Owes, Owes-then, same_due, written_at, chain, another, later}

abbrev pub Older : Journal → Journal → Type 0
Older j i = i.attempted_at < j.attempted_at

-- The journals, newest first, of attempts that were made when due, and of which so many frames, the last
-- at that time, came after the inbox was last read.
pub data Logged (last_drain : ℕ) : List Journal → ℕ → ℕ → Type 0 where
  unlogged : Logged last_drain [] 0 0
  delivered :
      (j : Journal) (js : List Journal) (count at : ℕ)
      → j.written ≡ true
      → last_drain < j.attempted_at / second
      → All (Older j) js
      → Logged last_drain js count at
      → Logged last_drain (j ∷ js) (suc count) j.attempted_at
  undelivered :
      (j : Journal) (js : List Journal) (count at : ℕ)
      → j.written ≡ false
      → (0 < count → at + notification_retry_after count ≤ j.attempted_at)
      → All (Older j) js
      → Logged last_drain js count at
      → Logged last_drain (j ∷ js) count at

insert-last :
    (j : Journal) (js : List Journal) → All (Older j) js → insert_journal j js ≡ js ++ (j ∷ [])
unfolding insert_journal
insert-last j [] h = refl
insert-last j (k ∷ ks) (h, hs) = rw (lt→ltb _ _ h) (ap (◌∷◌ k) (insert-last j ks hs))

All-if :
    (P : Journal → Type 0) (b : Bool) (xs ys : List Journal)
    → All P xs
    → All P ys
    → All P (if b then xs else ys)
All-if P true xs ys h k = h
All-if P false xs ys h k = k

insert_journal-All :
    (P : Journal → Type 0) (j : Journal) (js : List Journal)
    → P j
    → All P js
    → All P (insert_journal j js)
unfolding insert_journal
insert_journal-All P j [] p h = (p, tt)
insert_journal-All P j (k ∷ ks) p (h, hs) =
    All-if P (ltb k.attempted_at j.attempted_at) _ _ (h, insert_journal-All P j ks p hs)
      (p, (h, hs))

sort_journals-All : (P : Journal → Type 0) (js : List Journal) → All P js → All P (sort_journals js)
unfolding sort_journals
sort_journals-All P [] h = tt
sort_journals-All P (j ∷ js) (h, hs) =
    insert_journal-All P j (sort_journals js) h (sort_journals-All P js hs)

sort-newest :
    (j : Journal) (js : List Journal)
    → All (Older j) js
    → sort_journals (j ∷ js) ≡ sort_journals js ++ (j ∷ [])
unfolding sort_journals
sort-newest j js h = insert-last j (sort_journals js) (sort_journals-All (Older j) js h)

replay-append :
    (last_drain : ℕ) (current : Bool) (xs : List Journal) (j : Journal) (s : NotifierState)
    → replay last_drain current (xs ++ (j ∷ [])) s
      ≡ date_journal j (count_journal last_drain current j (replay last_drain current xs s))
unfolding replay
replay-append last_drain current [] j s = refl
replay-append last_drain current (x ∷ xs) j s = replay-append last_drain current xs j _

latest-append : (x : Journal) (xs : List Journal) (j : Journal) → latest_of x (xs ++ (j ∷ [])) ≡ j
unfolding latest_of
latest-append x [] j = refl
latest-append x (y ∷ ys) j = latest-append y ys j

-- What is left of a run in a state that was restored.
record Counted (marker : Str) (count at : ℕ) (s : NotifierState) : Type 0 where
  token : s.last_inbox_read_token ≡ marker
  outstanding : s.outstanding ≡ count
  none_out : count ≡ 0 → (s.outstanding_written ≡ none) × (at ≡ 0)
  some_out : 0 < count → s.outstanding_written ≡ some at

Counted-if :
    {marker : Str} {count at : ℕ} (b : Bool) (s t : NotifierState)
    → Counted marker count at s
    → Counted marker count at t
    → Counted marker count at (if b then s else t)
Counted-if true s t p q = p
Counted-if false s t p q = q

date_journal-Counted :
    {marker : Str} {count at : ℕ} (j : Journal) (s : NotifierState)
    → Counted marker count at s
    → Counted marker count at (date_journal j s)
date_journal-Counted j s c =
    Counted-if (str_eq j.generation s.pending_digest) _ _
      (record {
        token = c.token;
        outstanding = c.outstanding;
        none_out = c.none_out;
        some_out = c.some_out;
      })
      c

count_failed :
    {marker : Str} {count at : ℕ} (last_drain : ℕ) (current : Bool) (j : Journal)
    (s : NotifierState)
    → j.written ≡ false
    → Counted marker count at s
    → Counted marker count at (count_journal last_drain current j s)
count_failed last_drain current j s e c = rw e (record {
  token = c.token;
  outstanding = c.outstanding;
  none_out = c.none_out;
  some_out = c.some_out;
})

count_written :
    {marker : Str} {count at : ℕ} (last_drain : ℕ) (current : Bool) (j : Journal)
    (s : NotifierState)
    → j.written ≡ true
    → last_drain < j.attempted_at / second
    → Counted marker count at s
    → Counted marker (suc count) j.attempted_at (count_journal last_drain current j s)
count_written last_drain current j s e h c =
    rw (e, lt→ltb _ _ h)
      (record {
        token = c.token;
        outstanding = another c.outstanding;
        none_out = λ e. absurd (omega arith);
        some_out = λ h. refl;
      })

replay-Counted :
    (last_drain : ℕ) {marker : Str} {count at : ℕ} (current : Bool) (js : List Journal)
    (s : NotifierState)
    → Counted marker 0 0 s
    → Logged last_drain js count at
    → Counted marker count at (replay last_drain current (sort_journals js) s)
unfolding replay sort_journals
replay-Counted last_drain current _ s c unlogged = c
replay-Counted last_drain current _ s c (delivered j js count at e h older l) =
    rw (sort-newest j js older, replay-append last_drain current (sort_journals js) j s)
      (date_journal-Counted j _
        (count_written last_drain current j _ e h (replay-Counted last_drain current js s c l)))
replay-Counted last_drain current _ s c (undelivered j js count at e h older l) =
    rw (sort-newest j js older, replay-append last_drain current (sort_journals js) j s)
      (date_journal-Counted j _
        (count_failed last_drain current j _ e (replay-Counted last_drain current js s c l)))

abbrev Bare : Str → NotifierState → Type 0
Bare token s =
    (s.last_inbox_read_token ≡ token) × ((s.outstanding ≡ 0) × (s.outstanding_written ≡ none))

Bare-if :
    {token : Str} (b : Bool) (s t : NotifierState)
    → Bare token s
    → Bare token t
    → Bare token (if b then s else t)
Bare-if true s t p q = p
Bare-if false s t p q = q

from_sidecar-Bare :
    (sidecar : Option Sidecar) (digest token : Str)
    → Bare token (from_sidecar digest sidecar (bare_state digest token))
from_sidecar-Bare none digest token = (refl, (refl, refl))
from_sidecar-Bare (some c) digest token =
    Bare-if (str_eq c.generation digest) _ _ (refl, (refl, refl)) (refl, (refl, refl))

Bare-Counted : {token : Str} (s : NotifierState) → Bare token s → Counted token 0 0 s
Bare-Counted s (e, (o, w)) = record {
  token = e;
  outstanding = o;
  none_out = λ z. (w, refl);
  some_out = λ h. absurd (omega arith);
}

Bare-Owes :
    {token : Str} (process : Target) (s : NotifierState)
    → Bare token s
    → Owes process token 0 0 (record s { target = process })
Bare-Owes process s (e, (o, w)) = record {
  target = refl;
  token = e;
  outstanding = o;
  written = ap (λ o. elim o [ none ↦ 0 | some t ↦ t ]) w;
  due = λ h. absurd (omega arith);
}

Owes-split :
    {process : Target} {marker : Str} {count at : ℕ} (b : Bool) (s t : NotifierState)
    → (b ≡ true → Owes process marker count at s)
    → Owes process marker count at t
    → Owes process marker count at (if b then s else t)
Owes-split true s t p q = p refl
Owes-split false s t p q = q

written-at :
    {marker : Str} (count : ℕ) {at : ℕ} (s : NotifierState)
    → Counted marker count at s
    → written_at s ≡ at
written-at zero s c =
    ap (λ o. elim o [ none ↦ 0 | some t ↦ t ]) (c.none_out refl).0 ∙ sym (c.none_out refl).1
written-at (suc k) s c = ap (λ o. elim o [ none ↦ 0 | some t ↦ t ]) (c.some_out (omega arith))

positive : {n k : ℕ} → n ≡ suc k → ltb 0 n ≡ true
positive e = lt→ltb 0 _ (omega arith)

-- The next attempt by the last frame, if one is outstanding.
by_last :
    {marker : Str} (count : ℕ) {at : ℕ} (s : NotifierState)
    → Counted marker count at s
    → Owes s.target marker count at (elim s.outstanding_written [
      | some at' ↦
          if ltb 0 s.outstanding
          then record s { next_attempt = at' + notification_retry_after s.outstanding }
          else s
      | none ↦ s
    ])
by_last zero s c = rw (c.none_out refl).0 (record {
  target = refl;
  token = c.token;
  outstanding = c.outstanding;
  written = written-at zero s c;
  due = λ h. absurd (omega arith);
})
by_last (suc k) {at = at} s c = rw (c.some_out (omega arith)) (
    Owes-then {at = at} (ltb 0 s.outstanding)
      (record s { next_attempt = at + notification_retry_after s.outstanding }) s
      (positive c.outstanding)
      (record {
        target = refl;
        token = c.token;
        outstanding = c.outstanding;
        written = written-at (suc k) s c;
        due = λ h. same_due at c.outstanding;
      }))

schedule_after-Owes :
    {marker : Str} {count at : ℕ} (j : Journal) (s : NotifierState)
    → (j.written ≡ false → 0 < count → at + notification_retry_after count ≤ j.attempted_at)
    → Counted marker count at s
    → Owes s.target marker count at (schedule_after j s)
unfolding schedule_after
schedule_after-Owes j s h c =
    Owes-split (not j.written && is_after j.attempted_at s.last_written) _ _
      (λ e. record {
        target = refl;
        token = c.token;
        outstanding = c.outstanding;
        written = written-at _ s c;
        due = λ p. chain (h (ground arith) p) (later j.attempted_at _);
      })
      (by_last _ (record s { last_attempt = some j.attempted_at })
        (record {
          token = c.token;
          outstanding = c.outstanding;
          none_out = c.none_out;
          some_out = c.some_out;
        }))

-- The newest journal of a run was due if its frame was not written.
latest-due :
    {last_drain count at : ℕ} (j : Journal) (js : List Journal)
    → Logged last_drain (j ∷ js) count at
    → j.written ≡ false
    → 0 < count
    → at + notification_retry_after count ≤ j.attempted_at
latest-due _ _ (delivered j js count at e h older l) f p = absurd (ground arith)
latest-due _ _ (undelivered j js count at e due older l) f p = due p

seen_by-Counted :
    {marker : Str} {count at : ℕ} (now : ℕ) (s : NotifierState)
    → Counted marker count at s
    → Counted marker count at (seen_by now s)
seen_by-Counted {marker = marker} {count = count} {at = at} now s c = seen s.first_seen
  where
    seen :
        (o : Option ℕ)
        → Counted marker count at
            (elim o [ some t ↦ s | none ↦ record s { first_seen = some now } ])
    seen (some t) = c
    seen none = record {
      token = c.token;
      outstanding = c.outstanding;
      none_out = c.none_out;
      some_out = c.some_out;
    }

-- What `restore_from` comes to, when it is that journal that stands last.
abbrev Newest : ℕ → ℕ → Option Sidecar → NotifierState → Journal → List Journal → Type 0
Newest now last_drain sidecar s j ys =
    (b : Bool) × (restore_from now last_drain sidecar ys s ≡ (
      let read = replay last_drain (is_current s.pending_digest sidecar) ys s in
      schedule_after j (if b then read else seen_by now read)))

restore-Newest :
    (now last_drain : ℕ) (sidecar : Option Sidecar) (s : NotifierState) (xs : List Journal)
    (j : Journal)
    → Newest now last_drain sidecar s j (xs ++ (j ∷ []))
unfolding latest_of
restore-Newest now last_drain sidecar s [] j = (any_current s.pending_digest (j ∷ []), refl)
restore-Newest now last_drain sidecar s (x ∷ xs) j =
    let ys = x ∷ (xs ++ (j ∷ [])) in
    let read = replay last_drain (is_current s.pending_digest sidecar) ys s in
    let b = any_current s.pending_digest ys in
    (b, ap (λ l. schedule_after l (if b then read else seen_by now read)) (latest-append x xs j))

Owes-retarget :
    {p : Target} {marker : Str} {count at : ℕ} (process : Target) (s : NotifierState)
    → Owes p marker count at s
    → Owes process marker count at (record s { target = process })
Owes-retarget process s o = record {
  target = refl;
  token = o.token;
  outstanding = o.outstanding;
  written = o.written;
  due = o.due;
}

Logged-Older :
    {last_drain count at : ℕ} (j : Journal) (js : List Journal)
    → Logged last_drain (j ∷ js) count at
    → All (Older j) js
Logged-Older _ _ (delivered j js count at e h older l) = older
Logged-Older _ _ (undelivered j js count at e due older l) = older

restore_from-Owes :
    {marker : Str} {count at : ℕ} (now last_drain : ℕ) (sidecar : Option Sidecar) (j : Journal)
    (js : List Journal) (s : NotifierState)
    → Counted marker 0 0 s
    → Logged last_drain (j ∷ js) count at
    → (process : Target) × Owes process marker count at
        (restore_from now last_drain sidecar (sort_journals (j ∷ js)) s)
restore_from-Owes {marker = marker} {count = count} {at = at} now last_drain sidecar j js s c l =
    let ys = sort_journals (j ∷ js) in
    let (b, e) =
      subst (Newest now last_drain sidecar s j) (sym (sort-newest j js (Logged-Older j js l)))
        (restore-Newest now last_drain sidecar s (sort_journals js) j) in
    let read = replay last_drain (is_current s.pending_digest sidecar) ys s in
    let counted = replay-Counted last_drain (is_current s.pending_digest sidecar) (j ∷ js) s c l in
    let s' = if b then read else seen_by now read in
    (
      s'.target,
      subst (Owes s'.target marker count at) (sym e) (
          schedule_after-Owes j s' (latest-due j js l)
            (Counted-if b _ _ counted (seen_by-Counted now read counted))),
    )

seen_by-Bare :
    {token : Str} (now : ℕ) (s : NotifierState) → Bare token s → Bare token (seen_by now s)
seen_by-Bare {token = token} now s b = seen s.first_seen
  where
    seen :
        (o : Option ℕ)
        → Bare token (elim o [ some t ↦ s | none ↦ record s { first_seen = some now } ])
    seen (some t) = b
    seen none = b

-- The journals of a directory that may not be there.
abbrev pub listed : Option (List Journal) → List Journal
listed none = []
listed (some js) = js

restore_with-Owes :
    {count at : ℕ} (now : ℕ) (sidecar_fails : Bool) (token : Str) (last_drain : ℕ)
    (process : Target) (s : NotifierState) (w : World) (found : Option (List Journal))
    → Bare token s
    → Logged last_drain (listed found) count at
    → Owes process token count at
        (record ((restore_with now sidecar_fails last_drain s w found).1) { target = process })
restore_with-Owes now sidecar_fails token last_drain process s w none b unlogged =
    Bare-Owes process (seen_by now s) (seen_by-Bare now s b)
restore_with-Owes now sidecar_fails token last_drain process s w (some []) b unlogged =
    Bare-Owes process (record s { first_seen = some now }) b
restore_with-Owes now sidecar_fails token last_drain process s w (some (j ∷ js)) b l =
    Owes-retarget process _
      (restore_from-Owes now last_drain w.sidecar j js s (Bare-Counted s b) l).1

-- The state that is restored owes what the journals say.
pub restore_state-Owes :
    {count at : ℕ} (now : ℕ) (sidecar_fails : Bool) (token : Str) (last_drain : ℕ)
    (process : Target) (digest : Str) (w : World)
    → Logged last_drain (listed (w.journals process.instance_id)) count at
    → Owes process token count at
        (record ((restore_state now sidecar_fails token last_drain process.instance_id digest
          w).1) { target = process })
unfolding restore_state
restore_state-Owes now sidecar_fails token last_drain process digest w l =
    restore_with-Owes now sidecar_fails token last_drain process _ w
      (w.journals process.instance_id) (from_sidecar-Bare w.sidecar digest token) l
