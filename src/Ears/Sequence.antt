-- ===== src/Ears/Sequence.antt =====
-- `nextSnapshotSequence` of link/ears.go with the two files that it reads, the node's own snapshot and
-- the state file that it writes before `writeListenerSnapshot` writes the snapshot; `listenerWriteDelay`.
use khala_network.Common.{
  ℕ, ◌+◌, ◌-◌, ◌^◌, ◌≤◌, ◌<◌, ◌≡◌, refl, List, [], ◌∷◌, Option, none, some, if◌then◌else◌, Bool,
  true, false, leb, ◌==◌, arith, ◌⊎◌, inl, inr,
}
use khala_network.Conduit.Schedule.{second}

-- math.MaxInt64.
abbrev pub max_int64 : ℕ
max_int64 = 2 ^ 63 - 1

-- A number above `current`, at least `next`, unless there is none.
unfoldable pub above : ℕ → ℕ → Option ℕ
above current next =
    if leb next current
    then (if current == max_int64 then none else some (current + 1))
    else some next

unfoldable pub next_sequence : ℕ → ℕ → ℕ → Option ℕ
unfolding above
next_sequence now own state = elim (above own now) [ none ↦ none | some n ↦ above state n ]

-- The generations in the two files.
pub record Files : Type 0 where
  pub own : ℕ
  pub state : ℕ

-- One write of the snapshot, at a time in seconds, and what fails; a file that is not read counts as 0.
pub record Write : Type 0 where
  pub now : ℕ
  pub own_unread : Bool
  pub state_unread : Bool
  pub state_fails : Bool
  pub snapshot_fails : Bool

-- The files after a write, and the generation of the snapshot that was written, if one was.
pub record Written : Type 0 where
  pub files : Files
  pub generation : Option ℕ

abbrev pub written : Files → Option ℕ → Written
written f g = record { files = f; generation = g }

abbrev pub write_next : Write → Files → Option ℕ → Written
write_next w f none = written f none
write_next w f (some n) =
    if w.state_fails
    then written f none
    else if w.snapshot_fails
    then written (record f { state = n }) none
    else written (record { own = n; state = n }) (some n)

unfoldable pub write_snapshot : Write → Files → Written
unfolding next_sequence
write_snapshot w f = write_next w f (
    next_sequence w.now (if w.own_unread then 0 else f.own) (if w.state_unread then 0 else f.state))

abbrev pub onto : Option ℕ → List ℕ → List ℕ
onto none ns = ns
onto (some n) ns = n ∷ ns

unfoldable pub generations : List Write → Files → List ℕ
unfolding write_snapshot
generations [] f = []
generations (w ∷ ws) f = let r = write_snapshot w f in onto r.generation (generations ws r.files)

abbrev pub Increasing : ℕ → List ℕ → Type 0
Increasing last [] = Unit
Increasing last (n ∷ ns) = (last < n) × Increasing n ns

-- One of the two files is read by each write.
abbrev pub Readable : List Write → Type 0
Readable [] = Unit
Readable (w ∷ ws) = ((w.own_unread ≡ false) ⊎ (w.state_unread ≡ false)) × Readable ws

above-lt : (current next : ℕ) {n : ℕ} → above current next ≡ some n → (current < n) × (next ≤ n)
unfolding above
above-lt current next e = ground arith

next_sequence-lt :
    (now own state : ℕ) {n : ℕ}
    → next_sequence now own state ≡ some n
    → (own < n) × ((state < n) × (now ≤ n))
unfolding next_sequence
next_sequence-lt now own state {n = n} e = by (above own now) refl e
  where
    by :
        (o : Option ℕ)
        → above own now ≡ o
        → elim o [ none ↦ none | some m ↦ above state m ] ≡ some n
        → (own < n) × ((state < n) × (now ≤ n))
    by none f g = absurd (ground arith)
    by (some m) f g = ground (arith, above-lt own now f, above-lt state m g)

-- Both files hold the last generation that was written or a later one.
record Holds (last : ℕ) (f : Files) : Type 0 where
  own_later : last ≤ f.own
  state_later : last ≤ f.state

abbrev Ascends : ℕ → Written → Type 0
Ascends last r = elim r.generation [
  | none ↦ Holds last r.files
  | some n ↦ (last < n) × Holds n r.files
]

Ascends-if :
    (last : ℕ) (b : Bool) (x y : Written)
    → Ascends last x
    → Ascends last y
    → Ascends last (if b then x else y)
Ascends-if last true x y p q = p
Ascends-if last false x y p q = q

write_next-Ascends :
    (last : ℕ) (w : Write) (f : Files) (o : Option ℕ)
    → Holds last f
    → ((n : ℕ) → o ≡ some n → last < n)
    → Ascends last (write_next w f o)
write_next-Ascends last w f none h k = h
write_next-Ascends last w f (some n) h k =
    let lt = k n refl in
    Ascends-if last w.state_fails (written f none) _ h (
      Ascends-if last w.snapshot_fails (written (record f { state = n }) none)
        (written (record { own = n; state = n }) (some n))
        (record { own_later = h.own_later; state_later = omega arith })
        (lt, record { own_later = omega arith; state_later = omega arith }))

read-lt :
    (last : ℕ) (w : Write) (f : Files)
    → Holds last f
    → (w.own_unread ≡ false) ⊎ (w.state_unread ≡ false)
    → (n : ℕ)
    → next_sequence w.now
        (if w.own_unread then 0 else f.own)
        (if w.state_unread then 0 else f.state)
      ≡ some n
    → last < n
read-lt last w f h (inl e) n g = ground (arith, e, h.own_later, next_sequence-lt w.now _ _ g)
read-lt last w f h (inr e) n g = ground (arith, e, h.state_later, next_sequence-lt w.now _ _ g)

write_snapshot-Ascends :
    (last : ℕ) (w : Write) (f : Files)
    → Holds last f
    → (w.own_unread ≡ false) ⊎ (w.state_unread ≡ false)
    → Ascends last (write_snapshot w f)
unfolding write_snapshot
write_snapshot-Ascends last w f h r = write_next-Ascends last w f _ h (read-lt last w f h r)

generations-Holds :
    (last : ℕ) (ws : List Write) (f : Files)
    → Holds last f
    → Readable ws
    → Increasing last (generations ws f)
unfolding generations
generations-Holds last [] f h r = tt
generations-Holds last (w ∷ ws) f h (r, rs) =
    by (write_snapshot w f).generation refl (λ last' f' h'. generations-Holds last' ws f' h' rs)
      (write_snapshot-Ascends last w f h r)
  where
    files : Files
    files = (write_snapshot w f).files

    by :
        (o : Option ℕ)
        → (write_snapshot w f).generation ≡ o
        → ((last' : ℕ) (f' : Files) → Holds last' f' → Increasing last' (generations ws f'))
        → Ascends last (written files o)
        → Increasing last (onto o (generations ws files))
    by none e rest a = rest last files a
    by (some n) e rest (lt, a) = (lt, rest n files a)

-- Whatever the clock says, and whichever writes fail, the generations of the snapshots that a node writes
-- increase strictly, from that in both files on, as long as each write can read one of the two files.
pub generations-Increasing :
    (ws : List Write) (start : ℕ)
    → Readable ws
    → Increasing start (generations ws (record { own = start; state = start }))
generations-Increasing ws start r =
    generations-Holds start ws _ (record { own_later = omega arith; state_later = omega arith }) r

-- `listenerWriteDelay`: the last write, if any, and the time now.
unfoldable pub write_delay : Option ℕ → ℕ → ℕ
write_delay none now = 0
write_delay (some last) now = second - (now - last)
