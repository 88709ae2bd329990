-- ===== src/Conduit/Restart.antt =====
-- The pace of the frames while the notifier of link/conduit.go is stopped and started again: its states
-- are lost, and restored from the journals.
use khala_network.Common.{
  ℕ, suc, ◌+◌, ◌/◌, ◌≤◌, ◌<◌, ◌≡◌, ◌≢◌, refl, sym, subst, ap, ◌∙◌, Str, str_eq, str_eq_refl, List,
  [], ◌∷◌, ◌++◌, Option, none, some, if◌then◌else◌, Bool, true, false, not, arith, All, All-map,
  ◌⊎◌, inl, inr,
}
use mathlib.Core.Option.{some-injective}
use khala_network.Conduit.Schedule.{second}
use khala_network.Conduit.Inbox.{PendingMessage, notifiable_messages, queue_digest}
use khala_network.Conduit.Ring.{
  Target, NotifierState, Journal, World, Round, is_verified, is_delivered,
}
use khala_network.Conduit.Restore.{restore_state, restore_with, write_sidecar}
use khala_network.Conduit.Notify.{
  read_marker, update_digest, is_due, journal_of, add_journal, Rung, rung, with_state, conclude,
  attempt, begin_from, begin_round, round_with, maybe_notify,
}
use khala_network.Conduit.Pace.{
  frame_of, Spaced, Owes, Unread, Outcome, quiet, missed, rang, retarget-Owes, round_with-Outcome,
}
use khala_network.Conduit.Replay.{Older, Logged, delivered, undelivered, listed, restore_state-Owes}

-- A scan of the session's inbox, or a restart of the notifier.
pub data Event : Type 0 where
  scan : Round → Event
  restart : Event

abbrev pub frames_of : (Str → Str) → List Event → World → List ℕ
frames_of sha256 [] w = []
frames_of sha256 (restart ∷ es) w = frames_of sha256 es (with_state none w)
frames_of sha256 (scan r ∷ es) w =
    let g = maybe_notify sha256 r w in frame_of g ++ frames_of sha256 es g.world

-- The inbox stays unread and was last read before the rounds, whose clock runs on, and journals are
-- written.
abbrev pub Steady : Target → Str → ℕ → ℕ → List Event → Type 0
Steady process marker drain last [] = Unit
Steady process marker drain last (restart ∷ es) = Steady process marker drain last es
Steady process marker drain last (scan r ∷ es) =
    Unread process marker r
    × ((r.last_drain ≡ drain)
        × ((drain < r.now / second)
            × ((r.journal_fails ≡ false)
                × ((last < r.now) × Steady process marker drain r.now es))))

-- The journals say what is owed, and so does the state, if it is there.
pub record Held (process : Target) (marker : Str) (drain count at last : ℕ) (w : World)
    : Type 0 where
  pub logged : Logged drain (listed (w.journals process.instance_id)) count at
  pub before : All (λ j. j.attempted_at ≤ last) (listed (w.journals process.instance_id))
  pub owes :
      (w.state ≡ none)
      ⊎ ((s : NotifierState) × ((w.state ≡ some s) × Owes process marker count at s))

-- The journal of a round's attempt joins the others.
record Joins (r : Round) (journals : Str → Option (List Journal)) (g : Rung) : Type 0 where
  joined : g.world.journals ≡ elim g.attempt [
    | none ↦ journals
    | some j ↦ add_journal r.reg.target.instance_id j journals
  ]

joins :
    {r : Round} {journals : Str → Option (List Journal)} {g : Rung}
    → g.world.journals ≡ elim g.attempt [
      | none ↦ journals
      | some j ↦ add_journal r.reg.target.instance_id j journals
    ]
    → Joins r journals g
joins e = record { joined = e }

Joins-if :
    (r : Round) (journals : Str → Option (List Journal)) (b : Bool) (x y : Rung)
    → Joins r journals x
    → Joins r journals y
    → Joins r journals (if b then x else y)
Joins-if r journals true x y p q = p
Joins-if r journals false x y p q = q

untouched :
    (r : Round) (o : Option NotifierState) (w : World)
    → Joins r w.journals (rung (with_state o w) none)
untouched r o w = joins refl

conclude-Joins :
    (r : Round) (digest : Str) (written : Bool) (s : NotifierState) (w : World)
    → r.journal_fails ≡ false
    → Joins r w.journals (conclude r digest written s w)
unfolding conclude
conclude-Joins r digest written s w e = joins (
    ap
      (λ b.
        if b
        then w.journals
        else add_journal r.reg.target.instance_id (journal_of r digest written s) w.journals)
      e)

attempt-Joins :
    (sha256 : Str → Str) (r : Round) (digest : Str) (s : NotifierState) (w : World)
    → r.journal_fails ≡ false
    → Joins r w.journals (attempt sha256 r digest s w)
unfolding attempt
attempt-Joins sha256 r digest s w e =
    Joins-if r w.journals r.attempt_id_fails _ _ (untouched r (some s) w) (
      Joins-if r w.journals (not (is_verified r.reg r.lease)) _ _
        (conclude-Joins r digest false s w e)
        (Joins-if r w.journals (str_eq (queue_digest sha256 r.fresh_messages) digest) _ _
          (conclude-Joins r digest (is_delivered r) s w e) (untouched r _ w)))

journals-if :
    (b : Bool) (v w : World) → v.journals ≡ w.journals → (if b then w else v).journals ≡ w.journals
journals-if true v w e = refl
journals-if false v w e = e

round_with-Joins :
    (sha256 : Str → Str) (r : Round) (digest : Str) (w : World) (s : NotifierState)
    → r.journal_fails ≡ false
    → Joins r w.journals (round_with sha256 r digest (w, s))
unfolding round_with
round_with-Joins sha256 r digest w s e =
    let read = read_marker r s in
    let s' = update_digest r digest read in
    let b = str_eq read.pending_digest digest in
    let v = record w { sidecar = write_sidecar r.sidecar_fails s' w.sidecar } in
    let w' = if b then w else v in
    let tried = attempt sha256 r digest (record s' { attempt_index = s'.attempt_index + 1 }) w' in
    let waits = rung (with_state (some s') w') none in
    let same = journals-if b v w refl in
    Joins-if r w.journals (is_due r s') tried waits
      (subst (λ js. Joins r js tried) same (attempt-Joins sha256 r digest _ w' e))
      (subst (λ js. Joins r js waits) same (untouched r (some s') w'))

restore_state-journals :
    (now : ℕ) (sidecar_fails : Bool) (token : Str) (last_drain : ℕ) (instance_id digest : Str)
    (w : World)
    → ((restore_state now sidecar_fails token last_drain instance_id digest w).0).journals
      ≡ w.journals
unfolding restore_state
restore_state-journals now sidecar_fails token last_drain instance_id digest w =
    kept _ (w.journals instance_id)
  where
    kept :
        (s : NotifierState) (o : Option (List Journal))
        → ((restore_with now sidecar_fails last_drain s w o).0).journals ≡ w.journals
    kept s none = refl
    kept s (some []) = refl
    kept s (some (j ∷ js)) = refl

begin_from-journals :
    (r : Round) (digest : Str) (w : World) (o : Option NotifierState)
    → ((begin_from r digest w o).0).journals ≡ w.journals
begin_from-journals r digest w (some s) = refl
begin_from-journals r digest w none = restore_state-journals _ _ _ _ _ _ w

maybe_notify-Joins :
    (sha256 : Str → Str) (r : Round) (w : World)
    → r.journal_fails ≡ false
    → Joins r w.journals (maybe_notify sha256 r w)
unfolding maybe_notify begin_round
maybe_notify-Joins sha256 r w e = rings (notifiable_messages r.messages)
  where
    digest : Str
    digest = queue_digest sha256 r.messages

    rings :
        (ms : List PendingMessage)
        → Joins r w.journals (elim ms [
          | [] ↦ rung (with_state none w) none
          | m ∷ ms ↦ round_with sha256 r digest (begin_round r digest w)
        ])
    rings [] = joins refl
    rings (m ∷ ms) =
        let (w', s) = begin_round r digest w in
        subst (λ js. Joins r js (round_with sha256 r digest (w', s)))
          (begin_from-journals r digest w w.state) (round_with-Joins sha256 r digest w' s e)

begin_from-Owes :
    {process : Target} {marker : Str} {drain count at : ℕ} (r : Round) (digest : Str) (w : World)
    (o : Option NotifierState)
    → Logged drain (listed (w.journals process.instance_id)) count at
    → (o ≡ none) ⊎ ((s : NotifierState) × ((o ≡ some s) × Owes process marker count at s))
    → Unread process marker r
    → r.last_drain ≡ drain
    → Owes process marker count at ((begin_from r digest w o).1)
begin_from-Owes {process = process} {marker = marker} {count = count} {at = at} r digest w none l h
      u d =
    let logged =
      subst (λ p. Logged r.last_drain (listed (w.journals p.instance_id)) count at) (sym u.target)
        (subst (λ n. Logged n (listed (w.journals process.instance_id)) count at) (sym d) l) in
    let s = (begin_from r digest w none).1 in
    subst (λ p. Owes p marker count at s) u.target
      (subst (λ m. Owes r.reg.target m count at s) u.token
        (restore_state-Owes r.now r.sidecar_fails r.token r.last_drain r.reg.target digest w
          logged))
begin_from-Owes r digest w (some s) l (inl e) u d = absurd (ground arith)
begin_from-Owes r digest w (some s) l (inr (s', (e, o))) u d =
    retarget-Owes r s u.target (subst (Owes _ _ _ _) (sym (some-injective _ _ e)) o)

-- Whether its state was lost or not, a round comes to an outcome of what is owed.
held-Outcome :
    {process : Target} {marker : Str} {drain count at last : ℕ} (sha256 : Str → Str) (r : Round)
    (w : World)
    → Held process marker drain count at last w
    → Unread process marker r
    → r.last_drain ≡ drain
    → Outcome process marker count at r.now (maybe_notify sha256 r w)
unfolding maybe_notify begin_round
held-Outcome {process = process} {marker = marker} {count = count} {at = at} sha256 r w h u d =
    unread_letters (notifiable_messages r.messages) u.letters
  where
    digest : Str
    digest = queue_digest sha256 r.messages

    unread_letters :
        (ms : List PendingMessage)
        → ms ≢ []
        → Outcome process marker count at r.now (elim ms [
          | [] ↦ rung (with_state none w) none
          | m ∷ ms ↦ round_with sha256 r digest (begin_round r digest w)
        ])
    unread_letters [] n = absurd (n refl)
    unread_letters (m ∷ ms) n =
        round_with-Outcome sha256 r digest _ _ u
          (begin_from-Owes r digest w w.state h.logged h.owes u d)

listed-add :
    (instance_id : Str) (j : Journal) (journals : Str → Option (List Journal))
    → listed (add_journal instance_id j journals instance_id) ≡ (j ∷ listed (journals instance_id))
listed-add instance_id j journals =
    ap
      (λ b. listed (
        if b
        then some (j ∷ elim (journals instance_id) [ none ↦ [] | some js ↦ js ])
        else journals instance_id))
      (str_eq_refl instance_id)
    ∙ ap (◌∷◌ j) (whole (journals instance_id))
  where
    whole : (o : Option (List Journal)) → elim o [ none ↦ [] | some js ↦ js ] ≡ listed o
    whole none = refl
    whole (some js) = refl

-- The journals after a round, by its attempt.
module _ {process : Target} (r : Round) (w : World) (g : Rung) (p : r.reg.target ≡ process)
    (j : Joins r w.journals g) where
  joined-by :
      (o : Option Journal)
      → g.attempt ≡ o
      → g.world.journals
        ≡ elim o [ none ↦ w.journals | some j ↦ add_journal r.reg.target.instance_id j w.journals ]
  joined-by o e =
      j.joined
      ∙ ap
          (λ o. elim o [
            | none ↦ w.journals
            | some j ↦ add_journal r.reg.target.instance_id j w.journals
          ])
          e

  listed-quiet :
      g.attempt ≡ none
      → listed (g.world.journals process.instance_id) ≡ listed (w.journals process.instance_id)
  listed-quiet e = ap (λ js. listed (js process.instance_id)) (joined-by none e)

  listed-tried :
      (i : Journal)
      → g.attempt ≡ some i
      → listed (g.world.journals process.instance_id)
        ≡ (i ∷ listed (w.journals process.instance_id))
  listed-tried i e =
      ap (λ js. listed (js process.instance_id)) (joined-by (some i) e)
      ∙ (ap (λ t. listed (add_journal t.instance_id i w.journals process.instance_id)) p
          ∙ listed-add process.instance_id i w.journals)

le_of_lt : (a b c : ℕ) → a < b → c ≤ a → c ≤ b
le_of_lt a b c p q = omega arith

lt_of_le : (a b c d : ℕ) → a < b → d ≡ b → c ≤ a → c < d
lt_of_le a b c d p e q = omega arith

eq_le : {a b : ℕ} → a ≡ b → a ≤ b
eq_le e = omega arith

-- What is held after a round.
module _ {process : Target} {marker : Str} {drain count at last : ℕ} (r : Round) (w : World)
    (g : Rung) (lt : last < r.now) (h : Held process marker drain count at last w) where
  quiet-Held :
      (s : NotifierState)
      → listed (g.world.journals process.instance_id) ≡ listed (w.journals process.instance_id)
      → g.world.state ≡ some s
      → Owes process marker count at s
      → Held process marker drain count at r.now g.world
  quiet-Held s e e' o = record {
    logged = subst (λ js. Logged drain js count at) (sym e) h.logged;
    before =
        subst (All (λ j. j.attempted_at ≤ r.now)) (sym e)
          (All-map _ _ (λ j. le_of_lt last r.now j.attempted_at lt) _ h.before);
    owes = inr (s, (e', o));
  }

  tried-Held :
      (count' at' : ℕ) (j : Journal) (s : NotifierState)
      → listed (g.world.journals process.instance_id)
        ≡ (j ∷ listed (w.journals process.instance_id))
      → j.attempted_at ≡ r.now
      → g.world.state ≡ some s
      → Owes process marker count' at' s
      → (All (Older j) (listed (w.journals process.instance_id))
          → Logged drain (j ∷ listed (w.journals process.instance_id)) count' at')
      → Held process marker drain count' at' r.now g.world
  tried-Held count' at' j s e n e' o logged = record {
    logged =
        subst (λ js. Logged drain js count' at') (sym e)
          (logged
            (All-map _ _ (λ i. lt_of_le last r.now i.attempted_at j.attempted_at lt n) _ h.before));
    before =
        subst (All (λ j. j.attempted_at ≤ r.now)) (sym e)
          (eq_le n, All-map _ _ (λ j. le_of_lt last r.now j.attempted_at lt) _ h.before);
    owes = inr (s, (e', o));
  }

-- From a world that the journals account for: over scans of one process whose inbox stays unread while
-- letters are there, with restarts of the notifier between them, each frame follows the one before it
-- after the delay of `notificationRetryAfter` for so many frames outstanding. The clock runs on between
-- scans, and the journals are written.
pub restarts-Spaced :
    {process : Target} {marker : Str} {drain count at last : ℕ} (sha256 : Str → Str)
    (es : List Event) (w : World)
    → Held process marker drain count at last w
    → Steady process marker drain last es
    → Spaced count at (frames_of sha256 es w)
restarts-Spaced sha256 [] w h s = tt
restarts-Spaced sha256 (restart ∷ es) w h s =
    restarts-Spaced sha256 es (with_state none w)
      (record { logged = h.logged; before = h.before; owes = inl refl }) s
restarts-Spaced {process = process} {marker = marker} {drain = drain} {count = count} {at = at}
      {last = last} sha256 (scan r ∷ es) w h (u, (d, (fresh, (kept, (lt, s))))) =
    let g = maybe_notify sha256 r w in
    let joins = maybe_notify-Joins sha256 r w kept in
    elim (held-Outcome sha256 r w h u d) [
      | quiet s' a e o ↦ rw a (
          restarts-Spaced sha256 es g.world
            (quiet-Held r w g lt h s' (listed-quiet r w g u.target joins a) e o) s)
      | missed s' j a (f, n) e due o ↦
          rw (a, f)
            (restarts-Spaced sha256 es g.world
              (tried-Held r w g lt h count at j s' (listed-tried r w g u.target joins j a) n e o
                (λ older. undelivered j _ count at f (λ p. rw n (due p)) older h.logged))
              s)
      | rang s' j a (f, n) e due o ↦
          rw (a, f, n)
            (
              due,
              restarts-Spaced {count = suc count} {at = r.now} {last = r.now} sha256 es g.world
                  (tried-Held r w g lt h (suc count) r.now j s'
                    (listed-tried r w g u.target joins j a) n e o
                    (λ older.
                      subst (Logged drain _ (suc count)) n
                        (delivered j _ count at f (rw n fresh) older h.logged)))
                  s,
            )
    ]
