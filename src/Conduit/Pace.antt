-- ===== src/Conduit/Pace.antt =====
-- The pace of the frames: between an outstanding frame and the next one, `notificationRetryAfter` of
-- link/conduit.go passes.
use khala_network.Common.{
  ℕ, suc, ◌+◌, ◌≤◌, ◌<◌, ◌≡◌, ◌≢◌, refl, sym, subst, ap, ◌∙◌, Str, str_eq, str_eq_refl, List, [],
  ◌∷◌, ◌++◌, none, some, if◌then◌else◌, Bool, true, false, not, ◌==◌, arith, All,
}
use khala_network.Conduit.Schedule.{notification_retry_after}
use khala_network.Conduit.Inbox.{PendingMessage, notifiable_messages, queue_digest}
use khala_network.Conduit.Ring.{
  Target, target_eq, no_target, NotifierState, Journal, World, Round, is_verified, is_delivered,
}
use khala_network.Conduit.Notify.{
  retarget, is_consumed, read_marker, new_digest, update_digest, is_due, after_written,
  after_failed, Rung, rung, with_state, conclude, attempt, begin_from, begin_round, round_with,
  maybe_notify,
}

-- The times of the frames that a run of rounds writes.
abbrev pub frame_of : Rung → List ℕ
frame_of g = elim g.attempt [ none ↦ [] | some j ↦ if j.written then j.attempted_at ∷ [] else [] ]

abbrev pub frames : (Str → Str) → List Round → World → List ℕ
frames sha256 [] w = []
frames sha256 (r ∷ rs) w = let g = maybe_notify sha256 r w in frame_of g ++ frames sha256 rs g.world

-- Each frame waits for the one before it, with one more outstanding each time.
abbrev pub Spaced : ℕ → ℕ → List ℕ → Type 0
Spaced outstanding at [] = Unit
Spaced outstanding at (t ∷ ts) =
    (0 < outstanding → at + notification_retry_after outstanding ≤ t)
    × Spaced (suc outstanding) t ts

abbrev pub written_at : NotifierState → ℕ
written_at s = elim s.outstanding_written [ none ↦ 0 | some t ↦ t ]

-- A state with so many frames outstanding, the last at that time, and the next one not due too early.
pub record Owes (process : Target) (marker : Str) (count at : ℕ) (s : NotifierState) : Type 0 where
  pub target : s.target ≡ process
  pub token : s.last_inbox_read_token ≡ marker
  pub outstanding : s.outstanding ≡ count
  pub written : written_at s ≡ at
  pub due : 0 < count → at + notification_retry_after count ≤ s.next_attempt

-- A round for the same process, which has not read its inbox, while letters are there.
pub record Unread (process : Target) (marker : Str) (r : Round) : Type 0 where
  pub target : r.reg.target ≡ process
  pub token : r.token ≡ marker
  pub letters : notifiable_messages r.messages ≢ []
  pub still : notifiable_messages r.fresh_messages ≢ []

Owes-if :
    {tgt : Target} {tok : Str} {k at : ℕ} (b : Bool) (s t : NotifierState)
    → Owes tgt tok k at s
    → Owes tgt tok k at t
    → Owes tgt tok k at (if b then s else t)
Owes-if true s t p q = p
Owes-if false s t p q = q

pub Owes-then :
    {tgt : Target} {tok : Str} {k at : ℕ} (b : Bool) (s t : NotifierState)
    → b ≡ true
    → Owes tgt tok k at s
    → Owes tgt tok k at (if b then s else t)
Owes-then {tgt = tgt} {tok = tok} {k = k} {at = at} b s t e p =
    subst (λ c. Owes tgt tok k at (if c then s else t)) (sym e) p

Owes-else :
    {tgt : Target} {tok : Str} {k at : ℕ} (b : Bool) (s t : NotifierState)
    → b ≡ false
    → Owes tgt tok k at t
    → Owes tgt tok k at (if b then s else t)
Owes-else {tgt = tgt} {tok = tok} {k = k} {at = at} b s t e p =
    subst (λ c. Owes tgt tok k at (if c then s else t)) (sym e) p

target_eq_refl : (t : Target) → target_eq t t ≡ true
target_eq_refl t = ground (arith, str_eq_refl t.instance_id, str_eq_refl t.pid_start)

pub retarget-Owes :
    {tgt : Target} {tok : Str} {k at : ℕ} (r : Round) (s : NotifierState)
    → r.reg.target ≡ tgt
    → Owes tgt tok k at s
    → Owes tgt tok k at (retarget r s)
unfolding retarget
retarget-Owes r s e p =
    Owes-if (target_eq s.target no_target) _ _
      (record {
        target = e;
        token = p.token;
        outstanding = p.outstanding;
        written = p.written;
        due = p.due;
      })
      (Owes-then (target_eq s.target r.reg.target) _ _
        (subst (λ t. target_eq t r.reg.target ≡ true) (e ∙ sym p.target)
          (target_eq_refl r.reg.target))
        p)

unread :
    (r : Round) (s : NotifierState) → r.token ≡ s.last_inbox_read_token → is_consumed r s ≡ false
unread r s e = ground (arith, e, str_eq_refl s.last_inbox_read_token)

read_marker-Owes :
    {tgt : Target} {tok : Str} {k at : ℕ} (r : Round) (s : NotifierState)
    → r.token ≡ tok
    → Owes tgt tok k at s
    → Owes tgt tok k at (read_marker r s)
unfolding read_marker
read_marker-Owes r s e p = Owes-else (is_consumed r s) _ _ (unread r s (e ∙ sym p.token)) (record {
  target = p.target;
  token = e;
  outstanding = p.outstanding;
  written = p.written;
  due = p.due;
})

held :
    {due : ℕ} (now : ℕ) (s : NotifierState)
    → 0 < s.outstanding
    → due ≤ s.next_attempt
    → due ≤ (if s.outstanding == 0 then now else s.next_attempt)
held now s h p = ground arith

update_digest-Owes :
    {tgt : Target} {tok : Str} {k at : ℕ} (r : Round) (digest : Str) (s : NotifierState)
    → Owes tgt tok k at s
    → Owes tgt tok k at (update_digest r digest s)
unfolding update_digest new_digest
update_digest-Owes r digest s p = Owes-if (str_eq s.pending_digest digest) _ _ p (record {
  target = p.target;
  token = p.token;
  outstanding = p.outstanding;
  written = p.written;
  due = λ h. held _ s (rw p.outstanding h) (p.due h);
})

-- What a round comes to: nothing is tried, or a frame that was due fails or is written.
pub data Outcome (process : Target) (marker : Str) (count at now : ℕ) (g : Rung) : Type 0 where
  quiet :
      (s : NotifierState)
      → g.attempt ≡ none
      → g.world.state ≡ some s
      → Owes process marker count at s
      → Outcome process marker count at now g
  missed :
      (s : NotifierState) (j : Journal)
      → g.attempt ≡ some j
      → (j.written ≡ false) × (j.attempted_at ≡ now)
      → g.world.state ≡ some s
      → (0 < count → at + notification_retry_after count ≤ now)
      → Owes process marker count at s
      → Outcome process marker count at now g
  rang :
      (s : NotifierState) (j : Journal)
      → g.attempt ≡ some j
      → (j.written ≡ true) × (j.attempted_at ≡ now)
      → g.world.state ≡ some s
      → (0 < count → at + notification_retry_after count ≤ now)
      → Owes process marker (suc count) now s
      → Outcome process marker count at now g

pub Outcome-if :
    {tgt : Target} {tok : Str} {k at now : ℕ} (b : Bool) (x y : Rung)
    → (b ≡ true → Outcome tgt tok k at now x)
    → Outcome tgt tok k at now y
    → Outcome tgt tok k at now (if b then x else y)
Outcome-if true x y p q = p refl
Outcome-if false x y p q = q

pub chain : {a b c : ℕ} → a ≤ b → b ≤ c → a ≤ c
chain p q = omega arith

pub another : {n k : ℕ} → n ≡ k → n + 1 ≡ suc k
another e = omega arith

pub same_due :
    {n k : ℕ} (now : ℕ)
    → n ≡ k
    → now + notification_retry_after k ≤ now + notification_retry_after n
same_due now e = let f = ap notification_retry_after e in omega (arith, f)

pub later : (now delay : ℕ) → now ≤ now + delay
later now delay = omega arith

conclude-Outcome :
    {tgt : Target} {tok : Str} {k at : ℕ} (r : Round) (digest : Str) (written : Bool)
    (s : NotifierState) (w : World)
    → s.next_attempt ≤ r.now
    → Owes tgt tok k at s
    → Outcome tgt tok k at r.now (conclude r digest written s w)
unfolding conclude after_written after_failed
conclude-Outcome r digest true s w le p =
    rang (after_written r s) _ refl (refl, refl) refl (λ h. chain (p.due h) le)
      (record {
        target = p.target;
        token = p.token;
        outstanding = another p.outstanding;
        written = refl;
        due = λ h. same_due r.now (another p.outstanding);
      })
conclude-Outcome r digest false s w le p =
    missed (after_failed r s) _ refl (refl, refl) refl (λ h. chain (p.due h) le)
      (record {
        target = p.target;
        token = p.token;
        outstanding = p.outstanding;
        written = p.written;
        due = λ h. chain (chain (p.due h) le) (later r.now _);
      })

attempt-Outcome :
    {tgt : Target} {tok : Str} {k at : ℕ} (sha256 : Str → Str) (r : Round) (digest : Str)
    (s : NotifierState) (w : World)
    → notifiable_messages r.fresh_messages ≢ []
    → s.next_attempt ≤ r.now
    → Owes tgt tok k at s
    → Outcome tgt tok k at r.now (attempt sha256 r digest s w)
unfolding attempt
attempt-Outcome {tgt = tgt} {tok = tok} {k = k} {at = at} sha256 r digest s w still le p =
    Outcome-if r.attempt_id_fails _ _ (λ e. quiet s refl refl p)
      (Outcome-if (not (is_verified r.reg r.lease)) _ _
        (λ e. conclude-Outcome r digest false s w le p)
        (Outcome-if (str_eq (queue_digest sha256 r.fresh_messages) digest) _ _
          (λ e. conclude-Outcome r digest (is_delivered r) s w le p)
          (changed (notifiable_messages r.fresh_messages) still)))
  where
    changed :
        (ms : List PendingMessage)
        → ms ≢ []
        → Outcome tgt tok k at r.now
            (rung (with_state (elim ms [ [] ↦ none | m ∷ ms ↦ some s ]) w) none)
    changed [] still = absurd (still refl)
    changed (m ∷ ms) still = quiet s refl refl p

is_due-due : (r : Round) (s : NotifierState) → is_due r s ≡ true → s.next_attempt ≤ r.now
unfolding is_due
is_due-due r s e = ground arith

pub round_with-Outcome :
    {tgt : Target} {tok : Str} {k at : ℕ} (sha256 : Str → Str) (r : Round) (digest : Str)
    (s : NotifierState) (w : World)
    → Unread tgt tok r
    → Owes tgt tok k at s
    → Outcome tgt tok k at r.now (round_with sha256 r digest (w, s))
unfolding round_with
round_with-Outcome sha256 r digest s w u p =
    let read = read_marker-Owes r s u.token p in
    let s' = update_digest-Owes r digest (read_marker r s) read in
    Outcome-if (is_due r (update_digest r digest (read_marker r s))) _ _
      (λ e. attempt-Outcome sha256 r digest _ _ u.still (is_due-due r _ e) (record {
        target = s'.target;
        token = s'.token;
        outstanding = s'.outstanding;
        written = s'.written;
        due = s'.due;
      }))
      (quiet _ refl refl s')

begin_round-some :
    (r : Round) (digest : Str) (s : NotifierState) (w : World)
    → w.state ≡ some s
    → begin_round r digest w ≡ (w, retarget r s)
unfolding begin_round
begin_round-some r digest s w e = ap (begin_from r digest w) e

pub maybe_notify-Outcome :
    {tgt : Target} {tok : Str} {k at : ℕ} (sha256 : Str → Str) (r : Round) (s : NotifierState)
    (w : World)
    → w.state ≡ some s
    → Unread tgt tok r
    → Owes tgt tok k at s
    → Outcome tgt tok k at r.now (maybe_notify sha256 r w)
unfolding maybe_notify
maybe_notify-Outcome {tgt = tgt} {tok = tok} {k = k} {at = at} sha256 r s w e u p =
    unread_letters (notifiable_messages r.messages) u.letters
  where
    digest : Str
    digest = queue_digest sha256 r.messages

    unread_letters :
        (ms : List PendingMessage)
        → ms ≢ []
        → Outcome tgt tok k at r.now (elim ms [
          | [] ↦ rung (with_state none w) none
          | m ∷ ms ↦ round_with sha256 r digest (begin_round r digest w)
        ])
    unread_letters [] h = absurd (h refl)
    unread_letters (m ∷ ms) h =
        subst (λ b. Outcome tgt tok k at r.now (round_with sha256 r digest b))
          (sym (begin_round-some r digest s w e))
          (round_with-Outcome sha256 r digest _ w u (retarget-Owes r s u.target p))

-- From a state that owes so many frames: over scans of one process whose inbox stays unread while letters
-- are there, each frame follows the one before it after the delay of `notificationRetryAfter` for so
-- many frames outstanding, whatever the clock, the letters, the turns and the failures are.
pub frames-Spaced :
    {tgt : Target} {tok : Str} {k at : ℕ} (sha256 : Str → Str) (rs : List Round) (s : NotifierState)
    (w : World)
    → w.state ≡ some s
    → All (Unread tgt tok) rs
    → Owes tgt tok k at s
    → Spaced k at (frames sha256 rs w)
frames-Spaced {tgt = tgt} {tok = tok} {k = k} {at = at} sha256 [] s w e us p = tt
frames-Spaced {tgt = tgt} {tok = tok} {k = k} {at = at} sha256 (r ∷ rs) s w e (u, us) p =
    elim (maybe_notify-Outcome sha256 r s w e u p) [
      | quiet s' a e' p' ↦ rw a (frames-Spaced sha256 rs s' _ e' us p')
      | missed s' j a (f, n) e' due p' ↦ rw (a, f) (frames-Spaced sha256 rs s' _ e' us p')
      | rang s' j a (f, n) e' due p' ↦
          rw (a, f, n) (due, frames-Spaced {k = suc k} {at = r.now} sha256 rs s' _ e' us p')
    ]
