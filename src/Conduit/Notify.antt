-- ===== src/Conduit/Notify.antt =====
-- `maybeNotify` of link/conduit.go, in the order of its parts.
use khala_network.Common.{
  ℕ, ◌+◌, Str, str_eq, List, [], ◌∷◌, Option, none, some, if◌then◌else◌, Bool, false, not, ◌&&◌,
  ◌||◌, ltb, leb, ◌==◌,
}
use khala_network.Conduit.Schedule.{
  notifier_backoff, element, notification_retry_after, failed_delay,
}
use khala_network.Conduit.Inbox.{notifiable_messages, ids_of, queue_digest}
use khala_network.Conduit.Ring.{
  target_eq, no_target, NotifierState, unix, Journal, World, Round, is_verified, is_delivered,
}
use khala_network.Conduit.Restore.{restore_state, write_sidecar}

-- At once, or the first backoff after the last attempt.
abbrev pub soonest : ℕ → Option ℕ → ℕ
soonest now none = now
soonest now (some at) =
    let first = element 0 notifier_backoff in if leb (at + first) now then now else at + first

-- Another process starts the schedule anew.
unfoldable pub retarget : Round → NotifierState → NotifierState
retarget r s =
    if target_eq s.target no_target
    then record s { target = r.reg.target }
    else if target_eq s.target r.reg.target
    then s
    else record s {
      target = r.reg.target;
      attempt_index = 0;
      outstanding = 0;
      outstanding_written = none;
      failures = 0;
      next_attempt = soonest r.now s.last_attempt;
    }

-- A new marker that is no older than the outstanding frame proves that the inbox was read.
abbrev pub is_consumed : Round → NotifierState → Bool
is_consumed r s =
    ltb 0 s.outstanding
    && (not (str_eq r.token s.last_inbox_read_token)
        && leb (unix s.outstanding_written) r.last_drain)

unfoldable pub read_marker : Round → NotifierState → NotifierState
read_marker r s =
    if is_consumed r s
    then record s {
      outstanding = 0;
      outstanding_written = none;
      next_attempt = r.now;
      last_inbox_read_token = r.token;
    }
    else record s { last_inbox_read_token = r.token }

-- A changed digest starts the attempts anew, but moves the next one only if nothing is outstanding.
unfoldable pub new_digest : Round → Str → NotifierState → NotifierState
new_digest r digest s = record s {
  pending_digest = digest;
  first_seen = some r.now;
  attempt_index = 0;
  notifications_sent = 0;
  next_attempt = if s.outstanding == 0 then soonest r.now s.last_attempt else s.next_attempt;
}

unfoldable pub update_digest : Round → Str → NotifierState → NotifierState
unfolding new_digest
update_digest r digest s = if str_eq s.pending_digest digest then s else new_digest r digest s

-- The session has taken no turn since the outstanding frame was written.
abbrev pub awaits_turn : Round → NotifierState → Bool
awaits_turn r s = elim r.turn [
  | some last ↦ ltb 0 s.outstanding && ltb last (unix s.outstanding_written)
  | none ↦ false
]

unfoldable pub is_due : Round → NotifierState → Bool
is_due r s = not (ltb r.now s.next_attempt || awaits_turn r s)

-- An attempt's record, and how it ended.
abbrev pub journal_of : Round → Str → Bool → NotifierState → Journal
journal_of r digest written s = record {
  generation = digest;
  attempt_index = s.attempt_index;
  attempted_at = r.now;
  first_seen = s.first_seen;
  letter_ids = ids_of (notifiable_messages r.messages);
  written = written;
}

abbrev pub add_journal : Str → Journal → (Str → Option (List Journal)) → Str → Option (List Journal)
add_journal instance_id j journals other =
    if str_eq instance_id other
    then some (j ∷ elim (journals other) [ none ↦ [] | some js ↦ js ])
    else journals other

unfoldable pub after_written : Round → NotifierState → NotifierState
after_written r s = record s {
  failures = 0;
  last_attempt = some r.now;
  last_written = some r.now;
  outstanding_written = some r.now;
  notifications_sent = s.notifications_sent + 1;
  outstanding = s.outstanding + 1;
  next_attempt = r.now + notification_retry_after (s.outstanding + 1);
}

unfoldable pub after_failed : Round → NotifierState → NotifierState
after_failed r s = record s {
  failures = s.failures + 1;
  last_attempt = some r.now;
  next_attempt = r.now + failed_delay s.attempt_index;
}

-- What a call comes to: the world after it, and the journal of the attempt, if one was made.
pub record Rung : Type 0 where
  pub world : World
  pub attempt : Option Journal

abbrev pub rung : World → Option Journal → Rung
rung w j = record { world = w; attempt = j }

abbrev pub with_state : Option NotifierState → World → World
with_state s w = record w { state = s }

-- The end of an attempt that was made: the journal, the state and, after a write, the sidecar.
unfoldable pub conclude : Round → Str → Bool → NotifierState → World → Rung
conclude r digest written s w =
    let j = journal_of r digest written s in
    let s' = if written then after_written r s else after_failed r s in
    rung
      (record w {
        state = some s';
        journals =
            if r.journal_fails
            then w.journals
            else add_journal r.reg.target.instance_id j w.journals;
        sidecar = if written then write_sidecar r.sidecar_fails s' w.sidecar else w.sidecar;
      })
      (some j)

-- The frame is not written when the letters have changed since.
unfoldable pub attempt : (Str → Str) → Round → Str → NotifierState → World → Rung
attempt sha256 r digest s w =
    if r.attempt_id_fails
    then rung (with_state (some s) w) none
    else if not (is_verified r.reg r.lease)
    then conclude r digest false s w
    else if str_eq (queue_digest sha256 r.fresh_messages) digest
    then conclude r digest (is_delivered r) s w
    else rung
        (with_state (elim (notifiable_messages r.fresh_messages) [ [] ↦ none | m ∷ ms ↦ some s ]) w)
        none

-- The state that a round begins with.
abbrev pub begin_from : Round → Str → World → Option NotifierState → World × NotifierState
begin_from r digest w (some s) = (w, retarget r s)
begin_from r digest w none =
    let (w', s) =
      restore_state r.now r.sidecar_fails r.token r.last_drain r.reg.target.instance_id digest w in
    (w', record s { target = r.reg.target })

unfoldable pub begin_round : Round → Str → World → World × NotifierState
begin_round r digest w = begin_from r digest w w.state

unfoldable pub round_with : (Str → Str) → Round → Str → World × NotifierState → Rung
round_with sha256 r digest (w, s) =
    let read = read_marker r s in
    let s' = update_digest r digest read in
    let w' =
      if str_eq read.pending_digest digest
      then w
      else record w { sidecar = write_sidecar r.sidecar_fails s' w.sidecar } in
    if is_due r s'
    then attempt sha256 r digest (record s' { attempt_index = s'.attempt_index + 1 }) w'
    else rung (with_state (some s') w') none

unfoldable pub maybe_notify : (Str → Str) → Round → World → Rung
maybe_notify sha256 r w = elim (notifiable_messages r.messages) [
  | [] ↦ rung (with_state none w) none
  | m ∷ ms ↦
      let digest = queue_digest sha256 r.messages in
      round_with sha256 r digest (begin_round r digest w)
]
