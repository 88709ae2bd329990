-- ===== src/Examples/Bell.antt =====
-- A session with a letter is rung, and again after ten minutes, though the notifier was restarted twice.
use khala_network.Common.{
  ℕ, ◌+◌, ◌*◌, ◌≡◌, refl, Str, lit, List, [], ◌∷◌, none, some, true, false, arith, inl,
}
use khala_network.Conduit.Schedule.{
  second, minute, failed_delay, notification_retry_after, rewrite_delay_index,
}
use khala_network.Conduit.Inbox.{
  PendingMessage, notifiable_messages, queue_digest, sort_strings, insert_sorted,
}
use khala_network.Conduit.Ring.{Target, Registration, Lease, Round, World, NotifierState}
use khala_network.Conduit.Restore.{
  bare_state, restore_state, sort_journals, insert_journal, schedule_after, latest_of, replay,
}
use khala_network.Conduit.Notify.{
  maybe_notify, round_with, is_due, update_digest, new_digest, read_marker, begin_round, retarget,
  attempt, conclude, after_written, after_failed,
}
use khala_network.Wire.Digest.{hex_encode}
use khala_network.Conduit.Pace.{Spaced, frames, frames-Spaced, Unread, same_due}
use khala_network.Conduit.Restart.{Event, scan, restart, frames_of, Held, restarts-Spaced}
use khala_network.Conduit.Replay.{unlogged}

abbrev process : Target
process = record { instance_id = lit "i"; pid = 7; pid_start = lit "s" }

abbrev registration : Registration
registration = record {
  target = process;
  conduit_verified = true;
  phase = lit "ready";
  lease_epoch = 1;
  claude_session_id = lit "c";
  harness = lit "claude";
  channel_socket = [];
}

abbrev lease : Lease
lease = record { target = process; epoch = 1; claude_session_id = lit "c" }

abbrev letter : PendingMessage
letter = record {
  id = lit "m";
  kind = lit "message";
  from = lit "a";
  subject = lit "hi";
  alert = false;
  urgent = false;
  later = false;
}

abbrev round_at : ℕ → Round
round_at now = record {
  now = now;
  reg = registration;
  lease = lease;
  messages = letter ∷ [];
  fresh_messages = letter ∷ [];
  token = lit "t";
  last_drain = 3;
  turn = none;
  attempt_id_fails = false;
  channel_unverified = false;
  write_fails = false;
  journal_fails = false;
  sidecar_fails = false;
}

abbrev sum : Str → Str
sum s = 1 ∷ []

abbrev quiet_world : World
quiet_world = record { state = none; sidecar = none; journals = λ i. none }

abbrev started : ℕ
started = 100 * second

abbrev events : List Event
events =
    scan (round_at started)
    ∷ restart
    ∷ scan (round_at (started + 5 * minute))
    ∷ restart
    ∷ scan (round_at (started + 10 * minute))
    ∷ []

events_rung : frames_of sum events quiet_world ≡ (started ∷ (started + 10 * minute) ∷ [])
unfolding maybe_notify notifiable_messages round_with is_due update_digest new_digest read_marker
    begin_round retarget restore_state queue_digest hex_encode attempt conclude sort_strings
    insert_sorted sort_journals insert_journal schedule_after latest_of after_written after_failed
    replay failed_delay notification_retry_after rewrite_delay_index
events_rung = refl

-- The witnesses.
start : Held process (lit "t") 3 0 0 0 quiet_world
start = record { logged = unlogged; before = tt; owes = inl refl }

unread : (now : ℕ) → Unread process (lit "t") (round_at now)
unfolding notifiable_messages
unread now = record {
  target = refl;
  token = refl;
  letters = λ e. absurd (ground arith);
  still = λ e. absurd (ground arith);
}

restarts-Spaced_example : Spaced 0 0 (frames_of sum events quiet_world)
restarts-Spaced_example = restarts-Spaced sum events quiet_world start (
  unread _,
  (
    refl,
    (
      omega arith,
      (
        refl,
        (
          omega arith,
          (
            unread _,
            (
              refl,
              (
                omega arith,
                (refl, (omega arith, (unread _, (refl, (omega arith, (refl, (omega arith, tt))))))),
              ),
            ),
          ),
        ),
      ),
    ),
  ),
)

abbrev once_rung : NotifierState
once_rung = record (bare_state (lit "d") (lit "t")) {
  target = process;
  outstanding = 1;
  outstanding_written = some started;
  next_attempt = started + notification_retry_after 1;
}

abbrev rounds : List Round
rounds = round_at (started + 5 * minute) ∷ round_at (started + 11 * minute) ∷ []

abbrev rung_world : World
rung_world = record quiet_world { state = some once_rung }

frames-Spaced_example : Spaced 1 started (frames sum rounds rung_world)
frames-Spaced_example =
    frames-Spaced sum rounds once_rung rung_world refl (unread _, (unread _, tt))
      (record {
        target = refl;
        token = refl;
        outstanding = refl;
        written = refl;
        due = λ h. same_due started refl;
      })
