-- ===== src/Conduit/Ring.antt =====
-- What `maybeNotify` of link/conduit.go works on: the notifier's state for an identity, the files beside
-- it, and what a round of the scan has read. A zero `time.Time` is `none`, except for `nextAttempt`,
-- where 0 serves: it is before every clock. Times are nanoseconds since 1970; markers and the sidecar
-- count seconds.
use khala_network.Common.{
  ℕ, ◌/◌, Str, lit, str_eq, List, [], Option, none, some, if◌then◌else◌, Bool, false, not, ◌&&◌,
  ◌||◌, ltb, ◌==◌,
}
use khala_network.Conduit.Schedule.{second}
use khala_network.Conduit.Inbox.{PendingMessage}

-- The process that is rung.
pub record Target : Type 0 where
  pub instance_id : Str
  pub pid : ℕ
  pub pid_start : Str

abbrev pub target_eq : Target → Target → Bool
target_eq a b =
    str_eq a.instance_id b.instance_id && (a.pid == b.pid && str_eq a.pid_start b.pid_start)

abbrev pub no_target : Target
no_target = record { instance_id = []; pid = 0; pid_start = [] }

pub record NotifierState : Type 0 where
  pub pending_digest : Str
  pub first_seen : Option ℕ
  pub attempt_index : ℕ
  pub notifications_sent : ℕ
  pub outstanding : ℕ
  pub outstanding_written : Option ℕ
  pub target : Target
  pub last_attempt : Option ℕ
  pub last_written : Option ℕ
  pub next_attempt : ℕ
  pub last_inbox_read_token : Str
  pub failures : ℕ

-- `Unix()`. A zero time is before 1970.
abbrev pub unix : Option ℕ → ℕ
unix none = 0
unix (some t) = t / second

pub record Sidecar : Type 0 where
  pub generation : Str
  pub first_seen : ℕ
  pub written_rings : ℕ
  pub last_written : ℕ

-- `deliveryJournal`, of this boot and for this identity; the fields that are only kept are left out.
pub record Journal : Type 0 where
  pub generation : Str
  pub attempt_index : ℕ
  pub attempted_at : ℕ
  pub first_seen : Option ℕ
  pub letter_ids : List Str
  pub written : Bool

-- The notifier's state, if any, the sidecar, if it can be read, and the directory of each instance's
-- journals, if it is there.
pub record World : Type 0 where
  pub state : Option NotifierState
  pub sidecar : Option Sidecar
  pub journals : Str → Option (List Journal)

pub record Registration : Type 0 where
  pub target : Target
  pub open target use *
  pub conduit_verified : Bool
  pub phase : Str
  pub lease_epoch : ℕ
  pub claude_session_id : Str
  pub harness : Str
  pub channel_socket : Str

pub record Lease : Type 0 where
  pub target : Target
  pub epoch : ℕ
  pub claude_session_id : Str

-- What one call meets: the clock, the letters at the start and again before the write, the markers, and
-- what fails.
pub record Round : Type 0 where
  pub now : ℕ
  pub reg : Registration
  pub lease : Lease
  pub messages : List PendingMessage
  pub fresh_messages : List PendingMessage
  pub token : Str
  pub last_drain : ℕ
  pub turn : Option ℕ
  pub attempt_id_fails : Bool
  pub channel_unverified : Bool
  pub write_fails : Bool
  pub journal_fails : Bool
  pub sidecar_fails : Bool

-- `verified`.
abbrev pub is_verified : Registration → Lease → Bool
is_verified reg lease =
    reg.conduit_verified
    && (str_eq reg.phase (lit "ready")
        && (str_eq lease.target.instance_id reg.target.instance_id
            && (ltb 0 lease.epoch
                && ((lease.epoch == reg.lease_epoch)
                    && ((lease.target.pid == reg.target.pid)
                        && (str_eq lease.target.pid_start reg.target.pid_start
                            && str_eq lease.claude_session_id reg.claude_session_id))))))

-- Whether the frame reaches the session: by its socket, or by a Codex channel that is bound and verified.
abbrev pub is_delivered : Round → Bool
is_delivered r =
    if not (str_eq r.reg.harness (lit "codex"))
    then not r.write_fails
    else if str_eq r.reg.channel_socket []
    then false
    else not (r.channel_unverified || r.write_fails)
