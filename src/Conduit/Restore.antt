-- ===== src/Conduit/Restore.antt =====
-- `restoreState` of link/conduit.go and the sidecar of link/ears.go: the state of an identity after a
-- restart, from the sidecar, the inbox marker and the journals.
use khala_network.Common.{
  ℕ, ◌+◌, ◌*◌, ◌/◌, Str, str_eq, List, [], ◌∷◌, Option, none, some, if◌then◌else◌, Bool, true,
  false, not, ◌&&◌, ◌||◌, ltb,
}
use khala_network.Conduit.Schedule.{second, notification_retry_after, failed_delay}
use khala_network.Conduit.Ring.{no_target, NotifierState, unix, Sidecar, Journal, World}

abbrev pub sidecar_of : NotifierState → Sidecar
sidecar_of s = record {
  generation = s.pending_digest;
  first_seen = unix s.first_seen;
  written_rings = s.notifications_sent;
  last_written = unix s.last_written;
}

-- `writeListenerSidecar`, for a digest of 64 hexadecimal digits.
abbrev pub write_sidecar : Bool → NotifierState → Option Sidecar → Option Sidecar
write_sidecar fails s old = if fails then old else some (sidecar_of s)

abbrev pub bare_state : Str → Str → NotifierState
bare_state digest token = record {
  pending_digest = digest;
  first_seen = none;
  attempt_index = 0;
  notifications_sent = 0;
  outstanding = 0;
  outstanding_written = none;
  target = no_target;
  last_attempt = none;
  last_written = none;
  next_attempt = 0;
  last_inbox_read_token = token;
  failures = 0;
}

abbrev pub is_current : Str → Option Sidecar → Bool
is_current digest none = false
is_current digest (some c) = str_eq c.generation digest

abbrev pub from_sidecar : Str → Option Sidecar → NotifierState → NotifierState
from_sidecar digest none s = s
from_sidecar digest (some c) s =
    let s' = record s {
      last_written = if ltb 0 c.last_written then some (c.last_written * second) else none;
    } in
    if str_eq c.generation digest
    then record s' {
      first_seen = some (c.first_seen * second);
      notifications_sent = c.written_rings;
    }
    else s'

-- `sort.Slice` by the time of the attempt.
unfoldable pub insert_journal : Journal → List Journal → List Journal
insert_journal j [] = j ∷ []
insert_journal j (k ∷ ks) =
    let rest = insert_journal j ks in
    if ltb k.attempted_at j.attempted_at then k ∷ rest else j ∷ (k ∷ ks)

unfoldable pub sort_journals : List Journal → List Journal
sort_journals [] = []
sort_journals (j ∷ js) = insert_journal j (sort_journals js)

abbrev pub later_of : Option ℕ → ℕ → Option ℕ
later_of none at = some at
later_of (some t) at = if ltb t at then some at else some t

abbrev pub earlier_of : Option ℕ → ℕ → Option ℕ
earlier_of none at = some at
earlier_of (some t) at = if ltb at t then some at else some t

abbrev pub or_at : Option ℕ → ℕ → ℕ
or_at none at = at
or_at (some t) at = t

-- One journal, oldest first: the status, and what it says of the current digest.
abbrev pub count_journal : ℕ → Bool → Journal → NotifierState → NotifierState
count_journal last_drain sidecar_current j s =
    if not j.written
    then record s { failures = s.failures + 1 }
    else (let unread = ltb last_drain (j.attempted_at / second) in
        record s {
          failures = 0;
          last_written = later_of s.last_written j.attempted_at;
          outstanding = if unread then s.outstanding + 1 else s.outstanding;
          outstanding_written = if unread then some j.attempted_at else s.outstanding_written;
          notifications_sent =
              if not sidecar_current && str_eq j.generation s.pending_digest
              then s.notifications_sent + 1
              else s.notifications_sent;
        })

abbrev pub date_journal : Journal → NotifierState → NotifierState
date_journal j s =
    if str_eq j.generation s.pending_digest
    then record s {
      first_seen = earlier_of s.first_seen (or_at j.first_seen j.attempted_at);
      attempt_index = j.attempt_index;
    }
    else s

unfoldable pub replay : ℕ → Bool → List Journal → NotifierState → NotifierState
replay last_drain current [] s = s
replay last_drain current (j ∷ js) s =
    replay last_drain current js (date_journal j (count_journal last_drain current j s))

unfoldable pub latest_of : Journal → List Journal → Journal
latest_of j [] = j
latest_of j (k ∷ ks) = latest_of k ks

abbrev pub any_current : Str → List Journal → Bool
any_current digest [] = false
any_current digest (j ∷ js) = let rest = any_current digest js in str_eq j.generation digest || rest

abbrev pub is_after : ℕ → Option ℕ → Bool
is_after at none = true
is_after at (some t) = ltb t at

-- When the next attempt is due, by the latest journal.
unfoldable pub schedule_after : Journal → NotifierState → NotifierState
schedule_after latest s =
    let s' = record s { last_attempt = some latest.attempted_at } in
    if not latest.written && is_after latest.attempted_at s.last_written
    then record s' { next_attempt = latest.attempted_at + failed_delay latest.attempt_index }
    else elim s.outstanding_written [
      | some at ↦
          if ltb 0 s.outstanding
          then record s' { next_attempt = at + notification_retry_after s.outstanding }
          else s'
      | none ↦ s'
    ]

abbrev pub seen_by : ℕ → NotifierState → NotifierState
seen_by now s = elim s.first_seen [ some t ↦ s | none ↦ record s { first_seen = some now } ]

-- The journals that were read, in order.
abbrev pub restore_from : ℕ → ℕ → Option Sidecar → List Journal → NotifierState → NotifierState
restore_from now last_drain sidecar [] s = record s { first_seen = some now }
restore_from now last_drain sidecar (j ∷ js) s =
    let read = replay last_drain (is_current s.pending_digest sidecar) (j ∷ js) s in
    schedule_after (latest_of j js)
      (if any_current s.pending_digest (j ∷ js) then read else seen_by now read)

-- The state, and the world with the sidecar written, by what the directory of journals holds.
abbrev pub restore_with :
    ℕ → Bool → ℕ → NotifierState → World → Option (List Journal) → World × NotifierState
restore_with now sidecar_fails last_drain s w none =
    let s' = seen_by now s in
    (
      record w {
        sidecar = elim s.first_seen [
          | some t ↦ w.sidecar
          | none ↦ write_sidecar sidecar_fails s' w.sidecar
        ];
      },
      s',
    )
restore_with now sidecar_fails last_drain s w (some []) = (w, record s { first_seen = some now })
restore_with now sidecar_fails last_drain s w (some (j ∷ js)) =
    let s' = restore_from now last_drain w.sidecar (sort_journals (j ∷ js)) s in
    (record w { sidecar = write_sidecar sidecar_fails s' w.sidecar }, s')

-- `digest` is never empty here.
unfoldable pub restore_state : ℕ → Bool → Str → ℕ → Str → Str → World → World × NotifierState
restore_state now sidecar_fails token last_drain instance_id digest w =
    restore_with now sidecar_fails last_drain
      (from_sidecar digest w.sidecar (bare_state digest token)) w (w.journals instance_id)
