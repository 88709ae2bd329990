-- ===== src/Gateway/Status.antt =====
-- The status lines of the sessions' topics: `deriveStatus` and `checkStatus` of link/gateway.go.
-- Times are seconds since 1970 and never negative; the difference of two is compared as a sum.
use khala_network.Common.{
  ℕ, ◌+◌, ◌-◌, ◌/◌, List, [], ◌∷◌, ◌++◌, if◌then◌else◌, Bool, true, false, not, ◌&&◌, ◌||◌, ltb,
  leb, ◌==◌, Str, lit, str_eq, Option, none, some,
}
use khala_network.Text.Strings.{cut}
use khala_network.Text.Numbers.{decimal}

abbrev pub status_spacing : ℕ
status_spacing = 300

abbrev pub snapshot_max_age : ℕ
snapshot_max_age = 600

-- The status words; `unset` is the empty word of a record that has not been announced.
pub data Kind : Type 0 where
  unset : Kind
  connected : Kind
  stalled : Kind
  disconnected : Kind

abbrev pub kind_eq : Kind → Kind → Bool
kind_eq unset unset = true
kind_eq connected connected = true
kind_eq stalled stalled = true
kind_eq disconnected disconnected = true
kind_eq _ _ = false

-- The fields of `statusRecord`, `listenerIdentity` and `listenerSnapshot` that the code here reads.
pub record StatusRecord : Type 0 where
  pub kind : Kind
  pub at : ℕ
  pub pending_since : ℕ

pub record Identity : Type 0 where
  pub name : Str
  pub route : Str
  pub pending_ring : ℕ
  pub first_seen : ℕ
  pub oldest_pending : ℕ

pub record Snapshot : Type 0 where
  pub written_at : ℕ
  pub state : Str
  pub complete : Bool
  pub identities : List Identity

pub record View : Type 0 where
  pub status : Kind
  pub text : Str
  pub unread : ℕ

abbrev pub view : Kind → Str → ℕ → View
view k t u = record { status = k; text = t; unread = u }

abbrev pub status_record : Kind → ℕ → ℕ → StatusRecord
status_record k a p = record { kind = k; at = a; pending_since = p }

abbrev pub with_since : ℕ → StatusRecord → StatusRecord
with_since p r = status_record (StatusRecord.kind r) (StatusRecord.at r) p

-- The last identity of that name.
abbrev pub find_identity : Str → List Identity → Option Identity
find_identity name [] = none
find_identity name (i ∷ is) = elim (find_identity name is) [
  | some j ↦ some j
  | none ↦ if str_eq (Identity.name i) name then some i else none
]

-- Since when messages have been unread, and the record with the gateway's own clock started if it
-- must serve.
abbrev pub unread_since : ℕ → Identity → StatusRecord → ℕ × StatusRecord
unread_since now i r =
    if not (Identity.oldest_pending i == 0)
    then (Identity.oldest_pending i, r)
    else if not (Identity.first_seen i == 0)
    then (Identity.first_seen i, r)
    else if StatusRecord.pending_since r == 0
    then (now, with_since now r)
    else (StatusRecord.pending_since r, r)

abbrev pub stall_view : ℕ → ℕ → ℕ → ℕ → View
stall_view now stall_after unread since =
    if leb (since + stall_after) now
    then view stalled (lit "stalled: unread for " ++ decimal ((now - since) / 60) ++ lit " min")
        unread
    else view connected (lit "connected") unread

abbrev pub identity_status : ℕ → ℕ → Identity → StatusRecord → (View × Bool) × StatusRecord
identity_status now stall_after i r =
    let unread = Identity.pending_ring i in
    if str_eq (Identity.route i) (lit "none")
    then ((view disconnected (lit "disconnected") unread, true), r)
    else if unread == 0
    then ((view connected (lit "connected") unread, true), with_since 0 r)
    else (let since = unread_since now i r in
        ((stall_view now stall_after unread since.0, true), since.1))

abbrev pub snapshot_status : ℕ → ℕ → Str → Snapshot → StatusRecord → (View × Bool) × StatusRecord
snapshot_status now stall_after name snapshot r =
    let gone = view disconnected (lit "disconnected") 0 in
    if ltb (Snapshot.written_at snapshot + snapshot_max_age) now
    then ((gone, true), with_since 0 r)
    else if str_eq (Snapshot.state snapshot) (lit "stopping")
    then ((gone, false), r)
    else elim (find_identity name (Snapshot.identities snapshot)) [
      | none ↦ ((gone, Snapshot.complete snapshot), with_since 0 r)
      | some i ↦ identity_status now stall_after i r
    ]

abbrev pub Snapshots : Type 0
Snapshots = Str → Option Snapshot

-- `strings.Cut(address, "@")`.
abbrev pub identity_of : Str → Str
identity_of address = elim (cut 64 address) [ some parts ↦ parts.0 | none ↦ address ]

abbrev pub node_of : Str → Str
node_of address = elim (cut 64 address) [ some parts ↦ parts.1 | none ↦ [] ]

unfoldable pub derive_status : ℕ → ℕ → Str → Snapshots → StatusRecord → (View × Bool) × StatusRecord
derive_status now stall_after address snapshots r = elim (snapshots (node_of address)) [
  | none ↦ ((view disconnected (lit "disconnected") 0, true), with_since 0 r)
  | some snapshot ↦ snapshot_status now stall_after (identity_of address) snapshot r
]

-- What `checkStatus` does with a topic: the line it posts, if any, and the topic's record.
abbrev pub announce_when : ℕ → View → StatusRecord → Bool → Option View × StatusRecord
announce_when now v r true =
    (some v, status_record (View.status v) now (StatusRecord.pending_since r))
announce_when now v r false = (none, r)

abbrev pub announce : ℕ → (View × Bool) × StatusRecord → Option View × StatusRecord
announce now ((v, known), r) = announce_when now v r (
    known
    && not (kind_eq (View.status v) (StatusRecord.kind r))
    && ((StatusRecord.at r == 0) || leb (StatusRecord.at r + status_spacing) now))

unfoldable pub check_topic : ℕ → ℕ → Str → Snapshots → StatusRecord → Option View × StatusRecord
check_topic now stall_after address snapshots r =
    announce now (derive_status now stall_after address snapshots r)
