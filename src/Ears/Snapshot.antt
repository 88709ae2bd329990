-- ===== src/Ears/Snapshot.antt =====
-- The data of link/ears.go and the tests on their values.
use khala_network.Common.{
  ℕ, Str, lit, str_eq, List, [], ◌∷◌, length, Option, none, some, if◌then◌else◌, Bool, false, not,
  ◌&&◌, ◌||◌, leb, ◌==◌, all,
}
use khala_network.Text.Numbers.{Int64, parse_int, is_negative}

abbrev pub listener_reader_max_lines : ℕ
listener_reader_max_lines = 320

abbrev pub listener_max_record_bytes : ℕ
listener_max_record_bytes = 1024

pub record ListenerComponent : Type 0 where
  pub name : Str
  pub release : Str
  pub adapter : Str
  pub ears : Str

pub record ListenerIdentity : Type 0 where
  pub name : Str
  pub principal : Str
  pub listening : Bool
  pub route : Str
  pub phase : Str
  pub cc_version : Str
  pub reason : Str
  pub pending_ring : ℕ
  pub pending_info : ℕ
  pub pending_operator : ℕ
  pub generation : Str
  pub first_seen : ℕ
  pub oldest_pending : ℕ
  pub written_rings : ℕ
  pub last_written : ℕ
  pub last_drain : ℕ
  pub last_drain_before : Str
  pub last_drain_after : Str
  pub last_drain_status : Str

-- `link_age` is `none` where the code has -1.
pub record ListenerSnapshot : Type 0 where
  pub node : Str
  pub generation : ℕ
  pub written_at : ℕ
  pub interval : ℕ
  pub state : Str
  pub complete : Bool
  pub components : List ListenerComponent
  pub mailboxes : List Str
  pub link_age : Option ℕ
  pub identities : List ListenerIdentity
  pub truncated : ℕ

abbrev value_byte : ℕ → Bool
value_byte c =
    leb 97 c && leb c 122
    || (leb 65 c && leb c 90
        || (leb 48 c && leb c 57 || (c == 46 || (c == 95 || (c == 58 || (c == 43 || c == 45))))))

-- ^[A-Za-z0-9._:+-]{1,64}$
unfoldable pub valid_listener_value : Str → Bool
valid_listener_value value = all value_byte value && (leb 1 (length value) && leb (length value) 64)

-- ^[0-9a-f]{64}$
unfoldable pub is_queue_digest : Str → Bool
is_queue_digest value =
    all (λ c. leb 48 c && leb c 57 || leb 97 c && leb c 102) value && (length value == 64)

unfoldable pub one_of : Str → List Str → Bool
one_of value [] = false
one_of value (candidate ∷ allowed) = str_eq value candidate || one_of value allowed

abbrev pub value_or_dash : Str → Str
value_or_dash [] = lit "-"
value_or_dash (c ∷ value) = c ∷ value

abbrev pub nonnegative : Option Int64 → Option ℕ
nonnegative none = none
nonnegative (some i) = if is_negative i then none else some i.magnitude

-- `parseNonnegativeInt64`, and `strconv.Atoi` with its check.
unfoldable pub parse_nonnegative : Str → Option ℕ
unfolding parse_int
parse_nonnegative value = nonnegative (parse_int value)

-- The checks on an identity that reader and writer share.
unfoldable pub valid_enums : ListenerIdentity → Bool
unfolding one_of
valid_enums i =
    one_of i.principal (lit "session" ∷ lit "watcher" ∷ lit "gateway" ∷ [])
    && (one_of i.route (lit "socket" ∷ lit "channel" ∷ lit "channel+socket" ∷ lit "none" ∷ [])
        && (one_of i.reason (
              lit "-"
              ∷ lit "noreg"
              ∷ lit "boot"
              ∷ lit "phase"
              ∷ lit "optin"
              ∷ lit "pid"
              ∷ lit "session"
              ∷ lit "socket"
              ∷ lit "registry"
              ∷ lit "lease"
              ∷ [])
            && (one_of i.phase (lit "ready" ∷ lit "starting" ∷ lit "-" ∷ [])
                && one_of i.last_drain_status (lit "ok" ∷ lit "partial" ∷ lit "-" ∷ []))))

-- Listening and the route agree.
abbrev pub route_agrees : ListenerIdentity → Bool
route_agrees i =
    if i.listening then not (str_eq i.route (lit "none")) else str_eq i.route (lit "none")

abbrev pub digest_or_dash : Str → Bool
digest_or_dash value = str_eq value (lit "-") || is_queue_digest value
