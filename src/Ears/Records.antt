-- ===== src/Ears/Records.antt =====
-- `parseListenerKeyValues`, `parseListenerComponent` and `parseListenerIdentity` of link/ears.go.
use khala_network.Common.{
  ℕ, Str, lit, str_eq, List, [], ◌∷◌, Option, none, some, Result, ok, err, ◌>>=◌, ◌>>◌, guard,
  if◌then◌else◌, Bool, true, not, ◌&&◌, ◌||◌,
}
use khala_network.Text.Strings.{cut}
use khala_network.Ears.Snapshot.{
  ListenerComponent, ListenerIdentity, valid_listener_value, value_or_dash, parse_nonnegative,
  valid_enums, route_agrees, digest_or_dash,
}

-- The texts of the errors are not modelled.
pub data SnapshotError : Type 0 where
  too_large too_many_lines not_ears long_record bad_record bad_token missing_token bad_enum
        bad_route bad_digest bad_number duplicate_identity missing_record other_node
        bad_truncation :
      SnapshotError

-- `values[key]`, which is empty where the key is missing.
unfoldable pub value_of : Str → List (Str × Str) → Str
value_of key [] = []
value_of key ((k, v) ∷ values) = let rest = value_of key values in if str_eq k key then v else rest

abbrev pub add_token :
    Option (Str × Str) → List (Str × Str) → Result SnapshotError (List (Str × Str))
add_token none values = err bad_token
add_token (some (key, value)) values =
    if str_eq key [] || (not (valid_listener_value value) || not (str_eq (value_of key values) []))
    then err bad_token
    else ok ((key, value) ∷ values)

unfoldable pub parse_key_values :
    List Str → List (Str × Str) → Result SnapshotError (List (Str × Str))
unfolding value_of valid_listener_value cut
parse_key_values [] values = ok values
parse_key_values (field ∷ fields) values =
    add_token (cut 61 field) values >>= λ values'. parse_key_values fields values'

unfoldable pub parse_component : List Str → Result SnapshotError ListenerComponent
unfolding value_of valid_listener_value
parse_component [] = err bad_record
parse_component (name ∷ fields) =
    guard (valid_listener_value name) bad_record
    >> (parse_key_values fields [] >>= λ values. ok (record {
      name = name;
      release = value_of (lit "release") values;
      adapter = value_of (lit "adapter") values;
      ears = value_of (lit "ears") values;
    }))

unfoldable pub has_all : List Str → List (Str × Str) → Bool
has_all [] values = true
has_all (key ∷ keys) values = not (str_eq (value_of key values) []) && has_all keys values

-- A number that may be missing, which counts as 0.
abbrev pub number_or_zero : Str → Result SnapshotError ℕ
number_or_zero [] = ok 0
number_or_zero (c ∷ value) = elim (parse_nonnegative (c ∷ value)) [
  | none ↦ err bad_number
  | some n ↦ ok n
]

-- The identity without its numbers.
abbrev pub identity_of : List (Str × Str) → ListenerIdentity
identity_of values = record {
  name = value_of (lit "name") values;
  principal = value_of (lit "principal") values;
  listening = str_eq (value_of (lit "listening") values) (lit "yes");
  route = value_of (lit "route") values;
  phase = value_or_dash (value_of (lit "phase") values);
  cc_version = value_or_dash (value_of (lit "cc") values);
  reason = value_of (lit "reason") values;
  pending_ring = 0;
  pending_info = 0;
  pending_operator = 0;
  generation = value_or_dash (value_of (lit "generation") values);
  first_seen = 0;
  oldest_pending = 0;
  written_rings = 0;
  last_written = 0;
  last_drain = 0;
  last_drain_before = value_or_dash (value_of (lit "last-drain-before") values);
  last_drain_after = value_or_dash (value_of (lit "last-drain-after") values);
  last_drain_status = value_or_dash (value_of (lit "last-drain-status") values);
}

unfoldable pub with_numbers :
    List (Str × Str) → ListenerIdentity → Result SnapshotError ListenerIdentity
unfolding value_of parse_nonnegative
with_numbers values i = number_or_zero (value_of (lit "first-seen") values) >>= λ first_seen.
    number_or_zero (value_of (lit "oldest-pending") values) >>= λ oldest_pending.
    number_or_zero (value_of (lit "last-written") values) >>= λ last_written.
    number_or_zero (value_of (lit "last-drain") values) >>= λ last_drain.
    number_or_zero (value_of (lit "pending-ring") values) >>= λ pending_ring.
    number_or_zero (value_of (lit "pending-info") values) >>= λ pending_info.
    number_or_zero (value_of (lit "pending-operator") values) >>= λ pending_operator.
    number_or_zero (value_of (lit "written-rings") values) >>= λ written_rings. ok (record i {
      first_seen = first_seen;
      oldest_pending = oldest_pending;
      last_written = last_written;
      last_drain = last_drain;
      pending_ring = pending_ring;
      pending_info = pending_info;
      pending_operator = pending_operator;
      written_rings = written_rings;
    })

abbrev pub mandatory_tokens : List Str
mandatory_tokens = lit "name" ∷ lit "principal" ∷ lit "listening" ∷ lit "route" ∷ lit "reason" ∷ []

abbrev pub valid_listening : Str → Bool
valid_listening value = str_eq value (lit "yes") || str_eq value (lit "no")

unfoldable pub check_identity : List (Str × Str) → Result SnapshotError ListenerIdentity
unfolding value_of has_all with_numbers valid_enums
check_identity values =
    let i = identity_of values in
    if not (has_all mandatory_tokens values)
    then err missing_token
    else if not (valid_listening (value_of (lit "listening") values))
    then err bad_enum
    else if not (valid_enums i)
    then err bad_enum
    else if not (route_agrees i)
    then err bad_route
    else if not (
        digest_or_dash i.generation
        && (digest_or_dash i.last_drain_before && digest_or_dash i.last_drain_after))
    then err bad_digest
    else with_numbers values i

unfoldable pub parse_identity : List Str → Result SnapshotError ListenerIdentity
unfolding check_identity
parse_identity fields = parse_key_values fields [] >>= check_identity
