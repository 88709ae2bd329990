-- ===== src/Ears/Parse.antt =====
-- `parseListenerSnapshotBytes` of link/ears.go.
use khala_network.Common.{
  ℕ, ◌+◌, ◌-◌, Str, lit, str_eq, List, [], ◌∷◌, ◌++◌, length, Option, none, some, Result, ok, err,
  ◌>>=◌, if◌then◌else◌, Bool, true, false, not, ◌&&◌, ◌||◌, ltb, leb, ◌==◌, all,
}
use khala_network.Text.Strings.{fields}
use khala_network.Names.{valid_node}
use khala_network.Notices.{scan_lines}
use khala_network.Install.Presence.{listener_reader_max_bytes}
use khala_network.Ears.Snapshot.{
  ListenerComponent, ListenerIdentity, ListenerSnapshot, listener_reader_max_lines,
  listener_max_record_bytes, one_of, parse_nonnegative,
}
use khala_network.Ears.Records.{
  SnapshotError, too_large, too_many_lines, not_ears, long_record, bad_record, duplicate_identity,
  missing_record, other_node, bad_truncation, parse_component, parse_identity,
}

-- The snapshot so far, the records that may come once and came, and the line of the record `truncated`.
pub record Reading : Type 0 where
  pub snapshot : ListenerSnapshot
  pub seen : List Str
  pub truncated_at : Option ℕ

abbrev pub unread : Reading
unread = record {
  snapshot = record {
    node = [];
    generation = 0;
    written_at = 0;
    interval = 0;
    state = [];
    complete = false;
    components = [];
    mailboxes = [];
    link_age = none;
    identities = [];
    truncated = 0;
  };
  seen = [];
  truncated_at = none;
}

-- `single`, with the check that the record has one value, and what is done with the value.
unfoldable pub single :
    Str → (Str → Option ListenerSnapshot) → List Str → Reading → Result SnapshotError Reading
unfolding one_of
single key use_value (value ∷ []) r =
    if one_of key r.seen then err bad_record else elim (use_value value) [
      | none ↦ err bad_record
      | some s ↦ ok (record r { snapshot = s; seen = key ∷ r.seen })
    ]
single key use_value _ r = err bad_record

abbrev pub set_number : (ℕ → ListenerSnapshot) → Str → Option ListenerSnapshot
set_number set value = elim (parse_nonnegative value) [ none ↦ none | some n ↦ some (set n) ]

abbrev pub set_interval : ListenerSnapshot → Str → Option ListenerSnapshot
set_interval s value = elim (parse_nonnegative value) [
  | none ↦ none
  | some n ↦ if n == 0 then none else some (record s { interval = n })
]

abbrev pub set_link : ListenerSnapshot → Str → Option ListenerSnapshot
set_link s value =
    if str_eq value (lit "-")
    then some s
    else set_number (λ n. record s { link_age = some n }) value

abbrev pub set_state : ListenerSnapshot → Str → Option ListenerSnapshot
set_state s value =
    if str_eq value (lit "running") || str_eq value (lit "stopping")
    then some (record s { state = value })
    else none

abbrev pub set_complete : ListenerSnapshot → Str → Option ListenerSnapshot
set_complete s value =
    if str_eq value (lit "yes") || str_eq value (lit "no")
    then some (record s { complete = str_eq value (lit "yes") })
    else none

abbrev pub read_mailboxes : List Str → Reading → Result SnapshotError Reading
read_mailboxes [] r = err bad_record
read_mailboxes (value ∷ values) r =
    let r' = record r { seen = lit "mailbox" ∷ r.seen } in
    let none_named = str_eq value (lit "-") && elim values [ [] ↦ true | _ ∷ _ ↦ false ] in
    if one_of (lit "mailbox") r.seen
    then err bad_record
    else if none_named
    then ok r'
    else if all valid_node (value ∷ values)
    then ok (record r' { snapshot = record r.snapshot { mailboxes = value ∷ values } })
    else err bad_record

unfoldable pub is_named : Str → List ListenerIdentity → Bool
is_named name [] = false
is_named name (i ∷ is') = str_eq i.name name || is_named name is'

abbrev pub add_identity : ListenerIdentity → Reading → Result SnapshotError Reading
add_identity i r =
    if is_named i.name r.snapshot.identities
    then err duplicate_identity
    else ok (record r {
      snapshot = record r.snapshot { identities = r.snapshot.identities ++ (i ∷ []) };
    })

abbrev pub add_component : ListenerComponent → Reading → Reading
add_component c r = record r {
  snapshot = record r.snapshot { components = r.snapshot.components ++ (c ∷ []) };
}

abbrev pub read_truncated : ℕ → List Str → Reading → Result SnapshotError Reading
read_truncated index args r =
    single (lit "truncated") (set_number (λ n. record r.snapshot { truncated = n })) args r
    >>= λ r'. ok (record r' { truncated_at = some (index + 1) })

-- The record at an index of the lines after the first.
unfoldable pub read_record : ℕ → Str → List Str → Reading → Result SnapshotError Reading
unfolding single is_named parse_nonnegative one_of valid_node
read_record index key args r =
    let s = r.snapshot in
    if str_eq key (lit "node")
    then single (lit "node") (λ v. some (record s { node = v })) args r
    else if str_eq key (lit "generation")
    then single (lit "generation") (set_number (λ n. record s { generation = n })) args r
    else if str_eq key (lit "written-at")
    then single (lit "written-at") (set_number (λ n. record s { written_at = n })) args r
    else if str_eq key (lit "interval")
    then single (lit "interval") (set_interval s) args r
    else if str_eq key (lit "state")
    then single (lit "state") (set_state s) args r
    else if str_eq key (lit "complete")
    then single (lit "complete") (set_complete s) args r
    else if str_eq key (lit "component")
    then parse_component args >>= (λ c. ok (add_component c r))
    else if str_eq key (lit "mailbox")
    then read_mailboxes args r
    else if str_eq key (lit "link")
    then single (lit "link") (set_link s) args r
    else if str_eq key (lit "identity")
    then parse_identity args >>= (λ i. add_identity i r)
    else if str_eq key (lit "truncated")
    then read_truncated index args r
    else ok r

unfoldable pub read_fields : ℕ → List Str → Reading → Result SnapshotError Reading
unfolding read_record
read_fields index [] r = ok r
read_fields index (key ∷ args) r = read_record index key args r

unfoldable pub read_records : ℕ → List Str → Reading → Result SnapshotError Reading
unfolding read_fields fields
read_records index [] r = ok r
read_records index (line ∷ lines) r =
    read_fields index (fields line) r >>= λ r'. read_records (index + 1) lines r'

unfoldable pub all_seen : List Str → List Str → Bool
unfolding one_of
all_seen [] seen = true
all_seen (key ∷ keys) seen = one_of key seen && all_seen keys seen

abbrev pub mandatory_records : List Str
mandatory_records =
    lit "node"
    ∷ lit "generation"
    ∷ lit "written-at"
    ∷ lit "interval"
    ∷ lit "state"
    ∷ lit "complete"
    ∷ lit "mailbox"
    ∷ lit "link"
    ∷ []

abbrev pub is_last : Option ℕ → ℕ → Bool
is_last none lines = false
is_last (some at) lines = at == lines - 1

-- The checks after the loop, of a file of so many lines.
unfoldable pub finish_snapshot : Str → ℕ → Reading → Result SnapshotError ListenerSnapshot
unfolding all_seen one_of
finish_snapshot node lines r =
    let truncated = one_of (lit "truncated") r.seen in
    if not (all_seen mandatory_records r.seen)
    then err missing_record
    else elim r.snapshot.components [
      | [] ↦ err missing_record
      | _ ∷ _ ↦
          if not (str_eq r.snapshot.node node)
          then err other_node
          else if (if truncated then r.snapshot.complete else not r.snapshot.complete)
              || truncated && not (is_last r.truncated_at lines)
          then err bad_truncation
          else ok r.snapshot
    ]

abbrev pub read_lines : Str → List Str → Result SnapshotError ListenerSnapshot
read_lines node [] = err not_ears
read_lines node (line ∷ lines) =
    if ltb listener_reader_max_lines (length (line ∷ lines))
    then err too_many_lines
    else if not (str_eq line (lit "ears 1"))
    then err not_ears
    else if not (all (λ l. leb (length l) listener_max_record_bytes) (line ∷ lines))
    then err long_record
    else read_records 0 lines unread >>= finish_snapshot node (length (line ∷ lines))

-- `parseListenerSnapshotBytes`, of the node that the file is named after.
unfoldable pub parse_snapshot : Str → Str → Result SnapshotError ListenerSnapshot
unfolding read_records finish_snapshot scan_lines
parse_snapshot node bytes =
    if ltb listener_reader_max_bytes (length bytes)
    then err too_large
    else read_lines node (scan_lines bytes)
