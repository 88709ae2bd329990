-- ===== src/Examples/Listening.antt =====
-- A listener snapshot of two identities: written and read back.
use khala_network.Common.{
  ℕ, ◌≡◌, refl, Str, lit, List, [], ◌∷◌, ◌++◌, Option, none, some, Result, ok, err, Bool, true,
  false, inl, inr,
}
use khala_network.Text.Strings.{fields, cut}
use khala_network.Text.Numbers.{decimal, parse_int, digits}
use khala_network.Text.Regex.{matches}
use khala_network.Names.{valid_node}
use khala_network.Notices.{scan_lines}
use khala_network.Conduit.Inbox.{sort_strings, insert_sorted}
use khala_network.Text.Strings.{str_lt}
use khala_network.Ears.Snapshot.{
  ListenerIdentity, ListenerSnapshot, valid_listener_value, is_queue_digest, one_of,
  parse_nonnegative, valid_enums,
}
use khala_network.Ears.Records.{
  SnapshotError, duplicate_identity, value_of, parse_key_values, parse_component, has_all,
  with_numbers, check_identity, parse_identity,
}
use khala_network.Ears.Parse.{
  single, is_named, read_record, read_fields, read_records, all_seen, finish_snapshot,
  parse_snapshot,
}
use khala_network.Ears.Accepted.{Accepts, parse_snapshot-Accepts}
use khala_network.Ears.Format.{
  safe_value, safe_digest, unique, safe_sorted_unique, identity_line, format_identity,
  insert_identity, sort_identities, format_identities, build_header, has_short_lines, fitting,
  Formatted, text_of, format_snapshot,
}
use khala_network.Ears.Bounds.{Written, format_snapshot-Written}
use khala_network.Ears.Sequence.{
  above, next_sequence, Write, write_snapshot, generations, Increasing, generations-Increasing,
}

abbrev identity : Str → ListenerIdentity
identity name = record {
  name = name;
  principal = lit "session";
  listening = true;
  route = lit "socket";
  phase = lit "ready";
  cc_version = lit "2.1.0";
  reason = lit "-";
  pending_ring = 2;
  pending_info = 0;
  pending_operator = 0;
  generation = lit "-";
  first_seen = 1700000000;
  oldest_pending = 0;
  written_rings = 1;
  last_written = 0;
  last_drain = 0;
  last_drain_before = lit "-";
  last_drain_after = lit "-";
  last_drain_status = lit "ok";
}

abbrev snapshot : Bool → List ListenerIdentity → ListenerSnapshot
snapshot complete identities = record {
  node = lit "n";
  generation = 1700000001;
  written_at = 1700000000;
  interval = 60;
  state = lit "running";
  complete = complete;
  components =
      record { name = lit "conduit"; release = lit "1.0"; adapter = lit "1"; ears = lit "1" } ∷ [];
  mailboxes = lit "hub" ∷ [];
  link_age = some 3;
  identities = identities;
  truncated = 0;
}

abbrev read_back : Option Formatted → Option (Result SnapshotError ListenerSnapshot)
read_back none = none
read_back (some f) = some (parse_snapshot (lit "n") (text_of f))

round_trip :
    read_back (format_snapshot (snapshot true (identity (lit "b") ∷ identity (lit "a") ∷ [])))
    ≡ some (ok (snapshot true (identity (lit "a") ∷ identity (lit "b") ∷ [])))
unfolding format_snapshot sort_identities insert_identity format_identities format_identity
    identity_line safe_value safe_digest safe_sorted_unique unique build_header has_short_lines
    fitting valid_listener_value is_queue_digest one_of valid_enums valid_node matches sort_strings
    insert_sorted str_lt decimal parse_snapshot finish_snapshot read_records read_fields read_record
    single is_named all_seen scan_lines fields cut parse_nonnegative parse_int digits value_of
    parse_key_values parse_component has_all with_numbers check_identity parse_identity
round_trip = refl

abbrev long_name : Str → Str
long_name last = lit "a-name-of-an-identity-that-is-a-good-node-name-but-longer-than-64-" ++ last

-- Names of identities that are longer than 64 bytes are all written as a dash: of two such identities the
-- snapshot is refused.
dashes_refused :
    read_back (
      format_snapshot
        (snapshot true (identity (long_name (lit "b")) ∷ identity (long_name (lit "a")) ∷ [])))
    ≡ some (err duplicate_identity)
unfolding format_snapshot sort_identities insert_identity format_identities format_identity
    identity_line safe_value safe_digest safe_sorted_unique unique build_header has_short_lines
    fitting valid_listener_value is_queue_digest one_of valid_enums valid_node matches sort_strings
    insert_sorted str_lt decimal parse_snapshot finish_snapshot read_records read_fields read_record
    single is_named all_seen scan_lines fields cut parse_nonnegative parse_int digits value_of
    parse_key_values parse_component has_all with_numbers check_identity parse_identity
dashes_refused = refl

abbrev text_or_nothing : Option Formatted → Str
text_or_nothing none = []
text_or_nothing (some f) = text_of f

abbrev text : Str
text = text_or_nothing (format_snapshot (snapshot true (identity (lit "a") ∷ [])))

parse_snapshot-Accepts_example : Accepts (lit "n") (parse_snapshot (lit "n") text)
parse_snapshot-Accepts_example = parse_snapshot-Accepts (lit "n") text

format_snapshot-Written_example :
    Written
      (snapshot true (identity (lit "a") ∷ []))
      (format_snapshot (snapshot true (identity (lit "a") ∷ [])))
format_snapshot-Written_example = format_snapshot-Written (snapshot true (identity (lit "a") ∷ []))

abbrev write_at : ℕ → Bool → Bool → Write
write_at now own_unread state_unread = record {
  now = now;
  own_unread = own_unread;
  state_unread = state_unread;
  state_fails = false;
  snapshot_fails = false;
}

-- The clock goes back, and a file is not read.
abbrev writes : List Write
writes = write_at 100 false false ∷ write_at 50 true false ∷ write_at 60 false true ∷ []

generations_test : generations writes (record { own = 7; state = 7 }) ≡ (100 ∷ 101 ∷ 102 ∷ [])
unfolding generations write_snapshot next_sequence above
generations_test = refl

generations-Increasing_example : Increasing 7 (generations writes (record { own = 7; state = 7 }))
generations-Increasing_example =
    generations-Increasing writes 7 (inl refl, (inr refl, (inl refl, tt)))
