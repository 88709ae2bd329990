-- ===== src/Ears/Accepted.antt =====
-- What a listener snapshot that link/ears.go accepts is like.
use khala_network.Common.{
  ℕ, ◌<◌, ◌≡◌, ◌≢◌, refl, Str, lit, str_eq, str_eq_sound, List, [], ◌∷◌, length, Result, ok, err,
  if◌then◌else◌, Bool, true, false, not, ◌&&◌, ◌||◌, ltb, leb, arith, All, all, Returns,
  Returns-bind, Returns-at,
}
use khala_network.Notices.{scan_lines}
use khala_network.Install.Presence.{listener_reader_max_bytes}
use khala_network.Ears.Snapshot.{
  ListenerComponent, ListenerSnapshot, listener_reader_max_lines, listener_max_record_bytes, one_of,
}
use khala_network.Ears.Records.{
  SnapshotError, too_large, too_many_lines, not_ears, long_record, missing_record, other_node,
  bad_truncation,
}
use khala_network.Ears.Identities.{IsIdentity}
use khala_network.Ears.Parse.{
  Reading, unread, read_records, all_seen, mandatory_records, is_last, finish_snapshot, read_lines,
  parse_snapshot,
}
use khala_network.Ears.Invariant.{Distinct, is_state, Fine, unread-Fine, read_records-Fine}

-- A snapshot that the other nodes can rely on: it is the node's own, its interval is positive, its state
-- is one of the two, it names a component, no identity is named twice and each is fine, and it says of a
-- complete list that nothing is left out.
pub record IsSnapshot (node : Str) (s : ListenerSnapshot) : Type 0 where
  pub own : s.node ≡ node
  pub timed : 0 < s.interval
  pub stated : is_state s.state ≡ true
  pub made : s.components ≢ []
  pub distinct : Distinct s.identities
  pub identities_fine : All IsIdentity s.identities
  pub whole : s.complete ≡ true → s.truncated ≡ 0

abbrev pub Accepts : Str → Result SnapshotError ListenerSnapshot → Type 0
Accepts node m = Returns (IsSnapshot node) m

Accepts-if :
    (node : Str) (b : Bool) (e : SnapshotError) (m : Result SnapshotError ListenerSnapshot)
    → (b ≡ false → Accepts node m)
    → Accepts node (if b then err e else m)
Accepts-if node true e m h = tt
Accepts-if node false e m h = h refl

finish_snapshot-Accepts :
    (node : Str) (lines : ℕ) (r : Reading) → Fine r → Accepts node (finish_snapshot node lines r)
unfolding finish_snapshot all_seen
finish_snapshot-Accepts node lines r h =
    Accepts-if node (not (all_seen mandatory_records r.seen)) missing_record _
      (λ e. made r.snapshot.components refl e)
  where
    truncated : Bool
    truncated = one_of (lit "truncated") r.seen

    made :
        (cs : List ListenerComponent)
        → r.snapshot.components ≡ cs
        → not (all_seen mandatory_records r.seen) ≡ false
        → Accepts node (elim cs [
          | [] ↦ err missing_record
          | _ ∷ _ ↦
              if not (str_eq r.snapshot.node node)
              then err other_node
              else if (if truncated then r.snapshot.complete else not r.snapshot.complete)
                  || truncated && not (is_last r.truncated_at lines)
              then err bad_truncation
              else ok r.snapshot
        ])
    made [] c e = tt
    made (c ∷ cs) f e = Accepts-if node (not (str_eq r.snapshot.node node)) other_node _ (λ n.
        Accepts-if node
          ((if truncated then r.snapshot.complete else not r.snapshot.complete)
            || truncated && not (is_last r.truncated_at lines))
          bad_truncation (ok r.snapshot)
          (λ t. record {
            own = str_eq_sound r.snapshot.node node (ground (arith, n));
            timed = h.timed (ground (arith, e));
            stated = h.stated (ground (arith, e));
            made = λ g. absurd (ground (arith, f, g));
            distinct = h.distinct;
            identities_fine = h.identities_fine;
            whole = λ g. h.whole (ground (arith, t, g));
          }))

read_lines-Accepts : (node : Str) (lines : List Str) → Accepts node (read_lines node lines)
read_lines-Accepts node [] = tt
read_lines-Accepts node (line ∷ lines) =
    Accepts-if node (ltb listener_reader_max_lines (length (line ∷ lines))) too_many_lines _ (λ _.
      Accepts-if node (not (str_eq line (lit "ears 1"))) not_ears _ (λ _.
        Accepts-if node (not (all (λ l. leb (length l) listener_max_record_bytes) (line ∷ lines)))
          long_record _
          (λ _. Returns-bind (IsSnapshot node) (read_records 0 lines unread) _ (λ r e.
            finish_snapshot-Accepts node (length (line ∷ lines)) r
              (Returns-at Fine _ e (read_records-Fine 0 lines unread unread-Fine))))))

-- Whatever the bytes are, a listener snapshot is refused or is one of the node that its file is named
-- after, with a positive interval, a state, a component, identities of distinct names that listen just
-- when they have a route and whose values are of their enumerations, and without a number of identities
-- left out if it is complete.
pub parse_snapshot-Accepts : (node bytes : Str) → Accepts node (parse_snapshot node bytes)
unfolding parse_snapshot
parse_snapshot-Accepts node bytes =
    Accepts-if node (ltb listener_reader_max_bytes (length bytes)) too_large _
      (λ _. read_lines-Accepts node (scan_lines bytes))
