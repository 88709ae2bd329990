-- ===== src/Examples/Parents.antt =====
-- The parent of a session that has ended is told of two letters, once each.
use khala_network.Common.{
  ℕ, ◌*◌, ◌≤◌, ◌≡◌, refl, subst, Str, lit, List, [], ◌∷◌, length, none, some, false, arith, All,
}
use mathlib.Core.Option.{some-injective}
use khala_network.Text.Strings.{contains, cut, cut_prefix}
use khala_network.Text.Regex.{matches}
use khala_network.Text.Numbers.{decimal}
use khala_network.Names.{valid_node, valid_basename, is_reserved_identity}
use khala_network.Conduit.Schedule.{minute}
use khala_network.Conduit.Ring.{unix}
use khala_network.Notices.{
  validate_parent, own_parent, scan_lines, drop_cr, covered_ids, limited, read_parent_noticed,
  notice_header, parent_noticed, is_covered, has_uncovered, Wait, Look, maybe_notice_parent,
  notice_parents, max_notice_file,
}
use khala_network.Notices.Record.{IsId, IsHeader, read_parent_noticed-parent_noticed}
use khala_network.Notices.Told.{
  Moment, look, restarted, notices, Told, Recorded, untold, notices-Told,
}

abbrev parent : Str
parent = lit "p@n"

abbrev look_at : ℕ → List Str → Look
look_at now letters = record {
  now = now;
  letters = letters;
  parent = some parent;
  is_live = false;
  notice_id = lit "1.0.2.conduit@n";
  queue_fails = false;
  record_fails = false;
}

abbrev moments : List Moment
moments =
    look (look_at 0 (lit "a" ∷ []))
    ∷ look (look_at (3 * minute) (lit "a" ∷ []))
    ∷ restarted
    ∷ look (look_at (6 * minute) (lit "a" ∷ []))
    ∷ look (look_at (7 * minute) (lit "a" ∷ lit "b" ∷ []))
    ∷ look (look_at (9 * minute) (lit "a" ∷ lit "b" ∷ []))
    ∷ []

abbrev unseen : Wait
unseen = record { since = none; noticed = none; file = none }

moments_told : notices (2 * minute) moments unseen ≡ (
    record { at = 3 * minute; covered = lit "a" ∷ [] }
    ∷ record { at = 9 * minute; covered = lit "a" ∷ lit "b" ∷ [] }
    ∷ [])
unfolding notice_parents maybe_notice_parent read_parent_noticed scan_lines drop_cr covered_ids
    limited parent_noticed is_covered has_uncovered valid_basename matches contains cut_prefix
    decimal
moments_told = refl

own_parent_refused : validate_parent (lit "a@n") (lit "a") (lit "n") ≡ some own_parent
unfolding validate_parent valid_node matches is_reserved_identity cut
own_parent_refused = refl

-- The witnesses.
recorded :
    (now : ℕ) (letters : List Str)
    → All IsId letters
    → IsHeader (notice_header (unix (some now)) (lit "1.0.2.conduit@n") parent)
    → length (parent_noticed (unix (some now)) (lit "1.0.2.conduit@n") parent letters)
      ≤ max_notice_file
    → Recorded (look_at now letters)
recorded now letters ids h fits = record {
  saved = refl;
  ids = ids;
  header = λ p e.
      subst (λ q. IsHeader (notice_header (unix (some now)) (lit "1.0.2.conduit@n") q))
        (some-injective parent p e) h;
  fits = λ p e.
      subst
        (λ q.
          length (parent_noticed (unix (some now)) (lit "1.0.2.conduit@n") q letters)
          ≤ max_notice_file)
        (some-injective parent p e) fits;
}

only_a : All IsId (lit "a" ∷ [])
unfolding valid_basename matches contains cut_prefix
only_a = (record { valid = refl; short = omega arith }, tt)

a_and_b : All IsId (lit "a" ∷ lit "b" ∷ [])
unfolding valid_basename matches contains cut_prefix
a_and_b = (
  record { valid = refl; short = omega arith },
  (record { valid = refl; short = omega arith }, tt),
)

notices-Told_example : Told (2 * minute) none (notices (2 * minute) moments unseen)
unfolding contains decimal parent_noticed
notices-Told_example = notices-Told {last = 0} (2 * minute) moments unseen (untold unseen) (
  recorded 0 _ only_a (record { one_line = refl; no_return = refl; short = omega arith })
      (omega arith),
  (
    omega arith,
    (
      recorded (3 * minute) _ only_a
          (record { one_line = refl; no_return = refl; short = omega arith }) (omega arith),
      (
        omega arith,
        (
          recorded (6 * minute) _ only_a
              (record { one_line = refl; no_return = refl; short = omega arith }) (omega arith),
          (
            omega arith,
            (
              recorded (7 * minute) _ a_and_b
                  (record { one_line = refl; no_return = refl; short = omega arith }) (omega arith),
              (
                omega arith,
                (
                  recorded (9 * minute) _ a_and_b
                      (record { one_line = refl; no_return = refl; short = omega arith })
                      (omega arith),
                  (omega arith, tt),
                ),
              ),
            ),
          ),
        ),
      ),
    ),
  ),
)

read_parent_noticed-parent_noticed_example :
    read_parent_noticed
      (some (parent_noticed 180 (lit "1.0.2.conduit@n") parent (lit "a" ∷ lit "b" ∷ [])))
    ≡ (lit "a" ∷ lit "b" ∷ [])
unfolding contains decimal parent_noticed
read_parent_noticed-parent_noticed_example =
    read_parent_noticed-parent_noticed 180 (lit "1.0.2.conduit@n") parent (lit "a" ∷ lit "b" ∷ [])
      (record { one_line = refl; no_return = refl; short = omega arith }) a_and_b (omega arith)
