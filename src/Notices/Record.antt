-- ===== src/Notices/Record.antt =====
-- What link/parent.go reads back of a parent notice that it recorded.
use khala_network.Common.{
  ℕ, ◌-◌, ◌≤◌, ◌<◌, ◌≡◌, refl, ap, ◌∙◌, Str, List, [], ◌∷◌, ◌++◌, length, some, true, false, leb,
  arith, All, both_true,
}
use khala_network.Text.Strings.{contains, cut_prefix, present}
use khala_network.Text.Regex.{matches-avoids}
use khala_network.Names.{base_pattern, valid_basename}
use khala_network.Notices.{
  scan_lines, drop_cr, max_token, max_notice_file, covered_ids, notice_prefix, covered_by, limited,
  read_parent_noticed, id_lines, notice_header, parent_noticed,
}

limited-all : (n : ℕ) (s : Str) → length s ≤ n → limited n s ≡ s
unfolding limited
limited-all n [] h = refl
limited-all n (c ∷ s) h = let rest = limited-all (n - 1) s (omega arith) in ground (arith, rest)

scan_lines-line :
    (l rest : Str) → contains 10 l ≡ false → scan_lines (l ++ (10 ∷ rest)) ≡ (l ∷ scan_lines rest)
unfolding scan_lines contains
scan_lines-line [] rest h = refl
scan_lines-line (c ∷ l) rest h = rw (scan_lines-line l rest (ground arith)) (ground arith)

drop_cr-plain : (l : Str) → contains 13 l ≡ false → drop_cr l ≡ l
unfolding drop_cr contains
drop_cr-plain [] h = refl
drop_cr-plain (c ∷ []) h = ground arith
drop_cr-plain (c ∷ (d ∷ s)) h = ap (◌∷◌ c) (drop_cr-plain (d ∷ s) (ground arith))

-- An id that is the name of a letter's file.
pub record IsId (id : Str) : Type 0 where
  pub valid : valid_basename id ≡ true
  pub short : length id < max_token

valid_basename-plain :
    (id : Str) → valid_basename id ≡ true → (contains 10 id ≡ false) × (contains 13 id ≡ false)
unfolding valid_basename
valid_basename-plain id h =
    let m = (both_true _ _ h).0 in
    (matches-avoids 10 base_pattern id m refl, matches-avoids 13 base_pattern id m refl)

scan_lines-id_lines : (ids : List Str) → All IsId ids → scan_lines (id_lines ids) ≡ ids
unfolding scan_lines
scan_lines-id_lines [] h = refl
scan_lines-id_lines (id ∷ ids) (p, h) =
    scan_lines-line id (id_lines ids) (valid_basename-plain id p.valid).0
    ∙ ap (◌∷◌ id) (scan_lines-id_lines ids h)

covered_ids-valid : (ids : List Str) → All IsId ids → covered_ids ids ≡ ids
unfolding covered_ids
covered_ids-valid [] h = refl
covered_ids-valid (id ∷ ids) (p, h) =
    let rest = covered_ids-valid ids h in
    let plain = drop_cr-plain id (valid_basename-plain id p.valid).1 in
    rw (plain, p.valid) (ground (arith, p.short, rest))

-- A header of one line that a scanner yields.
pub record IsHeader (header : Str) : Type 0 where
  pub one_line : contains 10 header ≡ false
  pub no_return : contains 13 header ≡ false
  pub short : length header < max_token

not_leb : (n m : ℕ) → n < m → leb m n ≡ false
not_leb n m h = ground arith

covered_by-header :
    (header : Str) (ids : List Str)
    → IsHeader header
    → present (cut_prefix notice_prefix header) ≡ true
    → covered_by (header ∷ ids) ≡ covered_ids ids
covered_by-header header ids p e =
    rw (not_leb (length header) max_token p.short, drop_cr-plain header p.no_return, e) refl

-- The ids that a notice covered are read back from its record, if its header is one line, the ids are
-- names, each line is within a scanner's limit and the file within that of the reader.
pub read_parent_noticed-parent_noticed :
    (at : ℕ) (notice_id parent : Str) (ids : List Str)
    → IsHeader (notice_header at notice_id parent)
    → All IsId ids
    → length (parent_noticed at notice_id parent ids) ≤ max_notice_file
    → read_parent_noticed (some (parent_noticed at notice_id parent ids)) ≡ ids
unfolding read_parent_noticed parent_noticed cut_prefix
read_parent_noticed-parent_noticed at notice_id parent ids p h fits =
    let header = notice_header at notice_id parent in
    rw
      (
        limited-all max_notice_file _ fits,
        scan_lines-line header (id_lines ids) p.one_line,
        scan_lines-id_lines ids h,
      )
      (covered_by-header header ids p refl ∙ covered_ids-valid ids h)
