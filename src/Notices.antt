-- ===== src/Notices.antt =====
-- link/parent.go: an identity without a running session has unread letters, and its parent is told.
-- `noticeParents` and `maybeNoticeParent` for one identity, and the record of what was told.
use khala_network.Common.{
  ℕ, ◌+◌, ◌-◌, ◌≡◌, Str, lit, str_eq, List, [], ◌∷◌, ◌++◌, length, Option, none, some,
  if◌then◌else◌, Bool, true, false, not, ◌&&◌, ◌||◌, ltb, leb, ◌==◌,
}
use khala_network.Text.Strings.{cut, cut_prefix, present, contains}
use khala_network.Text.Numbers.{decimal}
use khala_network.Names.{valid_node, valid_basename, is_reserved_identity}
use khala_network.Conduit.Ring.{unix}
pub mod Record
pub mod Told

pub data ParentError : Type 0 where
  invalid_parent : ParentError
  reserved_parent : ParentError
  own_parent : ParentError

-- `validateParent`: what is wrong with an address, if anything.
abbrev check_parent : Str → Str → Option (Str × Str) → Option ParentError
check_parent identity self none = some invalid_parent
check_parent identity self (some (name, node)) =
    if not (valid_node name) || not (valid_node node)
    then some invalid_parent
    else if is_reserved_identity name
    then some reserved_parent
    else if str_eq name identity && str_eq node self
    then some own_parent
    else none

unfoldable pub validate_parent : Str → Str → Str → Option ParentError
validate_parent parent identity self = check_parent identity self (cut 64 parent)

-- The lines that `bufio.Scanner` yields: a carriage return at the end of one is dropped.
abbrev onto_first : ℕ → List Str → List Str
onto_first c [] = (c ∷ []) ∷ []
onto_first c (l ∷ ls) = (c ∷ l) ∷ ls

unfoldable pub scan_lines : Str → List Str
scan_lines [] = []
scan_lines (c ∷ s) = let rest = scan_lines s in if c == 10 then [] ∷ rest else onto_first c rest

unfoldable pub drop_cr : Str → Str
drop_cr [] = []
drop_cr (c ∷ []) = if c == 13 then [] else c ∷ []
drop_cr (c ∷ (d ∷ s)) = c ∷ drop_cr (d ∷ s)

-- The longest line that a scanner yields, and the part of the file that is read.
abbrev pub max_token : ℕ
max_token = 65536

abbrev pub max_notice_file : ℕ
max_notice_file = 1048576

unfoldable pub covered_ids : List Str → List Str
covered_ids [] = []
covered_ids (l ∷ ls) =
    let rest = covered_ids ls in
    if leb max_token (length l)
    then []
    else if valid_basename (drop_cr l)
    then drop_cr l ∷ rest
    else rest

abbrev notice_prefix : Str
notice_prefix = lit "notice 1 "

abbrev pub covered_by : List Str → List Str
covered_by [] = []
covered_by (l ∷ ls) =
    if leb max_token (length l) || not (present (cut_prefix notice_prefix (drop_cr l)))
    then []
    else covered_ids ls

unfoldable pub limited : ℕ → Str → Str
limited n [] = []
limited n (c ∷ s) = let rest = limited (n - 1) s in if n == 0 then [] else c ∷ rest

-- `readParentNoticed`, of a file that may not be there.
unfoldable pub read_parent_noticed : Option Str → List Str
read_parent_noticed none = []
read_parent_noticed (some text) = covered_by (scan_lines (limited max_notice_file text))

abbrev pub id_lines : List Str → Str
id_lines [] = []
id_lines (id ∷ ids) = id ++ (10 ∷ id_lines ids)

abbrev pub notice_header : ℕ → Str → Str → Str
notice_header at notice_id parent =
    notice_prefix ++ (decimal at ++ (32 ∷ (notice_id ++ (32 ∷ parent))))

-- The text that `writeParentNoticed` writes; `at` is in seconds.
unfoldable pub parent_noticed : ℕ → Str → Str → List Str → Str
parent_noticed at notice_id parent ids = notice_header at notice_id parent ++ (10 ∷ id_lines ids)

unfoldable pub is_covered : Str → List Str → Bool
is_covered id [] = false
is_covered id (c ∷ cs) = let rest = is_covered id cs in str_eq c id || rest

unfoldable pub has_uncovered : List Str → List Str → Bool
has_uncovered [] covered = false
has_uncovered (id ∷ ids) covered =
    let rest = has_uncovered ids covered in not (is_covered id covered) || rest

-- What the notifier keeps of an identity: since when it waits, what the last notice covered, once that
-- was read, and the record of it. Times are nanoseconds.
pub record Wait : Type 0 where
  pub since : Option ℕ
  pub noticed : Option (List Str)
  pub file : Option Str

-- What one look at the identity meets. `letters` are the ids of its unread letters.
pub record Look : Type 0 where
  pub now : ℕ
  pub letters : List Str
  pub parent : Option Str
  pub is_live : Bool
  pub notice_id : Str
  pub queue_fails : Bool
  pub record_fails : Bool

pub record Notice : Type 0 where
  pub at : ℕ
  pub covered : List Str

-- The state after a look, and the notice that was queued, if any.
pub record Looked : Type 0 where
  pub wait : Wait
  pub notice : Option Notice

abbrev pub looked : Wait → Option Notice → Looked
looked w n = record { wait = w; notice = n }

abbrev pub or_now : ℕ → Option ℕ → ℕ
or_now now none = now
or_now now (some t) = t

unfoldable pub maybe_notice_parent : ℕ → Look → Str → Wait → Looked
maybe_notice_parent grace k parent w =
    let since = or_now k.now w.since in
    let w' = record w { since = some since } in
    if ltb (k.now - since) grace
    then looked w' none
    else if k.queue_fails
    then looked w' none
    else looked
        (record w {
          since = none;
          noticed = some k.letters;
          file =
              if k.record_fails
              then w.file
              else some (parent_noticed (unix (some k.now)) k.notice_id parent k.letters);
        })
        (some (record { at = k.now; covered = k.letters }))

-- What the last notice covered, from the record if it was not read yet.
abbrev pub load_noticed : Wait → List Str
load_noticed w = elim w.noticed [ some ids ↦ ids | none ↦ read_parent_noticed w.file ]

unfoldable pub notice_parents : ℕ → Look → Wait → Looked
notice_parents grace k w =
    let covered = load_noticed w in
    let w' = record w { noticed = some covered } in
    elim k.letters [
      | [] ↦ looked (record w { since = none }) none
      | id ∷ ids ↦
          if not (has_uncovered k.letters covered)
          then looked (record w' { since = none }) none
          else elim k.parent [
            | none ↦ looked (record w' { since = none }) none
            | some parent ↦
                if k.is_live
                then looked (record w' { since = none }) none
                else maybe_notice_parent grace k parent w'
          ]
    ]
