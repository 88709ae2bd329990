-- ===== src/Ears/Bounds.antt =====
-- What the snapshots that link/ears.go writes hold, and how large they are.
use khala_network.Common.{
  ℕ, ◌+◌, ◌-◌, ◌≤◌, ◌≡◌, refl, sym, subst, ap, Str, List, [], ◌∷◌, ◌++◌, length, length-append,
  Option, none, some, if◌then◌else◌, Bool, true, false, not, ◌&&◌, ltb, leb, arith,
}
use mathlib.Core.List.{Permᴰ}
use khala_network.Ears.Snapshot.{ListenerSnapshot, ListenerIdentity}
use khala_network.Ears.Order.{
  Ordered, Lines, LinesOf, sort_identities-Permᴰ, sort_identities-Ordered,
  format_identities-LinesOf,
}
use khala_network.Ears.Format.{
  listener_writer_max_bytes, listener_writer_max_identities, sort_identities, format_identities,
  joined_text, has_short_lines, trailer, fitting, build_header, Formatted, text_of, truncate,
  format_lines, valid_header, format_snapshot,
}

-- The lines that are left out.
abbrev pub LeftOut : Option ℕ → List Str → Type 0
LeftOut none rest = rest ≡ []
LeftOut (some n) rest = n ≡ length rest

-- A text of the first of these lines, within the limits.
pub record Holds (lines : List Str) (f : Formatted) : Type 0 where
  pub rest : List Str
  pub in_order : lines ≡ f.lines ++ rest
  pub counted : LeftOut f.omitted rest
  pub few : length f.lines ≤ 256
  pub small : length (text_of f) ≤ 98304
  pub short_header : has_short_lines f.header ≡ true

abbrev Maybe : (Formatted → Type 0) → Option Formatted → Type 0
Maybe P none = Unit
Maybe P (some f) = P f

Maybe-if :
    (P : Formatted → Type 0) (b : Bool) (x y : Option Formatted)
    → (b ≡ true → Maybe P x)
    → (b ≡ false → Maybe P y)
    → Maybe P (if b then x else y)
Maybe-if P true x y h k = h refl
Maybe-if P false x y h k = k refl

-- A beginning of the lines, with the rest.
record Begins (lines kept : List Str) : Type 0 where
  rest : List Str
  in_order : lines ≡ kept ++ rest

Begins-if :
    (lines : List Str) (b : Bool) (x y : List Str)
    → Begins lines x
    → Begins lines y
    → Begins lines (if b then x else y)
Begins-if lines true x y p q = p
Begins-if lines false x y p q = q

fitting-Begins : (used written : ℕ) (lines : List Str) → Begins lines (fitting used written lines)
unfolding fitting
fitting-Begins used written [] = record { rest = []; in_order = refl }
fitting-Begins used written (line ∷ lines) =
    let b = fitting-Begins (used + length line) (written + 1) lines in
    Begins-if (line ∷ lines) (not (ltb written listener_writer_max_identities)) [] _
      (record { rest = line ∷ lines; in_order = refl })
      (Begins-if (line ∷ lines)
        (ltb listener_writer_max_bytes (used + length line + length (trailer (length lines)))) [] _
        (record { rest = line ∷ lines; in_order = refl })
        (record { rest = b.rest; in_order = ap (◌∷◌ line) b.in_order }))

length-fitting :
    (used written : ℕ) (lines : List Str)
    → written ≤ listener_writer_max_identities
    → written + length (fitting used written lines) ≤ listener_writer_max_identities
unfolding fitting
length-fitting used written [] h = omega arith
length-fitting used written (line ∷ lines) h =
    let rest = length-fitting (used + length line) (written + 1) lines in ground (arith, h, rest)

append_nil : (s : Str) → s ++ [] ≡ s
append_nil [] = refl
append_nil (c ∷ s) = ap (◌∷◌ c) (append_nil s)

nil_end : (ls : List Str) → ls ≡ ls ++ []
nil_end [] = refl
nil_end (l ∷ ls) = ap (◌∷◌ l) (nil_end ls)

text_length : (a b c : Str) → length (a ++ (b ++ c)) ≡ length (a ++ b) + length c
text_length a b c = ground (arith, length-append a (b ++ c), length-append b c, length-append a b)

truncate-Holds : (header : Str) (lines : List Str) → Maybe (Holds lines) (truncate header lines)
truncate-Holds header lines =
    let kept = fitting (length header) 0 lines in
    let omitted = length lines - length kept in
    let begins = fitting-Begins (length header) 0 lines in
    Maybe-if (Holds lines) (not (has_short_lines header)) none _ (λ _. tt)
      (λ e.
        Maybe-if (Holds lines)
          (ltb listener_writer_max_bytes
            (length (header ++ joined_text kept) + length (trailer omitted)))
          none _ (λ _. tt)
          (λ f. record {
            rest = begins.rest;
            in_order = begins.in_order;
            counted = ground (arith, ap length begins.in_order, length-append kept begins.rest);
            few = ground (arith, length-fitting (length header) 0 lines (omega arith));
            small = ground (arith, f, text_length header (joined_text kept) (trailer omitted));
            short_header = ground (arith, e);
          }))

format_lines-Holds :
    (s : ListenerSnapshot) (lines : List Str) → Maybe (Holds lines) (format_lines s lines)
format_lines-Holds s lines =
    let few = leb (length lines) listener_writer_max_identities in
    let header = build_header s few in
    Maybe-if (Holds lines) (not (has_short_lines header)) none _ (λ _. tt)
      (λ e.
        Maybe-if (Holds lines)
          (few && leb (length (header ++ joined_text lines)) listener_writer_max_bytes) _ _
          (λ f. record {
            rest = [];
            in_order = nil_end lines;
            counted = refl;
            few = ground (arith, f);
            small =
                subst (λ t. length (header ++ t) ≤ listener_writer_max_bytes)
                  (sym (append_nil (joined_text lines))) (ground (arith, f));
            short_header = ground (arith, e);
          })
          (λ _. truncate-Holds (build_header s false) lines))

-- The identities of a snapshot in the order of their names, with the lines of which a text is.
pub record Covers (s : ListenerSnapshot) (f : Formatted) : Type 0 where
  pub order : List ListenerIdentity
  pub same : Permᴰ s.identities order
  pub ordered : Ordered order
  pub lines : List Str
  pub lines_of : Lines order lines
  pub holds : Holds lines f

abbrev pub Written : ListenerSnapshot → Option Formatted → Type 0
Written s none = Unit
Written s (some f) = Covers s f

lines-Written :
    (s : ListenerSnapshot) (lines : List Str) (o : Option Formatted)
    → Lines (sort_identities s.identities) lines
    → Maybe (Holds lines) o
    → Written s o
lines-Written s lines none e h = tt
lines-Written s lines (some f) e h = record {
  order = sort_identities s.identities;
  same = sort_identities-Permᴰ s.identities;
  ordered = sort_identities-Ordered s.identities;
  lines = lines;
  lines_of = e;
  holds = h;
}

Written-if :
    (s : ListenerSnapshot) (b : Bool) (m : Option Formatted)
    → Written s m
    → Written s (if b then none else m)
Written-if s true m h = tt
Written-if s false m h = h

-- A snapshot that `formatListenerSnapshot` writes is at most 96 KiB long, with records of at most 1024
-- bytes. Its identities are those of the snapshot in the order of their names as written: it lists the
-- line of each from the first on, at most 256 of them, and each identity that it does not list is counted
-- by its last record.
pub format_snapshot-Written : (s : ListenerSnapshot) → Written s (format_snapshot s)
unfolding format_snapshot
format_snapshot-Written s = Written-if s (not (valid_header s)) _ (
    by_lines (format_identities (sort_identities s.identities))
      (format_identities-LinesOf (sort_identities s.identities)))
  where
    by_lines :
        (o : Option (List Str))
        → LinesOf (sort_identities s.identities) o
        → Written s (elim o [ none ↦ none | some lines ↦ format_lines s lines ])
    by_lines none e = tt
    by_lines (some lines) e = lines-Written s lines _ e (format_lines-Holds s lines)
