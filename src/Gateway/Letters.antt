-- ===== src/Gateway/Letters.antt =====
-- What `splitMessage` of link/gateway.go keeps of a text.
use khala_network.Common.{
  ℕ, ◌+◌, ◌≡◌, refl, List, [], ◌∷◌, ◌++◌, filter, if◌then◌else◌, Bool, true, false, leb, ◌==◌,
  arith, ◌⊎◌, inl, inr, Bool-cases,
}
use khala_network.Gateway.Split.{
  Runes, newline, rune_len, utf16_len, split_lines, Cutting, cutting, emit, write, write_rune,
  write_runes, write_line, next_line, next_lines, split_message,
}

-- The runes of a text other than newlines.
abbrev pub letters : Runes → Runes
letters text = filter (λ r. if r == newline then false else true) text

abbrev pub letters_all : List Runes → Runes
letters_all [] = []
letters_all (c ∷ cs) = letters c ++ letters_all cs

append_assoc : (a b c : Runes) → (a ++ b) ++ c ≡ a ++ (b ++ c)
append_assoc [] b c = refl
append_assoc (x ∷ a) b c = ground (arith, append_assoc a b c)

append_nil : (a : Runes) → a ++ [] ≡ a
append_nil [] = refl
append_nil (x ∷ a) = ground (arith, append_nil a)

letters-append : (a b : Runes) → letters (a ++ b) ≡ letters a ++ letters b
letters-append [] b = refl
letters-append (r ∷ a) b = ground (arith, letters-append a b)

letters_all-append : (a b : List Runes) → letters_all (a ++ b) ≡ letters_all a ++ letters_all b
letters_all-append [] b = refl
letters_all-append (c ∷ a) b =
    ground (arith, letters_all-append a b, append_assoc (letters c) (letters_all a) (letters_all b))

-- What has been written, newlines aside.
abbrev written : Cutting → Runes
written c = letters_all (Cutting.chunks c) ++ letters (Cutting.current c)

written-emit : (c : Cutting) → written (emit c) ≡ written c
written-emit c = ground (
  arith,
  letters_all-append (Cutting.chunks c) (Cutting.current c ∷ []),
  append_nil (letters (Cutting.current c)),
  append_nil (letters_all (Cutting.chunks c) ++ letters (Cutting.current c)),
)

written-write :
    (text : Runes) (units : ℕ) (c : Cutting)
    → written (write text units c) ≡ written c ++ letters text
written-write text units c = ground (
  arith,
  letters-append (Cutting.current c) text,
  append_assoc (letters_all (Cutting.chunks c)) (letters (Cutting.current c)) (letters text),
)

written-write_rune :
    (limit : ℕ) (c : Cutting) (r : ℕ)
    → written (write_rune limit c r) ≡ written c ++ letters (r ∷ [])
written-write_rune limit c r = split (Bool-cases (leb (Cutting.current_units c + rune_len r) limit))
  where
    split :
        (leb (Cutting.current_units c + rune_len r) limit ≡ true)
          ⊎ (leb (Cutting.current_units c + rune_len r) limit ≡ false)
        → written (write_rune limit c r) ≡ written c ++ letters (r ∷ [])
    split (inl e) = rw e (written-write (r ∷ []) (rune_len r) c)
    split (inr e) =
        rw e (ground (arith, written-write (r ∷ []) (rune_len r) (emit c), written-emit c))

written-write_runes :
    (limit : ℕ) (c : Cutting) (line : Runes)
    → written (write_runes limit c line) ≡ written c ++ letters line
written-write_runes limit c [] = ground (arith, append_nil (written c))
written-write_runes limit c (r ∷ line) = ground (
  arith,
  written-write_runes limit (write_rune limit c r) line,
  written-write_rune limit c r,
  append_assoc (written c) (letters (r ∷ [])) (letters line),
  letters-append (r ∷ []) line,
)

written-write_line :
    (limit : ℕ) (c : Cutting) (line : Runes)
    → written (write_line limit c line) ≡ written c ++ letters line
written-write_line limit c line =
    split (Bool-cases (leb (Cutting.current_units c + utf16_len line) limit))
  where
    split :
        (leb (Cutting.current_units c + utf16_len line) limit ≡ true)
          ⊎ (leb (Cutting.current_units c + utf16_len line) limit ≡ false)
        → written (write_line limit c line) ≡ written c ++ letters line
    split (inl e) = rw e (written-write line (utf16_len line) c)
    split (inr e) = rw e (written-write_runes limit c line)

written-next_line :
    (limit : ℕ) (c : Cutting) (line : Runes)
    → written (next_line limit c line) ≡ written c ++ letters line
written-next_line limit c line = split (Bool-cases test)
  where
    test : Bool
    test = leb (Cutting.current_units c + 1 + utf16_len line) limit

    split :
        (test ≡ true) ⊎ (test ≡ false)
        → written (next_line limit c line) ≡ written c ++ letters line
    split (inl e) = rw e (
        ground (
          arith,
          written-write_line limit (write (newline ∷ []) 1 c) line,
          written-write (newline ∷ []) 1 c,
          append_nil (written c),
        ))
    split (inr e) = rw e (ground (arith, written-write_line limit (emit c) line, written-emit c))

written-next_lines :
    (limit : ℕ) (c : Cutting) (lines : List Runes)
    → written (next_lines limit c lines) ≡ written c ++ letters_all lines
written-next_lines limit c [] = ground (arith, append_nil (written c))
written-next_lines limit c (line ∷ lines) = ground (
  arith,
  written-next_lines limit (next_line limit c line) lines,
  written-next_line limit c line,
  append_assoc (written c) (letters line) (letters_all lines),
)

emitted-next_lines :
    (limit : ℕ) (c : Cutting) (lines : List Runes)
    → letters_all (Cutting.chunks (emit (next_lines limit c lines)))
      ≡ written c ++ letters_all lines
emitted-next_lines limit c lines = ground (
  arith,
  letters_all-append (Cutting.chunks (next_lines limit c lines))
      (Cutting.current (next_lines limit c lines) ∷ []),
  append_nil (letters (Cutting.current (next_lines limit c lines))),
  written-next_lines limit c lines,
)

letters-split_lines :
    (text : Runes) → letters (split_lines text).0 ++ letters_all (split_lines text).1 ≡ letters text
letters-split_lines [] = refl
letters-split_lines (r ∷ text) = ground (arith, letters-split_lines text)

-- The pieces together hold every rune of the text but its newlines, in order, and no other.
pub letters-split_message :
    (text : Runes) (limit : ℕ) → letters_all (split_message text limit) ≡ letters text
unfolding split_message
letters-split_message text limit = split (Bool-cases (leb (utf16_len text) limit))
  where
    split :
        (leb (utf16_len text) limit ≡ true) ⊎ (leb (utf16_len text) limit ≡ false)
        → letters_all (split_message text limit) ≡ letters text
    split (inl e) = rw e (append_nil (letters text))
    split (inr e) =
        rw
          (
            e,
            emitted-next_lines limit (write_line limit (cutting [] [] 0) (split_lines text).0)
                (split_lines text).1,
            written-write_line limit (cutting [] [] 0) (split_lines text).0,
          )
          (letters-split_lines text)
