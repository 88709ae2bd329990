-- ===== src/Gateway/Split.antt =====
-- Cutting a message to the chat's size: `utf16Len`, `splitMessage` and `post` of link/gateway.go.
-- A text is the list of its runes, all of them valid, so that `utf16.RuneLen` is 1 or 2.
use khala_network.Common.{
  ℕ, ◌+◌, ◌≤◌, ◌≡◌, refl, List, [], ◌∷◌, ◌++◌, All, All-append, if◌then◌else◌, Bool, true, false,
  ltb, leb, ◌==◌, arith, ◌⊎◌, inl, inr, Bool-cases,
}

abbrev pub Runes : Type 0
Runes = List ℕ

abbrev pub newline : ℕ
newline = 10

abbrev pub rune_len : ℕ → ℕ
rune_len r = if ltb r 65536 then 1 else 2

abbrev pub utf16_len : Runes → ℕ
utf16_len [] = 0
utf16_len (r ∷ text) = rune_len r + utf16_len text

-- `strings.Split(text, "\n")`: the first line and the others.
abbrev pub split_lines : Runes → Runes × List Runes
split_lines [] = ([], [])
split_lines (r ∷ text) =
    let rest = split_lines text in
    if r == newline then ([], rest.0 ∷ rest.1) else (r ∷ rest.0, rest.1)

pub record Cutting : Type 0 where
  pub chunks : List Runes
  pub current : Runes
  pub current_units : ℕ

abbrev pub cutting : List Runes → Runes → ℕ → Cutting
cutting cs c n = record { chunks = cs; current = c; current_units = n }

abbrev pub emit : Cutting → Cutting
emit c = cutting (Cutting.chunks c ++ (Cutting.current c ∷ [])) [] 0

abbrev pub write : Runes → ℕ → Cutting → Cutting
write text units c =
    cutting (Cutting.chunks c) (Cutting.current c ++ text) (Cutting.current_units c + units)

abbrev pub write_rune : ℕ → Cutting → ℕ → Cutting
write_rune limit c r =
    let size = rune_len r in
    write (r ∷ []) size (if leb (Cutting.current_units c + size) limit then c else emit c)

abbrev pub write_runes : ℕ → Cutting → Runes → Cutting
write_runes limit c [] = c
write_runes limit c (r ∷ line) = write_runes limit (write_rune limit c r) line

abbrev pub write_line : ℕ → Cutting → Runes → Cutting
write_line limit c line =
    if leb (Cutting.current_units c + utf16_len line) limit
    then write line (utf16_len line) c
    else write_runes limit c line

-- A line after the first.
abbrev pub next_line : ℕ → Cutting → Runes → Cutting
next_line limit c line =
    write_line limit
      (if leb (Cutting.current_units c + 1 + utf16_len line) limit
        then write (newline ∷ []) 1 c
        else emit c)
      line

abbrev pub next_lines : ℕ → Cutting → List Runes → Cutting
next_lines limit c [] = c
next_lines limit c (line ∷ lines) = next_lines limit (next_line limit c line) lines

unfoldable pub split_message : Runes → ℕ → List Runes
split_message text limit =
    let lines = split_lines text in
    if leb (utf16_len text) limit
    then text ∷ []
    else Cutting.chunks
        (emit (next_lines limit (write_line limit (cutting [] [] 0) lines.0) lines.1))

utf16_len-append : (a b : Runes) → utf16_len (a ++ b) ≡ utf16_len a + utf16_len b
utf16_len-append [] b = omega arith
utf16_len-append (r ∷ a) b = ground (arith, utf16_len-append a b)

-- The units are counted right and fit, in every chunk and in the current one.
record Fits (limit : ℕ) (c : Cutting) : Type 0 where
  counted : Cutting.current_units c ≡ utf16_len (Cutting.current c)
  fits : Cutting.current_units c ≤ limit
  chunks_fit : All (λ chunk. utf16_len chunk ≤ limit) (Cutting.chunks c)

emit-Fits : (limit : ℕ) (c : Cutting) → Fits limit c → Fits limit (emit c)
emit-Fits limit c f = record {
  counted = refl;
  fits = omega arith;
  chunks_fit =
      All-append (λ chunk. utf16_len chunk ≤ limit) (Cutting.chunks c) (Cutting.current c ∷ [])
        (Fits.chunks_fit f) (ground (arith, Fits.counted f, Fits.fits f), tt);
}

write-Fits :
    (limit : ℕ) (text : Runes) (units : ℕ) (c : Cutting)
    → Fits limit c
    → units ≡ utf16_len text
    → Cutting.current_units c + units ≤ limit
    → Fits limit (write text units c)
write-Fits limit text units c f e h = record {
  counted = ground (arith, utf16_len-append (Cutting.current c) text, e, Fits.counted f);
  fits = h;
  chunks_fit = Fits.chunks_fit f;
}

write_rune-Fits :
    (limit : ℕ) (c : Cutting) (r : ℕ) → 2 ≤ limit → Fits limit c → Fits limit (write_rune limit c r)
write_rune-Fits limit c r two f =
    split (Bool-cases (leb (Cutting.current_units c + rune_len r) limit))
  where
    split :
        (leb (Cutting.current_units c + rune_len r) limit ≡ true)
          ⊎ (leb (Cutting.current_units c + rune_len r) limit ≡ false)
        → Fits limit (write_rune limit c r)
    split (inl e) =
        rw e (write-Fits limit (r ∷ []) (rune_len r) c f (ground arith) (ground (arith, e)))
    split (inr e) = rw e (
        write-Fits limit (r ∷ []) (rune_len r) (emit c) (emit-Fits limit c f) (ground arith)
          (ground (arith, two)))

write_runes-Fits :
    (limit : ℕ) (c : Cutting) (line : Runes)
    → 2 ≤ limit
    → Fits limit c
    → Fits limit (write_runes limit c line)
write_runes-Fits limit c [] two f = f
write_runes-Fits limit c (r ∷ line) two f =
    write_runes-Fits limit (write_rune limit c r) line two (write_rune-Fits limit c r two f)

write_line-Fits :
    (limit : ℕ) (c : Cutting) (line : Runes)
    → 2 ≤ limit
    → Fits limit c
    → Fits limit (write_line limit c line)
write_line-Fits limit c line two f =
    split (Bool-cases (leb (Cutting.current_units c + utf16_len line) limit))
  where
    split :
        (leb (Cutting.current_units c + utf16_len line) limit ≡ true)
          ⊎ (leb (Cutting.current_units c + utf16_len line) limit ≡ false)
        → Fits limit (write_line limit c line)
    split (inl e) = rw e (write-Fits limit line (utf16_len line) c f refl (ground (arith, e)))
    split (inr e) = rw e (write_runes-Fits limit c line two f)

next_line-Fits :
    (limit : ℕ) (c : Cutting) (line : Runes)
    → 2 ≤ limit
    → Fits limit c
    → Fits limit (next_line limit c line)
next_line-Fits limit c line two f = write_line-Fits limit _ line two (split (Bool-cases test))
  where
    test : Bool
    test = leb (Cutting.current_units c + 1 + utf16_len line) limit

    split :
        (test ≡ true) ⊎ (test ≡ false)
        → Fits limit (if test then write (newline ∷ []) 1 c else emit c)
    split (inl e) = rw e (write-Fits limit (newline ∷ []) 1 c f refl (ground (arith, e)))
    split (inr e) = rw e (emit-Fits limit c f)

next_lines-Fits :
    (limit : ℕ) (c : Cutting) (lines : List Runes)
    → 2 ≤ limit
    → Fits limit c
    → Fits limit (next_lines limit c lines)
next_lines-Fits limit c [] two f = f
next_lines-Fits limit c (line ∷ lines) two f =
    next_lines-Fits limit (next_line limit c line) lines two (next_line-Fits limit c line two f)

-- For a limit of at least two units, which any rune fits in, no piece is longer than the limit.
pub split_message_fits :
    (text : Runes) (limit : ℕ)
    → 2 ≤ limit
    → All (λ chunk. utf16_len chunk ≤ limit) (split_message text limit)
unfolding split_message
split_message_fits text limit two = split (Bool-cases (leb (utf16_len text) limit))
  where
    lines : Runes × List Runes
    lines = split_lines text

    split :
        (leb (utf16_len text) limit ≡ true) ⊎ (leb (utf16_len text) limit ≡ false)
        → All (λ chunk. utf16_len chunk ≤ limit) (split_message text limit)
    split (inl e) = rw e (ground (arith, e), tt)
    split (inr e) = rw e (
        Fits.chunks_fit (
          emit-Fits limit _ (
            next_lines-Fits limit _ lines.1 two (
              write_line-Fits limit (cutting [] [] 0) lines.0 two
                (record { counted = refl; fits = omega arith; chunks_fit = tt })))))
