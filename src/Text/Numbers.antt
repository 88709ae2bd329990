-- ===== src/Text/Numbers.antt =====
-- Go's package `strconv`: ParseUint and ParseInt in base 10 and 64 bits.
use khala_network.Common.{
  ℕ, zero, suc, ◌+◌, ◌-◌, ◌*◌, ◌/◌, ◌%◌, ◌^◌, ◌<◌, ◌≡◌, refl, Str, lit, [], ◌∷◌, Option, none, some,
  ◌==◌, if◌then◌else◌, Bool, true, false, ◌&&◌, ltb, leb, arith,
}

-- The value of a text of decimal digits.
unfoldable pub digits : ℕ → Str → Option ℕ
digits n [] = some n
digits n (c ∷ s) =
    let rest = digits (n * 10 + (c - 48)) s in if leb 48 c && leb c 57 then rest else none

abbrev below : ℕ → Option ℕ → Option ℕ
below bound (some n) = if ltb n bound then some n else none
below bound none = none

unfoldable pub parse_uint : Str → Option ℕ
unfolding digits
parse_uint [] = none
parse_uint (c ∷ s) = below (2 ^ 64) (digits 0 (c ∷ s))

-- strconv.FormatUint, `%d`: a round for each digit, so the number is enough fuel.
decimal_from : ℕ → ℕ → Str → Str
decimal_from zero n s = s
decimal_from (suc fuel) n s = elim (n / 10) [
  | zero ↦ (48 + n % 10) ∷ s
  | suc k ↦ decimal_from fuel (suc k) ((48 + n % 10) ∷ s)
]

unfoldable pub decimal : ℕ → Str
unfolding decimal_from
decimal n = decimal_from (suc n) n []

-- An int64: whether it is negative, and its magnitude.
pub record Int64 : Type 0 where
  pub negative : Bool
  pub magnitude : ℕ

abbrev signed : Bool → Option ℕ → Option Int64
signed neg (some n) = some (record { negative = neg; magnitude = n })
signed neg none = none

unfoldable pub parse_int : Str → Option Int64
unfolding digits
parse_int [] = none
parse_int (c ∷ []) = signed false (below (2 ^ 63) (digits 0 (c ∷ [])))
parse_int (c ∷ d ∷ s) =
    if c == 45
    then signed true (below (2 ^ 63 + 1) (digits 0 (d ∷ s)))
    else if c == 43
    then signed false (below (2 ^ 63) (digits 0 (d ∷ s)))
    else signed false (below (2 ^ 63) (digits 0 (c ∷ d ∷ s)))

-- `n < 0`; the text "-0" stands for 0.
abbrev pub is_negative : Int64 → Bool
is_negative i = i.negative && ltb 0 i.magnitude

below-lt : (bound : ℕ) (r : Option ℕ) {n : ℕ} → below bound r ≡ some n → n < bound
below-lt bound none h = cc
below-lt bound (some m) h = ground arith

-- A parsed number fits 64 bits.
pub parse_uint-lt : (s : Str) {n : ℕ} → parse_uint s ≡ some n → n < 2 ^ 64
unfolding parse_uint
parse_uint-lt [] h = cc
parse_uint-lt (c ∷ s) h = below-lt (2 ^ 64) (digits 0 (c ∷ s)) h

number_test : parse_uint (lit "18446744073709551615") ≡ some 18446744073709551615
unfolding parse_uint
number_test = refl

decimal_test : decimal 1700000000 ≡ lit "1700000000"
unfolding decimal
decimal_test = refl
