-- ===== src/Text/Floats.antt =====
-- Go's float64, as far as it is compared: the bits below the sign bit order the magnitudes.
use khala_network.Common.{ℕ, ◌≡◌, refl, Bool, true, false, not, ◌||◌, ltb}

pub data Float64 : Type 0 where
  nan : Float64
  -- Whether the sign bit is set, and the other bits.
  number : Bool → ℕ → Float64

abbrev pub zero_float : Float64
zero_float = number false 0

abbrev pub one_float : Float64
one_float = number false 0x3ff0000000000000

abbrev below : Bool → ℕ → Bool → ℕ → Bool
below false a false b = ltb a b
below false a true b = false
below true a false b = ltb 0 a || ltb 0 b
below true a true b = ltb b a

-- `x < y`, which is false of a NaN.
unfoldable pub less : Float64 → Float64 → Bool
less nan y = false
less (number s a) nan = false
less (number s a) (number t b) = below s a t b

-- `x >= y`, which is false of a NaN.
unfoldable pub at_least : Float64 → Float64 → Bool
unfolding less
at_least nan y = false
at_least (number s a) nan = false
at_least (number s a) (number t b) = not (below s a t b)

-- Neither `x < 0` nor `x > 1`: what the code requires of a probability.
abbrev pub in_unit : Float64 → Bool
in_unit x = not (less x zero_float || less one_float x)

negative_zero_test : less (number true 0) zero_float ≡ false
unfolding less
negative_zero_test = refl
