-- ===== src/Common/Lists.antt =====
-- Lists measured by native numbers, under the library's names, and predicates on their elements.
use Prim.Native.Nat.{ℕ, zero, suc, ◌+◌}
use mathlib.Core.Path.{◌≡◌, refl, subst}
use mathlib.Core.List.{List, [], ◌∷◌, ◌++◌}
use mathlib.Core.Option.{Option, none, some}
use mathlib.Core.Bool.{Bool, true, ◌&&◌}
use native.Mathlib.Omega.{arith}
use mathlib.Core.Logic.{inl, inr}
use khala_network.Common.Tests.{if◌then◌else◌, Option-cases}

module _ {ℓ} {A : Type ℓ} where
  abbrev pub length : List A → ℕ
  length [] = 0
  length (x ∷ xs) = suc (length xs)

  pub length-append : (xs ys : List A) → length (xs ++ ys) ≡ length xs + length ys
  length-append [] ys = omega arith
  length-append (x ∷ xs) ys = omega (arith, length-append xs ys)

  abbrev pub All {κ} : (A → Type κ) → List A → Type κ
  All P [] = Unit
  All P (x ∷ xs) = P x × All P xs

  pub All-append {κ} : (P : A → Type κ) (xs ys : List A) → All P xs → All P ys → All P (xs ++ ys)
  All-append P [] ys h k = k
  All-append P (x ∷ xs) ys h k = (h.0, All-append P xs ys h.1 k)

  pub All-map {κ μ} :
      (P : A → Type κ) (Q : A → Type μ)
      → ((x : A) → P x → Q x)
      → (xs : List A) → All P xs
      → All Q xs
  All-map P Q f [] h = tt
  All-map P Q f (x ∷ xs) h = (f x h.0, All-map P Q f xs h.1)

  abbrev pub all : (A → Bool) → List A → Bool
  all p [] = true
  all p (x ∷ xs) = p x && all p xs

  abbrev pub filter : (A → Bool) → List A → List A
  filter p [] = []
  filter p (x ∷ xs) = let rest = filter p xs in if p x then x ∷ rest else rest

  -- The first `n` elements and the rest, if there are so many.
  unfoldable pub take_exact : ℕ → List A → Option (List A × List A)
  take_exact zero xs = some ([], xs)
  take_exact (suc n) [] = none
  take_exact (suc n) (x ∷ xs) = elim (take_exact n xs) [
    | none ↦ none
    | some (front, rest) ↦ some (x ∷ front, rest)
  ]

  pub take_exact-append : (xs ys : List A) → take_exact (length xs) (xs ++ ys) ≡ some (xs, ys)
  unfolding take_exact
  take_exact-append [] ys = refl
  take_exact-append (x ∷ xs) ys = rw (take_exact-append xs ys) refl

  pub take_exact-append_eq :
      {n : ℕ} (xs ys : List A) → length xs ≡ n → take_exact n (xs ++ ys) ≡ some (xs, ys)
  take_exact-append_eq xs ys e =
      subst (λ n. take_exact n (xs ++ ys) ≡ some (xs, ys)) e (take_exact-append xs ys)

  -- What `take_exact` returns are the two parts of its argument, cut at `n`.
  pub take_exact_sound :
      (n : ℕ) (xs : List A) {front rest : List A}
      → take_exact n xs ≡ some (front, rest)
      → (xs ≡ front ++ rest) × (length front ≡ n)
  unfolding take_exact
  take_exact_sound zero xs h = ground arith
  take_exact_sound (suc n) [] h = cc
  take_exact_sound (suc n) (x ∷ xs) h = elim (Option-cases (take_exact n xs)) [
    | inl e ↦ ground arith
    | inr (p, e) ↦ ground (arith, take_exact_sound n xs {front = p.0} {rest = p.1} e)
  ]
