-- ===== src/Text/Strings.antt =====
-- Go's package `strings`: prefixes, suffixes, cuts and trimming.
use khala_network.Common.{
  ℕ, zero, suc, ◌≡◌, refl, Str, lit, str_eq, List, [], ◌∷◌, length, Option, none, some, ◌==◌,
  if◌then◌else◌, Bool, true, false, ◌||◌, ltb,
}
use mathlib.Core.List.{reverse}

-- strings.HasPrefix with strings.TrimPrefix: what follows the prefix, if it is there.
unfoldable pub cut_prefix : Str → Str → Option Str
cut_prefix [] s = some s
cut_prefix (p ∷ ps) [] = none
cut_prefix (p ∷ ps) (c ∷ s) = let rest = cut_prefix ps s in if p == c then rest else none

abbrev pub or_else : Option Str → Str → Str
or_else (some r) s = r
or_else none s = s

abbrev pub present {ℓ} : {A : Type ℓ} → Option A → Bool
present (some a) = true
present none = false

unfoldable pub trim_prefix : Str → Str → Str
unfolding cut_prefix
trim_prefix p s = or_else (cut_prefix p s) s

abbrev prepend : ℕ → Option Str → Option Str
prepend c (some s) = some (c ∷ s)
prepend c none = none

-- strings.HasSuffix with strings.TrimSuffix: what stands before the suffix, if it is there.
unfoldable pub cut_suffix : Str → Str → Option Str
cut_suffix suffix [] = if str_eq [] suffix then some [] else none
cut_suffix suffix (c ∷ s) =
    let rest = cut_suffix suffix s in if str_eq (c ∷ s) suffix then some [] else prepend c rest

unfoldable pub has_suffix : Str → Str → Bool
unfolding cut_suffix
has_suffix suffix s = present (cut_suffix suffix s)

abbrev prepend_first : ℕ → Option (Str × Str) → Option (Str × Str)
prepend_first c (some (a, b)) = some (c ∷ a, b)
prepend_first c none = none

-- strings.Cut at a single byte: what stands before and after its first occurrence.
unfoldable pub cut : ℕ → Str → Option (Str × Str)
cut sep [] = none
cut sep (c ∷ s) = let rest = cut sep s in if c == sep then some ([], s) else prepend_first c rest

abbrev last_or : ℕ → Bool → Str → Option (Str × Str) → Option (Str × Str)
last_or c here s (some (a, b)) = some (c ∷ a, b)
last_or c here s none = if here then some ([], s) else none

-- strings.LastIndexByte: what stands before and after the last occurrence.
unfoldable pub cut_last : ℕ → Str → Option (Str × Str)
cut_last sep [] = none
cut_last sep (c ∷ s) = last_or c (c == sep) s (cut_last sep s)

unfoldable pub contains : ℕ → Str → Bool
contains sep [] = false
contains sep (c ∷ s) = c == sep || contains sep s

-- `<` on strings.
unfoldable pub str_lt : Str → Str → Bool
str_lt [] [] = false
str_lt [] (b ∷ t) = true
str_lt (a ∷ s) [] = false
str_lt (a ∷ s) (b ∷ t) = let rest = str_lt s t in if a == b then rest else ltb a b

-- The UTF-8 encodings of Unicode's White_Space, which strings.TrimSpace removes.
abbrev spaces : List Str
spaces =
    (9 ∷ [])
    ∷ (10 ∷ [])
    ∷ (11 ∷ [])
    ∷ (12 ∷ [])
    ∷ (13 ∷ [])
    ∷ (32 ∷ [])
    ∷ (0xc2 ∷ 0x85 ∷ [])
    ∷ (0xc2 ∷ 0xa0 ∷ [])
    ∷ (0xe1 ∷ 0x9a ∷ 0x80 ∷ [])
    ∷ (0xe2 ∷ 0x80 ∷ 0x80 ∷ [])
    ∷ (0xe2 ∷ 0x80 ∷ 0x81 ∷ [])
    ∷ (0xe2 ∷ 0x80 ∷ 0x82 ∷ [])
    ∷ (0xe2 ∷ 0x80 ∷ 0x83 ∷ [])
    ∷ (0xe2 ∷ 0x80 ∷ 0x84 ∷ [])
    ∷ (0xe2 ∷ 0x80 ∷ 0x85 ∷ [])
    ∷ (0xe2 ∷ 0x80 ∷ 0x86 ∷ [])
    ∷ (0xe2 ∷ 0x80 ∷ 0x87 ∷ [])
    ∷ (0xe2 ∷ 0x80 ∷ 0x88 ∷ [])
    ∷ (0xe2 ∷ 0x80 ∷ 0x89 ∷ [])
    ∷ (0xe2 ∷ 0x80 ∷ 0x8a ∷ [])
    ∷ (0xe2 ∷ 0x80 ∷ 0xa8 ∷ [])
    ∷ (0xe2 ∷ 0x80 ∷ 0xa9 ∷ [])
    ∷ (0xe2 ∷ 0x80 ∷ 0xaf ∷ [])
    ∷ (0xe2 ∷ 0x81 ∷ 0x9f ∷ [])
    ∷ (0xe3 ∷ 0x80 ∷ 0x80 ∷ [])
    ∷ []

abbrev map_reverse : List Str → List Str
map_reverse [] = []
map_reverse (s ∷ ss) = reverse s ∷ map_reverse ss

-- What follows a space at the front, if one of the given encodings is there.
drop_space : List Str → Str → Option Str
drop_space [] s = none
drop_space (p ∷ ps) s = elim (cut_prefix p s) [ some r ↦ some r | none ↦ drop_space ps s ]

-- Each round removes a byte at least, so the length of the text is enough fuel.
drop_spaces : ℕ → List Str → Str → Str
drop_spaces zero ps s = s
drop_spaces (suc fuel) ps s = elim (drop_space ps s) [ some r ↦ drop_spaces fuel ps r | none ↦ s ]

unfoldable pub trim_space : Str → Str
unfolding drop_spaces drop_space cut_prefix
trim_space s =
    let front = drop_spaces (length s) spaces s in
    reverse (drop_spaces (length front) (map_reverse spaces) (reverse front))

abbrev flush : Str → List Str → List Str
flush [] words = words
flush (c ∷ word) words = reverse (c ∷ word) ∷ words

-- The words of a text, after the part of a word that is given in reverse. Each round takes a byte at
-- least, so the length of the text is enough fuel.
words_from : ℕ → Str → Str → List Str
words_from zero word s = flush word []
words_from (suc fuel) word [] = flush word []
words_from (suc fuel) word (c ∷ s) = elim (drop_space spaces (c ∷ s)) [
  | some r ↦ flush word (words_from fuel [] r)
  | none ↦ words_from fuel (c ∷ word) s
]

-- strings.Fields.
unfoldable pub fields : Str → List Str
unfolding words_from drop_space cut_prefix
fields s = words_from (length s) [] s

fields_test : fields (lit " ab  c ") ≡ (lit "ab" ∷ lit "c" ∷ [])
unfolding fields
fields_test = refl

trim_test : trim_space (lit "  ab c ") ≡ lit "ab c"
unfolding trim_space
trim_test = refl

cut_test : cut 46 (lit "12.7") ≡ some (lit "12", lit "7")
unfolding cut
cut_test = refl
