-- ===== src/Text/Regex.antt =====
-- Go's package `regexp`, for the patterns of the program: matching a whole text by derivatives.
use khala_network.Text.Strings.{contains}
use khala_network.Common.{
  ℕ, ◌≡◌, refl, Str, [], ◌∷◌, Bool, true, false, ◌&&◌, ◌||◌, not, if◌then◌else◌, ◌==◌, ==_iff, all,
  arith, Bool-cases, inl, inr, both_true,
}

pub data Regex : Type 0 where
  nothing empty : Regex
  class : (ℕ → Bool) → Regex
  seq alt : Regex → Regex → Regex
  star : Regex → Regex

-- x+
abbrev pub plus : Regex → Regex
plus r = seq r (star r)

abbrev pub byte : ℕ → Regex
byte b = class (λ c. c == b)

nullable : Regex → Bool
nullable nothing = false
nullable empty = true
nullable (class p) = false
nullable (seq r s) = nullable r && nullable s
nullable (alt r s) = nullable r || nullable s
nullable (star r) = true

-- `seq` and `alt` without what can match nothing: derivatives stay small.
join_seq : Regex → Regex → Regex
join_seq nothing s = nothing
join_seq empty s = s
join_seq r s = seq r s

join_alt : Regex → Regex → Regex
join_alt nothing s = s
join_alt r nothing = r
join_alt r s = alt r s

-- What is left to match after a byte.
derivative : ℕ → Regex → Regex
derivative c nothing = nothing
derivative c empty = nothing
derivative c (class p) = if p c then empty else nothing
derivative c (seq r s) =
    join_alt (join_seq (derivative c r) s)
      (join_seq (if nullable r then empty else nothing) (derivative c s))
derivative c (alt r s) = join_alt (derivative c r) (derivative c s)
derivative c (star r) = join_seq (derivative c r) (star r)

-- `^r$` matches the text.
unfoldable pub matches : Regex → Str → Bool
unfolding nullable derivative join_seq join_alt
matches r [] = nullable r
matches r (c ∷ s) = matches (derivative c r) s

-- No class of the pattern accepts the byte.
abbrev pub avoids : ℕ → Regex → Bool
avoids c nothing = true
avoids c empty = true
avoids c (class p) = not (p c)
avoids c (seq r s) = avoids c r && avoids c s
avoids c (alt r s) = avoids c r && avoids c s
avoids c (star r) = avoids c r

-- A pattern that matches no text, by its form.
is_void : Regex → Bool
is_void nothing = true
is_void empty = false
is_void (class p) = false
is_void (seq r s) = is_void r || is_void s
is_void (alt r s) = is_void r && is_void s
is_void (star r) = false

join_seq-avoids :
    (d : ℕ) (r s : Regex) → avoids d r ≡ true → avoids d s ≡ true → avoids d (join_seq r s) ≡ true
unfolding join_seq
join_seq-avoids d nothing s h k = refl
join_seq-avoids d _ s h k = ground arith

join_alt-avoids :
    (d : ℕ) (r s : Regex) → avoids d r ≡ true → avoids d s ≡ true → avoids d (join_alt r s) ≡ true
unfolding join_alt
join_alt-avoids d nothing s h k = k
join_alt-avoids d empty s h k = ground arith
join_alt-avoids d _ nothing h k = h
join_alt-avoids d _ s h k = ground arith

join_seq-void : (r s : Regex) → (is_void r || is_void s) ≡ true → is_void (join_seq r s) ≡ true
unfolding join_seq is_void
join_seq-void nothing s h = refl
join_seq-void _ s h = ground arith

join_alt-void : (r s : Regex) → (is_void r && is_void s) ≡ true → is_void (join_alt r s) ≡ true
unfolding join_alt is_void
join_alt-void nothing s h = ground arith
join_alt-void empty s h = ground arith
join_alt-void _ nothing h = ground arith
join_alt-void _ s h = ground arith

optional_avoids : (d : ℕ) (b : Bool) → avoids d (if b then empty else nothing) ≡ true
optional_avoids d true = refl
optional_avoids d false = refl

derivative-avoids : (c d : ℕ) (r : Regex) → avoids d r ≡ true → avoids d (derivative c r) ≡ true
unfolding derivative
derivative-avoids c d nothing h = refl
derivative-avoids c d empty h = refl
derivative-avoids c d (class p) h = ground arith
derivative-avoids c d (seq r s) h =
    let (hr, hs) = both_true (avoids d r) (avoids d s) h in
    join_alt-avoids d _ _ (join_seq-avoids d _ _ (derivative-avoids c d r hr) hs)
      (join_seq-avoids d _ _ (optional_avoids d (nullable r)) (derivative-avoids c d s hs))
derivative-avoids c d (alt r s) h =
    let (hr, hs) = both_true (avoids d r) (avoids d s) h in
    join_alt-avoids d _ _ (derivative-avoids c d r hr) (derivative-avoids c d s hs)
derivative-avoids c d (star r) h = join_seq-avoids d _ (star r) (derivative-avoids c d r h) h

void_nullable : (r : Regex) → is_void r ≡ true → nullable r ≡ false
unfolding is_void nullable
void_nullable nothing h = refl
void_nullable empty h = cc
void_nullable (class p) h = refl
void_nullable (seq r s) h = ground (arith, void_nullable r, void_nullable s)
void_nullable (alt r s) h = ground (arith, void_nullable r, void_nullable s)
void_nullable (star r) h = cc

void_derivative : (c : ℕ) (r : Regex) → is_void r ≡ true → is_void (derivative c r) ≡ true
unfolding is_void derivative
void_derivative c nothing h = refl
void_derivative c empty h = cc
void_derivative c (class p) h = cc
void_derivative c (seq r s) h = join_alt-void _ _ (
    ground (
      arith,
      join_seq-void (derivative c r) s,
      join_seq-void (if nullable r then empty else nothing) (derivative c s),
      void_derivative c r,
      void_derivative c s,
      void_nullable r,
    ))
void_derivative c (alt r s) h =
    join_alt-void _ _ (ground (arith, void_derivative c r, void_derivative c s))
void_derivative c (star r) h = cc

avoided_derivative : (c : ℕ) (r : Regex) → avoids c r ≡ true → is_void (derivative c r) ≡ true
unfolding is_void derivative
avoided_derivative c nothing h = refl
avoided_derivative c empty h = refl
avoided_derivative c (class p) h = ground arith
avoided_derivative c (seq r s) h = join_alt-void _ _ (
    ground (
      arith,
      join_seq-void (derivative c r) s,
      join_seq-void (if nullable r then empty else nothing) (derivative c s),
      avoided_derivative c r,
      avoided_derivative c s,
    ))
avoided_derivative c (alt r s) h =
    join_alt-void _ _ (ground (arith, avoided_derivative c r, avoided_derivative c s))
avoided_derivative c (star r) h =
    join_seq-void (derivative c r) (star r) (ground (arith, avoided_derivative c r))

void_matches : (r : Regex) (s : Str) → is_void r ≡ true → matches r s ≡ false
unfolding matches
void_matches r [] h = void_nullable r h
void_matches r (c ∷ s) h = void_matches (derivative c r) s (void_derivative c r h)

-- A text that a pattern matches has no byte that the pattern avoids.
pub matches-avoids :
    (d : ℕ) (r : Regex) (s : Str) → matches r s ≡ true → avoids d r ≡ true → contains d s ≡ false
unfolding matches contains
matches-avoids d r [] m h = refl
matches-avoids d r (c ∷ s) m h = elim (Bool-cases (c == d)) [
  | inl e ↦ ground (arith, void_matches (derivative c r) s, avoided_derivative c r, ==_iff c d)
  | inr n ↦ rw n (matches-avoids d (derivative c r) s m (derivative-avoids c d r h))
]

-- No text that the pattern matches begins with the byte.
unfoldable pub cannot_begin : ℕ → Regex → Bool
unfolding is_void derivative join_seq join_alt nullable
cannot_begin c r = is_void (derivative c r)

pub cannot_begin-matches :
    (c : ℕ) (r : Regex) (s : Str) → cannot_begin c r ≡ true → matches r (c ∷ s) ≡ false
unfolding cannot_begin matches
cannot_begin-matches c r s h = void_matches (derivative c r) s h

-- A text of bytes of a class.
pub matches-star : (q : ℕ → Bool) (s : Str) → all q s ≡ true → matches (star (class q)) s ≡ true
unfolding matches nullable derivative join_seq
matches-star q [] h = refl
matches-star q (c ∷ s) h =
    let (first, rest) = both_true (q c) (all q s) h in rw first (matches-star q s rest)

pub matches-class_star :
    (p q : ℕ → Bool) (c : ℕ) (s : Str)
    → p c ≡ true
    → all q s ≡ true
    → matches (seq (class p) (star (class q))) (c ∷ s) ≡ true
unfolding matches nullable derivative join_seq join_alt
matches-class_star p q c s e h = rw e (matches-star q s h)

-- A text without the bytes that a class leaves out.
pub contains-all :
    (q : ℕ → Bool) (s : Str) → ((d : ℕ) → q d ≡ false → contains d s ≡ false) → all q s ≡ true
unfolding contains
contains-all q [] h = refl
contains-all q (c ∷ s) h = elim (Bool-cases (q c)) [
  | inl e ↦ rw e (contains-all q s (λ d f. ground (arith, h d f)))
  | inr e ↦ absurd (ground (arith, h c e, ==_iff c c))
]
