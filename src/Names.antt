-- ===== src/Names.antt =====
-- link/config.go and the name rules of link/dashboard.go and link/ears.go: the patterns that every
-- name from the network or from a file must match.
use khala_network.Common.{
  ℕ, ◌≡◌, ◌≢◌, refl, Str, lit, str_eq, [], ◌∷◌, Option, none, some, ◌==◌, if◌then◌else◌, Bool, true,
  false, ◌&&◌, ◌||◌, not, leb, arith, ap, both_true, Bool-cases, inl, inr, subst, ==_iff, all,
}
use khala_network.Text.Strings.{cut_last, cut_suffix, contains, cut_prefix, present, or_else}
use khala_network.Text.Regex.{
  Regex, class, seq, alt, star, plus, byte, matches, matches-avoids, avoids, cannot_begin,
  cannot_begin-matches, matches-class_star, contains-all,
}

abbrev lower_or_digit : ℕ → Bool
lower_or_digit c = (leb 97 c && leb c 122) || (leb 48 c && leb c 57)

abbrev letter_or_digit : ℕ → Bool
letter_or_digit c = lower_or_digit c || (leb 65 c && leb c 90)

abbrev digit : ℕ → Bool
digit c = leb 48 c && leb c 57

-- ^[a-z0-9][a-z0-9-]*$
abbrev pub node_pattern : Regex
node_pattern = seq (class lower_or_digit) (star (class (λ c. lower_or_digit c || c == 45)))

-- ^[A-Za-z0-9][A-Za-z0-9.\-@]*$
abbrev pub base_pattern : Regex
base_pattern =
    seq (class letter_or_digit)
      (star (class (λ c. letter_or_digit c || (c == 46 || (c == 45 || c == 64)))))

-- ^[0-9]+\.[0-9]+\.[0-9]+\.[a-z0-9][a-z0-9-]*@[a-z0-9][a-z0-9-]*$
abbrev pub message_id_pattern : Regex
message_id_pattern = seq (plus (class digit)) (
    seq (byte 46) (
      seq (plus (class digit)) (
        seq (byte 46) (
          seq (plus (class digit))
            (seq (byte 46) (seq node_pattern (seq (byte 64) node_pattern)))))))

abbrev number_pattern : Regex
number_pattern = alt (byte 48) (seq (class (λ c. leb 49 c && leb c 57)) (star (class digit)))

-- ^(0|[1-9][0-9]*)\.(0|[1-9][0-9]*)$
abbrev pub generation_pattern : Regex
generation_pattern = seq number_pattern (seq (byte 46) number_pattern)

unfoldable pub valid_node : Str → Bool
unfolding matches
valid_node s = matches node_pattern s

unfoldable pub valid_basename : Str → Bool
unfolding matches contains cut_prefix
valid_basename s =
    matches base_pattern s
    && (not (present (cut_prefix (lit ".") s))
        && (not (contains 47 s) && not (str_eq s (lit ".."))))

unfoldable pub valid_message_id : Str → Bool
unfolding matches
valid_message_id s = matches message_id_pattern s

unfoldable pub valid_generation : Str → Bool
unfolding matches
valid_generation s = matches generation_pattern s

unfoldable pub is_reserved_identity : Str → Bool
is_reserved_identity s =
    str_eq s (lit "conduit")
    || (str_eq s (lit "khala")
        || (str_eq s (lit "gateway")
            || (str_eq s (lit "operator") || str_eq s (lit "khala-gateway"))))

-- The first of the three suffixes that stands at the end is taken off.
presence_base : Str → Str
unfolding cut_suffix
presence_base name = elim (cut_suffix (lit ".watching") name) [
  | some b ↦ b
  | none ↦ elim (cut_suffix (lit ".watcher") name) [
    | some b ↦ b
    | none ↦ or_else (cut_suffix (lit ".ear") name) name
  ]
]

abbrev owner_of : Str → Option (Str × Str) → Option Str
owner_of name none = none
owner_of name (some ([], node)) = none
owner_of name (some (c ∷ s, [])) = none
owner_of name (some (c ∷ s, d ∷ node)) =
    if valid_node (d ∷ node) && valid_basename name then some (d ∷ node) else none

owner_of-valid :
    (name : Str) (r : Option (Str × Str)) {node : Str}
    → owner_of name r ≡ some node
    → (valid_node node ≡ true) × (valid_basename name ≡ true)
owner_of-valid name none h = cc
owner_of-valid name (some ([], node)) h = cc
owner_of-valid name (some (c ∷ s, [])) h = cc
owner_of-valid name (some (c ∷ s, d ∷ node)) h = ground arith

-- The node of `<identity>@<node>` with one of the suffixes. `none` is Go's `_, false`.
unfoldable pub presence_node : Str → Option Str
unfolding presence_base cut_last
presence_node name = owner_of name (cut_last 64 (presence_base name))

-- A component of a path that names one entry of its directory: not empty, no slash, no zero byte,
-- and neither `.` nor `..`.
pub record IsSegment (s : Str) : Type 0 where
  pub some_byte : s ≢ []
  pub no_slash : contains 47 s ≡ false
  pub no_nul : contains 0 s ≡ false
  pub not_dot : s ≢ lit "."
  pub not_dot_dot : s ≢ lit ".."

no_match : (r : Regex) {s t : Str} → matches r s ≡ true → matches r t ≡ false → s ≢ t
no_match r m f e = cc (ap (matches r) e)

-- A pattern without a slash or a zero byte, and that fails on the three special names.
matches-IsSegment :
    (r : Regex) (s : Str)
    → matches r s ≡ true
    → matches r [] ≡ false
    → matches r (lit ".") ≡ false
    → matches r (lit "..") ≡ false
    → avoids 47 r ≡ true
    → avoids 0 r ≡ true
    → IsSegment s
matches-IsSegment r s m none_empty dot dots slash nul = record {
  some_byte = no_match r m none_empty;
  no_slash = matches-avoids 47 r s m slash;
  no_nul = matches-avoids 0 r s m nul;
  not_dot = no_match r m dot;
  not_dot_dot = no_match r m dots;
}

pub valid_node-IsSegment : (s : Str) → valid_node s ≡ true → IsSegment s
unfolding valid_node
valid_node-IsSegment s h = matches-IsSegment node_pattern s h refl refl refl refl refl

pub valid_basename-IsSegment : (s : Str) → valid_basename s ≡ true → IsSegment s
unfolding valid_basename
valid_basename-IsSegment s h =
    matches-IsSegment base_pattern s (both_true (matches base_pattern s) _ h).0 refl refl refl refl
      refl

pub valid_message_id-IsSegment : (s : Str) → valid_message_id s ≡ true → IsSegment s
unfolding valid_message_id
valid_message_id-IsSegment s h = matches-IsSegment message_id_pattern s h refl refl refl refl refl

pub valid_generation-IsSegment : (s : Str) → valid_generation s ≡ true → IsSegment s
unfolding valid_generation
valid_generation-IsSegment s h = matches-IsSegment generation_pattern s h refl refl refl refl refl

-- A presence file's owner is a valid node and the file's name a valid basename.
pub presence_node-valid :
    (name : Str) {node : Str}
    → presence_node name ≡ some node
    → (valid_node node ≡ true) × (valid_basename name ≡ true)
unfolding presence_node
presence_node-valid name h = owner_of-valid name (cut_last 64 (presence_base name)) h

-- The bytes of a base name, of which it does not begin with the last three.
abbrev base_byte : ℕ → Bool
base_byte c = letter_or_digit c || (c == 46 || (c == 45 || c == 64))

-- Patterns that only match base names.
record IsWithin (r : Regex) : Type 0 where
  some_byte : matches r [] ≡ false
  bytes : (d : ℕ) → base_byte d ≡ false → avoids d r ≡ true
  no_dot : cannot_begin 46 r ≡ true
  no_dash : cannot_begin 45 r ≡ true
  no_at : cannot_begin 64 r ≡ true

begins :
    (r : Regex) (d c : ℕ) (s : Str)
    → cannot_begin d r ≡ true
    → matches r (c ∷ s) ≡ true
    → (c == d) ≡ false
begins r d c s h m = elim (Bool-cases (c == d)) [
  | inl e ↦
      let same = (==_iff c d).0 e in
      let none_so = cannot_begin-matches d r s h in
      absurd (ground (arith, subst (λ b. matches r (b ∷ s) ≡ true) same m, none_so))
  | inr e ↦ e
]

matches-valid_basename :
    (r : Regex) (s : Str) → IsWithin r → matches r s ≡ true → valid_basename s ≡ true
unfolding valid_basename cut_prefix contains
matches-valid_basename r [] w m = absurd (ground (arith, m, w.some_byte))
matches-valid_basename r (c ∷ s) w m =
    let whole =
      contains-all base_byte (c ∷ s) (λ d e. matches-avoids d r (c ∷ s) m (w.bytes d e)) in
    let (first, rest) = both_true (base_byte c) (all base_byte s) whole in
    let dot = begins r 46 c s w.no_dot m in
    let dash = begins r 45 c s w.no_dash m in
    let at = begins r 64 c s w.no_at m in
    let slash = matches-avoids 47 r (c ∷ s) m (w.bytes 47 refl) in
    let base =
      matches-class_star letter_or_digit base_byte c s (ground (arith, first, dot, dash, at))
        rest in
    ground (arith, base, dot, slash)

pub valid_message_id-valid_basename :
    (s : Str) → valid_message_id s ≡ true → valid_basename s ≡ true
unfolding valid_message_id matches cannot_begin
valid_message_id-valid_basename s h =
    matches-valid_basename message_id_pattern s
      (record {
        some_byte = refl;
        bytes = λ d e. ground (arith, e);
        no_dot = refl;
        no_dash = refl;
        no_at = refl;
      })
      h

pub valid_generation-valid_basename :
    (s : Str) → valid_generation s ≡ true → valid_basename s ≡ true
unfolding valid_generation matches cannot_begin
valid_generation-valid_basename s h =
    matches-valid_basename generation_pattern s
      (record {
        some_byte = refl;
        bytes = λ d e. ground (arith, e);
        no_dot = refl;
        no_dash = refl;
        no_at = refl;
      })
      h

names_test :
    (valid_message_id (lit "1700000000.1.2.steno@b200") ≡ true)
    × (valid_generation (lit "01.2") ≡ false)
    × (presence_node (lit "steno@b200.watcher") ≡ some (lit "b200"))
unfolding valid_message_id valid_generation presence_node valid_node valid_basename
names_test = (refl, refl, refl)
