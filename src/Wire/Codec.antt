-- ===== src/Wire/Codec.antt =====
-- link/protocol.go: `encoder` and `decoder`. An encoder's state is the bytes appended so far; a
-- decoder's (`b`, `i`) is the list of the bytes `b[i:]` that are left.
use native.Mathlib.Nat.{pow-suc}
use mathlib.Core.List.{append_assoc, append-nil}
use khala_network.Common.{
  ℕ, zero, suc, ◌+◌, ◌*◌, ◌/◌, ◌%◌, ◌^◌, ◌<◌, ◌≡◌, refl, Str, [], ◌∷◌, ◌++◌, length, length-append,
  Option, none, some, Result, ok, err, arith, take_exact, take_exact-append, take_exact-append_eq,
  ap, subst,
}

pub data WireError : Type 0 where
  eof unexpected_eof payload_too_large invalid_digest id_mismatch bad_flag : WireError
  trailing not_hello : ℕ → WireError
  frame_too_large : ℕ → ℕ → WireError

abbrev pub u64_mod : ℕ
u64_mod = 2 ^ 64

abbrev pub u32_mod : ℕ
u32_mod = 2 ^ 32

-- binary.BigEndian.PutUint64 and PutUint32: the low `k` bytes, the highest first.
unfoldable pub put_be : ℕ → ℕ → Str
put_be zero n = []
put_be (suc k) n = put_be k (n / 256) ++ (n % 256) ∷ []

-- binary.BigEndian.Uint64 and Uint32.
unfoldable pub be_value : ℕ → Str → ℕ
be_value acc [] = acc
be_value acc (b ∷ bs) = be_value (acc * 256 + b) bs

be_value-append : (acc : ℕ) (xs ys : Str) → be_value acc (xs ++ ys) ≡ be_value (be_value acc xs) ys
unfolding be_value
be_value-append acc [] ys = refl
be_value-append acc (x ∷ xs) ys = be_value-append (acc * 256 + x) xs ys

-- Reading back what was put gives the number, if it fits.
pub be_value-put_be : (k n : ℕ) → n < 256 ^ k → be_value 0 (put_be k n) ≡ n
unfolding put_be be_value
be_value-put_be zero n h = omega arith
be_value-put_be (suc k) n h =
    rw (be_value-append 0 (put_be k (n / 256)) ((n % 256) ∷ []))
      (rw (be_value-put_be k (n / 256) (omega (arith, pow-suc 256 k))) (omega arith))

pub length-put_be : (k n : ℕ) → length (put_be k n) ≡ k
unfolding put_be
length-put_be zero n = refl
length-put_be (suc k) n =
    omega (arith, length-append (put_be k (n / 256)) ((n % 256) ∷ []), length-put_be k (n / 256))

unfoldable pub put_u64 : ℕ → Str
unfolding put_be
put_u64 n = put_be 8 n

-- uint64(len(s)), then the bytes.
unfoldable pub put_str : Str → Str
unfolding put_u64
put_str s = put_u64 (length s) ++ s

abbrev read_front : Option (Str × Str) → Result WireError (Str × Str)
read_front none = err unexpected_eof
read_front (some (front, rest)) = ok (front, rest)

abbrev u64_of : Result WireError (Str × Str) → Result WireError (ℕ × Str)
u64_of (ok (front, rest)) = ok (be_value 0 front, rest)
u64_of (err e) = err e

unfoldable pub get_u64 : Str → Result WireError (ℕ × Str)
unfolding be_value
get_u64 bs = u64_of (read_front (take_exact 8 bs))

abbrev str_of : Result WireError (ℕ × Str) → Result WireError (Str × Str)
str_of (ok (n, rest)) = read_front (take_exact n rest)
str_of (err e) = err e

unfoldable pub get_str : Str → Result WireError (Str × Str)
unfolding get_u64
get_str bs = str_of (get_u64 bs)

-- All of the payload must have been read.
unfoldable pub done {ℓ} : {A : Type ℓ} → A → Str → Result WireError A
done a [] = ok a
done a (b ∷ bs) = err (trailing (length (b ∷ bs)))

pub get_u64-put_u64 :
    (n : ℕ) (rest : Str) → n < u64_mod → get_u64 (put_u64 n ++ rest) ≡ ok (n, rest)
unfolding get_u64 put_u64
get_u64-put_u64 n rest h =
    rw (take_exact-append_eq (put_be 8 n) rest (length-put_be 8 n))
      (ap (λ (v : ℕ). ok (v, rest)) (be_value-put_be 8 n h))

put_str_append : (s rest : Str) → put_str s ++ rest ≡ put_u64 (length s) ++ (s ++ rest)
unfolding put_str
put_str_append s rest = append_assoc (put_u64 (length s)) s rest

pub get_str-put_str :
    (s rest : Str) → length s < u64_mod → get_str (put_str s ++ rest) ≡ ok (s, rest)
unfolding get_str
get_str-put_str s rest h =
    rw (put_str_append s rest)
      (rw (get_u64-put_u64 (length s) (s ++ rest) h) (rw (take_exact-append s rest) refl))

-- A string that ends the payload.
pub get_str-put_str_end : (s : Str) → length s < u64_mod → get_str (put_str s) ≡ ok (s, [])
get_str-put_str_end s h =
    subst (λ bs. get_str bs ≡ ok (s, [])) (append-nil (put_str s)) (get_str-put_str s [] h)

pub get_u64-put_u64_end : (n : ℕ) → n < u64_mod → get_u64 (put_u64 n) ≡ ok (n, [])
get_u64-put_u64_end n h =
    subst (λ bs. get_u64 bs ≡ ok (n, [])) (append-nil (put_u64 n)) (get_u64-put_u64 n [] h)

pub ruleset codec_laws =
    (get_u64-put_u64, get_str-put_str, get_str-put_str_end, get_u64-put_u64_end)
