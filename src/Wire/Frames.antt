-- ===== src/Wire/Frames.antt =====
-- link/protocol.go: frames, `frameWriter.write` and `readFrame`.
use mathlib.Core.List.{append_assoc}
use khala_network.Common.{
  ℕ, suc, ◌+◌, ◌-◌, ◌^◌, ◌<◌, ◌≤◌, ◌≡◌, sym, ◌∙◌, refl, Str, [], ◌∷◌, ◌++◌, length, Option, none,
  some, Result, ok, err, ◌>>=◌, ◌==◌, if◌then◌else◌, arith, take_exact, take_exact-append_eq, ltb,
  leb, Bool, true, false, ap, inl, inr, Option-cases, Result-cases, take_exact_sound,
}
use khala_network.Wire.Codec.{
  WireError, eof, unexpected_eof, payload_too_large, frame_too_large, u32_mod, put_be, be_value,
  be_value-put_be, length-put_be,
}

-- The types of frames are the constants of `iota + 1`.
abbrev pub frame_hello : ℕ
frame_hello = 1

abbrev pub frame_offer : ℕ
frame_offer = 2

abbrev pub frame_have : ℕ
frame_have = 3

abbrev pub frame_need : ℕ
frame_need = 4

abbrev pub frame_data : ℕ
frame_data = 5

abbrev pub frame_stored : ℕ
frame_stored = 6

abbrev pub frame_ping : ℕ
frame_ping = 7

abbrev pub frame_pong : ℕ
frame_pong = 8

abbrev pub frame_error : ℕ
frame_error = 9

abbrev pub frame_bye : ℕ
frame_bye = 10

abbrev pub max_control_size : ℕ
max_control_size = 65536

pub record Frame : Type 0 where
  pub typ : ℕ
  pub payload : Str

-- The bytes that `write` sends: the type, the length in 32 bits, the payload. The transport's own
-- failures (`writeFull`) are not modelled.
unfoldable pub write_frame : Frame → Result WireError Str
unfolding put_be
write_frame f =
    if ltb (u32_mod - 1) (length f.payload)
    then err payload_too_large
    else ok (f.typ ∷ (put_be 4 (length f.payload) ++ f.payload))

-- io.ReadFull of `n` bytes: io.EOF if there is none at all, io.ErrUnexpectedEOF if there are some.
abbrev full_or_eof : Str → Option (Str × Str) → Result WireError (Str × Str)
full_or_eof bs (some (front, rest)) = ok (front, rest)
full_or_eof [] none = err eof
full_or_eof (_ ∷ _) none = err unexpected_eof

unfoldable pub read_full : ℕ → Str → Result WireError (Str × Str)
read_full n bs = full_or_eof bs (take_exact n bs)

-- `limit := int64(maxControlSize)`, or `maxObject + 4096` for DATA. The sum is an int64: from 2^63
-- on it wraps to a negative number, which every length exceeds.
unfoldable pub exceeds_limit : ℕ → ℕ → ℕ → Bool
exceeds_limit max_object typ n =
    if typ == frame_data
    then (if leb (2 ^ 63) (max_object + 4096) then true else ltb (max_object + 4096) n)
    else ltb max_control_size n

-- The header's type byte and the length in its other four bytes.
abbrev header_parts : Str → ℕ × ℕ
header_parts [] = (0, 0)
header_parts (typ ∷ len) = (typ, be_value 0 len)

unfoldable pub read_frame : ℕ → Str → Result WireError (Frame × Str)
read_frame max_object bs = do
  (header, rest) ← read_full 5 bs
  let (typ, n) = header_parts header
  if exceeds_limit max_object typ n then err (frame_too_large typ n) else do
    (payload, rest') ← read_full n rest
    ok (record { typ = typ; payload = payload }, rest')

read_full-append :
    {n : ℕ} (xs rest : Str) → length xs ≡ n → read_full n (xs ++ rest) ≡ ok (xs, rest)
unfolding read_full
read_full-append xs rest e = rw (take_exact-append_eq xs rest e) refl

written : (f : Frame) → Str → Str
written f rest = (f.typ ∷ put_be 4 (length f.payload)) ++ (f.payload ++ rest)

-- What `write_frame` accepts has a length that four bytes hold.
write_frame_inv :
    (f : Frame) (rest : Str) {bs : Str}
    → write_frame f ≡ ok bs
    → (bs ++ rest ≡ written f rest) × (length f.payload < u32_mod)
unfolding write_frame written
write_frame_inv f rest w = ground (arith, append_assoc (put_be 4 (length f.payload)) f.payload rest)

-- A frame that was written, and is within the reader's limit, is read back as it was, whatever follows
-- it.
pub read_frame-write_frame :
    (max_object : ℕ) (f : Frame) (rest : Str) {bs : Str}
    → write_frame f ≡ ok bs
    → exceeds_limit max_object f.typ (length f.payload) ≡ false
    → read_frame max_object (bs ++ rest) ≡ ok (f, rest)
unfolding read_frame
read_frame-write_frame max_object f rest w fits =
    let (same, short) = write_frame_inv f rest w in
    let len = put_be 4 (length f.payload) in
    let value = be_value-put_be 4 (length f.payload) short in
    rw same (
      unfold written in
      rw
        (read_full-append (f.typ ∷ len) (f.payload ++ rest)
          (ap suc (length-put_be 4 (length f.payload))))
        (rw value (rw fits (rw (read_full-append f.payload rest refl) refl))))

read_full-parts :
    (n : ℕ) (bs : Str) {p : Str × Str}
    → read_full n bs ≡ ok p
    → (length p.0 ≡ n) × (bs ≡ p.0 ++ p.1)
unfolding read_full
read_full-parts n bs h = elim (Option-cases (take_exact n bs)) [
  | inl e ↦ ground (arith, eof_err bs)
  | inr (q, e) ↦ ground (arith, take_exact_sound n bs {front = q.0} {rest = q.1} e)
]
  where
    eof_err : (bs : Str) {p : Str × Str} → full_or_eof bs none ≡ ok p → ⊥
    eof_err [] h = cc
    eof_err (b ∷ bs) h = cc

-- The bytes that a payload may have, by the type of its frame.
abbrev pub payload_limit : ℕ → ℕ → ℕ
payload_limit max_object typ = if typ == 5 then max_object + 4096 else 65536

within_limit :
    (max_object typ n : ℕ)
    → exceeds_limit max_object typ n ≡ false
    → n ≤ payload_limit max_object typ
unfolding exceeds_limit
within_limit max_object typ n h = ground arith

-- The frame at the beginning of the input: its type, the four bytes of its length, its payload.
pub record Begins (max_object : ℕ) (bs : Str) (f : Frame) (rest : Str) : Type 0 where
  pub len : Str
  pub four : length len ≡ 4
  pub value : be_value 0 len ≡ length f.payload
  pub in_order : bs ≡ f.typ ∷ (len ++ (f.payload ++ rest))
  pub bounded : length f.payload ≤ payload_limit max_object f.typ

record Parts (max_object : ℕ) (header after : Str) (f : Frame) (rest : Str) : Type 0 where
  typ : (header_parts header).0 ≡ f.typ
  size : (header_parts header).1 ≡ length f.payload
  fits : exceeds_limit max_object f.typ (length f.payload) ≡ false
  in_order : after ≡ f.payload ++ rest

joined-Begins :
    (max_object : ℕ) (bs header after : Str) {f : Frame} {rest : Str}
    → length header ≡ 5
    → bs ≡ header ++ after
    → Parts max_object header after f rest
    → Begins max_object bs f rest
joined-Begins max_object bs [] after five e p = absurd (ground arith)
joined-Begins max_object bs (typ ∷ len) after {f = f} {rest = rest} five e p = record {
  len = len;
  four = ground arith;
  value = p.size;
  in_order =
      e
      ∙ (ap (λ (s : Str). typ ∷ (len ++ s)) p.in_order
          ∙ ap (λ (c : ℕ). c ∷ (len ++ (f.payload ++ rest))) p.typ);
  bounded = within_limit max_object f.typ (length f.payload) p.fits;
}

-- A frame that is read has a payload of at most 65536 bytes, or for DATA of at most 4096 more than an
-- object may have; and the input is its type, four bytes that are its length in big endian, its payload
-- and the rest.
pub read_frame_bounded :
    (max_object : ℕ) (bs : Str) {f : Frame} {rest : Str}
    → read_frame max_object bs ≡ ok (f, rest)
    → Begins max_object bs f rest
unfolding read_frame
read_frame_bounded max_object bs {f = f} {rest = rest} h = elim (Result-cases (read_full 5 bs)) [
  | inr (e, q) ↦ absurd (ground arith)
  | inl (p, q) ↦ elim (Result-cases (read_full (header_parts p.0).1 p.1)) [
    | inr (e, r) ↦ absurd (ground arith)
    | inl (s, r) ↦
        let outer = read_full-parts 5 bs q in
        let inner = read_full-parts _ p.1 r in
        let typ : (header_parts p.0).0 ≡ f.typ = ground (arith) in
        let payload : s.0 ≡ f.payload = ground (arith) in
        joined-Begins max_object bs p.0 p.1 outer.0 outer.1 (record {
          typ = typ;
          size = sym inner.0 ∙ ap length payload;
          fits = ground arith;
          in_order = ground (arith, inner);
        })
  ]
]
