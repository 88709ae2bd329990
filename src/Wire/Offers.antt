-- ===== src/Wire/Offers.antt =====
-- link/protocol.go: the payload of OFFER, which names the object that its sender has.
use khala_network.Common.{
  ℕ, ◌<◌, ◌≡◌, refl, Str, lit, str_eq, str_eq_sound, str_eq_iff, [], ◌∷◌, ◌++◌, length, Option,
  none, some, Result, ok, err, ◌>>=◌, ◌==◌, if◌then◌else◌, arith, Bool, true, false, All, sym, ◌∙◌,
  Returns, Returns-bind, Returns-at, >>=-eq-ok,
}
use khala_network.Wire.Codec.{
  WireError, invalid_digest, id_mismatch, u64_mod, put_u64, put_str, get_u64, get_str, done,
  get_str-put_str, get_u64-put_u64, get_str-put_str_end,
}
use khala_network.Wire.Frames.{Frame, frame_offer}
use khala_network.Wire.Digest.{
  ObjectId, IsObject, SameObject, IsByte, transfer_id, transfer_input, transfer_input-injective,
  transfer_id-injective, hex_encode, hex_decode, hex_decode-hex_encode, length-hex_encode,
}

pub record Offer : Type 0 where
  pub id : Str
  pub object : ObjectId
  pub open object use *
  pub size : ℕ

unfoldable pub offer_frame : Offer → Frame
offer_frame o = record {
  typ = frame_offer;
  payload =
      put_str o.id
      ++ (put_str o.class
          ++ ((if str_eq o.class (lit "stream") then put_str o.stream else [])
              ++ (put_str o.node
                  ++ ((if str_eq o.class (lit "mind") then put_str o.session else [])
                      ++ (put_str o.basename
                          ++ (put_u64 o.size ++ put_str (hex_encode o.digest)))))));
}

-- A field that is there only for one class.
abbrev get_optional : Bool → Str → Result WireError (Str × Str)
get_optional flag bs = if flag then get_str bs else ok ([], bs)

-- `hex.DecodeString`, and the test on the length of what it returns.
abbrev digest_of : Option Str → Result WireError Str
digest_of none = err invalid_digest
digest_of (some bs) = if length bs == 32 then ok bs else err invalid_digest

-- `decodeOffer` up to `d.done()`.
unfoldable pub read_offer : Frame → Result WireError Offer
unfolding done
read_offer f = do
  (id, r1) ← get_str f.payload
  (class, r2) ← get_str r1
  (stream, r3) ← get_optional (str_eq class (lit "stream")) r2
  (node, r4) ← get_str r3
  (session, r5) ← get_optional (str_eq class (lit "mind")) r4
  (basename, r6) ← get_str r5
  (size, r7) ← get_u64 r6
  (text, r8) ← get_str r7
  digest ← digest_of (hex_decode text)
  let object : ObjectId = record {
    class = class;
    stream = stream;
    node = node;
    session = session;
    basename = basename;
    digest = digest;
  }
  done (record { id = id; object = object; size = size }) r8

unfoldable pub decode_offer : (Str → Str) → Frame → Result WireError Offer
decode_offer sha256 f = do
  o ← read_offer f
  if str_eq o.id (transfer_id sha256 o.object) then ok o else err id_mismatch

pub record OfferFits (o : Offer) : Type 0 where
  pub id : length o.id < u64_mod
  pub class : length o.class < u64_mod
  pub stream : length o.stream < u64_mod
  pub node : length o.node < u64_mod
  pub session : length o.session < u64_mod
  pub basename : length o.basename < u64_mod
  pub size : o.size < u64_mod
  pub digest_bytes : All IsByte o.digest
  pub digest_length : length o.digest ≡ 32
  pub stream_absent : str_eq o.class (lit "stream") ≡ false → o.stream ≡ []
  pub session_absent : str_eq o.class (lit "mind") ≡ false → o.session ≡ []

get_optional-put :
    (flag : Bool) (s rest : Str)
    → length s < u64_mod
    → (flag ≡ false → s ≡ [])
    → get_optional flag ((if flag then put_str s else []) ++ rest) ≡ ok (s, rest)
get_optional-put true s rest h absent = get_str-put_str s rest h
get_optional-put false s rest h absent = ground (arith, absent refl)

digest_of-hex :
    (d : Str) → All IsByte d → length d ≡ 32 → digest_of (hex_decode (hex_encode d)) ≡ ok d
digest_of-hex d h l = rw (hex_decode-hex_encode d h) (ground arith)

-- An OFFER that carries its object's transfer id, whose fields fit their encoding and which has no
-- field that its class leaves out, is decoded to what was sent.
pub decode_offer-offer_frame :
    (sha256 : Str → Str) (o : Offer)
    → OfferFits o
    → o.id ≡ transfer_id sha256 o.object
    → decode_offer sha256 (offer_frame o) ≡ ok o
unfolding decode_offer read_offer offer_frame
decode_offer-offer_frame sha256 o fits e = rw (get_str-put_str o.id _ fits.id) (
    rw (get_str-put_str o.class _ fits.class) (
      rw
        (get_optional-put (str_eq o.class (lit "stream")) o.stream _ fits.stream fits.stream_absent)
        (rw (get_str-put_str o.node _ fits.node) (
          rw
            (get_optional-put (str_eq o.class (lit "mind")) o.session _ fits.session
              fits.session_absent)
            (rw (get_str-put_str o.basename _ fits.basename) (
              rw (get_u64-put_u64 o.size _ fits.size) (
                rw
                  (get_str-put_str_end (hex_encode o.digest)
                    (omega (arith, length-hex_encode o.digest)))
                  (rw (digest_of-hex o.digest fits.digest_bytes fits.digest_length)
                    (rw ((str_eq_iff o.id _).1 e))))))))))

abbrev DigestIs32 : Offer → Type 0
DigestIs32 o = length o.digest ≡ 32

digest_of-length : (r : Option Str) (d : Str) → digest_of r ≡ ok d → length d ≡ 32
digest_of-length none d h = cc
digest_of-length (some bs) d h = ground arith

Returns-done : (o : Offer) (bs : Str) → DigestIs32 o → Returns DigestIs32 (done o bs)
unfolding done
Returns-done o [] h = h
Returns-done o (b ∷ bs) h = tt

read_offer-digest : (f : Frame) → Returns DigestIs32 (read_offer f)
unfolding read_offer
read_offer-digest f = Returns-bind _ (get_str f.payload) _ λ p1 _.
    Returns-bind _ (get_str p1.1) _ λ p2 _.
      Returns-bind _ (get_optional (str_eq p2.0 (lit "stream")) p2.1) _ λ p3 _.
        Returns-bind _ (get_str p3.1) _ λ p4 _.
          Returns-bind _ (get_optional (str_eq p2.0 (lit "mind")) p4.1) _ λ p5 _.
            Returns-bind _ (get_str p5.1) _ λ p6 _. Returns-bind _ (get_u64 p6.1) _ λ p7 _.
              Returns-bind _ (get_str p7.1) _ λ p8 _.
                Returns-bind _ (digest_of (hex_decode p8.0)) _
                  λ d e. Returns-done _ p8.1 (digest_of-length (hex_decode p8.0) d e)

-- An OFFER that is decoded carries the transfer id of its object, and a digest of 32 bytes.
pub decode_offer_sound :
    (sha256 : Str → Str) (f : Frame) (o : Offer)
    → decode_offer sha256 f ≡ ok o
    → (o.id ≡ transfer_id sha256 o.object) × (length o.digest ≡ 32)
unfolding decode_offer
decode_offer_sound sha256 f o h =
    let (p, e, k) = >>=-eq-ok (read_offer f) _ h in
    ground (
      arith,
      Returns-at DigestIs32 (read_offer f) e (read_offer-digest f),
      str_eq_sound p.id (transfer_id sha256 p.object),
    )

-- Two decoded OFFERs with the same id, whose names have no zero bytes and whose transfer inputs do not
-- collide under a SHA-256 that returns bytes, name the same object with the same digest.
pub same_id-SameObject :
    (sha256 : Str → Str)
    → ((s : Str) → All IsByte (sha256 s))
    → (f g : Frame) (o p : Offer) → decode_offer sha256 f ≡ ok o
    → decode_offer sha256 g ≡ ok p
    → IsObject o.object
    → IsObject p.object
    → o.id ≡ p.id
    → (sha256 (transfer_input o.object) ≡ sha256 (transfer_input p.object)
        → transfer_input o.object ≡ transfer_input p.object)
    → SameObject o.object p.object
same_id-SameObject sha256 bytes f g o p df dg ho hp e no_collision =
    let to = (decode_offer_sound sha256 f o df).0 in
    let tp = (decode_offer_sound sha256 g p dg).0 in
    transfer_input-injective o.object p.object ho hp
      (no_collision (transfer_id-injective sha256 bytes o.object p.object (sym to ∙ e ∙ tp)))
