-- ===== src/Wire/Digest.antt =====
-- link/protocol.go: transfer ids, and the hexadecimal text of a SHA-256 digest (encoding/hex).
use mathlib.Core.List.{append_assoc}
use khala_network.Common.{
  ℕ, ◌+◌, ◌-◌, ◌*◌, ◌/◌, ◌%◌, ◌<◌, ◌≡◌, ◌≢◌, refl, ap, sym, ◌∙◌, Str, lit, str_eq, [], ◌∷◌, ◌++◌,
  length, Option, none, some, if◌then◌else◌, arith, Bool, true, false, ltb, leb, ◌&&◌, All,
  length-append,
}

-- The digits are 0 to 9 and a to f.
hex_digit : ℕ → ℕ
hex_digit d = if ltb d 10 then 48 + d else 87 + d

-- hex.EncodeToString.
unfoldable pub hex_encode : Str → Str
unfolding hex_digit
hex_encode [] = []
hex_encode (b ∷ bs) = hex_digit (b / 16) ∷ hex_digit (b % 16) ∷ hex_encode bs

-- hex.DecodeString takes capital letters too.
hex_value : ℕ → Option ℕ
hex_value c =
    if leb 48 c && leb c 57
    then some (c - 48)
    else if leb 97 c && leb c 102
    then some (c - 87)
    else if leb 65 c && leb c 70
    then some (c - 55)
    else none

abbrev hex_byte : Option ℕ → Option ℕ → Option Str → Option Str
hex_byte (some hi) (some lo) (some bs) = some ((hi * 16 + lo) ∷ bs)
hex_byte (some hi) (some lo) none = none
hex_byte (some hi) none r = none
hex_byte none l r = none

unfoldable pub hex_decode : Str → Option Str
unfolding hex_value
hex_decode [] = some []
hex_decode (a ∷ []) = none
hex_decode (a ∷ b ∷ cs) = let rest = hex_decode cs in hex_byte (hex_value a) (hex_value b) rest

abbrev pub IsByte : ℕ → Type 0
IsByte b = b < 256

hex_value-hex_digit : (d : ℕ) → d < 16 → hex_value (hex_digit d) ≡ some d
unfolding hex_value hex_digit
hex_value-hex_digit d h = ground arith

pub hex_decode-hex_encode : (bs : Str) → All IsByte bs → hex_decode (hex_encode bs) ≡ some bs
unfolding hex_decode hex_encode
hex_decode-hex_encode [] h = refl
hex_decode-hex_encode (b ∷ bs) h = rw (hex_value-hex_digit (b / 16) (omega arith)) (
    rw (hex_value-hex_digit (b % 16) (omega arith))
      (rw (hex_decode-hex_encode bs h.1) (ap (λ (v : ℕ). some (v ∷ bs)) (omega arith))))

pub length-hex_encode : (bs : Str) → length (hex_encode bs) ≡ 2 * length bs
unfolding hex_encode
length-hex_encode [] = refl
length-hex_encode (b ∷ bs) = omega (arith, length-hex_encode bs)

-- The path identity of an object, and its digest.
pub record ObjectId : Type 0 where
  pub class : Str
  pub stream : Str
  pub node : Str
  pub session : Str
  pub basename : Str
  pub digest : Str

-- The bytes that `transferID` hashes: the fields, each ended by a zero byte, the basename and the
-- digest. Only a stream object has a stream, and only a session status a session.
unfoldable pub transfer_input : ObjectId → Str
transfer_input o =
    o.class
    ++ (0
        ∷ ((if str_eq o.class (lit "stream") then o.stream ++ (0 ∷ []) else [])
            ++ (o.node
                ++ (0
                    ∷ ((if str_eq o.class (lit "mind") then o.session ++ (0 ∷ []) else [])
                        ++ (o.basename ++ o.digest))))))

-- SHA-256 is a parameter, `sha256`.
unfoldable pub transfer_id : (Str → Str) → ObjectId → Str
transfer_id sha256 o = hex_encode (sha256 (transfer_input o))

-- No byte of a name is zero: `validNode` and `validBasename` see to it.
abbrev pub NoNul : Str → Type 0
NoNul s = All (λ b. b ≢ 0) s

-- Two texts that are ended by their first zero byte are equal part by part.
cut_at_nul : (a b r s : Str) → NoNul a → NoNul b → a ++ (0 ∷ r) ≡ b ++ (0 ∷ s) → (a ≡ b) × (r ≡ s)
cut_at_nul [] [] r s ha hb e = ground arith
cut_at_nul [] (y ∷ b) r s ha hb e = absurd (hb.0 (cc))
cut_at_nul (x ∷ a) [] r s ha hb e = absurd (ha.0 (cc))
cut_at_nul (x ∷ a) (y ∷ b) r s ha hb e = ground (arith, cut_at_nul a b r s)

-- Two texts that end in digests of one length are equal part by part.
cut_at_end : (a b d e : Str) → length d ≡ length e → a ++ d ≡ b ++ e → (a ≡ b) × (d ≡ e)
cut_at_end [] [] d e l q = (refl, q)
cut_at_end [] (y ∷ b) d e l q = absurd (omega (arith, ap length q, length-append b e))
cut_at_end (x ∷ a) [] d e l q = absurd (omega (arith, ap length q, length-append a d))
cut_at_end (x ∷ a) (y ∷ b) d e l q = ground (arith, cut_at_end a b d e)

cut_optional :
    (there : Bool) (a b r s : Str)
    → (there ≡ true → NoNul a)
    → (there ≡ true → NoNul b)
    → (if there then a ++ (0 ∷ []) else []) ++ r ≡ (if there then b ++ (0 ∷ []) else []) ++ s
    → (there ≡ true → a ≡ b) × (r ≡ s)
cut_optional false a b r s ha hb e = (λ h. cc, e)
cut_optional true a b r s ha hb e =
    let e' = sym (append_assoc a (0 ∷ []) r) ∙ e ∙ append_assoc b (0 ∷ []) s in
    let (same, rest) = cut_at_nul a b r s (ha refl) (hb refl) e' in (λ _. same, rest)

-- The names that the class has have no zero byte, and the digest is as long as a SHA-256 sum.
pub record IsObject (o : ObjectId) : Type 0 where
  pub class : NoNul o.class
  pub stream : str_eq o.class (lit "stream") ≡ true → NoNul o.stream
  pub node : NoNul o.node
  pub session : str_eq o.class (lit "mind") ≡ true → NoNul o.session
  pub basename : NoNul o.basename
  pub digest : length o.digest ≡ 32

-- The same object, as far as its class has the fields.
pub record SameObject (o p : ObjectId) : Type 0 where
  pub class : o.class ≡ p.class
  pub stream : str_eq o.class (lit "stream") ≡ true → o.stream ≡ p.stream
  pub node : o.node ≡ p.node
  pub session : str_eq o.class (lit "mind") ≡ true → o.session ≡ p.session
  pub basename : o.basename ≡ p.basename
  pub digest : o.digest ≡ p.digest

same_class :
    (o p : ObjectId)
    → IsObject o
    → IsObject p
    → o.class ≡ p.class
    → transfer_input o ≡ transfer_input p
    → SameObject o p
unfolding transfer_input
same_class o p ho hp c e =
    let e1 = (cut_at_nul o.class p.class _ _ ho.class hp.class e).1 in
    let e2 = rw (← c) at e1 in
    let (s, e3) =
      cut_optional (str_eq o.class (lit "stream")) o.stream p.stream _ _ ho.stream
        (stream_of c hp.stream) e2 in
    let (n, e4) = cut_at_nul o.node p.node _ _ ho.node hp.node e3 in
    let (m, e5) =
      cut_optional (str_eq o.class (lit "mind")) o.session p.session _ _ ho.session
        (session_of c hp.session) e4 in
    let (b, d) =
      cut_at_end o.basename p.basename o.digest p.digest (ho.digest ∙ sym hp.digest) e5 in
    record { class = c; stream = s; node = n; session = m; basename = b; digest = d }
  where
    stream_of :
        o.class ≡ p.class
        → (str_eq p.class (lit "stream") ≡ true → NoNul p.stream)
        → str_eq o.class (lit "stream") ≡ true
        → NoNul p.stream
    stream_of q h t = h (rw (← q) t)

    session_of :
        o.class ≡ p.class
        → (str_eq p.class (lit "mind") ≡ true → NoNul p.session)
        → str_eq o.class (lit "mind") ≡ true
        → NoNul p.session
    session_of q h t = h (rw (← q) t)

-- Two objects with the same transfer input are the same object, if their names have no zero bytes and
-- their digests 32 bytes.
pub transfer_input-injective :
    (o p : ObjectId)
    → IsObject o
    → IsObject p
    → transfer_input o ≡ transfer_input p
    → SameObject o p
unfolding transfer_input
transfer_input-injective o p ho hp e =
    same_class o p ho hp (cut_at_nul o.class p.class _ _ ho.class hp.class e).0 e

-- Equal transfer ids are ids of equal sums.
pub transfer_id-injective :
    (sha256 : Str → Str)
    → ((s : Str) → All IsByte (sha256 s))
    → (o p : ObjectId) → transfer_id sha256 o ≡ transfer_id sha256 p
    → sha256 (transfer_input o) ≡ sha256 (transfer_input p)
unfolding transfer_id
transfer_id-injective sha256 bytes o p e =
    let same : some (sha256 (transfer_input o)) ≡ some (sha256 (transfer_input p)) =
      sym (hex_decode-hex_encode _ (bytes (transfer_input o)))
      ∙ ap hex_decode e
      ∙ hex_decode-hex_encode _ (bytes (transfer_input p)) in
    cc

-- The class stands first in a transfer input.
pub transfer_input-class :
    (o p : ObjectId)
    → NoNul o.class
    → NoNul p.class
    → transfer_input o ≡ transfer_input p
    → o.class ≡ p.class
unfolding transfer_input
transfer_input-class o p ho hp e = (cut_at_nul o.class p.class _ _ ho hp e).0
