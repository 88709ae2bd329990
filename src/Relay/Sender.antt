-- ===== src/Relay/Sender.antt =====
-- link/pump.go, `sendCandidate`: one file that the tree watcher found, offered to the peer.
use khala_network.Common.{
  ℕ, zero, suc, ◌+◌, ◌≡◌, refl, Str, lit, str_eq, [], ◌∷◌, length, Option, none, some, Result, ok,
  err, if◌then◌else◌, Bool, true, false, ◌&&◌, ◌||◌, not, ltb, leb, ◌==◌,
}
use khala_network.Text.Strings.{cut, cut_prefix, trim_space, present}
use khala_network.Names.{valid_basename}
use khala_network.Wire.Codec.{WireError}
use khala_network.Wire.Digest.{ObjectId, transfer_id}
use khala_network.Wire.Offers.{Offer}
use khala_network.Wire.Frames.{Frame, frame_error}
use khala_network.Wire.Messages.{decode_id, decode_error, ProtocolError}
use khala_network.Install.Files.{FilePath}
use khala_network.Install.Destination.{Role, dial, serve}
use khala_network.Install.Epochs.{UnixTime, since, before, offer_epoch, offer_expired}
use khala_network.Install.Presence.{read_limited}
use khala_network.Relay.State.{Link, State, has_id, offer_key, stream_minor, status_minor}

-- A `candidate`, whose name and place are an object's without its digest (`named.digest` is not
-- used).
pub record Candidate : Type 0 where
  pub named : ObjectId
  pub open named use *
  pub path : FilePath
  pub delete_after_stored : Bool

abbrev pub is_serve : Role → Bool
is_serve serve = true
is_serve dial = false

-- bufio.ScanLines: the bytes up to each newline, less a carriage return.
abbrev drop_cr : Str → Str
drop_cr [] = []
drop_cr (c ∷ []) = if c == 13 then [] else c ∷ []
drop_cr (c ∷ d ∷ s) = c ∷ drop_cr (d ∷ s)

abbrev type_of_line : Str → Option Str → Str
type_of_line value none = value
type_of_line value (some rest) = trim_space rest

-- The header lines, up to the first empty one; a round for each line, so the number of bytes is
-- enough fuel.
header_type : ℕ → Str → Str → Str
header_type zero value s = value
header_type (suc fuel) value [] = value
header_type (suc fuel) value (c ∷ s) = elim (cut 10 (c ∷ s)) [
  | none ↦ type_of_line value (cut_prefix (lit "Type: ") (drop_cr (c ∷ s)))
  | some (line, rest) ↦ elim (drop_cr line) [
    | [] ↦ value
    | d ∷ t ↦ header_type fuel (type_of_line value (cut_prefix (lit "Type: ") (d ∷ t))) rest
  ]
]

-- A line that fills the scanner's buffer, without the newline that ends it: bufio.ErrTooLong, and no line.
abbrev is_too_long : Str → Bool
is_too_long head = leb 65536 (length head) && not (present (cut 10 head))

-- Acknowledgements and bounces, which their origin does not keep.
unfoldable pub fire_and_forget : Str → Bool
unfolding header_type cut cut_prefix trim_space
fire_and_forget bytes =
    let head = read_limited 65536 bytes in
    let value = if is_too_long head then [] else header_type (suc (length head)) [] head in
    str_eq value (lit "ack") || str_eq value (lit "bounce")

fire_and_forget_test : fire_and_forget (10 ∷ []) ≡ false
unfolding fire_and_forget read_limited
fire_and_forget_test = refl

-- What `sendCandidate` decides before it writes an OFFER.
pub data Plan : Type 0 where
  -- nothing to do
  skip : Plan
  too_large : Plan
  -- the peer has it already: the copy goes, if it was a disposable one
  drop_copy : Str → Plan
  set_aside : Offer → Plan
  send : Offer → Bool → Plan

-- `epoch > uint64(now.Unix()+86400)`, on a clock from 1970 on.
unfoldable pub too_new : UnixTime → Option ℕ → Bool
too_new (before n) epoch = false
too_new (since n) none = false
too_new (since n) (some epoch) = ltb (n + 86400) epoch

abbrev pub offer_for : (Str → Str) → Candidate → Str → Offer
offer_for sha256 c bytes =
    let object : ObjectId = record c.named { digest = sha256 bytes } in
    record { id = transfer_id sha256 object; object = object; size = length bytes }

-- `c.deleteAfterStored` on the serving side, or an infrastructure letter of the dialing side.
unfoldable pub removes_origin : Link → Candidate → Str → Bool
removes_origin l c bytes =
    not (is_serve l.role) && (str_eq c.class (lit "spool") && fire_and_forget bytes)

abbrev pub is_shard_class : Str → Bool
is_shard_class class = str_eq class (lit "stream") || str_eq class (lit "mind")

-- The decisions on a file that has been read.
unfoldable pub plan_bytes : Link → UnixTime → Candidate → Str → State → Plan
plan_bytes l now c bytes s =
    let o = offer_for l.sha256 c bytes in
    let key = offer_key c.named in
    let removes = removes_origin l c bytes in
    if ltb l.max_object (length bytes)
    then too_large
    else if has_id key o.id s.origins
    then skip
    else if has_id key o.id s.rejected
    then skip
    else if has_id key o.id s.known
    then (if (is_serve l.role && c.delete_after_stored) || removes
        then drop_copy o.digest
        else skip)
    else if is_shard_class c.class && too_new now (offer_epoch c.class c.basename)
    then set_aside o
    else send o removes

abbrev pub unless_expired_plan : Option Bool → Plan → Plan
unless_expired_plan none next = skip
unless_expired_plan (some true) next = skip
unless_expired_plan (some false) next = next

-- `found` is the regular file's content: `none` where it is not there, not regular or unreadable.
unfoldable pub plan : Link → UnixTime → Candidate → Option Str → State → Plan
plan l now c found s =
    let next : Plan = elim found [
      | none ↦ skip
      | some bytes ↦ if valid_basename c.basename then plan_bytes l now c bytes s else skip
    ] in
    if str_eq c.class (lit "stream") && ltb l.minor stream_minor
    then skip
    else if str_eq c.class (lit "mind") && ltb l.minor status_minor
    then skip
    else if is_shard_class c.class
    then unless_expired_plan (offer_expired c.class c.basename l.retain_days 1 now) next
    else next

-- `waitResponse`, from the frame that the reader passed on.
pub data Reply : Type 0 where
  declined : Reply
  answered : ℕ → Reply
  broken : Reply

abbrev reply_error : Result WireError ProtocolError → Reply
reply_error (ok p) = declined
reply_error (err e) = broken

abbrev reply_id : ℕ → Str → Result WireError Str → Reply
reply_id typ id (err e) = broken
reply_id typ id (ok got) = if str_eq got id then answered typ else broken

unfoldable pub wait_response : Str → Frame → Reply
wait_response id f =
    if f.typ == frame_error then reply_error (decode_error f) else reply_id f.typ id (decode_id f)
