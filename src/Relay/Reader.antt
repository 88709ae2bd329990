-- ===== src/Relay/Reader.antt =====
-- link/pump.go, `readLoop` and `installIncoming`: what a relay does with each frame. A failing
-- transport ends the connection and is not modelled.
use khala_network.Common.{
  ℕ, Str, lit, str_eq, [], ◌∷◌, ◌++◌, Option, none, some, Result, ok, err, if◌then◌else◌, Bool,
  true, false, ◌&&◌, ◌||◌, ltb, ◌==◌,
}
use khala_network.Wire.Codec.{WireError}
use khala_network.Wire.Offers.{Offer, decode_offer}
use khala_network.Wire.Frames.{
  Frame, frame_hello, frame_offer, frame_have, frame_need, frame_data, frame_stored, frame_ping,
  frame_pong, frame_error, frame_bye,
}
use khala_network.Wire.Messages.{decode_data, decode_epoch, decode_error, ProtocolError}
use khala_network.Install.Files.{FilePath}
use khala_network.Install.Destination.{Refusal, destination}
use khala_network.Install.Epochs.{UnixTime, offer_expired}
use khala_network.Install.Quarantine.{Io}
use khala_network.Install.Presence.{
  InstallResult, installed, already_stored, quarantined, expired_skipped,
}
use khala_network.Install.Receive.{receive, inspect}
use khala_network.Relay.State.{
  Link, have, need, stored, pong, refusal, State, Step, step, fatal, add_origin, offer_key,
  stream_minor, status_minor,
}

abbrev pub expired_code : Str → Str
expired_code class = if str_eq class (lit "mind") then lit "MIND_EXPIRED" else lit "STREAM_EXPIRED"

-- A recoverable ERROR, after which the loop goes on.
abbrev pub refuse : Str → State → Step
refuse code s = step s (refusal code true ∷ [])

-- The destination has the offered bytes, or DATA is asked for.
abbrev pub answer_offer : Offer → Option Bool → State → Step
answer_offer o (some true) s =
    step (add_origin (offer_key o.object) o.id s) (have o.id ∷ stored o.id ∷ [])
answer_offer o (some false) s = step (record s { incoming = some o }) (need o.id ∷ [])
answer_offer o none s = step (record s { incoming = some o }) (need o.id ∷ [])

abbrev pub unless_old : Str → Option Bool → State → Step → Step
unless_old class none s next = refuse (lit "INVALID_OFFER") s
unless_old class (some true) s next = refuse (expired_code class) s
unless_old class (some false) s next = next

abbrev pub at_destination : Result Refusal FilePath → State → Step → Step
at_destination (err e) s next = refuse (lit "INVALID_OFFER") s
at_destination (ok p) s next = next

-- The checks on a decoded OFFER, in their order. `read_fails` is whether an existing destination
-- cannot be read.
unfoldable pub accept_offer : Link → UnixTime → Bool → Offer → State → Step
accept_offer l now read_fails o s =
    let inspected = answer_offer o (inspect l.sha256 l.installer read_fails o s.fs) s in
    if str_eq o.class (lit "stream") && ltb l.minor stream_minor
    then refuse (lit "UNNEGOTIATED_CLASS") s
    else if str_eq o.class (lit "mind") && ltb l.minor status_minor
    then refuse (lit "UNNEGOTIATED_CLASS") s
    else if ltb l.max_object o.size
    then refuse (lit "OBJECT_TOO_LARGE") s
    else at_destination (destination l.installer o.object) s (
        if str_eq o.class (lit "stream") || str_eq o.class (lit "mind")
        then unless_old o.class (offer_expired o.class o.basename l.retain_days 1 now) s inspected
        else inspected)

abbrev pub decoded_offer : Link → UnixTime → Bool → Result WireError Offer → State → Step
decoded_offer l now read_fails (err e) s = fatal (lit "BAD_OFFER") s
decoded_offer l now read_fails (ok o) s = accept_offer l now read_fails o s

-- `incoming != nil || installing.Load()`.
abbrev pub inbound_busy : State → Bool
inbound_busy s = elim s.incoming [
  | some o ↦ true
  | none ↦ elim s.installing [ some p ↦ true | none ↦ false ]
]

unfoldable pub on_offer : Link → UnixTime → Bool → Frame → State → Step
on_offer l now read_fails f s =
    if inbound_busy s
    then fatal (lit "INFLIGHT_LIMIT") s
    else decoded_offer l now read_fails (decode_offer l.sha256 f) s

abbrev pub data_for : Offer → Result WireError (Str × Str) → State → Step
data_for o (err e) s = fatal (lit "BAD_DATA") s
data_for o (ok (id, bytes)) s =
    if str_eq id o.id
    then step (record s { incoming = none; installing = some (o, bytes) }) []
    else fatal (lit "BAD_DATA") s

abbrev pub data_when : Option Offer → Frame → State → Step
data_when none f s = fatal (lit "UNEXPECTED_DATA") s
data_when (some o) f s = data_for o (decode_data f) s

unfoldable pub on_data : Frame → State → Step
on_data f s = data_when s.incoming f s

-- HAVE, NEED and STORED go to the sender, which takes them in order.
unfoldable pub on_response : Frame → State → Step
on_response f s =
    if s.active_out
    then step (record s { responses = s.responses ++ (f ∷ []) }) []
    else fatal (lit "UNEXPECTED_RESPONSE") s

abbrev pub answer_ping : Result WireError ℕ → State → Step
answer_ping (err e) s = fatal (lit "BAD_PING") s
answer_ping (ok epoch) s = step s (pong epoch ∷ [])

abbrev pub take_pong : Result WireError ℕ → State → Step
take_pong (err e) s = fatal (lit "BAD_PONG") s
take_pong (ok epoch) s = step s []

abbrev pub take_error : Frame → Result WireError ProtocolError → State → Step
take_error f (err e) s = fatal (lit "BAD_ERROR") s
take_error f (ok p) s =
    if p.recoverable
    then (if s.active_out
        then step (record s { responses = s.responses ++ (f ∷ []) }) []
        else step s [])
    else record { state = s; sent = []; stops = true }

abbrev pub take_bye : Str → State → Step
take_bye [] s = record { state = s; sent = []; stops = true }
take_bye (b ∷ bs) s = fatal (lit "BAD_BYE") s

-- The `switch` on the type of the frame.
unfoldable pub on_frame : Link → UnixTime → Bool → Frame → State → Step
on_frame l now read_fails f s =
    if f.typ == frame_offer
    then on_offer l now read_fails f s
    else if f.typ == frame_data
    then on_data f s
    else if (f.typ == frame_have || f.typ == frame_need) || f.typ == frame_stored
    then on_response f s
    else if f.typ == frame_ping
    then answer_ping (decode_epoch f) s
    else if f.typ == frame_pong
    then take_pong (decode_epoch f) s
    else if f.typ == frame_error
    then take_error f (decode_error f) s
    else if f.typ == frame_bye
    then take_bye f.payload s
    else if f.typ == frame_hello
    then fatal (lit "DUPLICATE_HELLO") s
    else fatal (lit "UNKNOWN_FRAME") s

-- `result == expiredSkipped && installErr == nil`, `installErr != nil || result == quarantined`, and
-- the rest.
abbrev pub report : Offer → InstallResult → Bool → State → Step
report o expired_skipped false s = refuse (expired_code o.class) s
report o quarantined false s = refuse (lit "IMMUTABLE_CONFLICT") s
report o installed false s = step (add_origin (offer_key o.object) o.id s) (stored o.id ∷ [])
report o already_stored false s = step (add_origin (offer_key o.object) o.id s) (stored o.id ∷ [])
report o r true s = refuse (lit "IMMUTABLE_CONFLICT") s

abbrev pub install_when : Link → UnixTime → Io → Option (Offer × Str) → State → Step
install_when l now io none s = step s []
install_when l now io (some (o, bytes)) s =
    let r = receive l.sha256 l.parse l.installer l.retain_days io now o bytes s.fs in
    report o r.result r.failed (record s { installing = none; fs = r.fs })

-- `installIncoming`: the object is received, and the peer told. Nothing happens while there is none.
unfoldable pub finish_install : Link → UnixTime → Io → State → Step
finish_install l now io s = install_when l now io s.installing s
