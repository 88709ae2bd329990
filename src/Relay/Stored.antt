-- ===== src/Relay/Stored.antt =====
-- STORED and HAVE are promises: the node that sends them has the object in place.
use khala_network.Common.{
  ℕ, ◌≡◌, ◌≢◌, refl, Str, lit, str_eq, str_eq_sound, [], ◌∷◌, Option, none, some, Result, ok, err,
  if◌then◌else◌, Bool, true, false, ◌&&◌, ◌||◌, ltb, ◌==◌, arith, All, inl, inr, Option-cases,
  Result-cases, sym, subst,
}
use khala_network.Wire.Codec.{WireError}
use khala_network.Wire.Offers.{Offer, decode_offer, decode_offer_sound}
use khala_network.Relay.Pending.{Each}
use khala_network.Relay.Promises.{InPlace, Vouched, Backed, KeepsWord, kept, Backed-mono}
use khala_network.Wire.Frames.{
  Frame, frame_hello, frame_offer, frame_have, frame_need, frame_data, frame_stored, frame_ping,
  frame_pong, frame_error, frame_bye,
}
use khala_network.Wire.Messages.{decode_data, decode_epoch, decode_error, ProtocolError}
use khala_network.Install.Files.{FilePath, Fs}
use khala_network.Install.Destination.{Refusal, destination}
use khala_network.Install.Epochs.{UnixTime, offer_expired}
use khala_network.Install.Quarantine.{Io, same_digest}
use khala_network.Install.Presence.{
  InstallResult, installed, already_stored, quarantined, expired_skipped,
}
use khala_network.Install.Staging.{Holds}
use khala_network.Install.Mailbox.{receive-Outcome, receive_refused}
use khala_network.Install.Receive.{receive, inspect}
use khala_network.Relay.State.{Link, State, Step, fatal, add_origin, stream_minor, status_minor}
use khala_network.Relay.Reader.{
  on_offer, accept_offer, answer_offer, unless_old, at_destination, on_data, on_response, on_frame,
  report, refuse, finish_install, inbound_busy, decoded_offer, data_for, data_when, answer_ping,
  take_pong, take_error, take_bye, install_when,
}

KeepsWord-if :
    (P : Offer → Type 0) (fs : Fs) (b : Bool) (x y : Step)
    → KeepsWord P fs x
    → KeepsWord P fs y
    → KeepsWord P fs (if b then x else y)
KeepsWord-if P fs true x y hx hy = hx
KeepsWord-if P fs false x y hx hy = hy

refuse-KeepsWord : (P : Offer → Type 0) (code : Str) (s : State) → KeepsWord P s.fs (refuse code s)
refuse-KeepsWord P code s = kept (tt, tt) refl

fatal-KeepsWord : (P : Offer → Type 0) (code : Str) (s : State) → KeepsWord P s.fs (fatal code s)
fatal-KeepsWord P code s = kept (tt, (tt, tt)) refl

inspect-Holds :
    (l : Link) (read_fails : Bool) (o : Offer) (fs : Fs)
    → inspect l.sha256 l.installer read_fails o fs ≡ some true
    → (p : FilePath) × (destination l.installer o.object ≡ ok p) × Holds l.sha256 p o.digest fs
unfolding inspect same_digest
inspect-Holds l read_fails o fs h = elim (Result-cases (destination l.installer o.object)) [
  | inr (e, q) ↦ absurd (ground arith)
  | inl (p, q) ↦ elim (Option-cases (fs p)) [
    | inl e ↦ absurd (ground arith)
    | inr (c, e) ↦ (p, q, (c, e, str_eq_sound (l.sha256 c) o.digest (ground arith)))
  ]
]

-- The OFFER of a frame, whose object is in place.
abbrev pub OfferedBy : Link → Fs → Frame → Offer → Type 0
OfferedBy l fs f o = (decode_offer l.sha256 f ≡ ok o) × InPlace l fs o

module _ (l : Link) (now : UnixTime) (read_fails : Bool) (f : Frame) (s : State) where
  answer-KeepsWord :
      (o : Offer) (r : Option Bool)
      → decode_offer l.sha256 f ≡ ok o
      → inspect l.sha256 l.installer read_fails o s.fs ≡ r
      → KeepsWord (OfferedBy l s.fs f) s.fs (answer_offer o r s)
  unfolding add_origin
  answer-KeepsWord o none g e = kept (tt, tt) refl
  answer-KeepsWord o (some false) g e = kept (tt, tt) refl
  answer-KeepsWord o (some true) g e =
      let held = inspect-Holds l read_fails o s.fs e in
      kept ((o, refl, (g, λ _. held)), ((o, refl, (g, λ _. held)), tt)) refl

  old-KeepsWord :
      (class : Str) (r : Option Bool) (next : Step)
      → KeepsWord (OfferedBy l s.fs f) s.fs next
      → KeepsWord (OfferedBy l s.fs f) s.fs (unless_old class r s next)
  old-KeepsWord class none next h = kept (tt, tt) refl
  old-KeepsWord class (some true) next h = kept (tt, tt) refl
  old-KeepsWord class (some false) next h = h

  dest-KeepsWord :
      (r : Result Refusal FilePath) (next : Step)
      → KeepsWord (OfferedBy l s.fs f) s.fs next
      → KeepsWord (OfferedBy l s.fs f) s.fs (at_destination r s next)
  dest-KeepsWord (err e) next h = kept (tt, tt) refl
  dest-KeepsWord (ok p) next h = h

  accept-KeepsWord :
      (o : Offer)
      → decode_offer l.sha256 f ≡ ok o
      → KeepsWord (OfferedBy l s.fs f) s.fs (accept_offer l now read_fails o s)
  unfolding accept_offer
  accept-KeepsWord o g =
      let P = OfferedBy l s.fs f in
      let no = λ (code : Str). refuse-KeepsWord P code s in
      let answer = answer-KeepsWord o _ g refl in
      let shard = str_eq o.class (lit "stream") || str_eq o.class (lit "mind") in
      let age = offer_expired o.class o.basename l.retain_days 1 now in
      KeepsWord-if P s.fs (str_eq o.class (lit "stream") && ltb l.minor stream_minor) _ _
        (no (lit "UNNEGOTIATED_CLASS"))
        (KeepsWord-if P s.fs (str_eq o.class (lit "mind") && ltb l.minor status_minor) _ _
          (no (lit "UNNEGOTIATED_CLASS"))
          (KeepsWord-if P s.fs (ltb l.max_object o.size) _ _ (no (lit "OBJECT_TOO_LARGE")) (
            dest-KeepsWord (destination l.installer o.object) _
              (KeepsWord-if P s.fs shard _ _ (old-KeepsWord o.class age _ answer) answer))))

  offer-KeepsWord : KeepsWord (OfferedBy l s.fs f) s.fs (on_offer l now read_fails f s)
  unfolding on_offer
  offer-KeepsWord =
      KeepsWord-if (OfferedBy l s.fs f) s.fs (inbound_busy s) _ _
        (fatal-KeepsWord (OfferedBy l s.fs f) (lit "INFLIGHT_LIMIT") s)
        (decoded (decode_offer l.sha256 f) refl)
    where
      decoded :
          (r : Result WireError Offer)
          → decode_offer l.sha256 f ≡ r
          → KeepsWord (OfferedBy l s.fs f) s.fs (decoded_offer l now read_fails r s)
      decoded (err e) q = kept (tt, (tt, tt)) refl
      decoded (ok o) q = accept-KeepsWord o q

-- The handlers that answer nothing but PONG or a fatal ERROR.
module _ (P : Offer → Type 0) (s : State) where
  data-KeepsWord : (f : Frame) → KeepsWord P s.fs (on_data f s)
  unfolding on_data
  data-KeepsWord f = waiting s.incoming
    where
      matched : (o : Offer) (r : Result WireError (Str × Str)) → KeepsWord P s.fs (data_for o r s)
      matched o (err e) = kept (tt, (tt, tt)) refl
      matched o (ok (id, bytes)) =
          KeepsWord-if P s.fs (str_eq id o.id) _ _ (kept tt refl) (kept (tt, (tt, tt)) refl)

      waiting : (r : Option Offer) → KeepsWord P s.fs (data_when r f s)
      waiting none = kept (tt, (tt, tt)) refl
      waiting (some o) = matched o (decode_data f)

  response-KeepsWord : (f : Frame) → KeepsWord P s.fs (on_response f s)
  unfolding on_response
  response-KeepsWord f =
      KeepsWord-if P s.fs s.active_out _ _ (kept tt refl) (kept (tt, (tt, tt)) refl)

  ping-KeepsWord : (r : Result WireError ℕ) → KeepsWord P s.fs (answer_ping r s)
  ping-KeepsWord (err e) = kept (tt, (tt, tt)) refl
  ping-KeepsWord (ok n) = kept (tt, tt) refl

  pong-KeepsWord : (r : Result WireError ℕ) → KeepsWord P s.fs (take_pong r s)
  pong-KeepsWord (err e) = kept (tt, (tt, tt)) refl
  pong-KeepsWord (ok n) = kept tt refl

  error-KeepsWord :
      (f : Frame) (r : Result WireError ProtocolError) → KeepsWord P s.fs (take_error f r s)
  error-KeepsWord f (err e) = kept (tt, (tt, tt)) refl
  error-KeepsWord f (ok p) =
      KeepsWord-if P s.fs p.recoverable _ _
        (KeepsWord-if P s.fs s.active_out _ _ (kept tt refl) (kept tt refl)) (kept tt refl)

  bye-KeepsWord : (b : Str) → KeepsWord P s.fs (take_bye b s)
  bye-KeepsWord [] = kept tt refl
  bye-KeepsWord (b ∷ bs) = kept (tt, (tt, tt)) refl

-- Whatever frame arrives, the reader changes no file, and a HAVE or STORED that it writes has the
-- transfer id of the OFFER that this frame is decoded to, whose object is in place, unless it is a
-- presence lease.
pub on_frame-KeepsWord :
    (l : Link) (now : UnixTime) (read_fails : Bool) (f : Frame) (s : State)
    → KeepsWord (OfferedBy l s.fs f) s.fs (on_frame l now read_fails f s)
unfolding on_frame
on_frame-KeepsWord l now read_fails f s =
    let P = OfferedBy l s.fs f in
    let k = λ (t : Bool) (x y : Step). KeepsWord-if P s.fs t x y in
    k (f.typ == frame_offer) _ _ (offer-KeepsWord l now read_fails f s) (
      k (f.typ == frame_data) _ _ (data-KeepsWord P s f) (
        k ((f.typ == frame_have || f.typ == frame_need) || f.typ == frame_stored) _ _
          (response-KeepsWord P s f)
          (k (f.typ == frame_ping) _ _ (ping-KeepsWord P s (decode_epoch f)) (
            k (f.typ == frame_pong) _ _ (pong-KeepsWord P s (decode_epoch f)) (
              k (f.typ == frame_error) _ _ (error-KeepsWord P s f (decode_error f)) (
                k (f.typ == frame_bye) _ _ (bye-KeepsWord P s f.payload) (
                  k (f.typ == frame_hello) _ _ (fatal-KeepsWord P (lit "DUPLICATE_HELLO") s)
                    (fatal-KeepsWord P (lit "UNKNOWN_FRAME") s))))))))

-- As promises of objects whose ids and digests are those of a decoded OFFER.
pub on_frame-Vouched :
    (l : Link) (now : UnixTime) (read_fails : Bool) (f : Frame) (s : State)
    → KeepsWord (Vouched l s.fs) s.fs (on_frame l now read_fails f s)
on_frame-Vouched l now read_fails f s =
    let k = on_frame-KeepsWord l now read_fails f s in
    kept
      (Backed-mono _ _
        (λ o a.
          let (i, d) = decode_offer_sound l.sha256 f o a.0 in (a.1, record { id = i; digest = d }))
        _ k.promises)
      k.files

reported :
    (P : Offer → Type 0) (o : Offer) (s : State) (result : InstallResult) (failed : Bool)
    → (failed ≡ false → result ≢ expired_skipped → P o)
    → All (Backed P) (report o result failed s).sent
unfolding add_origin
reported P o s installed false h = ((o, refl, h refl (λ e. cc)), tt)
reported P o s already_stored false h = ((o, refl, h refl (λ e. cc)), tt)
reported P o s quarantined false h = (tt, tt)
reported P o s expired_skipped false h = (tt, tt)
reported P o s result true h = (tt, tt)

report-fs :
    (o : Offer) (s : State) (result : InstallResult) (failed : Bool)
    → (report o result failed s).state.fs ≡ s.fs
unfolding add_origin
report-fs o s installed false = refl
report-fs o s already_stored false = refl
report-fs o s quarantined false = refl
report-fs o s expired_skipped false = refl
report-fs o s result true = refl

module _ (l : Link) (now : UnixTime) (io : Io) where
  received-InPlace :
      (o : Offer) (bytes : Str) (fs : Fs)
      → let r = receive l.sha256 l.parse l.installer l.retain_days io now o bytes fs in
        r.failed ≡ false → r.result ≢ expired_skipped → InPlace l r.fs o
  received-InPlace o bytes fs f n class = elim (Result-cases (destination l.installer o.object)) [
    | inl (p, e) ↦ (
      p,
      e,
      (receive-Outcome l.sha256 l.parse l.installer l.retain_days io now o bytes p fs e class).1 f
          n,
    )
    | inr (e, q) ↦ absurd (
        ground (
          arith,
          (receive_refused l.sha256 l.parse l.installer l.retain_days io now o bytes fs q).0,
        ))
  ]

  -- When an install reports STORED, its object is in place, unless it is a presence lease; and an offer
  -- that was genuine when the install began is so still.
  pub finish_install-Vouched :
      (G : Offer → Type 0) (s : State)
      → Each (λ (p : Offer × Str). G p.0) s.installing
      → All
          (Backed (λ o. InPlace l (finish_install l now io s).state.fs o × G o))
          (finish_install l now io s).sent
  unfolding finish_install
  finish_install-Vouched G s g = waiting s.installing g
    where
      waiting :
          (r : Option (Offer × Str))
          → Each (λ (p : Offer × Str). G p.0) r
          → let st = install_when l now io r s in
            All (Backed (λ o. InPlace l st.state.fs o × G o)) st.sent
      waiting none g = tt
      waiting (some (o, bytes)) g =
          let r = receive l.sha256 l.parse l.installer l.retain_days io now o bytes s.fs in
          let s' : State = record s { installing = none; fs = r.fs } in
          subst
            (λ fs. All (Backed (λ o. InPlace l fs o × G o)) (report o r.result r.failed s').sent)
            (sym (report-fs o s' r.result r.failed))
            (reported (λ o. InPlace l r.fs o × G o) o s' r.result r.failed
              (λ f n. (received-InPlace o bytes s.fs f n, g)))

  -- A STORED that the end of an install writes has the transfer id of the OFFER whose object was being
  -- installed, and that object is in place then, unless it is a presence lease.
  pub finish_install-Backed :
      (s : State)
      → All
          (Backed (λ o.
            InPlace l (finish_install l now io s).state.fs o
            × ((bytes : Str) × (s.installing ≡ some (o, bytes)))))
          (finish_install l now io s).sent
  finish_install-Backed s =
      finish_install-Vouched (λ o. (bytes : Str) × (s.installing ≡ some (o, bytes))) s
        (own s.installing)
    where
      own :
          (r : Option (Offer × Str))
          → Each (λ (p : Offer × Str). (bytes : Str) × (r ≡ some (p.0, bytes))) r
      own none = tt
      own (some (o, bytes)) = (bytes, refl)
