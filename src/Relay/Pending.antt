-- ===== src/Relay/Pending.antt =====
-- What waits at a relay's reader: an accepted OFFER and an object at work are decoded ones, and the
-- sender gets no frame that did not arrive.
use khala_network.Common.{
  ℕ, ◌≡◌, refl, Str, lit, str_eq, [], ◌∷◌, ◌++◌, length, Option, none, some, Result, ok, err,
  if◌then◌else◌, Bool, true, false, ◌&&◌, ◌||◌, ltb, ◌==◌, ◌⊎◌, inl, inr,
}
use khala_network.Wire.Codec.{WireError}
use khala_network.Wire.Digest.{transfer_id}
use khala_network.Wire.Offers.{Offer, decode_offer, decode_offer_sound}
use khala_network.Wire.Frames.{
  Frame, frame_hello, frame_offer, frame_have, frame_need, frame_data, frame_stored, frame_ping,
  frame_pong, frame_error, frame_bye,
}
use khala_network.Wire.Messages.{decode_data, decode_epoch, decode_error, ProtocolError}
use khala_network.Install.Destination.{Refusal, destination}
use khala_network.Install.Files.{FilePath}
use khala_network.Install.Epochs.{UnixTime, offer_expired}
use khala_network.Install.Receive.{inspect}
use khala_network.Relay.State.{Link, State, Step, step, add_origin, stream_minor, status_minor}
use khala_network.Relay.Reader.{
  on_offer, accept_offer, answer_offer, unless_old, at_destination, on_data, on_response, on_frame,
  inbound_busy, decoded_offer, data_for, data_when, answer_ping, take_pong, take_error, take_bye,
}

-- What `decodeOffer` establishes of an offer.
pub record Genuine (sha256 : Str → Str) (o : Offer) : Type 0 where
  pub id : o.id ≡ transfer_id sha256 o.object
  pub digest : length o.digest ≡ 32

abbrev pub Each {ℓ} : {A : Type ℓ} → (A → Type 0) → Option A → Type 0
Each P none = Unit
Each P (some a) = P a

-- The two objects that the reader keeps, if any, are genuine.
pub record Pending (l : Link) (s : State) : Type 0 where
  pub incoming : Each (Genuine l.sha256) s.incoming
  pub installing : Each (λ (p : Offer × Str). Genuine l.sha256 p.0) s.installing

-- A step of the reader on the frame `f`, as far as the two objects and the sender's frames go.
pub record Quiet (l : Link) (f : Frame) (s : State) (st : Step) : Type 0 where
  pub pending : Pending l st.state
  pub passed : (st.state.responses ≡ s.responses) ⊎ (st.state.responses ≡ s.responses ++ (f ∷ []))

Quiet-same :
    (l : Link) (f : Frame) (s : State) (st : Step) → Pending l s → st.state ≡ s → Quiet l f s st
Quiet-same l f s st p e = rw e (record { pending = p; passed = inl refl })

Quiet-if :
    (l : Link) (f : Frame) (s : State) (b : Bool) (x y : Step)
    → Quiet l f s x
    → Quiet l f s y
    → Quiet l f s (if b then x else y)
Quiet-if l f s true x y hx hy = hx
Quiet-if l f s false x y hx hy = hy

module _ (l : Link) (now : UnixTime) (read_fails : Bool) (f : Frame) (s : State)
    (p : Pending l s) where
  answer-Quiet :
      (o : Offer) (r : Option Bool) → Genuine l.sha256 o → Quiet l f s (answer_offer o r s)
  unfolding add_origin
  answer-Quiet o none g = record {
    pending = record { incoming = g; installing = p.installing };
    passed = inl refl;
  }
  answer-Quiet o (some false) g = record {
    pending = record { incoming = g; installing = p.installing };
    passed = inl refl;
  }
  answer-Quiet o (some true) g = record {
    pending = record { incoming = p.incoming; installing = p.installing };
    passed = inl refl;
  }

  same : (st : Step) → st.state ≡ s → Quiet l f s st
  same st e = Quiet-same l f s st p e

  if-Quiet :
      (b : Bool) (x y : Step) → Quiet l f s x → Quiet l f s y → Quiet l f s (if b then x else y)
  if-Quiet = Quiet-if l f s

  accept-Quiet : (o : Offer) → Genuine l.sha256 o → Quiet l f s (accept_offer l now read_fails o s)
  unfolding accept_offer
  accept-Quiet o g =
      if-Quiet (str_eq o.class (lit "stream") && ltb l.minor stream_minor) _ _ (same _ refl) (
        if-Quiet (str_eq o.class (lit "mind") && ltb l.minor status_minor) _ _ (same _ refl) (
          if-Quiet (ltb l.max_object o.size) _ _ (same _ refl) (
            placed (destination l.installer o.object) _ (
              if-Quiet (str_eq o.class (lit "stream") || str_eq o.class (lit "mind")) _ _
                (aged (offer_expired o.class o.basename l.retain_days 1 now) _ answer) answer))))
    where
      answer : Quiet l f s (answer_offer o (inspect l.sha256 l.installer read_fails o s.fs) s)
      answer = answer-Quiet o (inspect l.sha256 l.installer read_fails o s.fs) g

      placed :
          (r : Result Refusal FilePath) (next : Step)
          → Quiet l f s next
          → Quiet l f s (at_destination r s next)
      placed (err e) next h = same _ refl
      placed (ok d) next h = h

      aged :
          (r : Option Bool) (next : Step)
          → Quiet l f s next
          → Quiet l f s (unless_old o.class r s next)
      aged none next h = same _ refl
      aged (some true) next h = same _ refl
      aged (some false) next h = h

  offer-Quiet : Quiet l f s (on_offer l now read_fails f s)
  unfolding on_offer
  offer-Quiet = if-Quiet (inbound_busy s) _ _ (same _ refl) (decoded (decode_offer l.sha256 f) refl)
    where
      decoded :
          (r : Result WireError Offer)
          → decode_offer l.sha256 f ≡ r
          → Quiet l f s (decoded_offer l now read_fails r s)
      decoded (err e) q = same _ refl
      decoded (ok o) q =
          let (i, d) = decode_offer_sound l.sha256 f o q in
          accept-Quiet o (record { id = i; digest = d })

  data-Quiet : Quiet l f s (on_data f s)
  unfolding on_data
  data-Quiet = waiting s.incoming p.incoming
    where
      matched :
          (o : Offer)
          → Genuine l.sha256 o
          → (r : Result WireError (Str × Str)) → Quiet l f s (data_for o r s)
      matched o g (err e) = same _ refl
      matched o g (ok (id, bytes)) =
          if-Quiet (str_eq id o.id) _ _
            (record { pending = record { incoming = tt; installing = g }; passed = inl refl })
            (same _ refl)

      waiting : (r : Option Offer) → Each (Genuine l.sha256) r → Quiet l f s (data_when r f s)
      waiting none g = same _ refl
      waiting (some o) g = matched o g (decode_data f)

  passed_on : Quiet l f s (step (record s { responses = s.responses ++ (f ∷ []) }) [])
  passed_on = record {
    pending = record { incoming = p.incoming; installing = p.installing };
    passed = inr refl;
  }

  response-Quiet : Quiet l f s (on_response f s)
  unfolding on_response
  response-Quiet = if-Quiet s.active_out _ _ passed_on (same _ refl)

  ping-Quiet : (r : Result WireError ℕ) → Quiet l f s (answer_ping r s)
  ping-Quiet (err e) = same _ refl
  ping-Quiet (ok n) = same _ refl

  pong-Quiet : (r : Result WireError ℕ) → Quiet l f s (take_pong r s)
  pong-Quiet (err e) = same _ refl
  pong-Quiet (ok n) = same _ refl

  error-Quiet : (r : Result WireError ProtocolError) → Quiet l f s (take_error f r s)
  error-Quiet (err e) = same _ refl
  error-Quiet (ok q) =
      if-Quiet q.recoverable _ _ (if-Quiet s.active_out _ _ passed_on (same _ refl)) (same _ refl)

  bye-Quiet : (b : Str) → Quiet l f s (take_bye b s)
  bye-Quiet [] = same _ refl
  bye-Quiet (b ∷ bs) = same _ refl

  pub on_frame-Quiet : Quiet l f s (on_frame l now read_fails f s)
  unfolding on_frame
  on_frame-Quiet = if-Quiet (f.typ == frame_offer) _ _ offer-Quiet (
      if-Quiet (f.typ == frame_data) _ _ data-Quiet (
        if-Quiet ((f.typ == frame_have || f.typ == frame_need) || f.typ == frame_stored) _ _
          response-Quiet
          (if-Quiet (f.typ == frame_ping) _ _ (ping-Quiet (decode_epoch f)) (
            if-Quiet (f.typ == frame_pong) _ _ (pong-Quiet (decode_epoch f)) (
              if-Quiet (f.typ == frame_error) _ _ (error-Quiet (decode_error f)) (
                if-Quiet (f.typ == frame_bye) _ _ (bye-Quiet f.payload)
                  (if-Quiet (f.typ == frame_hello) _ _ (same _ refl) (same _ refl))))))))
