-- ===== src/Relay/Order.antt =====
-- What every move of a relay of link/pump.go keeps: its offers are what they say, its promises name what is
-- in place, and its sender gets the frames that arrived, in order.
use khala_network.Common.{
  ◌≡◌, refl, sym, ap, subst, ◌∙◌, Str, str_eq_sound, List, [], ◌∷◌, ◌++◌, Option, none, some, ok,
  err, Bool, true, false, ◌==◌, arith, All, ◌⊎◌, inl, inr, Bool-cases, Result-cases,
}
use khala_network.Wire.Codec.{WireError}
use khala_network.Wire.Offers.{Offer}
use khala_network.Wire.Frames.{Frame, frame_stored, frame_error}
use khala_network.Wire.Messages.{decode_id, decode_error, ProtocolError}
use khala_network.Install.Epochs.{UnixTime}
use khala_network.Install.Presence.{
  InstallResult, installed, already_stored, quarantined, expired_skipped,
}
use khala_network.Install.Quarantine.{Io}
use khala_network.Install.Receive.{receive}
use khala_network.Relay.State.{Link, Message, State, Step, add_origin}
use khala_network.Relay.Reader.{on_frame, finish_install, install_when, report}
use khala_network.Relay.Pending.{Genuine, Each, Pending, on_frame-Quiet}
use khala_network.Relay.Promises.{Vouched, Backed}
use khala_network.Relay.Stored.{on_frame-Vouched, finish_install-Vouched}
use khala_network.Relay.Exchange
use khala_network.Relay.Sender.{plan, wait_response, answered}
use khala_network.Relay.Exchange.{Outbound, Await, idle, second, on_reply, on_reply-unlinks}
use khala_network.Relay.Network.{Node, Moves, installs, starts, replies, disk, Rested, content}
use khala_network.Relay.Turns.{Sums, Sound, on_reply-Modest, taken_up-Modest}

-- A relay whose offers, those that it has accepted and that which it has made, are what they say.
pub record InOrder (l : Link) (n : Node) : Type 0 where
  pub pending : Pending l n.state
  pub sound : Sound l.sha256 n.awaits

pub Rested-InOrder : (l : Link) (n : Node) → Rested n → InOrder l n
Rested-InOrder l n r = record {
  pending = record {
    incoming = subst (λ o. Each (Genuine l.sha256) o) (sym r.no_offer) tt;
    installing =
        subst (λ o. Each (λ (p : Offer × Str). Genuine l.sha256 p.0) o) (sym r.no_install) tt;
  };
  sound = subst (λ a. Sound l.sha256 a) (sym r.waits) tt;
}

-- What a move comes to: the promises are kept, and at most one response is used up.
pub record Moved (l : Link) (n n' : Node) (out : List Message) : Type 0 where
  pub order : InOrder l n'
  pub promises : All (Backed (Vouched l n'.state.fs)) out
  pub used :
      (n'.state.responses ≡ n.state.responses)
      ⊎ ((f : Frame) × (n.state.responses ≡ f ∷ n'.state.responses))

report-same :
    (o : Offer) (s : State) (result : InstallResult) (failed : Bool)
    → ((report o result failed s).state.incoming ≡ s.incoming)
      × ((report o result failed s).state.installing ≡ s.installing)
      × ((report o result failed s).state.responses ≡ s.responses)
unfolding add_origin
report-same o s installed false = (refl, refl, refl)
report-same o s already_stored false = (refl, refl, refl)
report-same o s quarantined false = (refl, refl, refl)
report-same o s expired_skipped false = (refl, refl, refl)
report-same o s result true = (refl, refl, refl)

pending_of :
    (l : Link) (s s' : State)
    → s'.incoming ≡ s.incoming
    → s'.installing ≡ s.installing
    → Pending l s
    → Pending l s'
pending_of l s s' a b p = record {
  incoming = subst (λ o. Each (Genuine l.sha256) o) (sym a) p.incoming;
  installing = subst (λ o. Each (λ (q : Offer × Str). Genuine l.sha256 q.0) o) (sym b) p.installing;
}

install-same :
    (l : Link) (now : UnixTime) (io : Io) (s : State)
    → Pending l s
    → Pending l (finish_install l now io s).state
      × ((finish_install l now io s).state.responses ≡ s.responses)
unfolding finish_install
install-same l now io s p = waiting s.installing p.installing
  where
    waiting :
        (r : Option (Offer × Str))
        → Each (λ (q : Offer × Str). Genuine l.sha256 q.0) r
        → Pending l (install_when l now io r s).state
          × ((install_when l now io r s).state.responses ≡ s.responses)
    waiting none g = (p, refl)
    waiting (some (o, bytes)) g =
        let r = receive l.sha256 l.parse l.installer l.retain_days io now o bytes s.fs in
        let s' : State = record s { installing = none; fs = r.fs } in
        let (a, b, c) = report-same o s' r.result r.failed in
        (
          pending_of l s' (report o r.result r.failed s').state a b
              (record { incoming = p.incoming; installing = tt }),
          c,
        )

pub moves-Moved :
    (l : Link)
    → Sums l.sha256
    → (n n' : Node) (out : List Message) → InOrder l n
    → Moves l n n' out
    → Moved l n n' out
moves-Moved l h _ _ _ k (installs {s = s} {a = a} now io) =
    let (p, e) = install-same l now io s k.pending in
    record {
      order = record { pending = p; sound = k.sound };
      promises =
          finish_install-Vouched l now io (Genuine l.sha256) s (Pending.installing k.pending);
      used = inl e;
    }
moves-Moved l h _ _ _ k (starts {s = s} now io c found named) =
    let t = Exchange.start l io c (content found) (plan l now c found s) s in
    let m = taken_up-Modest (Vouched l t.now_at.state.fs) l s now io c found h named in
    record {
      order = record {
        pending = pending_of l s t.now_at.state m.incoming m.installing k.pending;
        sound = m.sound;
      };
      promises = m.promises;
      used = inl m.responses;
    }
moves-Moved l h _ _ _ k (replies {s = s} {a = a} read_fails f rest e) =
    let s' : State = record s { responses = rest } in
    let t = on_reply l read_fails a f s' in
    let m = on_reply-Modest (Vouched l t.now_at.state.fs) l s' read_fails a f k.sound in
    let p : Pending l s' = record {
      incoming = k.pending.incoming;
      installing = k.pending.installing;
    } in
    record {
      order = record {
        pending = pending_of l s' t.now_at.state m.incoming m.installing p;
        sound = m.sound;
      };
      promises = m.promises;
      used = inr (f, e ∙ ap (λ fs. f ∷ fs) (sym m.responses));
    }
moves-Moved l h _ _ _ k (disk {s = s} {a = a} fs) = record {
  order = record {
    pending = record { incoming = k.pending.incoming; installing = k.pending.installing };
    sound = k.sound;
  };
  promises = tt;
  used = inl refl;
}

-- A frame is read: the files stay, and at most that frame is passed on to the sender.
pub record HasRead (l : Link) (f : Frame) (s : State) (st : Step) : Type 0 where
  pub pending : Pending l st.state
  pub promises : All (Backed (Vouched l st.state.fs)) st.sent
  pub passed : (st.state.responses ≡ s.responses) ⊎ (st.state.responses ≡ s.responses ++ (f ∷ []))

pub reads-HasRead :
    (l : Link) (now : UnixTime) (read_fails : Bool) (f : Frame) (s : State)
    → Pending l s
    → HasRead l f s (on_frame l now read_fails f s)
reads-HasRead l now read_fails f s p =
    let q = on_frame-Quiet l now read_fails f s p in
    let k = on_frame-Vouched l now read_fails f s in
    record {
      pending = q.pending;
      promises =
          subst (λ fs. All (Backed (Vouched l fs)) (on_frame l now read_fails f s).sent)
            (sym k.files) k.promises;
      passed = q.passed;
    }

-- STORED is what the sender takes for it.
pub wait_response-stored :
    (id : Str) (f : Frame)
    → wait_response id f ≡ answered frame_stored
    → (f.typ ≡ frame_stored) × (decode_id f ≡ ok id)
unfolding wait_response
wait_response-stored id f h =
    split (Bool-cases (f.typ == frame_error)) (Result-cases (decode_id f))
      (Result-cases (decode_error f))
  where
    split :
        (f.typ == frame_error ≡ true) ⊎ (f.typ == frame_error ≡ false)
        → ((got : Str) × (decode_id f ≡ ok got)) ⊎ ((e : WireError) × (decode_id f ≡ err e))
        → ((p : ProtocolError) × (decode_error f ≡ ok p))
          ⊎ ((e : WireError) × (decode_error f ≡ err e))
        → (f.typ ≡ frame_stored) × (decode_id f ≡ ok id)
    split (inl e) r (inl (p, q)) = absurd (ground (arith, h, e, q))
    split (inl e) r (inr (p, q)) = absurd (ground (arith, h, e, q))
    split (inr e) (inr (x, q)) r = absurd (ground (arith, h, e, q))
    split (inr e) (inl (got, q)) r = ground (arith, h, e, q, str_eq_sound got id)
