-- ===== src/Relay/Delivery.antt =====
-- The two ends of a connection of link/pump.go together: a copy that the sender unlinks has been in place
-- at its peer.
use khala_network.Common.{
  ◌<◌, ◌≡◌, ◌≢◌, refl, sym, ap, subst, ◌∙◌, Str, List, [], ◌∷◌, ◌++◌, length, arith, All,
  All-append, All-map, ◌⊎◌, inl, inr,
}
use khala_network.Wire.Codec.{u64_mod}
use khala_network.Wire.Digest.{transfer_id, length-hex_encode, transfer_input}
use khala_network.Wire.Offers.{Offer, offer_frame}
use khala_network.Wire.Frames.{Frame, frame_stored}
use khala_network.Wire.Messages.{id_frame, decode_id-id_frame, data_frame, epoch_frame, error_frame}
use khala_network.Relay.State.{Link, Message, stored}
use khala_network.Relay.Pending.{Genuine}
use khala_network.Relay.Promises.{Vouched, Backed, Backed-mono}
use khala_network.Relay.Sender.{wait_response, answered}
use khala_network.Relay.Network.{
  Encodes, of_offer, of_have, of_need, of_stored, of_bytes, of_pong, of_ping, of_refusal, of_bye,
  Net, NetStep, peer_moves, peer_reads, we_move, we_read, Rested, Fresh, Run, begins, goes_on, Was,
}
use khala_network.Relay.Order.{
  InOrder, Rested-InOrder, moves-Moved, reads-HasRead, wait_response-stored,
}
use khala_network.Relay.Turns.{Sums}

-- The peer has in place an object that was offered under the id.
abbrev pub Kept : Link → Str → Net → Type 0
Kept l id n = (o : Offer) × (o.id ≡ id) × Vouched l n.peer.state.fs o

pub Was-elim :
    {ours theirs : Link} (Q : Net → Type 0) (C : Type 0)
    → ((n : Net) → Q n → C)
    → {n : Net} (r : Run ours theirs n) → Was Q r
    → C
Was-elim Q C f (begins {n = n} b) w = f n w
Was-elim Q C f (goes_on r s) (inl w) = Was-elim Q C f r w
Was-elim Q C f (goes_on {n' = n'} r s) (inr w) = f n' w

module _ (ours theirs : Link) where
  abbrev pub Honest : {n : Net} → Run ours theirs n → Frame → Type 0
  Honest r f = (id : Str) → wait_response id f ≡ answered frame_stored → Was (Kept theirs id) r

  abbrev Promised : {n : Net} → Run ours theirs n → Message → Type 0
  Promised r m = Backed (λ o. Was (Kept theirs o.id) r) m

  id-length :
      {n : Net} (r : Run ours theirs n) (id : Str)
      → Sums theirs.sha256
      → Was (Kept theirs id) r
      → length id < u64_mod
  unfolding transfer_id
  id-length r id h w =
      Was-elim (Kept theirs id) (length id < u64_mod)
        (λ n k. ground (
          arith,
          k.1,
          Genuine.id (k.2).1,
          ap length (sym (k.1) ∙ Genuine.id (k.2).1),
          length-hex_encode (theirs.sha256 (transfer_input (k.0).object)),
          h.size (transfer_input (k.0).object),
        ))
        r w

  not_stored : {n : Net} (r : Run ours theirs n) (f : Frame) → f.typ ≢ frame_stored → Honest r f
  not_stored r f other id h = absurd (other (wait_response-stored id f h).0)

  stored-Honest :
      {n : Net} (r : Run ours theirs n) (id : Str)
      → Sums theirs.sha256
      → Promised r (stored id)
      → Honest r (id_frame frame_stored id)
  stored-Honest r id h (o, e, w) got answer =
      let there = subst (λ x. Was (Kept theirs x) r) e w in
      let d = (wait_response-stored got (id_frame frame_stored id) answer).1 in
      let same : id ≡ got = cc (decode_id-id_frame frame_stored id (id-length r id h there), d) in
      subst (λ x. Was (Kept theirs x) r) same there

  Encodes-Honest :
      {n : Net} (r : Run ours theirs n) (m : Message) (f : Frame)
      → Sums theirs.sha256
      → Encodes m f
      → Promised r m
      → Honest r f
  unfolding offer_frame id_frame data_frame epoch_frame error_frame
  Encodes-Honest r _ _ h (of_offer o) p = not_stored r _ (omega arith)
  Encodes-Honest r _ _ h (of_have id) p = not_stored r _ (omega arith)
  Encodes-Honest r _ _ h (of_need id) p = not_stored r _ (omega arith)
  Encodes-Honest r _ _ h (of_bytes id bytes) p = not_stored r _ (omega arith)
  Encodes-Honest r _ _ h (of_pong n) p = not_stored r _ (omega arith)
  Encodes-Honest r _ _ h (of_ping n) p = not_stored r _ (omega arith)
  Encodes-Honest r _ _ h (of_refusal code b text) p = not_stored r _ (omega arith)
  Encodes-Honest r _ _ h of_bye p = not_stored r _ (omega arith)
  Encodes-Honest r _ _ h (of_stored id) p = stored-Honest r id h p

  -- What holds all along a run.
  pub record Inv {n : Net} (r : Run ours theirs n) : Type 0 where
    pub us : InOrder ours n.us
    peer : InOrder theirs n.peer
    coming : All (Promised r) n.coming
    pub responses : All (Honest r) n.us.state.responses

  module _ {n n' : Net} (r : Run ours theirs n) (s : NetStep ours theirs n n') where
    still-Promised : (ms : List Message) → All (Promised r) ms → All (Promised (goes_on r s)) ms
    still-Promised = Backed-mono _ _ (λ o w. inl w)

    still-Honest : (fs : List Frame) → All (Honest r) fs → All (Honest (goes_on r s)) fs
    still-Honest = All-map _ _ (λ f h id a. inl (h id a))

    now-Promised :
        (ms : List Message)
        → All (Backed (Vouched theirs n'.peer.state.fs)) ms
        → All (Promised (goes_on r s)) ms
    now-Promised = Backed-mono _ _ (λ o v. inr (o, refl, v))

  used_up :
      (P : Frame → Type 0) (before after : List Frame)
      → (after ≡ before) ⊎ ((f : Frame) × (before ≡ f ∷ after))
      → All P before
      → All P after
  used_up P before after (inl e) h = subst (All P) (sym e) h
  used_up P before after (inr (f, e)) h = (subst (All P) e h).1

  passed_on :
      (P : Frame → Type 0) (f : Frame) (before after : List Frame)
      → (after ≡ before) ⊎ (after ≡ before ++ (f ∷ []))
      → P f
      → All P before
      → All P after
  passed_on P f before after (inl e) p h = subst (All P) (sym e) h
  passed_on P f before after (inr e) p h =
      subst (All P) (sym e) (All-append P before (f ∷ []) h (p, tt))

  begins-Inv : {n : Net} (f : Fresh n) → Inv (begins f)
  begins-Inv {n} f = record {
    us = Rested-InOrder ours n.us f.us_rested;
    peer = Rested-InOrder theirs n.peer f.peer_rested;
    coming = subst (All (Promised (begins f))) (sym f.silent) tt;
    responses = subst (All (Honest (begins f))) (sym (Rested.no_responses f.us_rested)) tt;
  }

  step-Inv :
      (hu : Sums ours.sha256) (hp : Sums theirs.sha256) {n n' : Net} (r : Run ours theirs n)
      (s : NetStep ours theirs n n')
      → Inv r
      → Inv (goes_on r s)
  step-Inv hu hp r (peer_moves {u = u} {p = p} {p' = p'} {ms = ms} {out = out} m) i =
      let k = moves-Moved theirs hp p p' out i.peer m in
      let s = peer_moves m in
      record {
        us = i.us;
        peer = k.order;
        coming =
            All-append _ ms out (still-Promised r s ms i.coming) (now-Promised r s out k.promises);
        responses = still-Honest r s _ i.responses;
      }
  step-Inv hu hp r (peer_reads {u = u} {s = s} {a = a} {ms = ms} now rf f) i =
      let k = reads-HasRead theirs now rf f s (InOrder.pending i.peer) in
      let t = peer_reads now rf f in
      record {
        us = i.us;
        peer = record { pending = k.pending; sound = InOrder.sound i.peer };
        coming = All-append _ ms _ (still-Promised r t ms i.coming) (now-Promised r t _ k.promises);
        responses = still-Honest r t _ i.responses;
      }
  step-Inv hu hp r (we_move {u = u} {u' = u'} {p = p} {ms = ms} {out = out} m) i =
      let k = moves-Moved ours hu u u' out i.us m in
      let s = we_move m in
      record {
        us = k.order;
        peer = i.peer;
        coming = still-Promised r s ms i.coming;
        responses = used_up _ _ _ k.used (still-Honest r s _ i.responses);
      }
  step-Inv hu hp r (we_read {s = s} {a = a} {p = p} {ms = ms} now rf m f e) i =
      let k = reads-HasRead ours now rf f s (InOrder.pending i.us) in
      let t = we_read now rf m f e in
      let q = Encodes-Honest r m f hp e (i.coming).0 in
      record {
        us = record { pending = k.pending; sound = InOrder.sound i.us };
        peer = i.peer;
        coming = still-Promised r t ms (i.coming).1;
        responses =
            passed_on _ f _ _ k.passed (λ id h. inl (q id h)) (still-Honest r t _ i.responses);
      }

  pub run-Inv :
      (hu : Sums ours.sha256) (hp : Sums theirs.sha256) {n : Net} (r : Run ours theirs n) → Inv r
  run-Inv hu hp (begins f) = begins-Inv f
  run-Inv hu hp (goes_on r s) = step-Inv hu hp r s (run-Inv hu hp r)
