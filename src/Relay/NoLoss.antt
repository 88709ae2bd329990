-- ===== src/Relay/NoLoss.antt =====
-- No object is lost between the two ends of a connection of link/pump.go.
use khala_network.Common.{
  ◌≡◌, ◌≢◌, refl, sym, ap, subst, ◌∙◌, Str, lit, str_eq, str_eq_iff, str_eq_sound, List, ◌∷◌, none,
  ok, Bool, true, false, All, ◌⊎◌, inl, inr, Bool-cases,
}
use khala_network.Wire.Digest.{
  ObjectId, IsObject, SameObject, transfer_input, transfer_id-injective, transfer_input-injective,
  transfer_input-class,
}
use khala_network.Wire.Offers.{Offer}
use khala_network.Wire.Frames.{Frame, frame_stored}
use khala_network.Text.Strings.{contains}
use khala_network.Install.Files.{FilePath}
use khala_network.Install.Destination.{destination}
use khala_network.Install.Objects.{literal-NoNul, destination-IsObject, destination-SameObject}
use khala_network.Install.Staging.{Holds}
use khala_network.Relay.State.{Link, State}
use khala_network.Relay.Pending.{Genuine}
use khala_network.Relay.Promises.{Vouched}
use khala_network.Relay.Sender.{wait_response, answered}
use khala_network.Relay.Exchange.{Outbound, second, on_reply, on_reply-unlinks}
use khala_network.Relay.Network.{Net, Run, begins, goes_on, Was}
use khala_network.Relay.Turns.{Sums, Ours, Sound}
use khala_network.Relay.Order.{InOrder}
use khala_network.Relay.Delivery.{Kept, Honest, Inv, run-Inv}

-- Another object than the offered one has the same SHA-256 sum of its transfer input.
pub record Collides (sha256 : Str → Str) (o : ObjectId) : Type 0 where
  pub other : ObjectId
  pub differs : transfer_input o ≢ transfer_input other
  pub same_sum : sha256 (transfer_input o) ≡ sha256 (transfer_input other)

-- The peer has the object at its destination, with the offered digest; or SHA-256 collides on it.
abbrev pub Delivered : Link → Offer → Net → Type 0
Delivered l o n =
    ((q : FilePath) × (destination l.installer o.object ≡ ok q)
      × Holds l.sha256 q o.digest n.peer.state.fs)
    ⊎ Collides l.sha256 o.object

same_input-Delivered :
    (l : Link) (o o' : Offer) (n : Net)
    → IsObject o.object
    → str_eq o.class (lit "presence") ≡ false
    → transfer_input o.object ≡ transfer_input o'.object
    → Vouched l n.peer.state.fs o'
    → Delivered l o n
unfolding contains
same_input-Delivered l o o' n h class e (place, g) =
    split (Bool-cases (str_eq o'.class (lit "presence")))
  where
    split :
        (str_eq o'.class (lit "presence") ≡ true) ⊎ (str_eq o'.class (lit "presence") ≡ false)
        → Delivered l o n
    split (inl presence) =
        let there = literal-NoNul o'.class (lit "presence") presence refl in
        let c = transfer_input-class o.object o'.object (IsObject.class h) there e in
        absurd (cc (presence, class, c))
    split (inr other) =
        let (q, there, held) = place other in
        let s =
          transfer_input-injective o.object o'.object h
            (destination-IsObject l.installer o'.object there (Genuine.digest g)) e in
        inl (
          q,
          destination-SameObject l.installer o.object o'.object s ∙ there,
          subst (λ d. Holds l.sha256 q d n.peer.state.fs) (sym (SameObject.digest s)) held,
        )

Kept-Delivered :
    (l : Link) (o : Offer) (n : Net)
    → Sums l.sha256
    → Ours l.sha256 o
    → str_eq o.class (lit "presence") ≡ false
    → Kept l o.id n
    → Delivered l o n
Kept-Delivered l o n h mine class (o', e, v) =
    split (Bool-cases (str_eq (transfer_input o.object) (transfer_input o'.object)))
  where
    sums : l.sha256 (transfer_input o.object) ≡ l.sha256 (transfer_input o'.object)
    sums =
        transfer_id-injective l.sha256 h.bytes o.object o'.object
          (sym (Ours.id mine) ∙ sym e ∙ Genuine.id (v.1))

    split :
        (str_eq (transfer_input o.object) (transfer_input o'.object) ≡ true)
          ⊎ (str_eq (transfer_input o.object) (transfer_input o'.object) ≡ false)
        → Delivered l o n
    split (inl same) =
        same_input-Delivered l o o' n (Ours.object mine) class (str_eq_sound _ _ same) v
    split (inr other) = inr (record {
      other = o'.object;
      differs = λ q. cc ((str_eq_iff _ _).1 q, other);
      same_sum = sums;
    })

-- Was over a run of a predicate that another implies.
Was-mono :
    {ours theirs : Link} (Q R : Net → Type 0)
    → ((n : Net) → Q n → R n)
    → {n : Net} (r : Run ours theirs n) → Was Q r
    → Was R r
Was-mono Q R f (begins {n = n} b) w = f n w
Was-mono Q R f (goes_on r s) (inl w) = inl (Was-mono Q R f r w)
Was-mono Q R f (goes_on {n' = n'} r s) (inr w) = inr (f n' w)

-- Two relays that sum by the same SHA-256, whose sums are 32 bytes, are joined by a connection, in any
-- run of which the peer may read any frames and other programs may change either's files. If the next
-- response changes a file of ours while our sender waits for STORED of an object other than a presence
-- lease, then that file is the object's copy, with the offered digest, and at some moment of the run the
-- peer had the object at its destination, with that digest; unless SHA-256 collides on the object's
-- transfer input.
pub unlinked-Delivered :
    (ours theirs : Link) {n : Net} (r : Run ours theirs n)
    → Sums ours.sha256
    → ours.sha256 ≡ theirs.sha256
    → (x : Outbound) (read_fails : Bool) (f : Frame) (rest : List Frame) (p : FilePath)
    → n.us.awaits ≡ second x
    → n.us.state.responses ≡ f ∷ rest
    → str_eq x.offered.class (lit "presence") ≡ false
    → (on_reply ours read_fails
          (second x)
          f
          (record n.us.state { responses = rest })).now_at.state.fs
        p
      ≢ n.us.state.fs p
    → (p ≡ x.candidate.path)
      × Holds ours.sha256 p x.offered.digest n.us.state.fs
      × Was (Delivered theirs x.offered) r
unlinked-Delivered ours theirs {n} r h same x read_fails f rest p waits responses class changed =
    split (on_reply-unlinks ours read_fails (second x) f s p)
  where
    s : State
    s = record n.us.state { responses = rest }

    hp : Sums theirs.sha256
    hp = subst Sums same h

    i : Inv ours theirs r
    i = run-Inv ours theirs h hp r

    mine : Ours theirs.sha256 x.offered
    mine =
        subst (λ k. Ours k x.offered) same
          (subst (λ a. Sound ours.sha256 a) waits (InOrder.sound (Inv.us i)))

    was : wait_response x.offered.id f ≡ answered frame_stored → Was (Delivered theirs x.offered) r
    was e =
        let honest = (subst (λ fs. All (Honest ours theirs r) fs) responses (Inv.responses i)).0 in
        Was-mono _ _ (λ m k. Kept-Delivered theirs x.offered m hp mine class k) r
          (honest x.offered.id e)

    split :
        ((on_reply ours read_fails (second x) f s).now_at.state.fs p ≡ n.us.state.fs p)
          ⊎ ((y : Outbound) × (second x ≡ second y)
              × (wait_response y.offered.id f ≡ answered frame_stored)
              × (p ≡ y.candidate.path)
              × Holds ours.sha256 p y.offered.digest n.us.state.fs
              × ((on_reply ours read_fails (second x) f s).now_at.state.fs p ≡ none))
        → (p ≡ x.candidate.path)
          × Holds ours.sha256 p x.offered.digest n.us.state.fs
          × Was (Delivered theirs x.offered) r
    split (inl e) = absurd (changed e)
    split (inr (y, e, stored, at, held, gone)) =
        let q : y ≡ x = cc e in
        (
          at ∙ ap (λ (z : Outbound). z.candidate.path) q,
          subst (λ z. Holds ours.sha256 p z.offered.digest n.us.state.fs) q held,
          was (subst (λ z. wait_response z.offered.id f ≡ answered frame_stored) q stored),
        )
