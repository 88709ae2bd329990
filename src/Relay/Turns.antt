-- ===== src/Relay/Turns.antt =====
-- What the sender of link/pump.go leaves alone, and what it knows of the object that it has offered.
use khala_network.Common.{
  ◌≡◌, refl, Str, lit, str_eq, [], length, Option, none, some, if◌then◌else◌, Bool, true, false,
  ◌&&◌, ◌||◌, not, ltb, ◌==◌, All, subst, sym,
}
use khala_network.Wire.Digest.{IsObject, IsByte, transfer_id}
use khala_network.Wire.Offers.{Offer}
use khala_network.Wire.Frames.{Frame, frame_have, frame_need, frame_stored}
use khala_network.Names.{valid_basename}
use khala_network.Install.Epochs.{UnixTime, offer_epoch, offer_expired}
use khala_network.Install.Quarantine.{Io}
use khala_network.Relay.State.{
  Link, State, mark_known, mark_rejected, has_id, offer_key, stream_minor, status_minor,
}
use khala_network.Relay.Promises.{Backed}
use khala_network.Relay.Sender.{
  Candidate, Plan, skip, too_large, drop_copy, set_aside, send, plan, plan_bytes, offer_for,
  removes_origin, is_shard_class, too_new, is_serve, unless_expired_plan, Reply, declined, answered,
  broken, wait_response,
}
use khala_network.Relay.Exchange.{
  Outbound, Await, idle, first, second, Turn, turn, on_first, on_second, settle_copy, on_reply,
}
use khala_network.Relay.Exchange
use khala_network.Relay.Network.{Named, content}

-- What the code uses of SHA-256: the sums are 32 bytes.
pub record Sums (sha256 : Str → Str) : Type 0 where
  pub bytes : (s : Str) → All IsByte (sha256 s)
  pub size : (s : Str) → length (sha256 s) ≡ 32

-- An offer of our own: it carries the transfer id of an object with proper names.
pub record Ours (sha256 : Str → Str) (o : Offer) : Type 0 where
  pub id : o.id ≡ transfer_id sha256 o.object
  pub object : IsObject o.object

abbrev pub Sound : (Str → Str) → Await → Type 0
Sound sha256 idle = Unit
Sound sha256 (first x) = Ours sha256 x.offered
Sound sha256 (second x) = Ours sha256 x.offered

-- A turn of the sender: no promise is written, and the reader's part of the state stays.
pub record Modest (P : Offer → Type 0) (l : Link) (s : State) (t : Turn) : Type 0 where
  pub promises : All (Backed P) t.now_at.sent
  pub incoming : t.now_at.state.incoming ≡ s.incoming
  pub installing : t.now_at.state.installing ≡ s.installing
  pub responses : t.now_at.state.responses ≡ s.responses
  pub sound : Sound l.sha256 t.awaits

modest :
    {P : Offer → Type 0} {l : Link} {s : State} {t : Turn}
    → All (Backed P) t.now_at.sent
    → t.now_at.state.incoming ≡ s.incoming
    → t.now_at.state.installing ≡ s.installing
    → t.now_at.state.responses ≡ s.responses
    → Sound l.sha256 t.awaits
    → Modest P l s t
modest p a b c d = record { promises = p; incoming = a; installing = b; responses = c; sound = d }

Modest-if :
    (P : Offer → Type 0) (l : Link) (s : State) (b : Bool) (x y : Turn)
    → Modest P l s x
    → Modest P l s y
    → Modest P l s (if b then x else y)
Modest-if P l s true x y hx hy = hx
Modest-if P l s false x y hx hy = hy

offer_for-Ours :
    (l : Link) (c : Candidate) (bytes : Str)
    → Sums l.sha256
    → Named c
    → Ours l.sha256 (offer_for l.sha256 c bytes)
offer_for-Ours l c bytes h n = record {
  id = refl;
  object = record {
    class = n.class;
    stream = λ e. n.stream;
    node = n.node;
    session = λ e. n.session;
    basename = n.basename;
    digest = h.size bytes;
  };
}

-- Only the offer of what was read is sent.
abbrev Sends : (Offer → Type 0) → Plan → Type 0
Sends Q skip = Unit
Sends Q too_large = Unit
Sends Q (drop_copy d) = Unit
Sends Q (set_aside o) = Unit
Sends Q (send o removes) = Q o

Sends-if :
    (Q : Offer → Type 0) (b : Bool) (x y : Plan)
    → Sends Q x
    → Sends Q y
    → Sends Q (if b then x else y)
Sends-if Q true x y hx hy = hx
Sends-if Q false x y hx hy = hy

plan_bytes-Sends :
    (Q : Offer → Type 0) (l : Link) (now : UnixTime) (c : Candidate) (bytes : Str) (s : State)
    → Q (offer_for l.sha256 c bytes)
    → Sends Q (plan_bytes l now c bytes s)
unfolding plan_bytes
plan_bytes-Sends Q l now c bytes s q =
    let o = offer_for l.sha256 c bytes in
    let key = offer_key c.named in
    Sends-if Q (ltb l.max_object (length bytes)) _ _ tt (
      Sends-if Q (has_id key o.id s.origins) _ _ tt (
        Sends-if Q (has_id key o.id s.rejected) _ _ tt (
          Sends-if Q (has_id key o.id s.known) _ _
            (Sends-if Q ((is_serve l.role && c.delete_after_stored) || removes_origin l c bytes) _ _
              tt tt)
            (Sends-if Q (is_shard_class c.class && too_new now (offer_epoch c.class c.basename)) _ _
              tt q))))

plan-Sends :
    (Q : Offer → Type 0) (l : Link) (now : UnixTime) (c : Candidate) (found : Option Str)
    (s : State)
    → ((bytes : Str) → Q (offer_for l.sha256 c bytes))
    → Sends Q (plan l now c found s)
unfolding plan
plan-Sends Q l now c found s q =
    Sends-if Q (str_eq c.class (lit "stream") && ltb l.minor stream_minor) _ _ tt (
      Sends-if Q (str_eq c.class (lit "mind") && ltb l.minor status_minor) _ _ tt (
        Sends-if Q (is_shard_class c.class) _ _
          (aged (offer_expired c.class c.basename l.retain_days 1 now)) (read found)))
  where
    read :
        (r : Option Str)
        → Sends Q (elim r [
          | none ↦ skip
          | some bytes ↦ if valid_basename c.basename then plan_bytes l now c bytes s else skip
        ])
    read none = tt
    read (some bytes) =
        Sends-if Q (valid_basename c.basename) _ _ (plan_bytes-Sends Q l now c bytes s (q bytes)) tt

    aged :
        (r : Option Bool)
        → Sends Q (
            unless_expired_plan r (elim found [
              | none ↦ skip
              | some bytes ↦ if valid_basename c.basename then plan_bytes l now c bytes s else skip
            ]))
    aged none = tt
    aged (some true) = tt
    aged (some false) = read found

module _ (P : Offer → Type 0) (l : Link) (s : State) where
  -- A turn that ends what the sender is at.
  ends :
      (t : Turn)
      → t.now_at.sent ≡ []
      → t.now_at.state.incoming ≡ s.incoming
      → t.now_at.state.installing ≡ s.installing
      → t.now_at.state.responses ≡ s.responses
      → t.awaits ≡ idle
      → Modest P l s t
  ends t e a b c d =
      modest (subst (λ ms. All (Backed P) ms) (sym e) tt) a b c
        (subst (λ w. Sound l.sha256 w) (sym d) tt)

  start-Modest :
      (io : Io) (c : Candidate) (bytes : Str) (p : Plan)
      → Sends (Ours l.sha256) p
      → Modest P l s (Exchange.start l io c bytes p s)
  unfolding Exchange.start
  start-Modest io c bytes skip q = ends _ refl refl refl refl refl
  start-Modest io c bytes too_large q = modest (tt, tt) refl refl refl tt
  start-Modest io c bytes (drop_copy d) q = ends _ refl refl refl refl refl
  start-Modest io c bytes (set_aside o) q = ends _ refl refl refl refl refl
  start-Modest io c bytes (send o removes) q = modest (tt, tt) refl refl refl q

  first-Modest :
      (x : Outbound) (r : Reply) → Ours l.sha256 x.offered → Modest P l s (on_first x r s)
  unfolding mark_rejected
  first-Modest x declined o = ends _ refl refl refl refl refl
  first-Modest x broken o = ends _ refl refl refl refl refl
  first-Modest x (answered typ) o =
      Modest-if P l s (typ == frame_need) _ _ (modest (tt, tt) refl refl refl o) (
        Modest-if P l s (typ == frame_have) _ _ (modest tt refl refl refl o)
          (ends _ refl refl refl refl refl))

  settle-Modest :
      (read_fails : Bool) (x : Outbound)
      → Modest P l s
          (settle_copy l read_fails x (mark_known (offer_key x.candidate.named) x.offered.id s))
  unfolding settle_copy mark_known
  settle-Modest read_fails x =
      Modest-if P l s (x.candidate.delete_after_stored || x.removes) _ _
        (Modest-if P l s (not (is_serve l.role) && not x.removes) _ _
          (ends _ refl refl refl refl refl) (ends _ refl refl refl refl refl))
        (ends _ refl refl refl refl refl)

  second-Modest :
      (read_fails : Bool) (x : Outbound) (r : Reply) → Modest P l s (on_second l read_fails x r s)
  unfolding mark_rejected
  second-Modest read_fails x declined = ends _ refl refl refl refl refl
  second-Modest read_fails x broken = ends _ refl refl refl refl refl
  second-Modest read_fails x (answered typ) =
      Modest-if P l s (typ == frame_stored) _ _ (settle-Modest read_fails x)
        (ends _ refl refl refl refl refl)

  pub on_reply-Modest :
      (read_fails : Bool) (a : Await) (f : Frame)
      → Sound l.sha256 a
      → Modest P l s (on_reply l read_fails a f s)
  unfolding on_reply
  on_reply-Modest read_fails idle f o = ends _ refl refl refl refl refl
  on_reply-Modest read_fails (first x) f o = first-Modest x (wait_response x.offered.id f) o
  on_reply-Modest read_fails (second x) f o =
      second-Modest read_fails x (wait_response x.offered.id f)

  -- A candidate that is taken up.
  pub taken_up-Modest :
      (now : UnixTime) (io : Io) (c : Candidate) (found : Option Str)
      → Sums l.sha256
      → Named c
      → Modest P l s (Exchange.start l io c (content found) (plan l now c found s) s)
  taken_up-Modest now io c found h n =
      start-Modest io c (content found) (plan l now c found s)
        (plan-Sends (Ours l.sha256) l now c found s (λ bytes. offer_for-Ours l c bytes h n))
