-- ===== src/Relay/Exchange.antt =====
-- link/pump.go, the end of `sendCandidate`: OFFER, the peer's two replies, and the removal of the
-- copy that the peer has stored.
use khala_network.Common.{
  ◌≡◌, refl, Str, [], ◌∷◌, none, if◌then◌else◌, Bool, true, false, ◌&&◌, ◌||◌, not, ◌==◌, arith,
  lit, ◌⊎◌, inl, inr, Option-cases, Bool-cases, sym, ap, subst, ==_iff,
}
use khala_network.Wire.Offers.{Offer}
use khala_network.Wire.Frames.{Frame, frame_have, frame_need, frame_stored}
use khala_network.Install.Files.{FilePath, Fs, put, path_eq, path_eq_iff}
use khala_network.Install.Staging.{Holds}
use khala_network.Install.Immutable.{same_digest-Holds}
use khala_network.Install.Quarantine.{Io, quarantine_future, remove_transit, same_digest}
use khala_network.Relay.State.{
  Link, offer, bytes_of, refusal, State, Step, step, mark_known, mark_rejected, offer_key,
}
use khala_network.Relay.Sender.{
  Candidate, Plan, skip, too_large, drop_copy, set_aside, send, Reply, declined, answered, broken,
  wait_response, is_serve,
}

-- An outbound object: the candidate, its offer and bytes, and whether its origin goes with STORED.
pub record Outbound : Type 0 where
  pub candidate : Candidate
  pub offered : Offer
  pub bytes : Str
  pub removes : Bool

-- What the sender waits for.
pub data Await : Type 0 where
  idle : Await
  first second : Outbound → Await

pub record Turn : Type 0 where
  pub now_at : Step
  pub awaits : Await

abbrev pub turn : Step → Await → Turn
turn st a = record { now_at = st; awaits = a }

abbrev quiet : State → State
quiet s = record s { active_out = false }

abbrev halt : State → Turn
halt s = turn (record { state = quiet s; sent = []; stops = true }) idle

-- What the plan comes to. `bytes` is what was read.
unfoldable pub start : Link → Io → Candidate → Str → Plan → State → Turn
start l io c bytes skip s = turn (step s []) idle
start l io c bytes too_large s = turn (step s (refusal (lit "OBJECT_TOO_LARGE") true ∷ [])) idle
start l io c bytes (drop_copy digest) s =
    turn (step (record s { fs = remove_transit l.sha256 io.read_fails c.path digest s.fs }) []) idle
start l io c bytes (set_aside o) s =
    turn (step (record s { fs = (quarantine_future io l.sha256 c.path o.object s.fs).1 }) []) idle
start l io c bytes (send o removes) s =
    turn (step (record s { active_out = true }) (offer o ∷ []))
      (first (record { candidate = c; offered = o; bytes = bytes; removes = removes }))

abbrev pub rejected_by_peer : Outbound → State → Turn
rejected_by_peer x s =
    turn (step (quiet (mark_rejected (offer_key x.candidate.named) x.offered.id s)) []) idle

abbrev pub on_first : Outbound → Reply → State → Turn
on_first x declined s = rejected_by_peer x s
on_first x broken s = halt s
on_first x (answered typ) s =
    if typ == frame_need
    then turn (step s (bytes_of x.offered.id x.bytes ∷ [])) (second x)
    else if typ == frame_have
    then turn (step s []) (second x)
    else halt s

-- The copy is unlinked, or the sender should not have come here.
unfoldable pub settle_copy : Link → Bool → Outbound → State → Turn
settle_copy l read_fails x s =
    if x.candidate.delete_after_stored || x.removes
    then (if not (is_serve l.role) && not x.removes
        then halt s
        else turn
            (step
              (quiet (record s {
                fs = remove_transit l.sha256 read_fails x.candidate.path x.offered.digest s.fs;
              }))
              [])
            idle)
    else turn (step (quiet s) []) idle

abbrev pub on_second : Link → Bool → Outbound → Reply → State → Turn
on_second l read_fails x declined s = rejected_by_peer x s
on_second l read_fails x broken s = halt s
on_second l read_fails x (answered typ) s =
    if typ == frame_stored
    then settle_copy l read_fails x (mark_known (offer_key x.candidate.named) x.offered.id s)
    else halt s

-- The next frame that the reader passes on.
unfoldable pub on_reply : Link → Bool → Await → Frame → State → Turn
unfolding settle_copy
on_reply l read_fails idle f s = turn (step s []) idle
on_reply l read_fails (first x) f s = on_first x (wait_response x.offered.id f) s
on_reply l read_fails (second x) f s = on_second l read_fails x (wait_response x.offered.id f) s

-- Only the file at `path` may go, and only if it had the offered digest.
abbrev Unlinked : (Str → Str) → FilePath → Str → Fs → Fs → FilePath → Type 0
Unlinked sha256 path digest fs fs' p = (p ≡ path) × Holds sha256 path digest fs × (fs' p ≡ none)

remove_transit-Unlinked :
    (sha256 : Str → Str) (read_fails : Bool) (path : FilePath) (digest : Str) (fs : Fs)
    (p : FilePath)
    → let fs' = remove_transit sha256 read_fails path digest fs in
      (fs' p ≡ fs p) ⊎ Unlinked sha256 path digest fs fs' p
unfolding remove_transit put
remove_transit-Unlinked sha256 read_fails path digest fs p =
    elim (Option-cases (same_digest sha256 read_fails (fs path) digest)) [
      | inl e ↦ inl (ground arith)
      | inr (false, e) ↦ inl (ground arith)
      | inr (true, e) ↦ elim (Bool-cases (path_eq path p)) [
        | inr n ↦ inl (ground arith)
        | inl q ↦ inr (
          sym ((path_eq_iff path p).0 q),
          same_digest-Holds sha256 read_fails path digest fs e,
          ground arith,
        )
      ]
    ]

module _ (l : Link) (read_fails : Bool) (x : Outbound) (p : FilePath) where
  abbrev Copy : Fs → Turn → Type 0
  Copy fs t =
      let fs' = t.now_at.state.fs in
      (fs' p ≡ fs p) ⊎ Unlinked l.sha256 x.candidate.path x.offered.digest fs fs' p

  settle_copy-unlinks : (s : State) → Copy s.fs (settle_copy l read_fails x s)
  unfolding settle_copy
  settle_copy-unlinks s =
      cases (x.candidate.delete_after_stored || x.removes) (not (is_serve l.role) && not x.removes)
    where
      gone : Turn
      gone =
          turn
            (step
              (quiet (record s {
                fs = remove_transit l.sha256 read_fails x.candidate.path x.offered.digest s.fs;
              }))
              [])
            idle

      cases :
          (b c : Bool)
          → Copy s.fs (if b then (if c then halt s else gone) else turn (step (quiet s) []) idle)
      cases false c = inl refl
      cases true true = inl refl
      cases true false =
          remove_transit-Unlinked l.sha256 read_fails x.candidate.path x.offered.digest s.fs p

  first-unlinks : (r : Reply) (s : State) → (on_first x r s).now_at.state.fs ≡ s.fs
  unfolding mark_rejected
  first-unlinks declined s = refl
  first-unlinks broken s = refl
  first-unlinks (answered typ) s = ground arith

  second-unlinks :
      (r : Reply) (s : State)
      → let t = on_second l read_fails x r s in
        (t.now_at.state.fs p ≡ s.fs p)
        ⊎ ((r ≡ answered frame_stored)
            × Unlinked l.sha256 x.candidate.path x.offered.digest s.fs t.now_at.state.fs p)
  unfolding mark_rejected mark_known
  second-unlinks declined s = inl refl
  second-unlinks broken s = inl refl
  second-unlinks (answered typ) s = elim (Bool-cases (typ == frame_stored)) [
    | inr n ↦ inl (rw n refl)
    | inl e ↦
        rw (e)
          (elim (settle_copy-unlinks (mark_known (offer_key x.candidate.named) x.offered.id s)) [
            | inl same ↦ inl same
            | inr gone ↦ inr (ap answered ((==_iff typ frame_stored).0 e), gone)
          ])
  ]

-- A reply changes no file but the offered copy, which goes only when the peer answers STORED with
-- its transfer id after NEED or HAVE, and only while it still has the offered digest.
pub on_reply-unlinks :
    (l : Link) (read_fails : Bool) (a : Await) (f : Frame) (s : State) (p : FilePath)
    → let fs' = (on_reply l read_fails a f s).now_at.state.fs in
      (fs' p ≡ s.fs p)
      ⊎ ((x : Outbound) × (a ≡ second x)
          × (wait_response x.offered.id f ≡ answered frame_stored)
          × (p ≡ x.candidate.path)
          × Holds l.sha256 p x.offered.digest s.fs
          × (fs' p ≡ none))
unfolding on_reply
on_reply-unlinks l read_fails idle f s p = inl refl
on_reply-unlinks l read_fails (first x) f s p =
    inl (ap (λ (fs : Fs). fs p) (first-unlinks l read_fails x p (wait_response x.offered.id f) s))
on_reply-unlinks l read_fails (second x) f s p =
    elim (second-unlinks l read_fails x p (wait_response x.offered.id f) s) [
      | inl same ↦ inl same
      | inr (e, (at, held, gone)) ↦
          inr (
            x,
            refl,
            e,
            at,
            subst (λ q. Holds l.sha256 q x.offered.digest s.fs) (sym at) held,
            gone,
          )
    ]
