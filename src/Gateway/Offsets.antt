-- ===== src/Gateway/Offsets.antt =====
-- The offset of link/gateway.go passes only updates that were handled, restarts included.
use khala_network.Common.{
  ℕ, ◌+◌, ◌≤◌, ◌<◌, ◌≡◌, refl, sym, ap, ◌∙◌, List, [], ◌∷◌, Option, none, some, if◌then◌else◌, Bool,
  true, false, ◌||◌, ltb, ◌==◌, arith, All, All-map, inl, inr, Bool-cases, ltb→lt,
}
use khala_network.Gateway.Inbound.{
  Inbound, Handling, ignores, denies, commands, drops, not_linked, only_text, sends, handling, Sent,
  Desk, Poll, handled_by, handle_inbound, insert_update, sort_updates, passes, handle_updates,
  handle_batch,
}

abbrev pub among : ℕ → List Inbound → Bool
among u [] = false
among u (i ∷ is) = let rest = among u is in i.update_id == u || rest

abbrev pub is_handled : ℕ → List ℕ → Bool
is_handled u [] = false
is_handled u (i ∷ is) = let rest = is_handled u is in i == u || rest

-- The chat service returns its updates from the offset on, in the order of their ids, without a gap.
abbrev pub NoGaps : (ℕ → Bool) → ℕ → List Inbound → Type 0
NoGaps service offset is =
    (u b : ℕ) → service u ≡ true → offset ≤ u → among b is ≡ true → u ≤ b → among u is ≡ true

-- Every update of the service below the offset was handled.
abbrev pub Passed : (ℕ → Bool) → ℕ → List ℕ → Type 0
Passed service offset handled =
    (u : ℕ) → service u ≡ true → u < offset → is_handled u handled ≡ true

abbrev Ascending : List Inbound → Type 0
Ascending [] = Unit
Ascending (i ∷ is) = All (λ j. i.update_id ≤ j.update_id) is × Ascending is

insert_update-All :
    (P : Inbound → Type 0) (i : Inbound) (is : List Inbound)
    → P i
    → All P is
    → All P (insert_update i is)
unfolding insert_update
insert_update-All P i [] p h = (p, tt)
insert_update-All P i (j ∷ js) p (h, hs) =
    split (insert_update i js) (ltb j.update_id i.update_id) (insert_update-All P i js p hs)
  where
    split : (ks : List Inbound) (b : Bool) → All P ks → All P (if b then j ∷ ks else i ∷ (j ∷ js))
    split ks true k = (h, k)
    split ks false k = (p, (h, hs))

below-All :
    (a : ℕ) (j : Inbound) (js : List Inbound)
    → a ≤ j.update_id
    → All (λ k. j.update_id ≤ k.update_id) js
    → All (λ k. a ≤ k.update_id) js
below-All a j js h = All-map _ _ (λ k p. omega arith) js

insert_update-Ascending :
    (i : Inbound) (is : List Inbound) → Ascending is → Ascending (insert_update i is)
unfolding insert_update
insert_update-Ascending i [] h = (tt, tt)
insert_update-Ascending i (j ∷ js) (h, hs) =
    split (ltb j.update_id i.update_id) refl (insert_update-Ascending i js hs)
  where
    after : ltb j.update_id i.update_id ≡ true → j.update_id ≤ i.update_id
    after e = ground arith

    sooner : ltb j.update_id i.update_id ≡ false → i.update_id ≤ j.update_id
    sooner e = ground arith

    split :
        (b : Bool)
        → ltb j.update_id i.update_id ≡ b
        → Ascending (insert_update i js)
        → Ascending (if b then j ∷ insert_update i js else i ∷ (j ∷ js))
    split true e r = (insert_update-All (λ k. j.update_id ≤ k.update_id) i js (after e) h, r)
    split false e r = ((sooner e, below-All i.update_id j js (sooner e) h), (h, hs))

among-insert :
    (u : ℕ) (i : Inbound) (is : List Inbound) → among u (insert_update i is) ≡ among u (i ∷ is)
unfolding insert_update
among-insert u i [] = refl
among-insert u i (j ∷ js) = let rest = among-insert u i js in ground (arith, rest)

among-sort : (u : ℕ) (is : List Inbound) → among u (sort_updates is) ≡ among u is
unfolding sort_updates
among-sort u [] = refl
among-sort u (i ∷ is) =
    let rest = among-sort u is in
    among-insert u i (sort_updates is) ∙ ap (λ b. i.update_id == u || b) rest

among_later :
    (a b : ℕ) (is : List Inbound) → All (λ j. a ≤ j.update_id) is → among b is ≡ true → a ≤ b
among_later a b [] h e = absurd (ground arith)
among_later a b (i ∷ is) (p, h) e = elim (Bool-cases (i.update_id == b)) [
  | inl f ↦ ground arith
  | inr f ↦ among_later a b is h (ground arith)
]

-- Behind the first update there is no gap above it.
NoGaps-rest :
    (service : ℕ → Bool) (offset offset' : ℕ) (i : Inbound) (is : List Inbound)
    → i.update_id < offset'
    → offset ≤ offset'
    → NoGaps service offset (i ∷ is)
    → NoGaps service offset' is
NoGaps-rest service offset offset' i is h o n u b s p e q =
    let all = n u b s (omega arith) (ground arith) q in ground arith

sort_updates-Ascending : (is : List Inbound) → Ascending (sort_updates is)
unfolding sort_updates
sort_updates-Ascending [] = tt
sort_updates-Ascending (i ∷ is) =
    insert_update-Ascending i (sort_updates is) (sort_updates-Ascending is)

-- The desk after an update: it fails, or the update joins those that were handled.
data Did (i : Inbound) (d : Desk) : Option Desk → Type 0 where
  failed : Did i d none
  did : (sent : List Sent) → Did i d (some (record (handled_by i d) { sent = sent }))

handle_inbound-Did : (p : Poll) (i : Inbound) (d : Desk) → Did i d (handle_inbound p i d)
unfolding handle_inbound
handle_inbound-Did p i d = by_handling (handling p.allow p.topics i)
  where
    by_send :
        (b : Bool) (sent : List Sent)
        → Did i d (if b then none else some (record (handled_by i d) { sent = sent }))
    by_send true sent = failed
    by_send false sent = did sent

    by_handling :
        (h : Handling)
        → Did i d (elim h [
          | ignores ↦ some (handled_by i d)
          | denies ↦ some (handled_by i d)
          | commands ↦ some (handled_by i d)
          | drops ↦ some (handled_by i d)
          | not_linked ↦ some (handled_by i d)
          | only_text ↦ some (handled_by i d)
          | sends address ↦
              if p.send_fails i.update_id
              then none
              else some (record (handled_by i d) {
                sent = record { update_id = i.update_id; address = address } ∷ d.sent;
              })
        ])
    by_handling ignores = did d.sent
    by_handling denies = did d.sent
    by_handling commands = did d.sent
    by_handling drops = did d.sent
    by_handling not_linked = did d.sent
    by_handling only_text = did d.sent
    by_handling (sends address) = by_send (p.send_fails i.update_id) _

-- Neither the offset nor the stored one has passed an update that was not handled.
pub record Careful (service : ℕ → Bool) (d : Desk) : Type 0 where
  pub offset : Passed service d.offset d.handled
  pub stored : Passed service d.stored d.handled

Passed-more :
    (service : ℕ → Bool) (offset i : ℕ) (handled : List ℕ)
    → Passed service offset handled
    → Passed service offset (i ∷ handled)
Passed-more service offset i handled p u s h = let e = p u s h in ground arith

not_below : (a b : ℕ) → ltb a b ≡ false → b ≤ a
not_below a b e = ground arith

-- With no gap below it, the first update's own handling lets the offset pass it.
Passed-first :
    (service : ℕ → Bool) (offset : ℕ) (i : Inbound) (is : List Inbound) (handled : List ℕ)
    → Ascending (i ∷ is)
    → NoGaps service offset (i ∷ is)
    → Passed service offset handled
    → Passed service (i.update_id + 1) (i.update_id ∷ handled)
Passed-first service offset i is handled (a, rest) n p u s h = elim (Bool-cases (ltb u offset)) [
  | inl e ↦ let q = p u s (ltb→lt u offset e) in ground arith
  | inr e ↦
      let first = n u i.update_id s (not_below u offset e) (ground arith) (omega arith) in
      elim (Bool-cases (i.update_id == u)) [
        | inl f ↦ ground arith
        | inr f ↦ let le = among_later i.update_id u is a (ground arith) in absurd (ground arith)
      ]
]

handle_updates-Careful :
    (service : ℕ → Bool) (p : Poll) (is : List Inbound) (d : Desk)
    → Ascending is
    → NoGaps service d.offset is
    → Careful service d
    → Careful service (handle_updates p is d)
unfolding handle_updates
handle_updates-Careful service p [] d a n c = c
handle_updates-Careful service p (i ∷ is) d (a, as') n c =
    by_offset (ltb i.update_id d.offset) refl (λ d'. handle_updates-Careful service p is d' as')
  where
    Rest : Type 0
    Rest =
        (d' : Desk)
        → NoGaps service d'.offset is
        → Careful service d'
        → Careful service (handle_updates p is d')

    passed :
        (sent : List Sent) → Careful service (passes p i (record (handled_by i d) { sent = sent }))
    passed sent = record { offset = first; stored = kept (p.save_fails i.update_id) }
      where
        first : Passed service (i.update_id + 1) (i.update_id ∷ d.handled)
        first = Passed-first service d.offset i is d.handled (a, as') n c.offset

        kept :
            (b : Bool)
            → Passed service (if b then d.stored else i.update_id + 1) (i.update_id ∷ d.handled)
        kept true = Passed-more service d.stored i.update_id d.handled c.stored
        kept false = first

    by_save :
        (b f : Bool) (sent : List Sent)
        → ltb i.update_id d.offset ≡ f
        → f ≡ false
        → Rest
        → Careful service (
            if b
            then passes p i (record (handled_by i d) { sent = sent })
            else handle_updates p is (passes p i (record (handled_by i d) { sent = sent })))
    by_save true f sent e g r = passed sent
    by_save false f sent e g r =
        r _ (NoGaps-rest service d.offset (i.update_id + 1) i is (omega arith) (ground arith) n)
          (passed sent)

    by_result :
        (o : Option Desk)
        → Did i d o
        → ltb i.update_id d.offset ≡ false
        → Rest
        → Careful service (elim o [
          | none ↦ d
          | some d' ↦
              if p.save_fails i.update_id
              then passes p i d'
              else handle_updates p is (passes p i d')
        ])
    by_result _ failed e r = c
    by_result _ (did sent) e r = by_save (p.save_fails i.update_id) false sent e refl r

    by_offset :
        (b : Bool)
        → ltb i.update_id d.offset ≡ b
        → Rest
        → Careful service (
            if b then handle_updates p is d else elim (handle_inbound p i d) [
              | none ↦ d
              | some d' ↦
                  if p.save_fails i.update_id
                  then passes p i d'
                  else handle_updates p is (passes p i d')
            ])
    by_offset true e r =
        r d (NoGaps-rest service d.offset d.offset i is (ltb→lt _ _ e) (omega arith) n) c
    by_offset false e r = by_result (handle_inbound p i d) (handle_inbound-Did p i d) e r

-- A batch is handled, or the gateway is restarted with the stored offset.
pub data Turn : Type 0 where
  polls : Poll → Turn
  restarts : Turn

abbrev pub desk_after : List Turn → Desk → Desk
desk_after [] d = d
desk_after (polls p ∷ ts) d = desk_after ts (handle_batch p d)
desk_after (restarts ∷ ts) d = desk_after ts (record d { offset = d.stored })

-- Each batch is what the service has from the offset on.
abbrev pub Served : (ℕ → Bool) → List Turn → Desk → Type 0
Served service [] d = Unit
Served service (polls p ∷ ts) d =
    NoGaps service d.offset p.updates × Served service ts (handle_batch p d)
Served service (restarts ∷ ts) d = Served service ts (record d { offset = d.stored })

handle_batch-Careful :
    (service : ℕ → Bool) (p : Poll) (d : Desk)
    → NoGaps service d.offset p.updates
    → Careful service d
    → Careful service (handle_batch p d)
unfolding handle_batch
handle_batch-Careful service p d n c =
    handle_updates-Careful service p (sort_updates p.updates) d (sort_updates-Ascending p.updates)
      (λ u b s o e q. among-sort u p.updates ∙ n u b s o (sym (among-sort b p.updates) ∙ e) q) c

-- From a desk whose offsets passed only what was handled: over batches that hold what the service has from
-- the offset on, and over restarts with the stored offset, neither offset passes an update of the
-- service that was not handled, whichever sends and saves fail.
pub desk_after-Careful :
    (service : ℕ → Bool) (ts : List Turn) (d : Desk)
    → Served service ts d
    → Careful service d
    → Careful service (desk_after ts d)
desk_after-Careful service [] d s c = c
desk_after-Careful service (polls p ∷ ts) d (n, s) c =
    desk_after-Careful service ts (handle_batch p d) s (handle_batch-Careful service p d n c)
desk_after-Careful service (restarts ∷ ts) d s c =
    desk_after-Careful service ts (record d { offset = d.stored }) s
      (record { offset = c.stored; stored = c.stored })
