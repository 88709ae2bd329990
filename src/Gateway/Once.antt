-- ===== src/Gateway/Once.antt =====
-- No message is queued twice: `isInflight` of link/gateway.go does what its comment says.
use khala_network.Common.{
  ℕ, ◌+◌, ◌≤◌, ◌≡◌, List, [], ◌∷◌, ◌++◌, if◌then◌else◌, Bool, true, false, arith, Str, str_eq,
  str_eq_iff, Option, none, some,
}
use khala_network.Gateway.Posts.{OutItem}
use khala_network.Gateway.Queue.{
  OutQueue, is_empty, member, remove, enqueue, pop, is_inflight, Sender, sender, delivered, Step,
  relay, skip, say, take, give_back, deliver, Reachable, start, step,
}

abbrev one : Bool → ℕ
one b = if b then 1 else 0

-- How many of the items have this Id to acknowledge.
abbrev pub waiting : Str → List OutItem → ℕ
waiting id [] = 0
waiting id (item ∷ items) = one (str_eq (OutItem.ack_id item) id) + waiting id items

abbrev pub in_hand : Str → Option OutItem → ℕ
in_hand id none = 0
in_hand id (some item) = one (str_eq (OutItem.ack_id item) id)

-- The items of an Id, queued or being posted.
abbrev pub pending : Str → Sender → ℕ
pending id s = in_hand id (Sender.posting s) + waiting id (OutQueue.items (Sender.queue s))

record Exclusive (s : Sender) : Type 0 where
  at_most :
      (id : Str)
      → is_empty id ≡ false
      → pending id s ≤ one (member id (OutQueue.inflight (Sender.queue s)))

waiting-append : (id : Str) (a b : List OutItem) → waiting id (a ++ b) ≡ waiting id a + waiting id b
waiting-append id [] b = omega arith
waiting-append id (item ∷ a) b = ground (arith, waiting-append id a b)

member-remove :
    (id k : Str) (ids : List Str)
    → member id (remove k ids) ≡ (if str_eq k id then false else member id ids)
member-remove id k [] = ground arith
member-remove id k (x ∷ ids) =
    ground (arith, member-remove id k ids, str_eq_iff x k, str_eq_iff x id, str_eq_iff k id)

-- Asking about an Id leaves the items and the set as they are.
is_inflight_asks :
    (now : ℕ) (id : Str) (q : OutQueue)
    → (OutQueue.items (is_inflight now id q).1 ≡ OutQueue.items q)
      × (OutQueue.inflight (is_inflight now id q).1 ≡ OutQueue.inflight q)
is_inflight_asks now id q = ground arith

-- An Id that may be posted is not in the set.
is_inflight_free :
    (now : ℕ) (id : Str) (q : OutQueue)
    → (is_inflight now id q).0 ≡ false
    → member id (OutQueue.inflight q) ≡ false
is_inflight_free now id q h = ground (arith, h)

-- An Id in the set is not to be posted now.
is_inflight_busy :
    (now : ℕ) (id : Str) (q : OutQueue)
    → member id (OutQueue.inflight q) ≡ true
    → (is_inflight now id q).0 ≡ true
is_inflight_busy now id q h = ground (arith, h)

relay-Exclusive :
    (now : ℕ) (item : OutItem) (q q' : OutQueue) (p : Option OutItem)
    → is_empty (OutItem.ack_id item) ≡ false
    → is_inflight now (OutItem.ack_id item) q ≡ (false, q')
    → Exclusive (sender q p)
    → Exclusive (sender (enqueue item q') p)
relay-Exclusive now item q q' p e f x = record {
  at_most = λ id g. ground (
    arith,
    e,
    f,
    Exclusive.at_most x id g,
    waiting-append id (OutQueue.items q') (item ∷ []),
    is_inflight_asks now (OutItem.ack_id item) q,
    is_inflight_free now (OutItem.ack_id item) q,
    str_eq_iff (OutItem.ack_id item) id,
  );
}

skip-Exclusive :
    (now : ℕ) (id : Str) (q : OutQueue) (p : Option OutItem)
    → Exclusive (sender q p)
    → Exclusive (sender (is_inflight now id q).1 p)
skip-Exclusive now id q p x = record {
  at_most = λ j g. ground (arith, Exclusive.at_most x j g, is_inflight_asks now id q);
}

say-Exclusive :
    (item : OutItem) (q : OutQueue) (p : Option OutItem)
    → OutItem.ack_id item ≡ []
    → Exclusive (sender q p)
    → Exclusive (sender (enqueue item q) p)
say-Exclusive item q p e x = record {
  at_most = λ id g. ground (
    arith,
    e,
    g,
    Exclusive.at_most x id g,
    waiting-append id (OutQueue.items q) (item ∷ []),
    str_eq_iff (OutItem.ack_id item) id,
  );
}

take-Exclusive :
    (item : OutItem) (q q' : OutQueue)
    → pop q ≡ some (item, q')
    → Exclusive (sender q none)
    → Exclusive (sender q' (some item))
take-Exclusive item q q' e x = record {
  at_most = λ id g. ground (arith, e, Exclusive.at_most x id g);
}

deliver-Exclusive :
    (item : OutItem) (posted : Bool) (now : ℕ) (q : OutQueue)
    → Exclusive (sender q (some item))
    → Exclusive (sender (delivered posted now item q) none)
deliver-Exclusive item posted now q x = record {
  at_most = λ id g. ground (
    arith,
    g,
    Exclusive.at_most x id g,
    str_eq_iff (OutItem.ack_id item) id,
    member-remove id (OutItem.ack_id item) (OutQueue.inflight q),
  );
}

step-Exclusive : (s s' : Sender) → Exclusive s → Step s s' → Exclusive s'
step-Exclusive _ _ x (relay {q = q} {q' = q'} {p = p} now item e f) =
    relay-Exclusive now item q q' p e f x
step-Exclusive _ _ x (skip {q = q} {p = p} now id) = skip-Exclusive now id q p x
step-Exclusive _ _ x (say {q = q} {p = p} item e) = say-Exclusive item q p e x
step-Exclusive _ _ x (take {q = q} {q' = q'} item e) = take-Exclusive item q q' e x
step-Exclusive _ _ x (give_back {q = q} item) = record {
  at_most = λ id g. ground (arith, Exclusive.at_most x id g);
}
step-Exclusive _ _ x (deliver {q = q} item posted now) = deliver-Exclusive item posted now q x

Reachable-Exclusive : (s : Sender) → Reachable s → Exclusive s
Reachable-Exclusive _ start = record { at_most = λ id g. omega arith }
Reachable-Exclusive _ (step {s = s} {s' = s'} r t) = step-Exclusive s s' (Reachable-Exclusive s r) t

-- In every state that the gateway reaches, a message is queued or being posted at most once, and as
-- long as it is, `isInflight` reports its Id, whatever the time.
pub queued_once :
    (s : Sender) (id : Str)
    → Reachable s
    → is_empty id ≡ false
    → (pending id s ≤ 1)
      × ((now : ℕ) → 1 ≤ pending id s → (is_inflight now id (Sender.queue s)).0 ≡ true)
queued_once s id r e = (
  ground (arith, Exclusive.at_most (Reachable-Exclusive s r) id e),
  λ now h.
      is_inflight_busy now id (Sender.queue s)
        (ground (arith, h, Exclusive.at_most (Reachable-Exclusive s r) id e)),
)
