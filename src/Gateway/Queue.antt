-- ===== src/Gateway/Queue.antt =====
-- The queue of pending chat posts: `outQueue` of link/gateway.go, and the steps that `scanInbox`,
-- `sendLoop`, `flush` and `deliver` take with it. Times are nanoseconds.
use khala_network.Common.{
  ℕ, ◌+◌, ◌≡◌, List, [], ◌∷◌, ◌++◌, if◌then◌else◌, Bool, true, false, ltb, Str, str_eq, Option,
  none, some,
}
use khala_network.Gateway.Posts.{OutItem}

pub record OutQueue : Type 0 where
  pub items : List OutItem
  pub inflight : List Str
  pub held : List (Str × ℕ)

abbrev pub is_empty : Str → Bool
is_empty [] = true
is_empty (c ∷ s) = false

abbrev pub member : Str → List Str → Bool
member id [] = false
member id (x ∷ xs) = if str_eq x id then true else member id xs

abbrev pub remove : Str → List Str → List Str
remove id [] = []
remove id (x ∷ xs) = let rest = remove id xs in if str_eq x id then rest else x ∷ rest

abbrev pub held_until : Str → List (Str × ℕ) → Option ℕ
held_until id [] = none
held_until id ((x, t) ∷ m) = if str_eq x id then some t else held_until id m

abbrev pub unhold : Str → List (Str × ℕ) → List (Str × ℕ)
unhold id [] = []
unhold id ((x, t) ∷ m) = let rest = unhold id m in if str_eq x id then rest else (x, t) ∷ rest

abbrev pub enqueue : OutItem → OutQueue → OutQueue
enqueue item q = record {
  items = OutQueue.items q ++ (item ∷ []);
  inflight =
      if is_empty (OutItem.ack_id item)
      then OutQueue.inflight q
      else OutItem.ack_id item ∷ OutQueue.inflight q;
  held = OutQueue.held q;
}

abbrev pub pop : OutQueue → Option (OutItem × OutQueue)
pop q = elim (OutQueue.items q) [
  | [] ↦ none
  | item ∷ items ↦
      some (item, record { items = items; inflight = OutQueue.inflight q; held = OutQueue.held q })
]

abbrev pub push_front : OutItem → OutQueue → OutQueue
push_front item q = record {
  items = item ∷ OutQueue.items q;
  inflight = OutQueue.inflight q;
  held = OutQueue.held q;
}

abbrev pub done : Str → OutQueue → OutQueue
done id q = if is_empty id then q else record {
  items = OutQueue.items q;
  inflight = remove id (OutQueue.inflight q);
  held = OutQueue.held q;
}

abbrev pub hold : Str → ℕ → OutQueue → OutQueue
hold id until q = if is_empty id then q else record {
  items = OutQueue.items q;
  inflight = OutQueue.inflight q;
  held = (id, until) ∷ unhold id (OutQueue.held q);
}

abbrev pub is_inflight : ℕ → Str → OutQueue → Bool × OutQueue
is_inflight now id q =
    let queued = member id (OutQueue.inflight q) in
    elim (held_until id (OutQueue.held q)) [
      | some until ↦ if ltb now until then (true, q) else (
        queued,
        record {
          items = OutQueue.items q;
          inflight = OutQueue.inflight q;
          held = unhold id (OutQueue.held q);
        },
      )
      | none ↦ (queued, q)
    ]

-- The queue and the item that the sender has taken out of it.
pub record Sender : Type 0 where
  pub queue : OutQueue
  pub posting : Option OutItem

abbrev pub sender : OutQueue → Option OutItem → Sender
sender q p = record { queue = q; posting = p }

abbrev pub gateway_rescan : ℕ
gateway_rescan = 60000000000

-- `deliver` once the post has been tried: a message that failed is held until a later rescan.
abbrev pub delivered : Bool → ℕ → OutItem → OutQueue → OutQueue
delivered posted now item q =
    let id = OutItem.ack_id item in
    if posted then done id q else done id (hold id (now + gateway_rescan) q)

pub data Step : Sender → Sender → Type 0 where
  -- `scanInbox` comes to a message that may be posted now, and `relayMessage` queues it.
  relay :
      {q q' : OutQueue}
      → {p : Option OutItem} → (now : ℕ) → (item : OutItem) → is_empty (OutItem.ack_id item) ≡ false
      → is_inflight now (OutItem.ack_id item) q ≡ (false, q')
      → Step (sender q p) (sender (enqueue item q') p)
  -- A message that is not to be posted now, or that the gateway does not relay.
  skip :
      {q : OutQueue}
      → {p : Option OutItem} → (now : ℕ) → (id : Str)
      → Step (sender q p) (sender (is_inflight now id q).1 p)
  -- A reply, or a status line: nothing to acknowledge.
  say :
      {q : OutQueue}
      → {p : Option OutItem} → (item : OutItem) → OutItem.ack_id item ≡ []
      → Step (sender q p) (sender (enqueue item q) p)
  take :
      {q q' : OutQueue}
      → (item : OutItem) → pop q ≡ some (item, q')
      → Step (sender q none) (sender q' (some item))
  give_back :
      {q : OutQueue}
      → (item : OutItem) → Step (sender q (some item)) (sender (push_front item q) none)
  deliver :
      {q : OutQueue}
      → (item : OutItem) → (posted : Bool) → (now : ℕ)
      → Step (sender q (some item)) (sender (delivered posted now item q) none)

abbrev pub empty_sender : Sender
empty_sender = sender (record { items = []; inflight = []; held = [] }) none

pub data Reachable : Sender → Type 0 where
  start : Reachable empty_sender
  step : {s s' : Sender} → Reachable s → Step s s' → Reachable s'
