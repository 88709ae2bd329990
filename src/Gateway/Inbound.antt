-- ===== src/Gateway/Inbound.antt =====
-- From the chat to khala: `handleBatch` and `handleInbound` of link/gateway.go, `topicFor` of
-- link/gateway_state.go and `inbound` of link/gateway_adapter.go.
use khala_network.Common.{
  ℕ, ◌+◌, Str, lit, str_eq, List, [], ◌∷◌, Option, none, some, if◌then◌else◌, Bool, not, ◌||◌, ltb,
  ◌==◌,
}
use khala_network.Text.Strings.{cut_prefix, present, trim_space}

pub record Inbound : Type 0 where
  pub thread_id : ℕ
  pub message_id : ℕ
  pub update_id : ℕ
  pub user_id : ℕ
  pub text : Str
  pub is_command : Bool
  pub ignore : Bool

-- The chat's topics, each with the address of its session.
unfoldable pub topic_for : ℕ → List (Str × ℕ) → Option Str
topic_for thread [] = none
topic_for thread ((address, id) ∷ topics) =
    let rest = topic_for thread topics in if id == thread then some address else rest

abbrev pub is_general_thread : ℕ → Bool
is_general_thread thread = thread == 0 || thread == 1

-- What `handleInbound` does with an update.
pub data Handling : Type 0 where
  ignores : Handling
  denies : Handling
  commands : Handling
  drops : Handling
  not_linked : Handling
  only_text : Handling
  sends : Str → Handling

unfoldable pub handling : (ℕ → Bool) → List (Str × ℕ) → Inbound → Handling
handling allow topics i =
    if i.ignore
    then ignores
    else if not (allow i.user_id)
    then denies
    else if is_general_thread i.thread_id
    then (if i.is_command || present (cut_prefix (lit "/") i.text) then commands else drops)
    else elim (topic_for i.thread_id topics) [
      | none ↦ not_linked
      | some address ↦ if str_eq (trim_space i.text) [] then only_text else sends address
    ]

-- A message that was handed to khala: the update and the address it went to.
pub record Sent : Type 0 where
  pub update_id : ℕ
  pub address : Str

-- The gateway's offset, the one that is stored, and what was done.
pub record Desk : Type 0 where
  pub offset : ℕ
  pub stored : ℕ
  pub handled : List ℕ
  pub sent : List Sent

-- What a batch meets: who is allowed, the topics, and which sends and saves succeed.
pub record Poll : Type 0 where
  pub updates : List Inbound
  pub allow : ℕ → Bool
  pub topics : List (Str × ℕ)
  pub send_fails : ℕ → Bool
  pub save_fails : ℕ → Bool

abbrev pub handled_by : Inbound → Desk → Desk
handled_by i d = record d { handled = i.update_id ∷ d.handled }

-- `handleInbound`: `none` is its error.
unfoldable pub handle_inbound : Poll → Inbound → Desk → Option Desk
handle_inbound p i d = elim (handling p.allow p.topics i) [
  | ignores ↦ some (handled_by i d)
  | denies ↦ some (handled_by i d)
  | commands ↦ some (handled_by i d)
  | drops ↦ some (handled_by i d)
  | not_linked ↦ some (handled_by i d)
  | only_text ↦ some (handled_by i d)
  | sends address ↦
      if p.send_fails i.update_id
      then none
      else some (record (handled_by i d) {
        sent = record { update_id = i.update_id; address = address } ∷ d.sent;
      })
]

-- `sort.SliceStable` by the update's id.
unfoldable pub insert_update : Inbound → List Inbound → List Inbound
insert_update i [] = i ∷ []
insert_update i (j ∷ js) =
    let rest = insert_update i js in if ltb j.update_id i.update_id then j ∷ rest else i ∷ (j ∷ js)

unfoldable pub sort_updates : List Inbound → List Inbound
sort_updates [] = []
sort_updates (i ∷ is) = insert_update i (sort_updates is)

-- The offset passes an update that was handled, and is stored.
abbrev pub passes : Poll → Inbound → Desk → Desk
passes p i d = record d {
  offset = i.update_id + 1;
  stored = if p.save_fails i.update_id then d.stored else i.update_id + 1;
}

-- The desk after the updates, in order; it stops at the first that is not handled or not saved.
unfoldable pub handle_updates : Poll → List Inbound → Desk → Desk
handle_updates p [] d = d
handle_updates p (i ∷ is) d =
    if ltb i.update_id d.offset then handle_updates p is d else elim (handle_inbound p i d) [
      | none ↦ d
      | some d' ↦
          if p.save_fails i.update_id then passes p i d' else handle_updates p is (passes p i d')
    ]

unfoldable pub handle_batch : Poll → Desk → Desk
handle_batch p d = handle_updates p (sort_updates p.updates) d
