-- ===== src/Relay/State.antt =====
-- link/pump.go, `relayLoop`: the state of one connection, with the files of its node.
use khala_network.Common.{
  ℕ, ◌≡◌, Str, str_eq, str_eq_iff, List, [], ◌∷◌, ◌++◌, Option, none, some, if◌then◌else◌, Bool,
  true, false, arith,
}
use khala_network.Wire.Digest.{ObjectId}
use khala_network.Wire.Offers.{Offer}
use khala_network.Wire.Frames.{Frame}
use khala_network.Install.Files.{Fs}
use khala_network.Install.Destination.{Installer}
use khala_network.Install.Presence.{SnapshotGeneration}

-- The minor versions from which a peer takes streams and session statuses.
abbrev pub stream_minor : ℕ
stream_minor = 1

abbrev pub status_minor : ℕ
status_minor = 2

abbrev pub protocol_minor : ℕ
protocol_minor = 2

-- What does not change while a connection lasts. `sha256` and `parse` stand for SHA-256 and for the
-- parser of listener snapshots.
pub record Link : Type 0 where
  pub installer : Installer
  pub open installer use *
  pub minor : ℕ
  pub max_object : ℕ
  pub retain_days : ℕ
  pub sha256 : Str → Str
  pub parse : SnapshotGeneration

-- The frames that a relay writes. The free text of an ERROR is left out.
pub data Message : Type 0 where
  offer : Offer → Message
  have need stored : Str → Message
  bytes_of : Str → Str → Message
  pong ping : ℕ → Message
  refusal : Str → Bool → Message
  bye : Message

-- A Go map from keys to transfer ids, the latest entry first.
abbrev pub Ids : Type 0
Ids = List (Str × Str)

pub id_at : Str → Ids → Option Str
id_at k [] = none
id_at k ((j, id) ∷ m) = let rest = id_at k m in if str_eq j k then some id else rest

pub forget : Str → Ids → Ids
forget k [] = []
forget k ((j, id) ∷ m) = let rest = forget k m in if str_eq j k then rest else (j, id) ∷ rest

pub id_at-forget :
    (k j : Str) (m : Ids) → id_at j (forget k m) ≡ (if str_eq k j then none else id_at j m)
unfolding id_at forget
id_at-forget k j [] = ground arith
id_at-forget k j ((i, id) ∷ m) =
    ground (arith, id_at-forget k j m, str_eq_iff i k, str_eq_iff i j, str_eq_iff k j)

abbrev is_id : Str → Option Str → Bool
is_id id none = false
is_id id (some got) = str_eq got id

-- `got, ok := m[key]; return ok && got == id`.
unfoldable pub has_id : Str → Str → Ids → Bool
unfolding id_at
has_id k id m = is_id id (id_at k m)

pub record State : Type 0 where
  -- the accepted OFFER that waits for DATA
  pub incoming : Option Offer
  -- the object that `installIncoming` is at work on
  pub installing : Option (Offer × Str)
  pub active_out : Bool
  pub responses : List Frame
  pub origins : Ids
  pub known : Ids
  pub rejected : Ids
  pub fs : Fs

unfoldable pub mark_known : Str → Str → State → State
unfolding forget
mark_known k id s = record s { known = (k, id) ∷ s.known; rejected = forget k s.rejected }

unfoldable pub mark_rejected : Str → Str → State → State
mark_rejected k id s = record s { rejected = (k, id) ∷ s.rejected }

unfoldable pub add_origin : Str → Str → State → State
add_origin k id s = record s { origins = (k, id) ∷ s.origins }

-- `offerKey`, `candidate.key`: the path identity of an object.
unfoldable pub offer_key : ObjectId → Str
offer_key o = o.class ++ (0 ∷ (o.stream ++ (0 ∷ (o.node ++ (0 ∷ (o.session ++ (0 ∷ o.basename)))))))

-- What one step of a worker comes to: the state, the frames written, and whether the connection
-- ends.
pub record Step : Type 0 where
  pub state : State
  pub sent : List Message
  pub stops : Bool

abbrev pub step : State → List Message → Step
step s out = record { state = s; sent = out; stops = false }

-- `fatal`, and the error that the worker returns.
abbrev pub fatal : Str → State → Step
fatal code s = record { state = s; sent = refusal code false ∷ bye ∷ []; stops = true }

-- A remembered id is found until its key is given another.
pub has_id-add : (k id : Str) (m : Ids) → has_id k id ((k, id) ∷ m) ≡ true
unfolding has_id
has_id-add k id m = ground (arith, str_eq_iff k k, str_eq_iff id id)
