-- ===== src/Install/Destination.antt =====
-- link/install.go, `destination`: which objects a node takes from its peer, and where they go.
use khala_network.Common.{
  ◌≡◌, ◌≢◌, refl, Str, lit, str_eq, str_eq_iff, [], ◌∷◌, Option, none, some, Result, ok, err,
  if◌then◌else◌, Bool, true, false, ◌&&◌, ◌||◌, not, arith, All, inl, inr, Bool-cases,
}
use khala_network.Wire.Digest.{ObjectId}
use khala_network.Names.{
  valid_node, valid_basename, valid_message_id, valid_generation, presence_node, IsSegment,
  valid_node-IsSegment, valid_basename-IsSegment,
}
use khala_network.Install.Files.{FilePath, IsMail}

pub data Role : Type 0 where
  dial serve : Role

-- The two fields of `installer` that judge an offer: the relay's role, and the node that `peer`
-- names (the node itself on the dialing side, the connected node on the serving side).
pub record Installer : Type 0 where
  pub role : Role
  pub peer : Str

pub data Refusal : Type 0 where
  invalid_name wrong_owner reflected unknown_class : Refusal

abbrev spool_refusal : Role → Bool → Option Refusal
spool_refusal dial is_peer = if is_peer then none else some wrong_owner
spool_refusal serve is_peer = if is_peer then some reflected else none

abbrev presence_refusal : Role → Bool → Option Refusal
presence_refusal dial is_peer = none
presence_refusal serve is_peer = if is_peer then none else some wrong_owner

-- Streams and session statuses.
abbrev shard_refusal : Role → Bool → Option Refusal
shard_refusal dial is_peer = if is_peer then some reflected else none
shard_refusal serve is_peer = if is_peer then none else some wrong_owner

abbrev unless {ℓ} : {A : Type ℓ} → Option Refusal → A → Result Refusal A
unless (some r) a = err r
unless none a = ok a

abbrev owner_is : Option Str → Str → Bool
owner_is (some n) node = str_eq n node
owner_is none node = false

unfoldable pub destination : Installer → ObjectId → Result Refusal FilePath
destination i o =
    let is_peer = str_eq o.node i.peer in
    if not (valid_node o.node) || not (valid_basename o.basename)
    then err invalid_name
    else if str_eq o.class (lit "spool")
    then unless (spool_refusal i.role is_peer) (lit "spool" ∷ lit "for" ∷ o.node ∷ o.basename ∷ [])
    else if str_eq o.class (lit "presence")
    then (if owner_is (presence_node o.basename) o.node
        then unless (presence_refusal i.role is_peer) (lit "presence" ∷ o.basename ∷ [])
        else err invalid_name)
    else if str_eq o.class (lit "stream")
    then (if valid_node o.stream && valid_message_id o.basename
        then unless (shard_refusal i.role is_peer)
            (lit "streams" ∷ o.stream ∷ o.node ∷ o.basename ∷ [])
        else err invalid_name)
    else if str_eq o.class (lit "mind")
    then (if valid_node o.session && valid_generation o.basename
        then unless (shard_refusal i.role is_peer)
            (lit "minds" ∷ o.node ∷ o.session ∷ o.basename ∷ [])
        else err invalid_name)
    else err unknown_class

literal_segments :
    IsSegment (lit "spool")
    × IsSegment (lit "for")
    × IsSegment (lit "presence")
    × IsSegment (lit "streams")
    × IsSegment (lit "minds")
unfolding valid_node
literal_segments = (
  valid_node-IsSegment (lit "spool") refl,
  valid_node-IsSegment (lit "for") refl,
  valid_node-IsSegment (lit "presence") refl,
  valid_node-IsSegment (lit "streams") refl,
  valid_node-IsSegment (lit "minds") refl,
)

-- A class has one name.
lits :
    (c : Str)
    → (str_eq c (lit "stream") || str_eq c (lit "mind")) ≡ true
    → (str_eq c (lit "spool") ≡ false) × (str_eq c (lit "presence") ≡ false)
lits c h = elim (Bool-cases (str_eq c (lit "stream"))) [
  | inl e ↦ rw ((str_eq_iff c (lit "stream")).0 e) (refl, refl)
  | inr n ↦ rw ((str_eq_iff c (lit "mind")).0 (ground arith)) (refl, refl)
]

-- Whatever a peer offers, an accepted destination is a path below the home: each component is the
-- name of one entry, and the file is none of the work area's.
pub destination_safe :
    (i : Installer) (o : ObjectId) {p : FilePath}
    → destination i o ≡ ok p
    → All IsSegment p × IsMail p
unfolding destination
destination_safe i o h = ground (
  arith,
  valid_node-IsSegment o.node,
  valid_basename-IsSegment o.basename,
  valid_node-IsSegment o.stream,
  valid_node-IsSegment o.session,
  literal_segments,
)

-- Ownership. A dialing node takes letters for itself only and no shard of its own; a serving node
-- takes no letter for the connected node, and presence, streams and statuses of that node only.
destination_owner :
    (i : Installer) (o : ObjectId) {p : FilePath}
    → destination i o ≡ ok p
    → (i.role ≡ dial → (str_eq o.class (lit "spool") ≡ true → o.node ≡ i.peer))
      × (i.role ≡ serve
          → (str_eq o.class (lit "spool") ≡ true → o.node ≢ i.peer)
            × (str_eq o.class (lit "spool") ≡ false → o.node ≡ i.peer))
      × (i.role ≡ dial
          → (str_eq o.class (lit "stream") || str_eq o.class (lit "mind")) ≡ true
          → o.node ≢ i.peer)
unfolding destination
destination_owner i o h = ground (arith, str_eq_iff o.node i.peer, lits o.class)
