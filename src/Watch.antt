-- ===== src/Watch.antt =====
-- link/watch.go: the scans of `treeWatcher`, which find the files that a node offers to its peer. Paths
-- are relative to the home. The watches themselves, with the scan that `addSpoolWatch` makes of a spool
-- before `scanAll` scans it, and the channel of candidates, which drops what it has no room for, are not
-- modelled.
pub mod Offered
pub mod Complete
use khala_network.Common.{
  ◌≡◌, Str, lit, str_eq, List, [], ◌∷◌, ◌++◌, Option, none, some, if◌then◌else◌, Bool, true, false,
  not, ◌&&◌, ◌||◌,
}
use khala_network.Names.{
  valid_node, valid_basename, valid_message_id, valid_generation, presence_node,
}
use khala_network.Wire.Digest.{ObjectId}
use khala_network.Install.Files.{FilePath}
use khala_network.Install.Destination.{Role, dial, serve}
use khala_network.Relay.Sender.{Candidate, is_serve}

pub data EntryKind : Type 0 where
  directory regular other_kind : EntryKind

pub record DirEntry : Type 0 where
  pub name : Str
  pub kind : EntryKind

abbrev pub is_directory : EntryKind → Bool
is_directory directory = true
is_directory _ = false

abbrev pub is_regular : EntryKind → Bool
is_regular regular = true
is_regular _ = false

-- What a scan meets: the entries of a directory, empty where it cannot be read, whether a directory can
-- be watched, and whether the age-governed trees are ready.
pub record Watcher : Type 0 where
  pub role : Role
  pub self : Str
  pub peer : Str
  pub read_dir : FilePath → List DirEntry
  pub can_watch : FilePath → Bool
  pub age_ready : Bool

-- The candidates of the entries that are of a kind and pass a test.
unfoldable pub each_entry :
    (EntryKind → Bool) → (Str → Bool) → (Str → List Candidate) → List DirEntry → List Candidate
each_entry kind test scan [] = []
each_entry kind test scan (e ∷ es) =
    let rest = each_entry kind test scan es in
    if kind e.kind && test e.name then scan e.name ++ rest else rest

abbrev pub named : Str → Str → Str → Str → Str → ObjectId
named class stream node session basename = record {
  class = class;
  stream = stream;
  node = node;
  session = session;
  basename = basename;
  digest = [];
}

abbrev pub candidate : ObjectId → Bool → FilePath → Candidate
candidate o delete path = record { named = o; path = path; delete_after_stored = delete }

abbrev pub spool_candidate : Watcher → Str → Str → Candidate
spool_candidate t node name =
    candidate (named (lit "spool") [] node [] name) (is_serve t.role)
      (lit "spool" ∷ lit "for" ∷ node ∷ name ∷ [])

abbrev pub presence_candidate : Str → Str → Candidate
presence_candidate node name =
    candidate (named (lit "presence") [] node [] name) false (lit "presence" ∷ name ∷ [])

abbrev pub stream_candidate : Str → Str → Str → Candidate
stream_candidate stream node name =
    candidate (named (lit "stream") stream node [] name) false
      (lit "streams" ∷ stream ∷ node ∷ name ∷ [])

abbrev pub status_candidate : Str → Str → Str → Candidate
status_candidate node session name =
    candidate (named (lit "mind") [] node session name) false
      (lit "minds" ∷ node ∷ session ∷ name ∷ [])

-- The letters of a node's spool, where the caller scans it at all.
abbrev pub spool_letters : Watcher → Str → List Candidate
spool_letters t node =
    each_entry is_regular valid_basename (λ name. spool_candidate t node name ∷ [])
      (t.read_dir (lit "spool" ∷ lit "for" ∷ node ∷ []))

-- The first two conditions of `scanSpool`.
abbrev pub skips_spool : Role → Watcher → Str → Bool
skips_spool dial t node = str_eq node t.self
skips_spool serve t node = not (str_eq node t.peer)

unfoldable pub scan_spool : Watcher → Str → List Candidate
unfolding each_entry valid_basename
scan_spool t node = if skips_spool t.role t node then [] else spool_letters t node

-- The spools that `scanAll` scans.
abbrev pub scan_spools : Role → Watcher → List Candidate
scan_spools dial t =
    each_entry is_directory (λ name. valid_node name && not (str_eq name t.self)) (scan_spool t)
      (t.read_dir (lit "spool" ∷ lit "for" ∷ []))
scan_spools serve t = scan_spool t t.peer

abbrev pub skips_presence : Role → Watcher → Str → Bool
skips_presence dial t node = not (str_eq node t.self)
skips_presence serve t node = false

abbrev pub presence_of : Watcher → Str → Option Str → List Candidate
presence_of t name none = []
presence_of t name (some node) =
    if skips_presence t.role t node then [] else presence_candidate node name ∷ []

unfoldable pub scan_presence : Watcher → List Candidate
unfolding each_entry presence_node
scan_presence t =
    each_entry is_regular (λ _. true) (λ name. presence_of t name (presence_node name))
      (t.read_dir (lit "presence" ∷ []))

-- `eligibleStreamNode` and `eligibleStatusNode`.
abbrev pub eligible_node : Role → Watcher → Str → Bool
eligible_node dial t node = str_eq node t.self
eligible_node serve t node = not (str_eq node t.peer)

abbrev pub if_watched : Watcher → FilePath → List Candidate → List Candidate
if_watched t path candidates = if t.can_watch path then candidates else []

unfoldable pub scan_stream_shard : Watcher → Str → Str → List Candidate
unfolding each_entry valid_message_id
scan_stream_shard t stream node =
    each_entry is_regular valid_message_id (λ name. stream_candidate stream node name ∷ [])
      (t.read_dir (lit "streams" ∷ stream ∷ node ∷ []))

unfoldable pub scan_stream : Watcher → Str → List Candidate
unfolding each_entry scan_stream_shard valid_node
scan_stream t stream =
    each_entry is_directory (λ node. valid_node node && eligible_node t.role t node)
      (λ node. if_watched t (lit "streams" ∷ stream ∷ node ∷ []) (scan_stream_shard t stream node))
      (t.read_dir (lit "streams" ∷ stream ∷ []))

unfoldable pub scan_streams : Watcher → List Candidate
unfolding each_entry scan_stream valid_node
scan_streams t =
    each_entry is_directory valid_node
      (λ stream. if_watched t (lit "streams" ∷ stream ∷ []) (scan_stream t stream))
      (t.read_dir (lit "streams" ∷ []))

unfoldable pub scan_status_session : Watcher → Str → Str → List Candidate
unfolding each_entry valid_generation
scan_status_session t node session =
    each_entry is_regular valid_generation (λ name. status_candidate node session name ∷ [])
      (t.read_dir (lit "minds" ∷ node ∷ session ∷ []))

unfoldable pub scan_status_node : Watcher → Str → List Candidate
unfolding each_entry scan_status_session valid_node
scan_status_node t node =
    each_entry is_directory valid_node
      (λ session.
        if_watched t (lit "minds" ∷ node ∷ session ∷ []) (scan_status_session t node session))
      (t.read_dir (lit "minds" ∷ node ∷ []))

unfoldable pub scan_statuses : Watcher → List Candidate
unfolding each_entry scan_status_node valid_node
scan_statuses t =
    each_entry is_directory (λ node. valid_node node && eligible_node t.role t node)
      (λ node. if_watched t (lit "minds" ∷ node ∷ []) (scan_status_node t node))
      (t.read_dir (lit "minds" ∷ []))

unfoldable pub scan_age_governed : Watcher → List Candidate
unfolding scan_presence scan_streams scan_statuses
scan_age_governed t =
    if t.age_ready then scan_presence t ++ (scan_streams t ++ scan_statuses t) else []

-- `scanAll`; the trigger of `scanOutbox` is left out.
unfoldable pub scan_all : Watcher → List Candidate
unfolding each_entry scan_spool scan_age_governed valid_node
scan_all t = scan_spools t.role t ++ scan_age_governed t
