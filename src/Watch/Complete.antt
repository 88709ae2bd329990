-- ===== src/Watch/Complete.antt =====
-- What link/watch.go finds: each file that a node is to offer, where its directory can be read.
use khala_network.Common.{
  ◌≢◌, ◌⊎◌, inl, inr, Bool-cases, str_eq_iff, ◌≡◌, refl, sym, subst, ap, Str, lit, str_eq,
  str_eq_refl, List, [], ◌∷◌, ◌++◌, some, if◌then◌else◌, Bool, true, false, not, ◌&&◌, arith,
}
use mathlib.Core.List.{Memᴰ}
use mathlib.Core.List.Memᴰ.{head, tail, append_left, append_right}
use khala_network.Names.{
  valid_node, valid_basename, valid_message_id, valid_generation, presence_node,
}
use khala_network.Install.Files.{FilePath}
use khala_network.Install.Destination.{Role, dial, serve}
use khala_network.Relay.Sender.{Candidate}
use khala_network.Watch.{
  EntryKind, directory, regular, DirEntry, Watcher, is_directory, is_regular, each_entry,
  spool_candidate, presence_candidate, stream_candidate, status_candidate, skips_spool, scan_spool,
  scan_spools, skips_presence, presence_of, scan_presence, eligible_node, if_watched,
  scan_stream_shard, scan_stream, scan_streams, scan_status_session, scan_status_node,
  scan_statuses, scan_age_governed, scan_all,
}

-- A directory that can be read lists an entry of a kind.
abbrev pub Lists : Watcher → FilePath → EntryKind → Str → Type 0
Lists t path kind name = Memᴰ (record { name = name; kind = kind }) (t.read_dir path)

-- The nodes that a node speaks for: itself where it dials, all but its peer where it serves.
abbrev pub SpeaksFor : Watcher → Str → Type 0
SpeaksFor t node = ((t.role ≡ dial) × (node ≡ t.self)) ⊎ ((t.role ≡ serve) × (node ≢ t.peer))

-- The nodes whose leases it offers: itself where it dials, all of them where it serves.
abbrev pub LeasesOf : Watcher → Str → Type 0
LeasesOf t node = ((t.role ≡ dial) × (node ≡ t.self)) ⊎ (t.role ≡ serve)

-- A directory below another that is listed, and passes the tests.
record IsScanned (t : Watcher) (path : FilePath) (test : Str → Bool) (name : Str) : Type 0 where
  listed : Lists t path directory name
  passes : test name ≡ true

-- The files that the node is to offer.
pub data IsToOffer (t : Watcher) : Candidate → Type 0 where
  peer_letter :
      (name : Str)
      → t.role ≡ serve
      → Lists t (lit "spool" ∷ lit "for" ∷ t.peer ∷ []) regular name
      → valid_basename name ≡ true
      → IsToOffer t (spool_candidate t t.peer name)
  node_letter :
      (node name : Str)
      → t.role ≡ dial
      → Lists t (lit "spool" ∷ lit "for" ∷ []) directory node
      → valid_node node ≡ true
      → node ≢ t.self
      → Lists t (lit "spool" ∷ lit "for" ∷ node ∷ []) regular name
      → valid_basename name ≡ true
      → IsToOffer t (spool_candidate t node name)
  lease :
      (node name : Str)
      → t.age_ready ≡ true
      → Lists t (lit "presence" ∷ []) regular name
      → presence_node name ≡ some node
      → LeasesOf t node
      → IsToOffer t (presence_candidate node name)
  stream_entry :
      (stream node name : Str)
      → t.age_ready ≡ true
      → Lists t (lit "streams" ∷ []) directory stream
      → valid_node stream ≡ true
      → t.can_watch (lit "streams" ∷ stream ∷ []) ≡ true
      → Lists t (lit "streams" ∷ stream ∷ []) directory node
      → valid_node node ≡ true
      → SpeaksFor t node
      → t.can_watch (lit "streams" ∷ stream ∷ node ∷ []) ≡ true
      → Lists t (lit "streams" ∷ stream ∷ node ∷ []) regular name
      → valid_message_id name ≡ true
      → IsToOffer t (stream_candidate stream node name)
  session_status :
      (node session name : Str)
      → t.age_ready ≡ true
      → Lists t (lit "minds" ∷ []) directory node
      → valid_node node ≡ true
      → SpeaksFor t node
      → t.can_watch (lit "minds" ∷ node ∷ []) ≡ true
      → Lists t (lit "minds" ∷ node ∷ []) directory session
      → valid_node session ≡ true
      → t.can_watch (lit "minds" ∷ node ∷ session ∷ []) ≡ true
      → Lists t (lit "minds" ∷ node ∷ session ∷ []) regular name
      → valid_generation name ≡ true
      → IsToOffer t (status_candidate node session name)

-- A candidate among those of a scan.
pub record Finds (c : Candidate) (cs : List Candidate) : Type 0 where
  pub found : Memᴰ c cs

Finds-if :
    (c : Candidate) (b : Bool) (cs ds : List Candidate)
    → b ≡ true
    → Finds c cs
    → Finds c (if b then cs else ds)
Finds-if c b cs ds e h = subst (λ b. Finds c (if b then cs else ds)) (sym e) h

Finds-unless :
    (c : Candidate) (b : Bool) (cs ds : List Candidate)
    → b ≡ false
    → Finds c ds
    → Finds c (if b then cs else ds)
Finds-unless c b cs ds e h = subst (λ b. Finds c (if b then cs else ds)) (sym e) h

Finds-left : (c : Candidate) (cs ds : List Candidate) → Finds c cs → Finds c (cs ++ ds)
Finds-left c cs ds h = record { found = append_left ds h.found }

Finds-right : (c : Candidate) (cs ds : List Candidate) → Finds c ds → Finds c (cs ++ ds)
Finds-right c cs ds h = record { found = append_right cs h.found }

Finds-only : (c : Candidate) → Finds c (c ∷ [])
Finds-only c = record { found = head refl }

each_entry-Finds :
    (kind : EntryKind → Bool) (test : Str → Bool) (scan : Str → List Candidate) (c : Candidate)
    (e : DirEntry) (es : List DirEntry)
    → Memᴰ e es
    → (kind e.kind && test e.name) ≡ true
    → Finds c (scan e.name)
    → Finds c (each_entry kind test scan es)
unfolding each_entry
each_entry-Finds kind test scan c e [] m f h = elim m [ ]
each_entry-Finds kind test scan c e (d ∷ es) (head p) f h =
    let f' = subst (λ d. (kind d.kind && test d.name) ≡ true) p f in
    let h' = subst (λ d. Finds c (scan d.name)) p h in
    Finds-if c (kind d.kind && test d.name) (scan d.name ++ each_entry kind test scan es) _ f'
      (Finds-left c (scan d.name) (each_entry kind test scan es) h')
each_entry-Finds kind test scan c e (d ∷ es) (tail m) f h =
    either (kind d.kind && test d.name) (each_entry-Finds kind test scan c e es m f h)
  where
    either :
        (b : Bool)
        → Finds c (each_entry kind test scan es)
        → Finds c (
            if b then scan d.name ++ each_entry kind test scan es else each_entry kind test scan es)
    either true rest = Finds-right c (scan d.name) (each_entry kind test scan es) rest
    either false rest = rest

-- The files of a directory, and its directories.
module _ (t : Watcher) (path : FilePath) (test : Str → Bool) (scan : Str → List Candidate)
    (c : Candidate) (name : Str) where
  file-Finds :
      Lists t path regular name
      → test name ≡ true
      → Finds c (scan name)
      → Finds c (each_entry is_regular test scan (t.read_dir path))
  file-Finds l e h =
      each_entry-Finds is_regular test scan c (record { name = name; kind = regular })
        (t.read_dir path) l e h

  directory-Finds :
      IsScanned t path test name
      → Finds c (scan name)
      → Finds c (each_entry is_directory test scan (t.read_dir path))
  directory-Finds s h =
      each_entry-Finds is_directory test scan c (record { name = name; kind = directory })
        (t.read_dir path) s.listed s.passes h

-- The scans below one directory.
module _ (t : Watcher) where
  scan_spool-Finds :
      (node name : Str)
      → skips_spool t.role t node ≡ false
      → Lists t (lit "spool" ∷ lit "for" ∷ node ∷ []) regular name
      → valid_basename name ≡ true
      → Finds (spool_candidate t node name) (scan_spool t node)
  unfolding scan_spool
  scan_spool-Finds node name s l b = Finds-unless _ (skips_spool t.role t node) [] _ s (
      file-Finds t (lit "spool" ∷ lit "for" ∷ node ∷ []) valid_basename
        (λ name. spool_candidate t node name ∷ []) _ name l b (Finds-only _))

  scan_presence-Finds :
      (node name : Str)
      → Lists t (lit "presence" ∷ []) regular name
      → presence_node name ≡ some node
      → skips_presence t.role t node ≡ false
      → Finds (presence_candidate node name) (scan_presence t)
  unfolding scan_presence
  scan_presence-Finds node name l p s =
      file-Finds t (lit "presence" ∷ []) (λ _. true)
        (λ name. presence_of t name (presence_node name)) (presence_candidate node name) name l refl
        (subst (λ o. Finds (presence_candidate node name) (presence_of t name o)) (sym p)
          (Finds-unless _ (skips_presence t.role t node) [] _ s (Finds-only _)))

  watched-Finds :
      (c : Candidate) (path : FilePath) (cs : List Candidate)
      → t.can_watch path ≡ true
      → Finds c cs
      → Finds c (if_watched t path cs)
  watched-Finds c path cs e h = Finds-if c (t.can_watch path) cs [] e h

  scan_streams-Finds :
      (stream node name : Str)
      → IsScanned t (lit "streams" ∷ []) valid_node stream
      → t.can_watch (lit "streams" ∷ stream ∷ []) ≡ true
      → IsScanned t
          (lit "streams" ∷ stream ∷ [])
          (λ node. valid_node node && eligible_node t.role t node)
          node
      → t.can_watch (lit "streams" ∷ stream ∷ node ∷ []) ≡ true
      → Lists t (lit "streams" ∷ stream ∷ node ∷ []) regular name
      → valid_message_id name ≡ true
      → Finds (stream_candidate stream node name) (scan_streams t)
  unfolding scan_streams scan_stream scan_stream_shard
  scan_streams-Finds stream node name s w n v l m =
      let c = stream_candidate stream node name in
      let shard =
        file-Finds t (lit "streams" ∷ stream ∷ node ∷ []) valid_message_id
          (λ name. stream_candidate stream node name ∷ []) c name l m (Finds-only c) in
      let below =
        directory-Finds t (lit "streams" ∷ stream ∷ []) _
          (λ node.
            if_watched t (lit "streams" ∷ stream ∷ node ∷ []) (scan_stream_shard t stream node))
          c node n
          (watched-Finds c (lit "streams" ∷ stream ∷ node ∷ []) (scan_stream_shard t stream node) v
            shard) in
      directory-Finds t (lit "streams" ∷ []) valid_node
        (λ stream. if_watched t (lit "streams" ∷ stream ∷ []) (scan_stream t stream)) c stream s
        (watched-Finds c (lit "streams" ∷ stream ∷ []) (scan_stream t stream) w below)

  scan_statuses-Finds :
      (node session name : Str)
      → IsScanned t (lit "minds" ∷ []) (λ node. valid_node node && eligible_node t.role t node) node
      → t.can_watch (lit "minds" ∷ node ∷ []) ≡ true
      → IsScanned t (lit "minds" ∷ node ∷ []) valid_node session
      → t.can_watch (lit "minds" ∷ node ∷ session ∷ []) ≡ true
      → Lists t (lit "minds" ∷ node ∷ session ∷ []) regular name
      → valid_generation name ≡ true
      → Finds (status_candidate node session name) (scan_statuses t)
  unfolding scan_statuses scan_status_node scan_status_session
  scan_statuses-Finds node session name n w s v l g =
      let c = status_candidate node session name in
      let files =
        file-Finds t (lit "minds" ∷ node ∷ session ∷ []) valid_generation
          (λ name. status_candidate node session name ∷ []) c name l g (Finds-only c) in
      let below =
        directory-Finds t (lit "minds" ∷ node ∷ []) valid_node
          (λ session.
            if_watched t (lit "minds" ∷ node ∷ session ∷ []) (scan_status_session t node session))
          c session s
          (watched-Finds c (lit "minds" ∷ node ∷ session ∷ []) (scan_status_session t node session)
            v files) in
      directory-Finds t (lit "minds" ∷ []) _
        (λ node. if_watched t (lit "minds" ∷ node ∷ []) (scan_status_node t node)) c node n
        (watched-Finds c (lit "minds" ∷ node ∷ []) (scan_status_node t node) w below)

  age_governed-Finds :
      (c : Candidate)
      → t.age_ready ≡ true
      → Finds c (scan_presence t ++ (scan_streams t ++ scan_statuses t))
      → Finds c (scan_all t)
  unfolding scan_all scan_age_governed
  age_governed-Finds c r h =
      Finds-right c (scan_spools t.role t) _ (Finds-if c t.age_ready _ [] r h)

  spools-Finds : (c : Candidate) → Finds c (scan_spools t.role t) → Finds c (scan_all t)
  unfolding scan_all
  spools-Finds c h = Finds-left c (scan_spools t.role t) (scan_age_governed t) h

unequal : (a b : Str) → a ≢ b → str_eq a b ≡ false
unequal a b n = elim (Bool-cases (str_eq a b)) [
  | inl e ↦ absurd (n ((str_eq_iff a b).0 e))
  | inr e ↦ e
]

eligible_node-SpeaksFor :
    (t : Watcher) (node : Str) (r : Role)
    → ((r ≡ dial) × (node ≡ t.self)) ⊎ ((r ≡ serve) × (node ≢ t.peer))
    → eligible_node r t node ≡ true
eligible_node-SpeaksFor t node dial (inl (e, h)) = (str_eq_iff node t.self).1 h
eligible_node-SpeaksFor t node dial (inr (e, h)) = cc
eligible_node-SpeaksFor t node serve (inl (e, h)) = cc
eligible_node-SpeaksFor t node serve (inr (e, h)) = ap not (unequal node t.peer h)

skips_presence-LeasesOf :
    (t : Watcher) (node : Str) (r : Role)
    → ((r ≡ dial) × (node ≡ t.self)) ⊎ (r ≡ serve)
    → skips_presence r t node ≡ false
skips_presence-LeasesOf t node dial (inl (e, h)) = ap not ((str_eq_iff node t.self).1 h)
skips_presence-LeasesOf t node dial (inr e) = cc
skips_presence-LeasesOf t node serve h = refl

-- A node's directory that the node speaks for is scanned.
IsScanned-node :
    (t : Watcher) (path : FilePath) (node : Str)
    → Lists t path directory node
    → valid_node node ≡ true
    → SpeaksFor t node
    → IsScanned t path (λ node. valid_node node && eligible_node t.role t node) node
IsScanned-node t path node l v h =
    let e = eligible_node-SpeaksFor t node t.role h in
    record { listed = l; passes = ground (arith, v, e) }

skips_spool-self :
    (t : Watcher) (node : Str) (r : Role) → r ≡ dial → node ≢ t.self → skips_spool r t node ≡ false
skips_spool-self t node dial e h = unequal node t.self h
skips_spool-self t node serve e h = cc

skips_spool-peer : (t : Watcher) (r : Role) → r ≡ serve → skips_spool r t t.peer ≡ false
skips_spool-peer t dial e = cc
skips_spool-peer t serve e = ap not (str_eq_refl t.peer)

-- A scan of the whole tree finds each file that the node is to offer: the letters for its peer where it
-- serves and those for every other node where it dials, the leases, stream entries and session statuses
-- of the nodes that it speaks for, if the directories that hold them can be read and watched and the
-- trees that are governed by age are ready.
pub scan_all-Finds : (t : Watcher) (c : Candidate) → IsToOffer t c → Finds c (scan_all t)
scan_all-Finds t _ (peer_letter name r l b) = spools-Finds t _ (
    subst (λ r. Finds (spool_candidate t t.peer name) (scan_spools r t)) (sym r)
      (scan_spool-Finds t t.peer name (skips_spool-peer t t.role r) l b))
scan_all-Finds t _ (node_letter node name r d v n l b) = spools-Finds t _ (
    subst (λ r. Finds (spool_candidate t node name) (scan_spools r t)) (sym r)
      (directory-Finds t (lit "spool" ∷ lit "for" ∷ []) _ (scan_spool t)
        (spool_candidate t node name) node
        (record { listed = d; passes = ground (arith, v, unequal node t.self n) })
        (scan_spool-Finds t node name (skips_spool-self t node t.role r n) l b)))
scan_all-Finds t _ (lease node name a l p s) = age_governed-Finds t _ a (
    Finds-left _ (scan_presence t) _
      (scan_presence-Finds t node name l p (skips_presence-LeasesOf t node t.role s)))
scan_all-Finds t _ (stream_entry stream node name a s v w n u h x l m) = age_governed-Finds t _ a (
    Finds-right _ (scan_presence t) _ (
      Finds-left _ (scan_streams t) _ (
        scan_streams-Finds t stream node name (record { listed = s; passes = v }) w
          (IsScanned-node t (lit "streams" ∷ stream ∷ []) node n u h) x l m)))
scan_all-Finds t _ (session_status node session name a n u h w s v x l g) =
    age_governed-Finds t _ a (
      Finds-right _ (scan_presence t) _ (
        Finds-right _ (scan_streams t) _ (
          scan_statuses-Finds t node session name (IsScanned-node t (lit "minds" ∷ []) node n u h) w
            (record { listed = s; passes = v }) x l g)))
