-- ===== src/Watch/Offered.antt =====
-- What link/watch.go finds to offer is what link/install.go accepts at the other end.
use khala_network.Common.{
  ◌≡◌, refl, Str, lit, str_eq, str_eq_refl, List, [], ◌∷◌, ◌++◌, Option, none, some, ok,
  if◌then◌else◌, Bool, true, false, not, ◌&&◌, arith, All, All-append, both_true,
}
use khala_network.Names.{
  valid_node, valid_basename, valid_message_id, valid_generation, presence_node,
  presence_node-valid, valid_message_id-valid_basename, valid_generation-valid_basename,
}
use khala_network.Install.Destination.{Role, dial, serve, Installer, destination}
use khala_network.Relay.Sender.{Candidate}
use khala_network.Watch.{
  EntryKind, DirEntry, Watcher, is_directory, is_regular, each_entry, named, spool_candidate,
  presence_candidate, stream_candidate, status_candidate, skips_spool, scan_spool, scan_spools,
  skips_presence, presence_of, scan_presence, eligible_node, if_watched, scan_stream_shard,
  scan_stream, scan_streams, scan_status_session, scan_status_node, scan_statuses,
  scan_age_governed, scan_all,
}

-- The other end's installer: a node is its own `peer` where it dials, and its peer's name is that of the
-- watching node where it serves.
abbrev pub other_end : Role → Watcher → Installer
other_end dial t = record { role = serve; peer = t.self }
other_end serve t = record { role = dial; peer = t.peer }

pub record IsAccepted (t : Watcher) (c : Candidate) : Type 0 where
  pub accepted : destination (other_end t.role t) c.named ≡ ok c.path

destination-spool :
    (r : Role) (t : Watcher) (node name : Str)
    → valid_node node ≡ true
    → valid_basename name ≡ true
    → skips_spool r t node ≡ false
    → destination (other_end r t) (named (lit "spool") [] node [] name)
      ≡ ok (lit "spool" ∷ lit "for" ∷ node ∷ name ∷ [])
unfolding destination
destination-spool dial t node name n b s = ground (arith, n, b, s)
destination-spool serve t node name n b s = ground (arith, n, b, s)

destination-presence :
    (r : Role) (t : Watcher) (node name : Str)
    → presence_node name ≡ some node
    → skips_presence r t node ≡ false
    → destination (other_end r t) (named (lit "presence") [] node [] name)
      ≡ ok (lit "presence" ∷ name ∷ [])
unfolding destination
destination-presence dial t node name p s =
    ground (arith, presence_node-valid name p, p, s, str_eq_refl node)
destination-presence serve t node name p s =
    ground (arith, presence_node-valid name p, p, s, str_eq_refl node)

destination-stream :
    (r : Role) (t : Watcher) (stream node name : Str)
    → valid_node stream ≡ true
    → valid_node node ≡ true
    → eligible_node r t node ≡ true
    → valid_message_id name ≡ true
    → destination (other_end r t) (named (lit "stream") stream node [] name)
      ≡ ok (lit "streams" ∷ stream ∷ node ∷ name ∷ [])
unfolding destination
destination-stream dial t stream node name s n e m =
    ground (arith, valid_message_id-valid_basename name m, s, n, e, m)
destination-stream serve t stream node name s n e m =
    ground (arith, valid_message_id-valid_basename name m, s, n, e, m)

destination-status :
    (r : Role) (t : Watcher) (node session name : Str)
    → valid_node node ≡ true
    → eligible_node r t node ≡ true
    → valid_node session ≡ true
    → valid_generation name ≡ true
    → destination (other_end r t) (named (lit "mind") [] node session name)
      ≡ ok (lit "minds" ∷ node ∷ session ∷ name ∷ [])
unfolding destination
destination-status dial t node session name n e s g =
    ground (arith, valid_generation-valid_basename name g, s, n, e, g)
destination-status serve t node session name n e s g =
    ground (arith, valid_generation-valid_basename name g, s, n, e, g)

-- Candidates that are all accepted.
record Accepted (t : Watcher) (cs : List Candidate) : Type 0 where
  each : All (IsAccepted t) cs

append-Accepted :
    (t : Watcher) (cs ds : List Candidate) → Accepted t cs → Accepted t ds → Accepted t (cs ++ ds)
append-Accepted t cs ds h k = record { each = All-append (IsAccepted t) cs ds h.each k.each }

empty-Accepted : (t : Watcher) → Accepted t []
empty-Accepted t = record { each = tt }

one-Accepted : (t : Watcher) (c : Candidate) → IsAccepted t c → Accepted t (c ∷ [])
one-Accepted t c h = record { each = (h, tt) }

Accepted-if :
    (t : Watcher) (b : Bool) (cs ds : List Candidate)
    → (b ≡ true → Accepted t cs)
    → (b ≡ false → Accepted t ds)
    → Accepted t (if b then cs else ds)
Accepted-if t true cs ds h k = h refl
Accepted-if t false cs ds h k = k refl

module _ (t : Watcher) where
  each_entry-Accepted :
      (kind : EntryKind → Bool) (test : Str → Bool) (scan : Str → List Candidate)
      (es : List DirEntry)
      → ((name : Str) → test name ≡ true → Accepted t (scan name))
      → Accepted t (each_entry kind test scan es)
  unfolding each_entry
  each_entry-Accepted kind test scan [] h = empty-Accepted t
  each_entry-Accepted kind test scan (e ∷ es) h =
      let rest = each_entry-Accepted kind test scan es h in
      Accepted-if t (kind e.kind && test e.name) (scan e.name ++ each_entry kind test scan es) _
        (λ f. append-Accepted t (scan e.name) _ (h e.name (both_true _ _ f).1) rest) (λ _. rest)

  watched-Accepted :
      (path : List Str) (cs : List Candidate) → Accepted t cs → Accepted t (if_watched t path cs)
  watched-Accepted path cs h =
      Accepted-if t (t.can_watch path) cs [] (λ _. h) (λ _. empty-Accepted t)

  scan_spool-Accepted : (node : Str) → valid_node node ≡ true → Accepted t (scan_spool t node)
  unfolding scan_spool
  scan_spool-Accepted node n =
      Accepted-if t (skips_spool t.role t node) [] _ (λ _. empty-Accepted t)
        (λ s.
          each_entry-Accepted is_regular valid_basename (λ name. spool_candidate t node name ∷ [])
            (t.read_dir (lit "spool" ∷ lit "for" ∷ node ∷ []))
            (λ name b.
              one-Accepted t (spool_candidate t node name)
                (record { accepted = destination-spool t.role t node name n b s })))

  presence_of-Accepted :
      (name : Str) (o : Option Str) → presence_node name ≡ o → Accepted t (presence_of t name o)
  presence_of-Accepted name none e = empty-Accepted t
  presence_of-Accepted name (some node) e =
      Accepted-if t (skips_presence t.role t node) [] _ (λ _. empty-Accepted t)
        (λ s.
          one-Accepted t (presence_candidate node name)
            (record { accepted = destination-presence t.role t node name e s }))

  scan_presence-Accepted : Accepted t (scan_presence t)
  unfolding scan_presence
  scan_presence-Accepted =
      each_entry-Accepted is_regular (λ _. true) (λ name. presence_of t name (presence_node name))
        (t.read_dir (lit "presence" ∷ []))
        (λ name _. presence_of-Accepted name (presence_node name) refl)

  scan_stream_shard-Accepted :
      (stream node : Str)
      → valid_node stream ≡ true
      → valid_node node ≡ true
      → eligible_node t.role t node ≡ true
      → Accepted t (scan_stream_shard t stream node)
  unfolding scan_stream_shard
  scan_stream_shard-Accepted stream node s n e =
      each_entry-Accepted is_regular valid_message_id
        (λ name. stream_candidate stream node name ∷ [])
        (t.read_dir (lit "streams" ∷ stream ∷ node ∷ []))
        (λ name m.
          one-Accepted t (stream_candidate stream node name)
            (record { accepted = destination-stream t.role t stream node name s n e m }))

  scan_stream-Accepted :
      (stream : Str) → valid_node stream ≡ true → Accepted t (scan_stream t stream)
  unfolding scan_stream
  scan_stream-Accepted stream s =
      each_entry-Accepted is_directory (λ node. valid_node node && eligible_node t.role t node)
        (λ node.
          if_watched t (lit "streams" ∷ stream ∷ node ∷ []) (scan_stream_shard t stream node))
        (t.read_dir (lit "streams" ∷ stream ∷ []))
        (λ node h.
          let (n, e) = both_true (valid_node node) (eligible_node t.role t node) h in
          watched-Accepted (lit "streams" ∷ stream ∷ node ∷ []) (scan_stream_shard t stream node)
            (scan_stream_shard-Accepted stream node s n e))

  scan_streams-Accepted : Accepted t (scan_streams t)
  unfolding scan_streams
  scan_streams-Accepted =
      each_entry-Accepted is_directory valid_node
        (λ stream. if_watched t (lit "streams" ∷ stream ∷ []) (scan_stream t stream))
        (t.read_dir (lit "streams" ∷ []))
        (λ stream s.
          watched-Accepted (lit "streams" ∷ stream ∷ []) (scan_stream t stream)
            (scan_stream-Accepted stream s))

  scan_status_session-Accepted :
      (node session : Str)
      → valid_node node ≡ true
      → eligible_node t.role t node ≡ true
      → valid_node session ≡ true
      → Accepted t (scan_status_session t node session)
  unfolding scan_status_session
  scan_status_session-Accepted node session n e s =
      each_entry-Accepted is_regular valid_generation
        (λ name. status_candidate node session name ∷ [])
        (t.read_dir (lit "minds" ∷ node ∷ session ∷ []))
        (λ name g.
          one-Accepted t (status_candidate node session name)
            (record { accepted = destination-status t.role t node session name n e s g }))

  scan_status_node-Accepted :
      (node : Str)
      → valid_node node ≡ true
      → eligible_node t.role t node ≡ true
      → Accepted t (scan_status_node t node)
  unfolding scan_status_node
  scan_status_node-Accepted node n e =
      each_entry-Accepted is_directory valid_node
        (λ session.
          if_watched t (lit "minds" ∷ node ∷ session ∷ []) (scan_status_session t node session))
        (t.read_dir (lit "minds" ∷ node ∷ []))
        (λ session s.
          watched-Accepted (lit "minds" ∷ node ∷ session ∷ []) (scan_status_session t node session)
            (scan_status_session-Accepted node session n e s))

  scan_statuses-Accepted : Accepted t (scan_statuses t)
  unfolding scan_statuses
  scan_statuses-Accepted =
      each_entry-Accepted is_directory (λ node. valid_node node && eligible_node t.role t node)
        (λ node. if_watched t (lit "minds" ∷ node ∷ []) (scan_status_node t node))
        (t.read_dir (lit "minds" ∷ []))
        (λ node h.
          let (n, e) = both_true (valid_node node) (eligible_node t.role t node) h in
          watched-Accepted (lit "minds" ∷ node ∷ []) (scan_status_node t node)
            (scan_status_node-Accepted node n e))

  scan_spools-Accepted : (r : Role) → valid_node t.peer ≡ true → Accepted t (scan_spools r t)
  scan_spools-Accepted dial p =
      each_entry-Accepted is_directory (λ name. valid_node name && not (str_eq name t.self))
        (scan_spool t) (t.read_dir (lit "spool" ∷ lit "for" ∷ []))
        (λ node h.
          scan_spool-Accepted node (both_true (valid_node node) (not (str_eq node t.self)) h).0)
  scan_spools-Accepted serve p = scan_spool-Accepted t.peer p

  age_governed-Accepted : Accepted t (scan_age_governed t)
  unfolding scan_age_governed
  age_governed-Accepted =
      Accepted-if t t.age_ready _ []
        (λ _.
          append-Accepted t (scan_presence t) _ scan_presence-Accepted
            (append-Accepted t (scan_streams t) _ scan_streams-Accepted scan_statuses-Accepted))
        (λ _. empty-Accepted t)

-- Whatever the directories hold, each file that a scan of the whole tree finds to offer is one that the
-- installer of the other end accepts, and its destination there is the path that it has here. The peer's
-- name is valid.
pub scan_all-Accepted : (t : Watcher) → valid_node t.peer ≡ true → All (IsAccepted t) (scan_all t)
unfolding scan_all
scan_all-Accepted t p =
    (append-Accepted t (scan_spools t.role t) _ (scan_spools-Accepted t t.role p)
      (age_governed-Accepted t)).each
