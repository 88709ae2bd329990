-- ===== src/Examples/Scanning.antt =====
-- A serving node scans its tree: a letter for the peer, a presence lease, an entry of a stream.
use khala_network.Common.{
  inr, arith, ◌≡◌, refl, Str, lit, str_eq, List, [], ◌∷◌, All, if◌then◌else◌, Bool, true, false,
  ◌&&◌,
}
use khala_network.Text.Regex.{matches}
use khala_network.Text.Strings.{cut_last, cut_suffix, contains, cut_prefix}
use khala_network.Names.{
  valid_node, valid_basename, valid_message_id, valid_generation, presence_node,
}
use khala_network.Install.Files.{FilePath}
use khala_network.Install.Destination.{serve}
use khala_network.Relay.Sender.{Candidate}
use khala_network.Watch.{
  EntryKind, directory, regular, DirEntry, Watcher, each_entry, scan_spool, scan_presence,
  scan_stream_shard, scan_stream, scan_streams, scan_status_session, scan_status_node,
  scan_statuses, scan_age_governed, scan_all, stream_candidate,
}
use mathlib.Core.List.Memᴰ.{head}
use khala_network.Watch.Complete.{IsToOffer, stream_entry, Finds, scan_all-Finds}
use khala_network.Watch.Offered.{IsAccepted, scan_all-Accepted}

abbrev same_path : FilePath → FilePath → Bool
same_path [] [] = true
same_path [] (_ ∷ _) = false
same_path (_ ∷ _) [] = false
same_path (a ∷ p) (b ∷ q) = str_eq a b && same_path p q

abbrev entries_at : FilePath → List (FilePath × List DirEntry) → List DirEntry
entries_at path [] = []
entries_at path ((p, es) ∷ tree) = if same_path path p then es else entries_at path tree

abbrev entry : EntryKind → Str → List DirEntry
entry kind name = record { name = name; kind = kind } ∷ []

abbrev letter : Str
letter = lit "1700000000.1.2.tassadar@adun"

abbrev tree : List (FilePath × List DirEntry)
tree =
    (lit "spool" ∷ lit "for" ∷ lit "probe" ∷ [], entry regular letter)
    ∷ (lit "presence" ∷ [], entry regular (lit "tassadar@adun"))
    ∷ (lit "streams" ∷ [], entry directory (lit "news"))
    ∷ (lit "streams" ∷ lit "news" ∷ [], entry directory (lit "adun"))
    ∷ (lit "streams" ∷ lit "news" ∷ lit "adun" ∷ [], entry regular letter)
    ∷ []

abbrev watcher : Watcher
watcher = record {
  role = serve;
  self = lit "adun";
  peer = lit "probe";
  read_dir = λ path. entries_at path tree;
  can_watch = λ _. true;
  age_ready = true;
}

abbrev paths : List Candidate → List FilePath
paths [] = []
paths (c ∷ cs) = c.path ∷ paths cs

found : paths (scan_all watcher) ≡ (
    (lit "spool" ∷ lit "for" ∷ lit "probe" ∷ letter ∷ [])
    ∷ (lit "presence" ∷ lit "tassadar@adun" ∷ [])
    ∷ (lit "streams" ∷ lit "news" ∷ lit "adun" ∷ letter ∷ [])
    ∷ [])
unfolding scan_all scan_spool scan_age_governed scan_presence scan_streams scan_stream
    scan_stream_shard scan_statuses scan_status_node scan_status_session each_entry valid_node
    valid_basename valid_message_id valid_generation presence_node matches cut_last cut_suffix
    contains cut_prefix
found = refl

probe_valid : valid_node (lit "probe") ≡ true
unfolding valid_node matches
probe_valid = refl

scan_all-Accepted_example : All (IsAccepted watcher) (scan_all watcher)
scan_all-Accepted_example = scan_all-Accepted watcher probe_valid

-- The stream entry is found.
entry_to_offer : IsToOffer watcher (stream_candidate (lit "news") (lit "adun") letter)
unfolding valid_node valid_message_id matches
entry_to_offer =
    stream_entry (lit "news") (lit "adun") letter refl (head refl) refl refl (head refl) refl
      (inr (refl, λ e. absurd (ground arith))) refl (head refl) refl

scan_all-Finds_example :
    Finds (stream_candidate (lit "news") (lit "adun") letter) (scan_all watcher)
scan_all-Finds_example =
    scan_all-Finds watcher (stream_candidate (lit "news") (lit "adun") letter) entry_to_offer
