-- ===== src/Install/Presence.antt =====
-- link/install.go: the presence branch of `receive`, and `quarantineListener`. A presence file is a
-- lease that its owner renews, so it replaces what is there, unless that is newer.
use khala_network.Common.{
  ℕ, zero, suc, ◌+◌, Str, lit, str_eq, List, [], ◌∷◌, length, Option, none, some, if◌then◌else◌,
  Bool, true, false, ◌&&◌, ◌||◌, ltb, ◌==◌,
}
use khala_network.Text.Strings.{has_suffix, cut_prefix, cut_suffix, or_else, str_lt}
use khala_network.Text.Numbers.{decimal}
use khala_network.Wire.Digest.{hex_encode}
use khala_network.Install.Files.{FilePath, Fs, put, rename}
use khala_network.Install.Epochs.{watchdog_epoch}
use khala_network.Install.Quarantine.{Io, dot_join}

pub data InstallResult : Type 0 where
  installed already_stored quarantined expired_skipped : InstallResult

-- What `receive` returns, but for the path, which is only logged: the result, whether there is an
-- error, and the files.
pub record Received : Type 0 where
  pub result : InstallResult
  pub failed : Bool
  pub fs : Fs

abbrev pub received : InstallResult → Bool → Fs → Received
received r e fs = record { result = r; failed = e; fs = fs }

abbrev pub listener_reader_max_bytes : ℕ
listener_reader_max_bytes = 131072

-- At most `n` bytes are read.
unfoldable pub read_limited : ℕ → Str → Str
read_limited zero s = []
read_limited (suc n) [] = []
read_limited (suc n) (c ∷ s) = c ∷ read_limited n s

-- By modification time, then by name.
abbrev older : Str × ℕ → Str × ℕ → Bool
older (a, s) (b, t) = if s == t then str_lt a b else ltb s t

insert_aged : Str × ℕ → List (Str × ℕ) → List (Str × ℕ)
insert_aged x [] = x ∷ []
insert_aged x (y ∷ ys) = let rest = insert_aged x ys in if older y x then y ∷ rest else x ∷ y ∷ ys

sort_aged : List (Str × ℕ) → List (Str × ℕ)
sort_aged [] = []
sort_aged (x ∷ xs) = insert_aged x (sort_aged xs)

abbrev ear : Str → FilePath
ear name = lit "quarantine" ∷ lit "ears" ∷ name ∷ []

-- Of the sorted files all but the last eight are removed.
prune : List (Str × ℕ) → Fs → Fs
prune [] fs = fs
prune (x ∷ xs) fs =
    let rest = prune xs (put (ear x.0) none fs) in if ltb 8 (length (x ∷ xs)) then rest else fs

unfoldable pub quarantine_listener : Io → FilePath → Str → ℕ → Str → Fs → Received
unfolding prune sort_aged insert_aged
quarantine_listener io tmp node generation digest fs =
    let dest =
      ear (dot_join (node ∷ decimal generation ∷ hex_encode (read_limited 4 digest) ∷ [])) in
    if io.quarantine_dir_fails || io.quarantine_rename_fails
    then received quarantined true fs
    else if io.quarantine_sync_fails
    then received quarantined true (rename tmp dest fs)
    else if io.prune_fails
    then received quarantined true (rename tmp dest fs)
    else received installed false (prune (sort_aged io.ears) (rename tmp dest fs))

abbrev read_epoch : Bool → Option Str → Option ℕ
read_epoch fails none = none
read_epoch fails (some c) = if fails then none else watchdog_epoch c

abbrev stale : Option ℕ → Option ℕ → Bool
stale (some incoming) (some current) = ltb incoming current
stale (some incoming) none = false
stale none r = false

-- A `.watcher` declaration that is older than the one in place.
unfoldable pub is_stale_watcher : Io → FilePath → Str → Str → Fs → Bool
is_stale_watcher io dest basename bytes fs =
    has_suffix (lit ".watcher") basename
    && stale (watchdog_epoch bytes) (read_epoch io.read_fails (fs dest))

unfoldable pub replace_presence : Io → FilePath → FilePath → Fs → Received
replace_presence io tmp dest fs =
    if io.rename_fails
    then received quarantined true fs
    else if io.sync_dir_fails
    then received quarantined true (rename tmp dest fs)
    else received installed false (rename tmp dest fs)

-- The parser of listener snapshots, which gives the snapshot's generation, is an argument: of the
-- node that the file's name states and of the bytes.
abbrev pub SnapshotGeneration : Type 0
SnapshotGeneration = Str → Str → Option ℕ

-- `listenerSnapshotNode`, whose second result is ignored here. Without the prefix or the suffix it
-- returns the empty text.
unfoldable pub snapshot_node : Str → Str
snapshot_node base = elim (cut_prefix (lit "conduit@") base) [
  | none ↦ []
  | some rest ↦
      if has_suffix (lit ".ear") base then or_else (cut_suffix (lit ".ear") rest) rest else []
]

abbrev read_generation : SnapshotGeneration → Bool → Str → Option Str → Option ℕ
read_generation parse fails node none = none
read_generation parse fails node (some c) =
    if fails then none else parse node (read_limited (listener_reader_max_bytes + 1) c)

abbrev content_is : Str → Option Str → Bool
content_is bytes none = false
content_is bytes (some c) = str_eq bytes (read_limited (listener_reader_max_bytes + 1) c)

-- The `switch` on the two generations.
install_snapshot : Io → FilePath → FilePath → Str → Str → Str → Fs → Option ℕ → Option ℕ → Received
install_snapshot io tmp dest node bytes digest fs none current =
    received already_stored false (put tmp none fs)
install_snapshot io tmp dest node bytes digest fs (some incoming) none =
    replace_presence io tmp dest fs
install_snapshot io tmp dest node bytes digest fs (some incoming) (some current) =
    if ltb incoming current
    then received already_stored false (put tmp none fs)
    else if incoming == current && content_is bytes (fs dest)
    then received already_stored false (put tmp none fs)
    else if incoming == current
    then quarantine_listener io tmp node incoming digest fs
    else replace_presence io tmp dest fs

unfoldable pub install_presence :
    SnapshotGeneration → Io → FilePath → FilePath → Str → Str → Str → Fs → Received
unfolding install_snapshot
install_presence parse io tmp dest basename bytes digest fs =
    let node = snapshot_node basename in
    if is_stale_watcher io dest basename bytes fs
    then received installed false (put tmp none fs)
    else if has_suffix (lit ".ear") basename
    then install_snapshot io tmp dest node bytes digest fs (parse node bytes)
        (read_generation parse io.read_fails node (fs dest))
    else replace_presence io tmp dest fs
