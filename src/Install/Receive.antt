-- ===== src/Install/Receive.antt =====
-- link/install.go, `receive`: the bytes of one object, from DATA to the mailbox.
use khala_network.Common.{
  ℕ, Str, lit, str_eq, [], ◌∷◌, length, Option, none, some, if◌then◌else◌, Bool, true, false, ◌||◌,
  not, ◌==◌, ok, err,
}
use khala_network.Wire.Offers.{Offer}
use khala_network.Install.Files.{FilePath, Fs, put, rename}
use khala_network.Install.Destination.{Installer, destination}
use khala_network.Install.Epochs.{UnixTime, is_future, offer_expired}
use khala_network.Install.Quarantine.{
  Io, committed, Placed, renamed, linked, exists, failed, place, same_digest, quarantine,
  quarantine_future, dot_join,
}
use khala_network.Install.Presence.{
  installed, already_stored, quarantined, expired_skipped, Received, received, SnapshotGeneration,
  install_presence,
}

unfoldable pub staging : Io → Str → FilePath
staging io id = lit "tmp" ∷ dot_join (lit "link" ∷ id ∷ io.pid ∷ []) ∷ []

abbrev pub stale_name : Io → Str → FilePath
stale_name io id =
    lit "tmp" ∷ dot_join (lit "link" ∷ id ∷ io.pid ∷ lit "stale" ∷ io.nanos ∷ []) ∷ []

-- What is written to the staging file: whether all of it is durable, and the files.
unfoldable pub write_staging : Io → FilePath → Str → Fs → Bool × Fs
write_staging io tmp bytes fs =
    if io.create_fails
    then (false, fs)
    else if io.write_fails
    then (false, put tmp (some io.partial) fs)
    else if io.sync_fails || io.close_fails
    then (false, put tmp (some bytes) fs)
    else (true, put tmp (some bytes) fs)

-- A staging file that is left over is moved aside first.
unfoldable pub stage : Io → Str → Str → Fs → Bool × Fs
stage io id bytes fs = if io.mkdir_tmp_fails then (false, fs) else elim (fs (staging io id)) [
  | none ↦ write_staging io (staging io id) bytes fs
  | some c ↦
      if io.stale_rename_fails
      then (false, fs)
      else write_staging io (staging io id) bytes (rename (staging io id) (stale_name io id) fs)
]

-- The object could not be placed because its path is taken.
abbrev pub on_conflict : Io → FilePath → Offer → Fs → Option Bool → Received
on_conflict io tmp o fs (some true) =
    if io.compact_fails
    then received quarantined true fs
    else received already_stored false (rename tmp committed fs)
on_conflict io tmp o fs (some false) =
    received quarantined true (quarantine io tmp o.object o.id fs).1
on_conflict io tmp o fs none = received quarantined true (quarantine io tmp o.object o.id fs).1

abbrev pub on_placed : (Str → Str) → Io → FilePath → FilePath → Offer → Fs → Placed → Received
on_placed sha256 io tmp dest o fs (renamed fs') =
    if io.sync_dir_fails then received quarantined true fs' else received installed false fs'
on_placed sha256 io tmp dest o fs (linked fs') =
    if io.sync_dir_fails
    then received quarantined true fs'
    else received installed false (if io.compact_fails then fs' else rename tmp committed fs')
on_placed sha256 io tmp dest o fs exists =
    on_conflict io tmp o fs (same_digest sha256 io.read_fails (fs dest) o.digest)
on_placed sha256 io tmp dest o fs failed = received quarantined true fs

-- Spool letters, stream entries and session statuses never replace a file.
unfoldable pub install_immutable : (Str → Str) → Io → FilePath → FilePath → Offer → Fs → Received
install_immutable sha256 io tmp dest o fs =
    on_placed sha256 io tmp dest o fs (place io.no_replace io.link_fails tmp dest fs)

-- From `MkdirAll(filepath.Dir(dest))` on.
unfoldable pub install_object :
    (Str → Str) → SnapshotGeneration → Io → FilePath → FilePath → Offer → Str → Fs → Received
install_object sha256 parse io tmp dest o bytes fs =
    if io.mkdir_dest_fails
    then received quarantined true fs
    else if str_eq o.class (lit "presence")
    then install_presence parse io tmp dest o.basename bytes (sha256 bytes) fs
    else install_immutable sha256 io tmp dest o fs

abbrev pub is_shard : Offer → Bool
is_shard o = str_eq o.class (lit "stream") || str_eq o.class (lit "mind")

-- The object goes on only if it is not expired.
abbrev pub unless_expired : Io → FilePath → Fs → Option Bool → Received → Received
unless_expired io tmp fs none r = received quarantined true fs
unless_expired io tmp fs (some true) r =
    if io.compact_fails
    then received quarantined true fs
    else received expired_skipped false (rename tmp committed fs)
unless_expired io tmp fs (some false) r = r

-- What follows a durable staging file.
unfoldable pub install_staged :
    (Str → Str)
    → SnapshotGeneration
    → Installer
    → ℕ
    → Io
    → UnixTime
    → FilePath
    → Offer
    → Str
    → Fs
    → Received
install_staged sha256 parse i retain io now tmp o bytes fs = elim (destination i o.object) [
  | err e ↦ received quarantined true fs
  | ok dest ↦
      if is_shard o
      then (if is_future o.class o.basename now
          then received quarantined true (quarantine_future io sha256 tmp o.object fs).1
          else unless_expired io tmp fs (offer_expired o.class o.basename retain 1 now)
              (install_object sha256 parse io tmp dest o bytes fs))
      else install_object sha256 parse io tmp dest o bytes fs
]

abbrev pub after_stage :
    (Str → Str)
    → SnapshotGeneration
    → Installer
    → ℕ
    → Io
    → UnixTime
    → FilePath
    → Offer
    → Str
    → Bool × Fs
    → Received
after_stage sha256 parse i retain io now tmp o bytes (false, fs) = received quarantined true fs
after_stage sha256 parse i retain io now tmp o bytes (true, fs) =
    install_staged sha256 parse i retain io now tmp o bytes fs

unfoldable pub receive :
    (Str → Str) → SnapshotGeneration → Installer → ℕ → Io → UnixTime → Offer → Str → Fs → Received
receive sha256 parse i retain io now o bytes fs =
    if not (length bytes == o.size)
    then received quarantined true fs
    else if not (str_eq (sha256 bytes) o.digest)
    then received quarantined true fs
    else after_stage sha256 parse i retain io now (staging io o.id) o bytes (stage io o.id bytes fs)

-- `inspect`: whether the destination already holds the offered digest. `none` is an error other than
-- a refused destination, which its callers have excluded.
unfoldable pub inspect : (Str → Str) → Installer → Bool → Offer → Fs → Option Bool
inspect sha256 i read_fails o fs = elim (destination i o.object) [
  | err e ↦ none
  | ok dest ↦ elim (fs dest) [
    | none ↦ some false
    | some c ↦ same_digest sha256 read_fails (some c) o.digest
  ]
]
