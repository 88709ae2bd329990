-- ===== src/Install/Quarantine.antt =====
-- link/install.go: `renameNoReplace` with its fallback, `sameDigest`, `quarantine`,
-- `quarantineFuture` and `removeTransit`.
pub mod Keeps
use khala_network.Common.{
  ℕ, zero, suc, ◌≡◌, ◌≢◌, refl, Str, lit, str_eq, str_eq_sound, List, [], ◌∷◌, ◌++◌, Option, none,
  some, if◌then◌else◌, Bool, true, false, ◌&&◌, ◌||◌, not, arith, ◌⊎◌, inl, inr, Option-cases,
}
use khala_network.Wire.Digest.{ObjectId}
use khala_network.Install.Files.{FilePath, Fs, put, rename, link}

-- Whether the filesystem has an atomic rename that replaces nothing; `broken` is any other error.
pub data NoReplace : Type 0 where
  supported unsupported broken : NoReplace

-- What the operating system answers to the calls of one `receive`: `true` where a call fails. The
-- texts are of the process id, the time in the name of a stale file, and what a failed write left;
-- `ears` is the directory of refused snapshots, each name with its modification time.
pub record Io : Type 0 where
  pub pid : Str
  pub nanos : Str
  pub partial : Str
  pub mkdir_tmp_fails : Bool
  pub create_fails : Bool
  pub stale_rename_fails : Bool
  pub write_fails : Bool
  pub sync_fails : Bool
  pub close_fails : Bool
  pub mkdir_dest_fails : Bool
  pub no_replace : NoReplace
  pub link_fails : Bool
  pub rename_fails : Bool
  pub sync_dir_fails : Bool
  pub read_fails : Bool
  pub compact_fails : Bool
  pub quarantine_dir_fails : Bool
  pub quarantine_rename_fails : Bool
  pub quarantine_sync_fails : Bool
  pub quarantine_replace : NoReplace
  pub quarantine_read_fails : Bool
  pub ears : List (Str × ℕ)
  pub prune_fails : Bool

abbrev pub committed : FilePath
committed = lit "tmp" ∷ lit "link.committed" ∷ []

pub data Placed : Type 0 where
  renamed linked : Fs → Placed
  exists failed : Placed

-- The atomic install: a rename that refuses to replace, or a link where there is no such rename.
unfoldable pub place : NoReplace → Bool → FilePath → FilePath → Fs → Placed
place supported link_fails tmp dest fs = elim (fs dest) [
  | some c ↦ exists
  | none ↦ renamed (rename tmp dest fs)
]
place unsupported link_fails tmp dest fs = elim (fs dest) [
  | some c ↦ exists
  | none ↦ if link_fails then failed else linked (link tmp dest fs)
]
place broken link_fails tmp dest fs = failed

-- `some true`: the file has the digest; `none`: it cannot be read.
unfoldable pub same_digest : (Str → Str) → Bool → Option Str → Str → Option Bool
same_digest sha256 read_fails none want = none
same_digest sha256 read_fails (some c) want =
    if read_fails then none else some (str_eq (sha256 c) want)

abbrev pub dot_join : List Str → Str
dot_join [] = []
dot_join (a ∷ []) = a
dot_join (a ∷ b ∷ s) = a ++ (lit "." ++ dot_join (b ∷ s))

-- Where the object went, if it went, and the files.
abbrev pub Moved : Type 0
Moved = Option FilePath × Fs

abbrev after_sync : Bool → FilePath → Fs → Moved
after_sync fails p fs = (if fails then none else some p, fs)

unfoldable pub quarantine : Io → FilePath → ObjectId → Str → Fs → Moved
quarantine io tmp o id fs =
    let dest : FilePath =
      lit "spool" ∷ lit "quarantine" ∷ dot_join (o.basename ∷ id ∷ io.pid ∷ []) ∷ [] in
    if io.quarantine_dir_fails
    then (none, fs)
    else if io.quarantine_rename_fails
    then (none, fs)
    else after_sync io.quarantine_sync_fails dest (rename tmp dest fs)

abbrev pub future_name : ObjectId → Option Str
future_name o =
    if str_eq o.class (lit "stream")
    then some (dot_join (lit "stream" ∷ o.stream ∷ o.node ∷ o.basename ∷ []))
    else if str_eq o.class (lit "mind")
    then some (dot_join (lit "mind" ∷ o.node ∷ o.session ∷ o.basename ∷ []))
    else none

-- `dest` is taken: the same bytes are compacted away, others are kept beside it.
unfoldable pub future_conflict : Io → (Str → Str) → FilePath → Str → ObjectId → Fs → Moved
future_conflict io sha256 tmp name o fs =
    let dest : FilePath = lit "spool" ∷ lit "dead" ∷ name ∷ [] in
    let conflict : FilePath =
      lit "spool" ∷ lit "dead" ∷ dot_join (name ∷ io.pid ∷ lit "conflict" ∷ []) ∷ [] in
    elim (same_digest sha256 io.quarantine_read_fails (fs dest) o.digest) [
      | none ↦ (none, fs)
      | some true ↦ if io.compact_fails then (none, fs) else (some dest, rename tmp committed fs)
      | some false ↦
          if io.quarantine_rename_fails
          then (none, fs)
          else after_sync io.quarantine_sync_fails conflict (rename tmp conflict fs)
    ]

unfoldable pub future_placed : Io → (Str → Str) → FilePath → Str → ObjectId → Fs → Placed → Moved
future_placed io sha256 tmp name o fs (renamed fs') =
    after_sync io.quarantine_sync_fails (lit "spool" ∷ lit "dead" ∷ name ∷ []) fs'
future_placed io sha256 tmp name o fs (linked fs') =
    after_sync io.quarantine_sync_fails (lit "spool" ∷ lit "dead" ∷ name ∷ [])
      (if io.quarantine_sync_fails || io.compact_fails then fs' else rename tmp committed fs')
future_placed io sha256 tmp name o fs exists = future_conflict io sha256 tmp name o fs
future_placed io sha256 tmp name o fs failed = (none, fs)

abbrev pub future_named : Io → (Str → Str) → FilePath → ObjectId → Fs → Option Str → Moved
future_named io sha256 tmp o fs none = (none, fs)
future_named io sha256 tmp o fs (some name) =
    future_placed io sha256 tmp name o fs
      (place io.quarantine_replace io.link_fails tmp (lit "spool" ∷ lit "dead" ∷ name ∷ []) fs)

unfoldable pub quarantine_future : Io → (Str → Str) → FilePath → ObjectId → Fs → Moved
quarantine_future io sha256 tmp o fs =
    if io.quarantine_dir_fails then (none, fs) else future_named io sha256 tmp o fs (future_name o)

-- The only unlink: the copy must still have the digest that was offered.
unfoldable pub remove_transit : (Str → Str) → Bool → FilePath → Str → Fs → Fs
remove_transit sha256 read_fails path offered fs =
    elim (same_digest sha256 read_fails (fs path) offered) [
      | some true ↦ put path none fs
      | some false ↦ fs
      | none ↦ fs
    ]
