-- ===== src/Install/Quarantine/Keeps.antt =====
-- Setting an object aside changes nothing of the mailbox.
use khala_network.Common.{
  ◌≡◌, refl, Str, lit, [], ◌∷◌, Option, none, some, if◌then◌else◌, Bool, true, false, arith,
}
use khala_network.Wire.Digest.{ObjectId}
use khala_network.Install.Files.{FilePath, Fs, put, rename, link, path_eq_iff, in_work_area, IsMail}
use khala_network.Install.Quarantine.{
  Io, NoReplace, supported, unsupported, broken, Placed, renamed, linked, exists, failed, place,
  quarantine, quarantine_future, committed, dot_join, future_conflict, future_placed, future_named,
  future_name,
}

-- Two stores have the same mail.
abbrev pub SameMail : Fs → Fs → Type 0
SameMail fs fs' = (p : FilePath) → IsMail p → fs' p ≡ fs p

pub rename-SameMail :
    (p q : FilePath) (fs : Fs)
    → in_work_area p ≡ true
    → in_work_area q ≡ true
    → SameMail fs (rename p q fs)
unfolding rename put
rename-SameMail p q fs hp hq r hr =
    ground (arith, path_eq_iff p r, path_eq_iff q r, differ p r, differ q r)
  where
    differ : (p r : FilePath) → in_work_area p ≡ true → p ≡ r → in_work_area r ≡ true
    differ p r h e = rw (← e) h

pub link-SameMail : (p q : FilePath) (fs : Fs) → in_work_area q ≡ true → SameMail fs (link p q fs)
unfolding link put
link-SameMail p q fs hq r hr = ground (arith, path_eq_iff q r, differ q r)
  where
    differ : (p r : FilePath) → in_work_area p ≡ true → p ≡ r → in_work_area r ≡ true
    differ p r h e = rw (← e) h

abbrev PlacedKeeps : Fs → Placed → Type 0
PlacedKeeps fs (renamed fs') = SameMail fs fs'
PlacedKeeps fs (linked fs') = SameMail fs fs'
PlacedKeeps fs exists = Unit
PlacedKeeps fs failed = Unit

place-keeps :
    (mode : NoReplace) (fails : Bool) (tmp dest : FilePath) (fs : Fs)
    → in_work_area tmp ≡ true
    → in_work_area dest ≡ true
    → PlacedKeeps fs (place mode fails tmp dest fs)
unfolding place
place-keeps supported fails tmp dest fs h k =
    elim (fs dest)
      as (λ c. PlacedKeeps fs (elim c [ some _ ↦ exists | none ↦ renamed (rename tmp dest fs) ])) [
        | some c ↦ tt
        | none ↦ rename-SameMail tmp dest fs h k
      ]
place-keeps unsupported true tmp dest fs h k =
    elim (fs dest) as (λ c. PlacedKeeps fs (elim c [ some _ ↦ exists | none ↦ failed ])) [
      | some c ↦ tt
      | none ↦ tt
    ]
place-keeps unsupported false tmp dest fs h k =
    elim (fs dest)
      as (λ c. PlacedKeeps fs (elim c [ some _ ↦ exists | none ↦ linked (link tmp dest fs) ])) [
        | some c ↦ tt
        | none ↦ link-SameMail tmp dest fs k
      ]
place-keeps broken fails tmp dest fs h k = tt

pub quarantine-SameMail :
    (io : Io) (tmp : FilePath) (o : ObjectId) (id : Str) (fs : Fs)
    → in_work_area tmp ≡ true
    → SameMail fs (quarantine io tmp o id fs).1
unfolding quarantine
quarantine-SameMail io tmp o id fs h p m = ground (
  arith,
  rename-SameMail tmp
      (lit "spool" ∷ lit "quarantine" ∷ dot_join (o.basename ∷ id ∷ io.pid ∷ []) ∷ []) fs h refl p
      m,
)

future_conflict-SameMail :
    (io : Io) (sha256 : Str → Str) (tmp : FilePath) (name : Str) (o : ObjectId) (fs : Fs)
    → in_work_area tmp ≡ true
    → SameMail fs (future_conflict io sha256 tmp name o fs).1
unfolding future_conflict
future_conflict-SameMail io sha256 tmp name o fs h p m = ground (
  arith,
  rename-SameMail tmp committed fs h refl p m,
  rename-SameMail tmp
      (lit "spool" ∷ lit "dead" ∷ dot_join (name ∷ io.pid ∷ lit "conflict" ∷ []) ∷ []) fs h refl p
      m,
)

future_placed-SameMail :
    (io : Io) (sha256 : Str → Str) (tmp : FilePath) (name : Str) (o : ObjectId) (fs : Fs)
    (r : Placed)
    → in_work_area tmp ≡ true
    → PlacedKeeps fs r
    → SameMail fs (future_placed io sha256 tmp name o fs r).1
unfolding future_placed
future_placed-SameMail io sha256 tmp name o fs (renamed fs') h k p m = k p m
future_placed-SameMail io sha256 tmp name o fs (linked fs') h k p m =
    ground (arith, k p m, rename-SameMail tmp committed fs' h refl p m)
future_placed-SameMail io sha256 tmp name o fs exists h k p m =
    future_conflict-SameMail io sha256 tmp name o fs h p m
future_placed-SameMail io sha256 tmp name o fs failed h k p m = refl

future_named-SameMail :
    (io : Io) (sha256 : Str → Str) (tmp : FilePath) (o : ObjectId) (fs : Fs) (name : Option Str)
    → in_work_area tmp ≡ true
    → SameMail fs (future_named io sha256 tmp o fs name).1
future_named-SameMail io sha256 tmp o fs none h p m = refl
future_named-SameMail io sha256 tmp o fs (some name) h p m =
    let dest : FilePath = lit "spool" ∷ lit "dead" ∷ name ∷ [] in
    future_placed-SameMail io sha256 tmp name o fs
      (place io.quarantine_replace io.link_fails tmp dest fs) h
      (place-keeps io.quarantine_replace io.link_fails tmp dest fs h refl) p m

pub quarantine_future-SameMail :
    (io : Io) (sha256 : Str → Str) (tmp : FilePath) (o : ObjectId) (fs : Fs)
    → in_work_area tmp ≡ true
    → SameMail fs (quarantine_future io sha256 tmp o fs).1
unfolding quarantine_future
quarantine_future-SameMail io sha256 tmp o fs h p m = by_dir io.quarantine_dir_fails
  where
    by_dir :
        (b : Bool)
        → (if b then (none, fs) else future_named io sha256 tmp o fs (future_name o)).1 p ≡ fs p
    by_dir true = refl
    by_dir false = future_named-SameMail io sha256 tmp o fs (future_name o) h p m
