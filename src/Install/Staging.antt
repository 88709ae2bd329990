-- ===== src/Install/Staging.antt =====
-- The staging file of a transfer, and how it reaches a free path of the mailbox.
use khala_network.Common.{
  ◌≡◌, ◌≢◌, refl, ap, ◌∙◌, Str, Option, none, some, Bool, true, false, ok, arith, ◌⊎◌, inl, inr,
  Bool-cases,
}
use khala_network.Wire.Offers.{Offer}
use khala_network.Install.Files.{
  FilePath, Fs, put, rename, link, path_eq, path_eq_iff, in_work_area, IsMail,
}
use khala_network.Install.Destination.{Installer, destination, destination_safe}
use khala_network.Install.Quarantine.{
  Io, NoReplace, supported, unsupported, broken, Placed, renamed, linked, exists, failed, place,
}
use khala_network.Install.Quarantine.Keeps.{SameMail, rename-SameMail}
use khala_network.Install.Receive.{staging, stage, write_staging, stale_name}

-- At most the file `dest` is new, and then it holds `bytes`; every other mail is as it was.
abbrev pub Added : FilePath → Str → Fs → Fs → Type 0
Added dest bytes fs fs' =
    (p : FilePath) → IsMail p → (fs' p ≡ fs p) ⊎ ((p ≡ dest) × (fs p ≡ none) × (fs' p ≡ some bytes))

-- The offered object is in place.
abbrev pub Holds : (Str → Str) → FilePath → Str → Fs → Type 0
Holds sha256 dest digest fs = (c : Str) × (fs dest ≡ some c) × (sha256 c ≡ digest)

put-SameMail :
    (p : FilePath) (c : Option Str) (fs : Fs) → in_work_area p ≡ true → SameMail fs (put p c fs)
unfolding put
put-SameMail p c fs hp r hr = ground (arith, path_eq_iff p r, differ p r)
  where
    differ : (p r : FilePath) → in_work_area p ≡ true → p ≡ r → in_work_area r ≡ true
    differ p r h e = rw (← e) h

put_self : (p : FilePath) (c : Option Str) (fs : Fs) → put p c fs p ≡ c
unfolding put
put_self p c fs = ground (arith, path_eq_iff p p)

-- A staging file leads to a durable copy, or the transfer stops.
abbrev pub StagedWell : FilePath → Str → Fs → Bool × Fs → Type 0
StagedWell tmp bytes fs r = SameMail fs r.1 × (r.0 ≡ true → r.1 tmp ≡ some bytes)

write_staging-well :
    (io : Io) (tmp : FilePath) (bytes : Str) (fs : Fs)
    → in_work_area tmp ≡ true
    → StagedWell tmp bytes fs (write_staging io tmp bytes fs)
unfolding write_staging
write_staging-well io tmp bytes fs h = (
  λ p m.
      ground (
        arith,
        put-SameMail tmp (some io.partial) fs h p m,
        put-SameMail tmp (some bytes) fs h p m,
      ),
  λ e. ground (arith, put_self tmp (some bytes) fs),
)

pub staging-work : (io : Io) (id : Str) → in_work_area (staging io id) ≡ true
unfolding staging
staging-work io id = refl

pub stage-well :
    (io : Io) (id bytes : Str) (fs : Fs)
    → StagedWell (staging io id) bytes fs (stage io id bytes fs)
unfolding stage
stage-well io id bytes fs =
    let tmp = staging io id in
    let moved = rename tmp (stale_name io id) fs in
    let work = staging-work io id in
    let fresh = write_staging-well io tmp bytes fs work in
    let again = write_staging-well io tmp bytes moved work in
    (
      λ p m. ground (
        arith,
        fresh.0 p m,
        again.0 p m,
        rename-SameMail tmp (stale_name io id) fs work refl p m,
      ),
      λ e. ground (arith, fresh.1, again.1),
    )

pub destination-IsMail :
    (i : Installer) (o : Offer) {dest : FilePath} → destination i o.object ≡ ok dest → IsMail dest
destination-IsMail i o h = (destination_safe i o.object h).1

-- A path of the work area is no mail.
pub work_ne_mail : (p q : FilePath) → in_work_area p ≡ true → IsMail q → p ≢ q
work_ne_mail p q h m e = cc (ap in_work_area e)

-- A rename of a staged file onto a free mail path.
pub rename-Added :
    (tmp dest : FilePath) (bytes : Str) (fs : Fs)
    → in_work_area tmp ≡ true
    → fs tmp ≡ some bytes
    → fs dest ≡ none
    → Added dest bytes fs (rename tmp dest fs)
unfolding rename put
rename-Added tmp dest bytes fs h staged free p m = elim (Bool-cases (path_eq dest p)) [
  | inl e ↦ ground (arith, path_eq_iff dest p, path_eq_iff tmp p, work_ne_mail tmp p h m)
  | inr n ↦ ground (arith, path_eq_iff tmp p, work_ne_mail tmp p h m)
]

pub link-Added :
    (tmp dest : FilePath) (bytes : Str) (fs : Fs)
    → fs tmp ≡ some bytes
    → fs dest ≡ none
    → Added dest bytes fs (link tmp dest fs)
unfolding link put
link-Added tmp dest bytes fs staged free p m = ground (arith, path_eq_iff dest p)

-- What `place` leaves behind, for a staged file.
abbrev pub PlacedWell : FilePath → Str → Fs → Placed → Type 0
PlacedWell dest bytes fs (renamed fs') = Added dest bytes fs fs' × (fs' dest ≡ some bytes)
PlacedWell dest bytes fs (linked fs') = Added dest bytes fs fs' × (fs' dest ≡ some bytes)
PlacedWell dest bytes fs exists = Unit
PlacedWell dest bytes fs failed = Unit

rename_target : (tmp dest : FilePath) (fs : Fs) → tmp ≢ dest → rename tmp dest fs dest ≡ fs tmp
unfolding rename put
rename_target tmp dest fs h = ground (arith, path_eq_iff dest dest, path_eq_iff tmp dest)

link_target : (tmp dest : FilePath) (fs : Fs) → link tmp dest fs dest ≡ fs tmp
unfolding link put
link_target tmp dest fs = ground (arith, path_eq_iff dest dest)

pub place-well :
    (mode : NoReplace) (fails : Bool) (tmp dest : FilePath) (bytes : Str) (fs : Fs)
    → in_work_area tmp ≡ true
    → IsMail dest
    → fs tmp ≡ some bytes
    → PlacedWell dest bytes fs (place mode fails tmp dest fs)
unfolding place
place-well mode fails tmp dest bytes fs h m staged = go mode fails (fs dest) refl
  where
    go :
        (mode : NoReplace) (fails : Bool) (r : Option Str)
        → fs dest ≡ r
        → PlacedWell dest bytes fs (place mode fails tmp dest fs)
    go supported fails (some c) e = rw (e, PlacedWell) tt
    go supported fails none e =
        rw (e, PlacedWell)
          (
            rename-Added tmp dest bytes fs h staged e,
            rename_target tmp dest fs (work_ne_mail tmp dest h m) ∙ staged,
          )
    go unsupported fails (some c) e = rw (e, PlacedWell) tt
    go unsupported true none e = rw (e, PlacedWell) tt
    go unsupported false none e =
        rw (e, PlacedWell) (link-Added tmp dest bytes fs staged e, link_target tmp dest fs ∙ staged)
    go broken fails r e = tt
