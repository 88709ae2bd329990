-- ===== src/Install/Immutable.antt =====
-- What `receive` does to the mailbox, for the classes whose objects never change: letters, stream
-- entries and session statuses.
use khala_network.Common.{
  ◌≡◌, ◌≢◌, refl, ◌∙◌, Str, str_eq_sound, Option, none, some, if◌then◌else◌, Bool, true, false,
  arith, inl, inr, Option-cases,
}
use khala_network.Wire.Offers.{Offer}
use khala_network.Install.Files.{FilePath, Fs, rename, in_work_area, IsMail}
use khala_network.Install.Quarantine.{
  Io, committed, Placed, renamed, linked, exists, failed, place, same_digest,
}
use khala_network.Install.Quarantine.Keeps.{SameMail, rename-SameMail, quarantine-SameMail}
use khala_network.Install.Staging.{Added, Holds, PlacedWell, place-well}
use khala_network.Install.Presence.{
  InstallResult, installed, already_stored, quarantined, expired_skipped, Received, received,
}
use khala_network.Install.Receive.{install_immutable, on_placed, on_conflict, unless_expired}

-- What a transfer of an immutable object comes to: no other mail changes, and a transfer that did not
-- fail and was not skipped has its object in place.
abbrev pub Outcome : (Str → Str) → FilePath → Offer → Str → Fs → Received → Type 0
Outcome sha256 dest o bytes fs r =
    Added dest bytes fs r.fs
    × (r.failed ≡ false → r.result ≢ expired_skipped → Holds sha256 dest o.digest r.fs)

pub SameMail-Added :
    (dest : FilePath) (bytes : Str) (fs fs' : Fs) → SameMail fs fs' → Added dest bytes fs fs'
SameMail-Added dest bytes fs fs' h p m = inl (h p m)

Added-SameMail :
    (dest : FilePath) (bytes : Str) (fs fs' fs'' : Fs)
    → Added dest bytes fs fs'
    → SameMail fs' fs''
    → Added dest bytes fs fs''
Added-SameMail dest bytes fs fs' fs'' a h p m = ground (arith, a p m, h p m)

pub SameMail-then-Added :
    (dest : FilePath) (bytes : Str) (fs fs' fs'' : Fs)
    → SameMail fs fs'
    → Added dest bytes fs' fs''
    → Added dest bytes fs fs''
SameMail-then-Added dest bytes fs fs' fs'' h a p m = ground (arith, a p m, h p m)

pub same_digest-Holds :
    (sha256 : Str → Str) (fails : Bool) (dest : FilePath) (want : Str) (fs : Fs)
    → same_digest sha256 fails (fs dest) want ≡ some true
    → Holds sha256 dest want fs
unfolding same_digest
same_digest-Holds sha256 fails dest want fs h = elim (Option-cases (fs dest)) [
  | inl e ↦ ground arith
  | inr (c, e) ↦ (c, e, str_eq_sound (sha256 c) want (ground arith))
]

pub Holds-SameMail :
    (sha256 : Str → Str) (dest : FilePath) (want : Str) (fs fs' : Fs)
    → IsMail dest
    → SameMail fs fs'
    → Holds sha256 dest want fs
    → Holds sha256 dest want fs'
Holds-SameMail sha256 dest want fs fs' m same (c, e, k) = (c, same dest m ∙ e, k)

module _ (sha256 : Str → Str) (io : Io) (tmp dest : FilePath) (o : Offer) (bytes : Str) (fs : Fs)
    (work : in_work_area tmp ≡ true) (mail : IsMail dest) where
  -- A failed transfer only has to leave the mail alone.
  pub refused-Outcome :
      (fs' : Fs)
      → Added dest bytes fs fs'
      → Outcome sha256 dest o bytes fs (received quarantined true fs')
  refused-Outcome fs' a = (a, λ f. cc)

  -- A transfer that succeeds, and is compacted afterwards or not.
  done-Outcome :
      (result : InstallResult) (fs' : Fs) (skip : Bool)
      → Added dest bytes fs fs'
      → Holds sha256 dest o.digest fs'
      → Outcome sha256 dest o bytes fs
          (received result false (if skip then fs' else rename tmp committed fs'))
  done-Outcome result fs' true a h = (a, λ _ _. h)
  done-Outcome result fs' false a h =
      let same = rename-SameMail tmp committed fs' work refl in
      (
        Added-SameMail dest bytes fs fs' (rename tmp committed fs') a same,
        λ _ _. Holds-SameMail sha256 dest o.digest fs' (rename tmp committed fs') mail same h,
      )

  on_conflict-Outcome :
      (r : Option Bool)
      → same_digest sha256 io.read_fails (fs dest) o.digest ≡ r
      → Outcome sha256 dest o bytes fs (on_conflict io tmp o fs r)
  on_conflict-Outcome none e =
      refused-Outcome _
        (SameMail-Added dest bytes fs _ (quarantine-SameMail io tmp o.object o.id fs work))
  on_conflict-Outcome (some false) e =
      refused-Outcome _
        (SameMail-Added dest bytes fs _ (quarantine-SameMail io tmp o.object o.id fs work))
  on_conflict-Outcome (some true) e = compacted io.compact_fails
    where
      compacted :
          (b : Bool)
          → Outcome sha256 dest o bytes fs (
              if b
              then received quarantined true fs
              else received already_stored false (rename tmp committed fs))
      compacted true = refused-Outcome fs (λ p m. inl refl)
      compacted false =
          done-Outcome already_stored fs false (λ p m. inl refl)
            (same_digest-Holds sha256 io.read_fails dest o.digest fs e)

  on_placed-Outcome :
      (r : Placed)
      → sha256 bytes ≡ o.digest
      → PlacedWell dest bytes fs r
      → Outcome sha256 dest o bytes fs (on_placed sha256 io tmp dest o fs r)
  on_placed-Outcome (renamed fs') e w = synced io.sync_dir_fails
    where
      synced :
          (b : Bool)
          → Outcome sha256 dest o bytes fs
              (if b then received quarantined true fs' else received installed false fs')
      synced true = refused-Outcome fs' w.0
      synced false = done-Outcome installed fs' true w.0 (bytes, w.1, e)
  on_placed-Outcome (linked fs') e w = synced io.sync_dir_fails
    where
      synced :
          (b : Bool)
          → Outcome sha256 dest o bytes fs (
              if b
              then received quarantined true fs'
              else received installed false
                  (if io.compact_fails then fs' else rename tmp committed fs'))
      synced true = refused-Outcome fs' w.0
      synced false = done-Outcome installed fs' io.compact_fails w.0 (bytes, w.1, e)
  on_placed-Outcome exists e w = on_conflict-Outcome _ refl
  on_placed-Outcome failed e w = refused-Outcome fs (λ p m. inl refl)

  pub install_immutable-Outcome :
      sha256 bytes ≡ o.digest
      → fs tmp ≡ some bytes
      → Outcome sha256 dest o bytes fs (install_immutable sha256 io tmp dest o fs)
  unfolding install_immutable
  install_immutable-Outcome e staged =
      on_placed-Outcome (place io.no_replace io.link_fails tmp dest fs) e
        (place-well io.no_replace io.link_fails tmp dest bytes fs work mail staged)

  pub unless_expired-Outcome :
      (r : Option Bool) (next : Received)
      → Outcome sha256 dest o bytes fs next
      → Outcome sha256 dest o bytes fs (unless_expired io tmp fs r next)
  unless_expired-Outcome none next h = refused-Outcome fs (λ p m. inl refl)
  unless_expired-Outcome (some false) next h = h
  unless_expired-Outcome (some true) next h = compacted io.compact_fails
    where
      compacted :
          (b : Bool)
          → Outcome sha256 dest o bytes fs (
              if b
              then received quarantined true fs
              else received expired_skipped false (rename tmp committed fs))
      compacted true = refused-Outcome fs (λ p m. inl refl)
      compacted false = (
        SameMail-Added dest bytes fs _ (rename-SameMail tmp committed fs work refl),
        λ _ n. absurd (n refl),
      )
