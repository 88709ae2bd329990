-- ===== src/Install/Mailbox.antt =====
-- `receive` as a whole: what it keeps of the mailbox, and what its success means.
use khala_network.Common.{
  ℕ, ◌≡◌, refl, Str, lit, str_eq, str_eq_sound, length, some, if◌then◌else◌, Bool, true, false, not,
  ◌==◌, ok, err, inl,
}
use khala_network.Wire.Offers.{Offer}
use khala_network.Install.Files.{FilePath, Fs, in_work_area, IsMail}
use khala_network.Install.Destination.{Installer, Refusal, destination}
use khala_network.Install.Epochs.{UnixTime, is_future, offer_expired}
use khala_network.Install.Quarantine.{Io, quarantine_future}
use khala_network.Install.Quarantine.Keeps.{SameMail, quarantine_future-SameMail}
use khala_network.Install.Staging.{StagedWell, stage-well, destination-IsMail, staging-work}
use khala_network.Install.Presence.{quarantined, received, SnapshotGeneration, install_presence}
use khala_network.Install.Receive.{
  staging, stage, install_immutable, install_object, install_staged, receive, unless_expired,
  after_stage, is_shard,
}
use khala_network.Install.Immutable.{
  Outcome, SameMail-Added, SameMail-then-Added, refused-Outcome, install_immutable-Outcome,
  unless_expired-Outcome,
}

module _ (sha256 : Str → Str) (parse : SnapshotGeneration) (i : Installer) (retain : ℕ) (io : Io)
    (now : UnixTime) (o : Offer) (bytes : Str) where
  install_object-Outcome :
      (tmp dest : FilePath) (fs : Fs)
      → in_work_area tmp ≡ true
      → IsMail dest
      → str_eq o.class (lit "presence") ≡ false
      → sha256 bytes ≡ o.digest
      → fs tmp ≡ some bytes
      → Outcome sha256 dest o bytes fs (install_object sha256 parse io tmp dest o bytes fs)
  unfolding install_object
  install_object-Outcome tmp dest fs work mail class e staged = made io.mkdir_dest_fails
    where
      made :
          (b : Bool)
          → Outcome sha256 dest o bytes fs (
              if b
              then received quarantined true fs
              else if str_eq o.class (lit "presence")
              then install_presence parse io tmp dest o.basename bytes (sha256 bytes) fs
              else install_immutable sha256 io tmp dest o fs)
      made true = refused-Outcome sha256 io tmp dest o bytes fs work mail fs (λ p m. inl refl)
      made false =
          rw class (install_immutable-Outcome sha256 io tmp dest o bytes fs work mail e staged)

  install_staged-Outcome :
      (tmp dest : FilePath) (fs : Fs)
      → in_work_area tmp ≡ true
      → destination i o.object ≡ ok dest
      → str_eq o.class (lit "presence") ≡ false
      → sha256 bytes ≡ o.digest
      → fs tmp ≡ some bytes
      → Outcome sha256 dest o bytes fs (install_staged sha256 parse i retain io now tmp o bytes fs)
  unfolding install_staged
  install_staged-Outcome tmp dest fs work there class e staged =
      rw (there, install_staged) (judged (is_shard o) (is_future o.class o.basename now))
    where
      mail : IsMail dest
      mail = destination-IsMail i o there

      placed : Outcome sha256 dest o bytes fs (install_object sha256 parse io tmp dest o bytes fs)
      placed = install_object-Outcome tmp dest fs work mail class e staged

      judged :
          (shard future : Bool)
          → Outcome sha256 dest o bytes fs (
              if shard
              then (if future
                  then received quarantined true (quarantine_future io sha256 tmp o.object fs).1
                  else unless_expired io tmp fs
                      (offer_expired o.class o.basename retain 1 now)
                      (install_object sha256 parse io tmp dest o bytes fs))
              else install_object sha256 parse io tmp dest o bytes fs)
      judged false future = placed
      judged true true = refused-Outcome sha256 io tmp dest o bytes fs work mail _ (
          SameMail-Added dest bytes fs _
            (quarantine_future-SameMail io sha256 tmp o.object fs work))
      judged true false =
          unless_expired-Outcome sha256 io tmp dest o bytes fs work mail
            (offer_expired o.class o.basename retain 1 now) _ placed

  after_stage-Outcome :
      (dest : FilePath) (fs : Fs) (r : Bool × Fs)
      → StagedWell (staging io o.id) bytes fs r
      → destination i o.object ≡ ok dest
      → str_eq o.class (lit "presence") ≡ false
      → sha256 bytes ≡ o.digest
      → Outcome sha256 dest o bytes fs
          (after_stage sha256 parse i retain io now (staging io o.id) o bytes r)
  after_stage-Outcome dest fs (false, fs') w there class e =
      refused-Outcome sha256 io (staging io o.id) dest o bytes fs (staging-work io o.id)
        (destination-IsMail i o there) fs' (SameMail-Added dest bytes fs fs' w.0)
  after_stage-Outcome dest fs (true, fs') w there class e =
      let (a, h) =
        install_staged-Outcome (staging io o.id) dest fs' (staging-work io o.id) there class e
          (w.1 refl) in
      (SameMail-then-Added dest bytes fs fs' _ w.0 a, h)

  -- A letter, stream entry or session status that is received adds at most its own file, and only
  -- where there was none: no mail is ever overwritten or lost, whatever the operating system
  -- refuses. If `receive` reports no error and did not skip the object as expired, the destination
  -- holds bytes with the offered digest.
  pub receive-Outcome :
      (dest : FilePath) (fs : Fs)
      → destination i o.object ≡ ok dest
      → str_eq o.class (lit "presence") ≡ false
      → Outcome sha256 dest o bytes fs (receive sha256 parse i retain io now o bytes fs)
  unfolding receive
  receive-Outcome dest fs there class =
      tested (length bytes == o.size) (str_eq (sha256 bytes) o.digest) refl
    where
      refused : Outcome sha256 dest o bytes fs (received quarantined true fs)
      refused =
          refused-Outcome sha256 io (staging io o.id) dest o bytes fs (staging-work io o.id)
            (destination-IsMail i o there) fs (λ p m. inl refl)

      tested :
          (sized summed : Bool)
          → str_eq (sha256 bytes) o.digest ≡ summed
          → Outcome sha256 dest o bytes fs (
              if not sized
              then received quarantined true fs
              else if not summed
              then received quarantined true fs
              else after_stage sha256 parse i retain io now
                  (staging io o.id)
                  o
                  bytes
                  (stage io o.id bytes fs))
      tested false summed e = refused
      tested true false e = refused
      tested true true e =
          after_stage-Outcome dest fs (stage io o.id bytes fs) (stage-well io o.id bytes fs) there
            class (str_eq_sound (sha256 bytes) o.digest e)

  -- An object without a destination is refused with an error, and no mail changes.
  pub receive_refused :
      (fs : Fs) {e : Refusal}
      → destination i o.object ≡ err e
      → ((receive sha256 parse i retain io now o bytes fs).failed ≡ true)
        × SameMail fs (receive sha256 parse i retain io now o bytes fs).fs
  unfolding receive
  receive_refused fs there = tested (length bytes == o.size) (str_eq (sha256 bytes) o.digest)
    where
      staged :
          (r : Bool × Fs)
          → StagedWell (staging io o.id) bytes fs r
          → let result = after_stage sha256 parse i retain io now (staging io o.id) o bytes r in
            (result.failed ≡ true) × SameMail fs result.fs
      staged (false, fs') w = (refl, w.0)
      staged (true, fs') w = unfold install_staged in rw (there, install_staged) (refl, w.0)

      tested :
          (sized summed : Bool)
          → let result =
              if not sized
              then received quarantined true fs
              else if not summed
              then received quarantined true fs
              else after_stage sha256 parse i retain io now
                  (staging io o.id)
                  o
                  bytes
                  (stage io o.id bytes fs) in
            (result.failed ≡ true) × SameMail fs result.fs
      tested false summed = (refl, λ p m. refl)
      tested true false = (refl, λ p m. refl)
      tested true true = staged (stage io o.id bytes fs) (stage-well io o.id bytes fs)
