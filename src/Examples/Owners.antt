-- ===== src/Examples/Owners.antt =====
-- Two sessions and the lease of an identity.
use khala_network.Common.{arith, ◌≡◌, refl, Str, lit, Option, none, some, true, false}
use khala_network.Leases.{
  IdentityLease, Session, Sessions, live_owner, lease_of, take_over, claim_free, claim_lease,
  release_lease, owned_by,
}
use khala_network.Leases.Fencing.{Fenced, claims, releases, rests, steps, run_length, run-Fenced}
use khala_network.Leases.Contest.{claim_lease-contested}

abbrev boot : Str
boot = lit "b"

abbrev session : Str → Session
session instance_id = record {
  boot_id = boot;
  instance_id = instance_id;
  identity = lit "adun";
  pid = 7;
  pid_start = lit "s";
  claude_session_id = lit "c";
  kind = lit "interactive";
  receive_opt_in = false;
  lease_epoch = 1;
}

abbrev sessions : Sessions
sessions = record { boot_id = boot; read = λ i. some (session i); is_live = λ r. true }

abbrev first_claim : Option IdentityLease
first_claim = (claim_lease sessions (session (lit "i")) false false false none).file

abbrev taken_over : Option IdentityLease
taken_over = (claim_lease sessions (session (lit "k")) true false false first_claim).file

taken_over_epoch : taken_over ≡ some (owned_by sessions (session (lit "k")) 2)
unfolding claim_lease take_over claim_free live_owner
taken_over_epoch = refl

-- The witnesses.
run-Fenced_example :
    Fenced boot
      (lease_of first_claim)
      (lease_of (release_lease sessions (session (lit "k")) false taken_over))
unfolding run_length claim_lease take_over claim_free live_owner
run-Fenced_example =
    run-Fenced boot
      (steps _ _ _ (claims sessions (session (lit "k")) true false false first_claim refl)
        (steps _ _ _ (releases sessions (session (lit "k")) false taken_over refl) (rests _)))
      (omega arith)

claim_lease-contested_example :
    let c = claim_lease sessions (session (lit "k")) false false false first_claim in
    (c.file ≡ first_claim) × (c.owner ≡ false)
unfolding claim_lease take_over claim_free live_owner
claim_lease-contested_example =
    claim_lease-contested sessions (session (lit "k")) (session (lit "i")) false false false
      first_claim refl refl refl
