-- ===== src/Leases/Contest.antt =====
-- A lease of link/runtime.go whose owner is running.
use khala_network.Common.{
  ℕ, ◌≡◌, refl, ap, str_eq, Option, some, if◌then◌else◌, Bool, true, false, not, ◌&&◌, ◌||◌, arith,
}
use khala_network.Leases.{
  IdentityLease, Session, Sessions, live_owner, is_interactive, is_eligible, is_some,
  is_live_interactive, Claim, claimed, current_epoch, is_owned_by, take_over, claim_free, lease_of,
  claim_lease,
}

-- The file stays, and nothing is owned.
record Refused (file : Option IdentityLease) (c : Claim) : Type 0 where
  stays : c.file ≡ file
  unowned : c.owner ≡ false

Refused-if :
    (file : Option IdentityLease) (b : Bool) (x y : Claim)
    → (b ≡ true → Refused file x)
    → (b ≡ false → Refused file y)
    → Refused file (if b then x else y)
Refused-if file true x y p q = p refl
Refused-if file false x y p q = q refl

refuses :
    (file : Option IdentityLease) (epoch : ℕ) (failed : Bool)
    → Refused file (claimed file false epoch failed)
refuses file epoch failed = record { stays = refl; unowned = refl }

-- Whether a session may displace a running one.
abbrev pub may_displace : Bool → Session → Session → Bool
may_displace takeover reg owner =
    takeover && (is_eligible reg && (is_interactive reg || not (is_interactive owner)))

displaces :
    (a b c d : Bool) → not a ≡ false → (not b && d) ≡ false → d ≡ c → (a && (b || not c)) ≡ true
displaces a b c d p q r = ground arith

-- If the owner of the lease is running, another session's claim leaves the file as it is and does not own
-- the lease, unless it takes over, is eligible, and is interactive or meets an owner that is not.
pub claim_lease-contested :
    (ss : Sessions) (reg owner : Session) (takeover read_fails write_fails : Bool)
    (file : Option IdentityLease)
    → live_owner ss (lease_of file) ≡ some owner
    → str_eq (lease_of file).instance_id reg.instance_id ≡ false
    → may_displace takeover reg owner ≡ false
    → let c = claim_lease ss reg takeover read_fails write_fails file in
      (c.file ≡ file) × (c.owner ≡ false)
unfolding claim_lease take_over claim_free
claim_lease-contested ss reg owner takeover read_fails write_fails file live other barred =
    (refused.stays, refused.unowned)
  where
    l : IdentityLease
    l = lease_of file

    epoch : ℕ
    epoch = current_epoch ss l

    taken : takeover ≡ true → Refused file (take_over ss reg write_fails file l)
    taken t =
        Refused-if file (not (is_eligible reg)) _ _ (λ e. refuses file epoch true)
          (λ e.
            Refused-if file (not (is_interactive reg) && is_live_interactive (live_owner ss l)) _ _
              (λ f. refuses file epoch true)
              (λ f. absurd (
                ground (
                  arith,
                  displaces (is_eligible reg) (is_interactive reg) (is_interactive owner) _ e f
                      (ap is_live_interactive live),
                ))))

    free : Refused file (claim_free ss reg write_fails file l)
    free =
        Refused-if file (is_owned_by ss reg l) _ _ (λ e. absurd (ground arith))
          (λ e.
            Refused-if file (is_eligible reg && not (is_some (live_owner ss l))) _ _
              (λ f. absurd (let some_one = ap is_some live in ground arith))
              (λ f. refuses file epoch false))

    refused : Refused file (claim_lease ss reg takeover read_fails write_fails file)
    refused =
        Refused-if file read_fails _ _ (λ e. refuses file 0 true)
          (λ e. Refused-if file takeover _ _ taken (λ e. free))
