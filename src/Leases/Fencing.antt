-- ===== src/Leases/Fencing.antt =====
-- The epochs of a lease in link/runtime.go tell its owners apart.
use khala_network.Common.{
  ℕ, zero, suc, ◌+◌, ◌*◌, ◌^◌, ◌<◌, ◌≤◌, ◌≡◌, refl, sym, subst, ap, ◌∙◌, Str, lit, str_eq,
  str_eq_refl, str_eq_iff, Option, none, some, if◌then◌else◌, Bool, true, false, not, ◌&&◌, ◌||◌,
  ltb, leb, ◌==◌, arith, ◌⊎◌, inl, inr, both_true, [],
}
use khala_network.Leases.{
  IdentityLease, Session, Sessions, live_owner, is_interactive, is_eligible, is_some,
  is_live_interactive, Claim, claimed, released, owned_by, written, current_epoch, next_epoch,
  is_owned_by, own, take_over, claim_free, zero_lease, lease_of, claim_lease, release_lease,
  lease_needs_heal, heal_lease,
}

-- The epoch in a boot, and whether the lease is owned in it.
abbrev pub epoch_in : Str → IdentityLease → ℕ
epoch_in boot lease = if str_eq lease.boot_id boot then lease.epoch else 0

abbrev pub is_owned : Str → IdentityLease → Bool
is_owned boot lease = str_eq lease.boot_id boot && str_eq lease.state (lit "owned")

-- A later lease has a higher epoch, or its owner, if it has one, is the one that was.
abbrev pub Fenced : Str → IdentityLease → IdentityLease → Type 0
Fenced boot old new =
    (epoch_in boot old < epoch_in boot new)
    ⊎ ((epoch_in boot old ≡ epoch_in boot new)
        × (is_owned boot new ≡ true
            → (is_owned boot old ≡ true) × (new.instance_id ≡ old.instance_id)))

Fenced-refl : (boot : Str) (l : IdentityLease) → Fenced boot l l
Fenced-refl boot l = inr (refl, λ o. (o, refl))

Fenced-trans :
    (boot : Str) (a b c : IdentityLease) → Fenced boot a b → Fenced boot b c → Fenced boot a c
Fenced-trans boot a b c (inl p) (inl q) = inl (omega arith)
Fenced-trans boot a b c (inl p) (inr (e, q)) = inl (omega arith)
Fenced-trans boot a b c (inr (e, p)) (inl q) = inl (omega arith)
Fenced-trans boot a b c (inr (e, p)) (inr (e', q)) =
    inr (e ∙ e', λ o. ((p (q o).0).0, (q o).1 ∙ (p (q o).0).1))

-- One operation on a lease: where the epoch has room to rise, the new lease is fenced from the old one,
-- and it rises by two at most.
abbrev Raised : Str → IdentityLease → IdentityLease → Type 0
Raised boot old new =
    epoch_in boot old + 2 < 2 ^ 64
    → Fenced boot old new × (epoch_in boot new ≤ epoch_in boot old + 2)

Raised-refl : (boot : Str) (l : IdentityLease) → Raised boot l l
Raised-refl boot l room = (Fenced-refl boot l, omega arith)

-- An operation on the file, in one boot.
abbrev FencedFile : Str → Option IdentityLease → Option IdentityLease → Type 0
FencedFile boot old new = Raised boot (lease_of old) (lease_of new)

Fenced-written :
    (boot : Str) (fails : Bool) (new : IdentityLease) (old : Option IdentityLease)
    → Raised boot (lease_of old) new
    → FencedFile boot old (written fails new old)
Fenced-written boot true new old f = Raised-refl boot (lease_of old)
Fenced-written boot false new old f = f

record FencedClaim (boot : Str) (old : Option IdentityLease) (c : Claim) : Type 0 where
  fenced : FencedFile boot old c.file

unchanged :
    (boot : Str) (old : Option IdentityLease) (epoch : ℕ) (failed : Bool)
    → FencedClaim boot old (claimed old false epoch failed)
unchanged boot old epoch failed = record { fenced = Raised-refl boot (lease_of old) }

Fenced-if :
    (boot : Str) (old : Option IdentityLease) (b : Bool) (x y : Claim)
    → (b ≡ true → FencedClaim boot old x)
    → (b ≡ false → FencedClaim boot old y)
    → FencedClaim boot old (if b then x else y)
Fenced-if boot old true x y p q = p refl
Fenced-if boot old false x y p q = q refl

released-Fenced : (boot : Str) (l : IdentityLease) → Raised boot l (released l)
released-Fenced boot l room = (inr (refl, λ o. absurd (unowned _ o)), omega arith)
  where
    unowned : (b : Bool) → (b && false) ≡ true → ⊥
    unowned b e = ground arith

-- A higher epoch, by two at most.
abbrev Rises : ℕ → ℕ → Type 0
Rises old new = (old < new) × (new ≤ old + 2)

raised :
    (b : Bool) (e : ℕ)
    → (if b then e else 0) + 2 < 2 ^ 64
    → Rises (if b then e else 0) (
        let ep = (let f = if b then e else 0 in if f == 0 then 1 else f) in
        if b && ltb 0 e then next_epoch ep else ep)
raised true e room = (ground arith, ground arith)
raised false e room = (ground arith, ground arith)

raised_free :
    (b x y : Bool) (e : ℕ)
    → (if b then e else 0) + 2 < 2 ^ 64
    → Rises (if b then e else 0) (
        let ep = (let f = if b then e else 0 in if f == 0 then 1 else f) in
        if x || (y || b) then next_epoch ep else ep)
raised_free true x y e room = (ground arith, ground arith)
raised_free false x y e room = (ground arith, ground arith)

owned_epoch : (boot : Str) (epoch : ℕ) → (if str_eq boot boot then epoch else 0) ≡ epoch
owned_epoch boot epoch = ap (λ b. if b then epoch else 0) (str_eq_refl boot)

own-Fenced :
    (ss : Sessions) (reg : Session) (fails : Bool) (file : Option IdentityLease) (epoch : ℕ)
    → Raised ss.boot_id (lease_of file) (owned_by ss reg epoch)
    → FencedClaim ss.boot_id file (own ss reg fails file epoch)
own-Fenced ss reg fails file epoch h = record { fenced = Fenced-written ss.boot_id fails _ file h }

higher :
    (ss : Sessions) (reg : Session) (l : IdentityLease) (epoch : ℕ)
    → (epoch_in ss.boot_id l + 2 < 2 ^ 64 → Rises (epoch_in ss.boot_id l) epoch)
    → Raised ss.boot_id l (owned_by ss reg epoch)
higher ss reg l epoch h room =
    let same = sym (owned_epoch ss.boot_id epoch) in
    let rises = h room in
    (
      inl (subst (λ n. epoch_in ss.boot_id l < n) same rises.0),
      subst (λ n. n ≤ epoch_in ss.boot_id l + 2) same rises.1,
    )

kept_or_first : (e : ℕ) → Rises e (if e == 0 then 1 else e) ⊎ (e ≡ (if e == 0 then 1 else e))
kept_or_first zero = inl (omega arith, omega arith)
kept_or_first (suc e) = inr (ground arith)

-- The owner renews its lease at the same epoch.
renewed :
    (ss : Sessions) (reg : Session) (l : IdentityLease)
    → is_owned_by ss reg l ≡ true
    → Raised ss.boot_id l (owned_by ss reg (current_epoch ss l))
renewed ss reg l mine room = elim (kept_or_first (epoch_in ss.boot_id l)) [
  | inl h ↦ higher ss reg l _ (λ _. h) room
  | inr e ↦
      let same = e ∙ sym (owned_epoch ss.boot_id _) in
      (inr (same, λ o. (owned, sym ((str_eq_iff _ _).0 instance_id))), ground (arith, same))
]
  where
    instance_id : str_eq l.instance_id reg.instance_id ≡ true
    instance_id = (both_true (str_eq l.instance_id reg.instance_id) (is_owned ss.boot_id l) mine).0

    owned : is_owned ss.boot_id l ≡ true
    owned = (both_true (str_eq l.instance_id reg.instance_id) (is_owned ss.boot_id l) mine).1

take_over-Fenced :
    (ss : Sessions) (reg : Session) (fails : Bool) (file : Option IdentityLease)
    → FencedClaim ss.boot_id file (take_over ss reg fails file (lease_of file))
unfolding take_over
take_over-Fenced ss reg fails file =
    let l = lease_of file in
    Fenced-if ss.boot_id file (not (is_eligible reg)) _ _ (λ e. unchanged _ _ _ _)
      (λ e.
        Fenced-if ss.boot_id file
          (not (is_interactive reg) && is_live_interactive (live_owner ss l)) _ _
          (λ e. unchanged _ _ _ _)
          (λ e.
            own-Fenced ss reg fails file _
              (higher ss reg l _ (raised (str_eq l.boot_id ss.boot_id) l.epoch))))

claim_free-Fenced :
    (ss : Sessions) (reg : Session) (fails : Bool) (file : Option IdentityLease)
    → FencedClaim ss.boot_id file (claim_free ss reg fails file (lease_of file))
unfolding claim_free
claim_free-Fenced ss reg fails file =
    let l = lease_of file in
    Fenced-if ss.boot_id file (is_owned_by ss reg l) _ _
      (λ mine.
        Fenced-if ss.boot_id file (is_eligible reg) _ _
          (λ e. own-Fenced ss reg fails file _ (renewed ss reg l mine))
          (λ e. record {
            fenced = Fenced-written ss.boot_id fails _ file (released-Fenced ss.boot_id l);
          }))
      (λ e.
        Fenced-if ss.boot_id file (is_eligible reg && not (is_some (live_owner ss l))) _ _
          (λ e. own-Fenced ss reg fails file _ (
            higher ss reg l _ (
              raised_free (str_eq l.boot_id ss.boot_id) (not (str_eq l.instance_id []))
                (str_eq l.state (lit "released")) l.epoch)))
          (λ e. unchanged _ _ _ _))

claim_lease-Fenced :
    (ss : Sessions) (reg : Session) (takeover read_fails fails : Bool) (file : Option IdentityLease)
    → FencedClaim ss.boot_id file (claim_lease ss reg takeover read_fails fails file)
unfolding claim_lease
claim_lease-Fenced ss reg takeover read_fails fails file =
    Fenced-if ss.boot_id file read_fails _ _ (λ e. unchanged _ _ _ _)
      (λ e.
        Fenced-if ss.boot_id file takeover _ _ (λ e. take_over-Fenced ss reg fails file)
          (λ e. claim_free-Fenced ss reg fails file))

FencedFile-if :
    (boot : Str) (old : Option IdentityLease) (b : Bool) (x y : Option IdentityLease)
    → FencedFile boot old x
    → FencedFile boot old y
    → FencedFile boot old (if b then x else y)
FencedFile-if boot old true x y p q = p
FencedFile-if boot old false x y p q = q

release_lease-Fenced :
    (ss : Sessions) (reg : Session) (fails : Bool) (file : Option IdentityLease)
    → FencedFile ss.boot_id file (release_lease ss reg fails file)
unfolding release_lease
release_lease-Fenced ss reg fails none = Raised-refl ss.boot_id zero_lease
release_lease-Fenced ss reg fails (some l) =
    FencedFile-if ss.boot_id (some l) (is_owned_by ss reg l) (written fails (released l) (some l))
      (some l)
      (Fenced-written ss.boot_id fails (released l) (some l) (released-Fenced ss.boot_id l))
      (Raised-refl ss.boot_id l)

heal_lease-Fenced :
    (boot : Str) (reg : Session) (fails : Bool) (file : Option IdentityLease)
    → FencedFile boot file (heal_lease reg fails file)
unfolding heal_lease
heal_lease-Fenced boot reg fails none = Raised-refl boot zero_lease
heal_lease-Fenced boot reg fails (some l) =
    let healed = record l { pid = reg.pid; pid_start = reg.pid_start } in
    FencedFile-if boot (some l) (leb reg.pid 1 || (str_eq reg.pid_start [] || reg.lease_epoch == 0))
      (some l) (if lease_needs_heal l reg then written fails healed (some l) else some l)
      (Raised-refl boot l)
      (FencedFile-if boot (some l) (lease_needs_heal l reg) (written fails healed (some l)) (some l)
        (Fenced-written boot fails healed (some l) (Raised-refl boot l)) (Raised-refl boot l))

-- What happens to the lease of an identity in a boot: claims, takeovers, releases and heals, whatever
-- sessions are registered and running then.
pub data LeaseStep (boot : Str) : Option IdentityLease → Option IdentityLease → Type 0 where
  claims :
      (ss : Sessions) (reg : Session) (takeover read_fails write_fails : Bool)
      (file : Option IdentityLease)
      → ss.boot_id ≡ boot
      → LeaseStep boot file ((claim_lease ss reg takeover read_fails write_fails file).file)
  releases :
      (ss : Sessions) (reg : Session) (write_fails : Bool) (file : Option IdentityLease)
      → ss.boot_id ≡ boot
      → LeaseStep boot file (release_lease ss reg write_fails file)
  heals :
      (reg : Session) (write_fails : Bool) (file : Option IdentityLease)
      → LeaseStep boot file (heal_lease reg write_fails file)

pub data LeaseRun (boot : Str) : Option IdentityLease → Option IdentityLease → Type 0 where
  rests : (file : Option IdentityLease) → LeaseRun boot file file
  steps :
      (a b c : Option IdentityLease) → LeaseStep boot a b → LeaseRun boot b c → LeaseRun boot a c

step-Fenced : (boot : Str) {a b : Option IdentityLease} → LeaseStep boot a b → FencedFile boot a b
step-Fenced boot (claims ss reg takeover read_fails fails file e) =
    subst (λ b. FencedFile b file ((claim_lease ss reg takeover read_fails fails file).file)) e
      ((claim_lease-Fenced ss reg takeover read_fails fails file).fenced)
step-Fenced boot (releases ss reg fails file e) =
    subst (λ b. FencedFile b file (release_lease ss reg fails file)) e
      (release_lease-Fenced ss reg fails file)
step-Fenced boot (heals reg fails file) = heal_lease-Fenced boot reg fails file

-- The operations of a run.
unfoldable pub run_length : {boot : Str} {a b : Option IdentityLease} → LeaseRun boot a b → ℕ
run_length (rests file) = 0
run_length (steps a b c s r) = run_length r + 1

-- In any run of operations on a lease in one boot, its epoch in that boot does not fall; and if it ends
-- as it began, a lease that is owned at the end was owned at the start, by the same session. The epoch
-- is a uint64 and wraps: what is left of it at the start is more than twice the number of operations.
pub run-Fenced :
    (boot : Str) {a b : Option IdentityLease} (r : LeaseRun boot a b)
    → epoch_in boot (lease_of a) + 2 * run_length r < 2 ^ 64
    → Fenced boot (lease_of a) (lease_of b)
unfolding run_length
run-Fenced boot (rests file) room = Fenced-refl boot (lease_of file)
run-Fenced boot (steps a b c s r) room =
    let one = step-Fenced boot s (omega arith) in
    Fenced-trans boot (lease_of a) (lease_of b) (lease_of c) one.0
      (run-Fenced boot r (omega (arith, one.1)))
