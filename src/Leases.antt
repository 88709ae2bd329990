-- ===== src/Leases.antt =====
-- The lease of an identity: `claimLease`, `liveLeaseOwnerRegistration` and the release of link/runtime.go,
-- `healLease` of link/conduit.go. Each works on the lease file under one lock, so that the operations
-- are steps on the file.
use khala_network.Common.{
  ℕ, ◌+◌, ◌%◌, ◌^◌, ◌≡◌, Str, lit, str_eq, [], Option, none, some, if◌then◌else◌, Bool, true, false,
  not, ◌&&◌, ◌||◌, ltb, leb, ◌==◌,
}
pub mod Fencing
pub mod Contest

pub record IdentityLease : Type 0 where
  pub boot_id : Str
  pub identity : Str
  pub instance_id : Str
  pub epoch : ℕ
  pub pid : ℕ
  pub pid_start : Str
  pub claude_session_id : Str
  pub state : Str

-- The lease as Go has it before the file is read.
abbrev pub zero_lease : IdentityLease
zero_lease = record {
  boot_id = [];
  identity = [];
  instance_id = [];
  epoch = 0;
  pid = 0;
  pid_start = [];
  claude_session_id = [];
  state = [];
}

-- `sessionRegistration`, as far as leases need it.
pub record Session : Type 0 where
  pub boot_id : Str
  pub instance_id : Str
  pub identity : Str
  pub pid : ℕ
  pub pid_start : Str
  pub claude_session_id : Str
  pub kind : Str
  pub receive_opt_in : Bool
  pub lease_epoch : ℕ

-- The registrations of a boot, and which of them `registrationLive` takes for running.
pub record Sessions : Type 0 where
  pub boot_id : Str
  pub read : Str → Option Session
  pub is_live : Session → Bool

-- `liveLeaseOwnerRegistration`: the registration, if it is live.
unfoldable pub live_owner : Sessions → IdentityLease → Option Session
live_owner ss lease =
    if not (str_eq lease.boot_id ss.boot_id)
      || (str_eq lease.instance_id [] || not (str_eq lease.state (lit "owned")))
    then none
    else elim (ss.read lease.instance_id) [
      | none ↦ none
      | some reg ↦
          if not (str_eq reg.boot_id ss.boot_id)
            || (not (str_eq reg.instance_id lease.instance_id)
                || not (str_eq reg.identity lease.identity))
          then none
          else if ss.is_live reg
          then some reg
          else none
    ]

abbrev pub is_interactive : Session → Bool
is_interactive reg = str_eq reg.kind (lit "interactive")

abbrev pub is_eligible : Session → Bool
is_eligible reg = is_interactive reg || reg.receive_opt_in

abbrev pub is_some : Option Session → Bool
is_some none = false
is_some (some a) = true

abbrev pub is_live_interactive : Option Session → Bool
is_live_interactive none = false
is_live_interactive (some reg) = is_interactive reg

-- A claim: the file after it, and what is returned.
pub record Claim : Type 0 where
  pub file : Option IdentityLease
  pub owner : Bool
  pub epoch : ℕ
  pub failed : Bool

abbrev pub claimed : Option IdentityLease → Bool → ℕ → Bool → Claim
claimed file owner epoch failed = record {
  file = file;
  owner = owner;
  epoch = epoch;
  failed = failed;
}

abbrev pub released : IdentityLease → IdentityLease
released lease = record lease {
  instance_id = [];
  pid = 0;
  pid_start = [];
  claude_session_id = [];
  state = lit "released";
}

abbrev pub owned_by : Sessions → Session → ℕ → IdentityLease
owned_by ss reg epoch = record {
  boot_id = ss.boot_id;
  identity = reg.identity;
  instance_id = reg.instance_id;
  epoch = epoch;
  pid = reg.pid;
  pid_start = reg.pid_start;
  claude_session_id = reg.claude_session_id;
  state = lit "owned";
}

-- `writeAtomicJSON`: the old file or the new one.
abbrev pub written : Bool → IdentityLease → Option IdentityLease → Option IdentityLease
written fails lease old = if fails then old else some lease

-- The epoch that a claim goes on from.
abbrev pub current_epoch : Sessions → IdentityLease → ℕ
current_epoch ss lease =
    let epoch = if str_eq lease.boot_id ss.boot_id then lease.epoch else 0 in
    if epoch == 0 then 1 else epoch

abbrev pub is_owned_by : Sessions → Session → IdentityLease → Bool
is_owned_by ss reg lease =
    str_eq lease.instance_id reg.instance_id
    && (str_eq lease.boot_id ss.boot_id && str_eq lease.state (lit "owned"))

abbrev pub own : Sessions → Session → Bool → Option IdentityLease → ℕ → Claim
own ss reg write_fails file epoch =
    claimed (written write_fails (owned_by ss reg epoch) file) true epoch write_fails

-- `epoch++`, of a uint64.
abbrev pub next_epoch : ℕ → ℕ
next_epoch epoch = (epoch + 1) % 2 ^ 64

unfoldable pub take_over : Sessions → Session → Bool → Option IdentityLease → IdentityLease → Claim
take_over ss reg write_fails file lease =
    let epoch = current_epoch ss lease in
    if not (is_eligible reg)
    then claimed file false epoch true
    else if not (is_interactive reg) && is_live_interactive (live_owner ss lease)
    then claimed file false epoch true
    else own ss reg write_fails file
        (if str_eq lease.boot_id ss.boot_id && ltb 0 lease.epoch then next_epoch epoch else epoch)

-- A claim that leaves a live owner alone.
unfoldable pub claim_free : Sessions → Session → Bool → Option IdentityLease → IdentityLease → Claim
claim_free ss reg write_fails file lease =
    let epoch = current_epoch ss lease in
    if is_owned_by ss reg lease
    then (if is_eligible reg
        then own ss reg write_fails file epoch
        else claimed (written write_fails (released lease) file) false epoch write_fails)
    else if is_eligible reg && not (is_some (live_owner ss lease))
    then own ss reg write_fails file (
        if not (str_eq lease.instance_id [])
          || (str_eq lease.state (lit "released") || str_eq lease.boot_id ss.boot_id)
        then next_epoch epoch
        else epoch)
    else claimed file false epoch false

abbrev pub lease_of : Option IdentityLease → IdentityLease
lease_of none = zero_lease
lease_of (some lease) = lease

unfoldable pub claim_lease : Sessions → Session → Bool → Bool → Bool → Option IdentityLease → Claim
claim_lease ss reg takeover read_fails write_fails file =
    if read_fails
    then claimed file false 0 true
    else if takeover
    then take_over ss reg write_fails file (lease_of file)
    else claim_free ss reg write_fails file (lease_of file)

-- `runtimeRelease`, for one registration that is released.
unfoldable pub release_lease :
    Sessions → Session → Bool → Option IdentityLease → Option IdentityLease
release_lease ss reg write_fails none = none
release_lease ss reg write_fails (some lease) =
    if is_owned_by ss reg lease
    then written write_fails (released lease) (some lease)
    else some lease

unfoldable pub lease_needs_heal : IdentityLease → Session → Bool
lease_needs_heal lease reg =
    if not (str_eq lease.boot_id reg.boot_id)
      || (not (str_eq lease.state (lit "owned"))
          || (not (str_eq lease.instance_id reg.instance_id)
              || (not (lease.epoch == reg.lease_epoch)
                  || not (str_eq lease.claude_session_id reg.claude_session_id))))
    then false
    else not (lease.pid == reg.pid) || not (str_eq lease.pid_start reg.pid_start)

unfoldable pub heal_lease : Session → Bool → Option IdentityLease → Option IdentityLease
heal_lease reg write_fails none = none
heal_lease reg write_fails (some lease) =
    if leb reg.pid 1 || (str_eq reg.pid_start [] || reg.lease_epoch == 0)
    then some lease
    else if lease_needs_heal lease reg
    then written write_fails (record lease { pid = reg.pid; pid_start = reg.pid_start })
        (some lease)
    else some lease
