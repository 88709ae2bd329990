-- ===== src/Gateway/Spacing.antt =====
-- How often `checkStatus` of link/gateway.go posts, and when it says that a session is stalled.
use khala_network.Common.{
  ℕ, ◌+◌, ◌≤◌, ◌≡◌, refl, List, [], ◌∷◌, Bool, true, false, arith, ◌⊎◌, inl, inr, Option-cases,
  subst, Str, Option, none, some,
}
use khala_network.Gateway.Status.{
  status_spacing, Kind, kind_eq, StatusRecord, Identity, Snapshot, View, find_identity,
  unread_since, identity_status, snapshot_status, Snapshots, identity_of, node_of, derive_status,
  announce, check_topic, announce_when,
}

-- What a topic is told in a run of checks, each at its time with the snapshots then on disk.
abbrev pub after_check : ℕ → Option View × StatusRecord → List (ℕ × Kind) → List (ℕ × Kind)
after_check now (some v, r) rest = (now, View.status v) ∷ rest
after_check now (none, r) rest = rest

unfoldable pub told : ℕ → Str → StatusRecord → List (ℕ × Snapshots) → List (ℕ × Kind)
told stall_after address r [] = []
told stall_after address r ((now, snapshots) ∷ rounds) =
    let checked = check_topic now stall_after address snapshots r in
    after_check now checked (told stall_after address checked.1 rounds)

-- Every status word differs from the one told before it, and comes at least five minutes after it;
-- a time of 0 means that none was told.
unfoldable pub Spaced : Kind → ℕ → List (ℕ × Kind) → Type 0
Spaced before at [] = Unit {0}
Spaced before at ((now, k) ∷ later) =
    (kind_eq k before ≡ false) × ((at ≡ 0) ⊎ (at + status_spacing ≤ now)) × Spaced k now later

unread_since-keeps :
    (now : ℕ) (i : Identity) (r : StatusRecord)
    → (StatusRecord.kind (unread_since now i r).1 ≡ StatusRecord.kind r)
      × (StatusRecord.at (unread_since now i r).1 ≡ StatusRecord.at r)
unread_since-keeps now i r = ground arith

identity_status-keeps :
    (now stall_after : ℕ) (i : Identity) (r : StatusRecord)
    → (StatusRecord.kind (identity_status now stall_after i r).1 ≡ StatusRecord.kind r)
      × (StatusRecord.at (identity_status now stall_after i r).1 ≡ StatusRecord.at r)
identity_status-keeps now stall_after i r = ground (arith, unread_since-keeps now i r)

snapshot_status-keeps :
    (now stall_after : ℕ) (name : Str) (s : Snapshot) (r : StatusRecord)
    → (StatusRecord.kind (snapshot_status now stall_after name s r).1 ≡ StatusRecord.kind r)
      × (StatusRecord.at (snapshot_status now stall_after name s r).1 ≡ StatusRecord.at r)
snapshot_status-keeps now stall_after name s r =
    split (Option-cases (find_identity name (Snapshot.identities s)))
  where
    split :
        (find_identity name (Snapshot.identities s) ≡ none)
          ⊎ ((i : Identity) × (find_identity name (Snapshot.identities s) ≡ some i))
        → (StatusRecord.kind (snapshot_status now stall_after name s r).1 ≡ StatusRecord.kind r)
          × (StatusRecord.at (snapshot_status now stall_after name s r).1 ≡ StatusRecord.at r)
    split (inl e) = ground (arith, e)
    split (inr (i, e)) = ground (arith, e, identity_status-keeps now stall_after i r)

derive_status-keeps :
    (now stall_after : ℕ) (address : Str) (snapshots : Snapshots) (r : StatusRecord)
    → (StatusRecord.kind (derive_status now stall_after address snapshots r).1
        ≡ StatusRecord.kind r)
      × (StatusRecord.at (derive_status now stall_after address snapshots r).1 ≡ StatusRecord.at r)
unfolding derive_status
derive_status-keeps now stall_after address snapshots r =
    split (Option-cases (snapshots (node_of address)))
  where
    split :
        (snapshots (node_of address) ≡ none)
          ⊎ ((s : Snapshot) × (snapshots (node_of address) ≡ some s))
        → (StatusRecord.kind (derive_status now stall_after address snapshots r).1
            ≡ StatusRecord.kind r)
          × (StatusRecord.at (derive_status now stall_after address snapshots r).1
              ≡ StatusRecord.at r)
    split (inl e) = rw (derive_status, e) (refl, refl)
    split (inr (s, e)) =
        rw (derive_status, e) (snapshot_status-keeps now stall_after (identity_of address) s r)

announce_when-Spaced :
    (now : ℕ) (v : View) (r' r : StatusRecord) (rest : List (ℕ × Kind)) (b : Bool)
    → (b ≡ true
        → (kind_eq (View.status v) (StatusRecord.kind r) ≡ false)
          × ((StatusRecord.at r ≡ 0) ⊎ (StatusRecord.at r + status_spacing ≤ now)))
    → StatusRecord.kind r' ≡ StatusRecord.kind r
    → StatusRecord.at r' ≡ StatusRecord.at r
    → Spaced
        (StatusRecord.kind (announce_when now v r' b).1)
        (StatusRecord.at (announce_when now v r' b).1)
        rest
    → Spaced
        (StatusRecord.kind r)
        (StatusRecord.at r)
        (after_check now (announce_when now v r' b) rest)
unfolding Spaced
announce_when-Spaced now v r' r rest true c k a h = ((c refl).0, (c refl).1, h)
announce_when-Spaced now v r' r rest false c k a h =
    subst (λ x. Spaced x (StatusRecord.at r) rest) k
      (subst (λ x. Spaced (StatusRecord.kind r') x rest) a h)

announce-Spaced :
    (now : ℕ) (d : (View × Bool) × StatusRecord) (r : StatusRecord) (rest : List (ℕ × Kind))
    → StatusRecord.kind d.1 ≡ StatusRecord.kind r
    → StatusRecord.at d.1 ≡ StatusRecord.at r
    → Spaced (StatusRecord.kind (announce now d).1) (StatusRecord.at (announce now d).1) rest
    → Spaced (StatusRecord.kind r) (StatusRecord.at r) (after_check now (announce now d) rest)
announce-Spaced now ((v, known), r') r rest k a h =
    announce_when-Spaced now v r' r rest _ (λ e. ground (arith, e, k, a)) k a h

-- Whatever the snapshots say at the checks, a topic is told a status only when it differs from the
-- one told last and that was at least five minutes earlier.
pub told-Spaced :
    (stall_after : ℕ) (address : Str) (r : StatusRecord) (rounds : List (ℕ × Snapshots))
    → Spaced (StatusRecord.kind r) (StatusRecord.at r) (told stall_after address r rounds)
unfolding told Spaced check_topic
told-Spaced stall_after address r [] = tt
told-Spaced stall_after address r ((now, snapshots) ∷ rounds) =
    announce-Spaced now (derive_status now stall_after address snapshots r) r
      (told stall_after address (announce now (derive_status now stall_after address snapshots r)).1
        rounds)
      (derive_status-keeps now stall_after address snapshots r).0
      (derive_status-keeps now stall_after address snapshots r).1
      (told-Spaced stall_after address
        (announce now (derive_status now stall_after address snapshots r)).1 rounds)
