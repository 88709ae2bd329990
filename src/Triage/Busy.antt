-- ===== src/Triage/Busy.antt =====
-- How many of the queue and the workers of link/triage.go are on a letter.
use khala_network.Common.{
  ℕ, suc, ◌+◌, ◌≤◌, ◌≡◌, sym, subst, Str, str_eq, str_eq_sound, List, [], ◌∷◌, ◌++◌, Option, none,
  some, if◌then◌else◌, Bool, true, false, arith, ◌⊎◌, inl, inr, Bool-cases,
}
use khala_network.Triage.Engine.{TriageJob, key_of, Judging, TriageEngine, put}
use khala_network.Triage.Workers.{put_back, pick}

unfoldable pub jobs_on : Str → List TriageJob → ℕ
jobs_on key [] = 0
jobs_on key (j ∷ js) = let rest = jobs_on key js in if str_eq key (key_of j) then suc rest else rest

unfoldable pub workers_on : Str → List Judging → ℕ
workers_on key [] = 0
workers_on key (a ∷ as') =
    let rest = workers_on key as' in if str_eq key (key_of a.job) then suc rest else rest

abbrev pub one_if : Bool → ℕ
one_if b = if b then 1 else 0

-- A letter is queued or at a worker once at most, and only while it is in flight.
pub record IsExclusive (jobs : List TriageJob) (working : List Judging) (inflight : Str → Bool)
    : Type 0 where
  pub once : (key : Str) → jobs_on key jobs + workers_on key working ≤ one_if (inflight key)

abbrev pub Exclusive : TriageEngine → Type 0
Exclusive e = IsExclusive e.jobs e.working e.inflight

pub jobs_on-append :
    (key : Str) (js : List TriageJob) (j : TriageJob)
    → jobs_on key (js ++ (j ∷ [])) ≡ jobs_on key js + one_if (str_eq key (key_of j))
unfolding jobs_on
jobs_on-append key [] j = ground arith
jobs_on-append key (i ∷ js) j = ground (arith, jobs_on-append key js j)

-- A letter that is not in flight joins the queue.
pub queued-Exclusive :
    (job : TriageJob) (e : TriageEngine)
    → e.inflight (key_of job) ≡ false
    → Exclusive e
    → IsExclusive (e.jobs ++ (job ∷ [])) e.working (put (key_of job) true e.inflight)
queued-Exclusive job e idle x = record { once = joined }
  where
    joined :
        (key : Str)
        → jobs_on key (e.jobs ++ (job ∷ [])) + workers_on key e.working
          ≤ one_if (put (key_of job) true e.inflight key)
    joined key = elim (Bool-cases (str_eq key (key_of job))) [
      | inl e' ↦
          let idle' =
            subst (λ k. e.inflight k ≡ false) (sym (str_eq_sound key (key_of job) e')) idle in
          ground (arith, e', idle', x.once key, jobs_on-append key e.jobs job)
      | inr e' ↦ ground (arith, e', x.once key, jobs_on-append key e.jobs job)
    ]

-- A job leaves the queue and is given up, or goes to a worker.
pub given_up-Exclusive :
    (j : TriageJob) (js : List TriageJob) (working : List Judging) (inflight : Str → Bool)
    → IsExclusive (j ∷ js) working inflight
    → IsExclusive js working (put (key_of j) false inflight)
unfolding jobs_on
given_up-Exclusive j js working inflight x = record { once = λ key. ground (arith, x.once key) }

pub taken-Exclusive :
    (a : Judging) (js : List TriageJob) (working : List Judging) (inflight : Str → Bool)
    → IsExclusive (a.job ∷ js) working inflight
    → IsExclusive js (a ∷ working) inflight
unfolding jobs_on workers_on
taken-Exclusive a js working inflight x = record { once = λ key. ground (arith, x.once key) }

-- The worker that is picked is on the letter of the key.
pub data Picked (key : Str) : List Judging → Judging → List Judging → Type 0 where
  first : (a : Judging) (as' : List Judging) → key_of a.job ≡ key → Picked key (a ∷ as') a as'
  later :
      (a b : Judging) (as' rest : List Judging)
      → Picked key as' a rest
      → Picked key (b ∷ as') a (b ∷ rest)

pub data Picking (key : Str) (working : List Judging)
    : Option (Judging × List Judging) → Type 0 where
  unpicked : Picking key working none
  picked :
      (a : Judging) (rest : List Judging)
      → Picked key working a rest
      → Picking key working (some (a, rest))

put_back-Picking :
    (key : Str) (b : Judging) (working : List Judging) (o : Option (Judging × List Judging))
    → Picking key working o
    → Picking key (b ∷ working) (put_back b o)
put_back-Picking key b working none v = unpicked
put_back-Picking key b working (some (a, rest)) (picked _ _ p) =
    picked a (b ∷ rest) (later a b working rest p)

pub pick-Picking : (key : Str) (working : List Judging) → Picking key working (pick key working)
unfolding pick
pick-Picking key [] = unpicked
pick-Picking key (a ∷ working) =
    choose (Bool-cases (str_eq (key_of a.job) key))
      (put_back-Picking key a working _ (pick-Picking key working))
  where
    choose :
        (str_eq (key_of a.job) key ≡ true) ⊎ (str_eq (key_of a.job) key ≡ false)
        → Picking key (a ∷ working) (put_back a (pick key working))
        → Picking key (a ∷ working) (pick key (a ∷ working))
    choose (inl e) v = rw e (picked a working (first a working (str_eq_sound _ _ e)))
    choose (inr e) v = rw e v

pub key_of-Picked :
    (key : Str) (working : List Judging) (a : Judging) (rest : List Judging)
    → Picked key working a rest
    → key_of a.job ≡ key
key_of-Picked key [] a rest p = elim p [ ]
key_of-Picked key (a ∷ as') _ _ (first _ _ e) = e
key_of-Picked key (b ∷ as') a _ (later _ _ _ rest p) = key_of-Picked key as' a rest p

pub workers_on-Picked :
    (key : Str) (working : List Judging) (a : Judging) (rest : List Judging)
    → Picked key working a rest
    → (k : Str) → workers_on k working ≡ workers_on k rest + one_if (str_eq k key)
unfolding workers_on
workers_on-Picked key [] a rest p k = elim p [ ]
workers_on-Picked key (a ∷ as') _ _ (first _ _ e) k = rw (← e) (ground arith)
workers_on-Picked key (b ∷ as') a _ (later _ _ _ rest p) k =
    ground (arith, workers_on-Picked key as' a rest p k)

-- The worker on the letter of a key is done with it.
pub work_done-Exclusive :
    (key : Str) (jobs : List TriageJob) (working : List Judging) (inflight : Str → Bool)
    → IsExclusive jobs working inflight
    → (a : Judging) (rest : List Judging) → Picked key working a rest
    → IsExclusive jobs rest (put key false inflight)
work_done-Exclusive key jobs working inflight x a rest p = record { once = left }
  where
    left : (k : Str) → jobs_on k jobs + workers_on k rest ≤ one_if (put key false inflight k)
    left k = ground (arith, x.once k, workers_on-Picked key working a rest p k)
