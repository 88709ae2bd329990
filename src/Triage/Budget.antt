-- ===== src/Triage/Budget.antt =====
-- The hourly budget of link/triage.go.
use khala_network.Common.{
  ℕ, ◌≤◌, ◌≡◌, refl, sym, subst, ap, Str, List, [], ◌∷◌, ◌++◌, Option, arith,
}
use khala_network.Rolling.{count, in_window, Within}
use khala_network.Triage.Engine.{hour, TriageJob, TriageEngine}
use khala_network.Triage.Workers.{
  Event, refreshed, begun, looked, ended, collected, taken, judged, restarted, step,
}
use khala_network.Triage.Reservations.{
  sent_at, Allows, IsBudgeted, Unspent, append_nil, observe_on-Spent, take_job-Unspent,
  finish_job-Unspent,
}

abbrev pub sent_by : Event → Option TriageJob → List ℕ
sent_by (looked k) j = sent_at k.now j
sent_by _ j = []

-- The times at which letters are given to the workers.
unfoldable pub requests : (Str → Str) → List Event → TriageEngine → List ℕ
unfolding step
requests sha256 [] e = []
requests sha256 (event ∷ events) e =
    let o = step sha256 event e in sent_by event o.submitted ++ requests sha256 events o.engine

-- The clock does not go back between looks, the budget of each conf is at most the limit, and the
-- engine is not started anew.
abbrev pub Timely : ℕ → ℕ → List Event → Type 0
Timely limit before [] = Unit
Timely limit before (looked k ∷ events) = (before ≤ k.now) × Timely limit k.now events
Timely limit before (refreshed conf ∷ events) = Allows limit conf × Timely limit before events
Timely limit before (restarted ∷ events) = ⊥
Timely limit before (begun ∷ events) = Timely limit before events
Timely limit before (ended ∷ events) = Timely limit before events
Timely limit before (collected keep ∷ events) = Timely limit before events
Timely limit before (taken now message ∷ events) = Timely limit before events
Timely limit before (judged key f ∷ events) = Timely limit before events

append_assoc : (xs ys zs : List ℕ) → (xs ++ ys) ++ zs ≡ xs ++ (ys ++ zs)
append_assoc [] ys zs = refl
append_assoc (x ∷ xs) ys zs = ap (◌∷◌ x) (append_assoc xs ys zs)

-- An engine of which the reservations stand for the letters sent, and the conf is within the limit.
record Ready (limit before : ℕ) (sent : List ℕ) (e : TriageEngine) : Type 0 where
  budgeted : IsBudgeted limit before e.asked sent
  allows : Allows limit e.conf

same-Ready :
    {limit before : ℕ} {sent : List ℕ} {e e' : TriageEngine}
    → Unspent e e'
    → Ready limit before sent e
    → Ready limit before sent e'
same-Ready {limit = limit} {before = before} {sent = sent} u r = record {
  budgeted = subst (λ asked. IsBudgeted limit before asked sent) (sym u.same_asked) r.budgeted;
  allows = subst (Allows limit) (sym u.same_conf) r.allows;
}

requests-Within :
    {limit before : ℕ} (sha256 : Str → Str) (sent : List ℕ) (events : List Event) (e : TriageEngine)
    → Ready limit before sent e
    → Timely limit before events
    → Within limit hour (sent ++ requests sha256 events e)
unfolding requests step
requests-Within {limit = limit} sha256 sent [] e r t =
    subst (Within limit hour) (sym (append_nil sent)) r.budgeted.within
requests-Within {limit = limit} {before = before} sha256 sent (looked k ∷ events) e r (h, t) =
    let o = step sha256 (looked k) e in
    let s = observe_on-Spent sha256 limit before sent k e.conf e r.allows h r.budgeted in
    subst (Within limit hour) (append_assoc sent (sent_at k.now o.submitted) _) (
      requests-Within {before = k.now} sha256 (sent ++ sent_at k.now o.submitted) events o.engine
        (record { budgeted = s.budgeted; allows = subst (Allows limit) (sym s.same_conf) r.allows })
        t)
requests-Within sha256 sent (refreshed conf ∷ events) e r (a, t) =
    requests-Within sha256 sent events _ (record { budgeted = r.budgeted; allows = a }) t
requests-Within sha256 sent (begun ∷ events) e r t =
    requests-Within sha256 sent events _ (record { budgeted = r.budgeted; allows = r.allows }) t
requests-Within sha256 sent (ended ∷ events) e r t =
    requests-Within sha256 sent events _ (record { budgeted = r.budgeted; allows = r.allows }) t
requests-Within sha256 sent (collected keep ∷ events) e r t =
    requests-Within sha256 sent events _ (record { budgeted = r.budgeted; allows = r.allows }) t
requests-Within sha256 sent (taken now message ∷ events) e r t =
    requests-Within sha256 sent events _ (same-Ready (take_job-Unspent sha256 now message e) r) t
requests-Within sha256 sent (judged key f ∷ events) e r t =
    requests-Within sha256 sent events _ (same-Ready (finish_job-Unspent key f e) r) t
requests-Within sha256 sent (restarted ∷ events) e r t = absurd t

-- From an engine that has reserved nothing yet, and whatever the letters, the replies and the order of
-- the steps are: no more letters than the limit are given to the workers within any hour, whenever the
-- hour begins. Each conf that is read allows the limit at most, the clock does not go back, and the
-- engine is not started anew.
pub requests_bounded :
    (limit before : ℕ) (sha256 : Str → Str) (events : List Event) (e : TriageEngine)
    → e.asked ≡ []
    → Allows limit e.conf
    → Timely limit before events
    → (b : ℕ) → count (in_window hour b) (requests sha256 events e) ≤ limit
requests_bounded limit before sha256 events e none_asked a t =
    requests-Within sha256 [] events e
      (record {
        budgeted =
            subst (λ asked. IsBudgeted limit before asked []) (sym none_asked)
              (record { tracks = λ later g. refl; within = λ b. omega arith });
        allows = a;
      })
      t
