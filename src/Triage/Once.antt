-- ===== src/Triage/Once.antt =====
-- A letter that link/triage.go has an answer for is not asked about again.
use khala_network.Common.{
  ◌≡◌, refl, sym, subst, ap, ◌∙◌, Str, str_eq_refl, lit, List, [], ◌∷◌, Option, none, some, Result,
  ok, err, if◌then◌else◌, Bool, true, false, arith,
}
use khala_network.Triage.Letters.{Nouls, TriageEntry, AskError, triage_tag, ask_until}
use khala_network.Triage.Engine.{
  TriageMemo, TriageJob, key_of, Judging, TriageEngine, put, take_job,
}
use khala_network.Triage.Workers.{
  Replies, with_entry, with_tag, remember, write_tag, store, failure_of, judgment_of, store_failure,
  store_judgment, write_cache, or_conf, conclude, pick, finish_picked, finish_job, Event, refreshed,
  begun, looked, ended, collected, taken, judged, restarted, restart, step,
}
use khala_network.Triage.Busy.{
  jobs_on, workers_on, Exclusive, Picked, Picking, picked, pick-Picking, workers_on-Picked,
}
use khala_network.Triage.Settled.{Known, Held, Silent, Looks, observe_on-Stays}
use khala_network.Triage.Keeping.{unseen-Known, if_seen-Known, take_from-Held, finish_job-Held}

abbrev pub onto : Option TriageJob → List TriageJob → List TriageJob
onto none js = js
onto (some j) js = j ∷ js

-- The letters given to the workers.
unfoldable pub submissions : (Str → Str) → List Event → TriageEngine → List TriageJob
unfolding step
submissions sha256 [] e = []
submissions sha256 (event ∷ events) e =
    let o = step sha256 event e in onto o.submitted (submissions sha256 events o.engine)

-- The letter stays where it is and is read as the same state while its answer stands, and its files are
-- kept.
abbrev pub Quiet : (Str → Str) → Str → Str → TriageEntry → List Event → Type 0
Quiet sha256 key digest entry [] = Unit
Quiet sha256 key digest entry (looked k ∷ events) =
    Looks sha256 key digest entry k × Quiet sha256 key digest entry events
Quiet sha256 key digest entry (collected keep ∷ events) =
    (keep key ≡ true) × Quiet sha256 key digest entry events
Quiet sha256 key digest entry (_ ∷ events) = Quiet sha256 key digest entry events

module _ (sha256 : Str → Str) (key digest : Str) (entry : TriageEntry) where
  onto-jobs_on :
      (o : Option TriageJob) (js : List TriageJob)
      → Silent sha256 key digest entry o
      → jobs_on key js ≡ 0
      → jobs_on key (onto o js) ≡ 0
  unfolding jobs_on
  onto-jobs_on none js s q = q
  onto-jobs_on (some j) js s q = ground (arith, s, q)

  kept-cached :
      (b : Bool) (o : Option TriageEntry)
      → b ≡ true
      → o ≡ some entry
      → (if b then o else none) ≡ some entry
  kept-cached b o e f = rw (e, f) refl

  held-Silent :
      (events : List Event) (e : TriageEngine)
      → Held sha256 key digest entry e
      → Quiet sha256 key digest entry events
      → jobs_on key (submissions sha256 events e) ≡ 0
  unfolding submissions step take_job restart jobs_on workers_on
  held-Silent [] e h q = refl
  held-Silent (looked k ∷ events) e h (l, q) =
      let s = observe_on-Stays sha256 key digest entry k e.conf e l h in
      onto-jobs_on _ _ s.silent (held-Silent events _ s.held q)
  held-Silent (collected keep ∷ events) e h (kept, q) =
      held-Silent events _
        (record {
          unqueued = h.unqueued;
          unasked = h.unasked;
          cached_answer = kept-cached (keep key) (e.cache key) kept h.cached_answer;
          known = h.known;
        })
        q
  held-Silent (refreshed conf ∷ events) e h q = held-Silent events (record e { conf = conf }) h q
  held-Silent (begun ∷ events) e h q =
      held-Silent events _
        (record {
          unqueued = h.unqueued;
          unasked = h.unasked;
          cached_answer = h.cached_answer;
          known = unseen-Known sha256 key digest entry (e.memo key) h.known;
        })
        q
  held-Silent (ended ∷ events) e h q =
      held-Silent events _
        (record {
          unqueued = h.unqueued;
          unasked = h.unasked;
          cached_answer = h.cached_answer;
          known = if_seen-Known sha256 key digest entry (e.memo key) h.known;
        })
        q
  held-Silent (taken now message ∷ events) e h q =
      held-Silent events _
        (take_from-Held sha256 key digest entry now message e e.jobs h.unqueued h) q
  held-Silent (judged other f ∷ events) e h q =
      held-Silent events _ (finish_job-Held sha256 key digest entry other f e h) q
  held-Silent (restarted ∷ events) e h q =
      held-Silent events (restart e)
        (record { unqueued = refl; unasked = refl; cached_answer = h.cached_answer; known = tt }) q

-- The entry that a judgment leaves, by how its requests ended.
abbrev pub answer_of : Judging → Result AskError Nouls → TriageEntry
answer_of a (ok nouls) = judgment_of a nouls
answer_of a (err why) = failure_of a why

-- A memo, if there is one, of a message in the state of the digest.
pub record IsUnchanged (digest : Str) (m : TriageMemo) : Type 0 where
  pub kind : m.kind ≡ lit "message"
  pub digest_kept : m.digest ≡ digest

abbrev pub Unchanged : Str → Option TriageMemo → Type 0
Unchanged digest none = Unit
Unchanged digest (some m) = IsUnchanged digest m

own_key : {A : Type 0} (k : Str) (a : A) (f : Str → A) → put k a f k ≡ a
own_key k a f = ap (λ b. if b then a else f k) (str_eq_refl k)

module _ (sha256 : Str → Str) (key digest : Str) (entry : TriageEntry) where
  with_entry-Known :
      (o : Option TriageMemo)
      → Unchanged digest o
      → Known sha256 key digest entry (with_entry entry o)
  with_entry-Known none u = tt
  with_entry-Known (some m) u = record { kind = u.kind; digest_kept = u.digest_kept; answer = refl }

  with_tag-Known :
      (tag : Str) (o : Option TriageMemo)
      → Known sha256 key digest entry o
      → Known sha256 key digest entry (with_tag tag o)
  with_tag-Known tag none n = tt
  with_tag-Known tag (some m) n = record {
    kind = n.kind;
    digest_kept = n.digest_kept;
    answer = n.answer;
  }

  -- The letter that was judged, as its judgment is stored.
  record Stored (e : TriageEngine) : Type 0 where
    unqueued : jobs_on key e.jobs ≡ 0
    unasked : workers_on key e.working ≡ 0
    unchanged : Unchanged digest (e.memo key)

  remember-Held :
      (e : TriageEngine)
      → Stored e
      → Held sha256 key digest entry (remember key entry (write_cache false key entry e))
  unfolding remember
  remember-Held e s = record {
    unqueued = s.unqueued;
    unasked = s.unasked;
    cached_answer = own_key key (some entry) e.cache;
    known =
        subst (Known sha256 key digest entry)
          (sym (own_key key (with_entry entry (e.memo key)) e.memo))
          (with_entry-Known (e.memo key) s.unchanged);
  }

  write_tag-Held :
      (fails : Bool) (tag : Str) (e : TriageEngine)
      → Held sha256 key digest entry e
      → Held sha256 key digest entry (write_tag fails key tag e)
  unfolding write_tag
  write_tag-Held true tag e h = h
  write_tag-Held false tag e h = record {
    unqueued = h.unqueued;
    unasked = h.unasked;
    cached_answer = h.cached_answer;
    known =
        subst (Known sha256 key digest entry) (sym (own_key key (with_tag tag (e.memo key)) e.memo))
          (with_tag-Known tag (e.memo key) h.known);
  }

conclude-Held :
    (sha256 : Str → Str) (a : Judging) (f : Replies) (r : Result AskError Nouls) (e : TriageEngine)
    (digest : Str)
    → f.cache_write_fails ≡ false
    → Stored sha256 (key_of a.job) digest (answer_of a r) e
    → Held sha256 (key_of a.job) digest (answer_of a r) (conclude a f (some r) e)
unfolding conclude store_failure store_judgment store
conclude-Held sha256 a f (ok nouls) e digest w s = rw w (
    write_tag-Held sha256 (key_of a.job) digest (judgment_of a nouls) f.tag_write_fails
      (triage_tag (judgment_of a nouls) (or_conf e.conf a.conf)) _
      (remember-Held sha256 _ digest _ e s))
conclude-Held sha256 a f (err why) e digest w s = rw w (
    write_tag-Held sha256 (key_of a.job) digest (failure_of a why) f.tag_write_fails [] _
      (remember-Held sha256 _ digest _ e s))

Picking-Picked :
    (key : Str) (working : List Judging) (a : Judging) (rest : List Judging)
    → Picking key working (some (a, rest))
    → Picked key working a rest
Picking-Picked key working a rest (picked _ _ p) = p

-- A letter that a worker is on is nowhere else.
work_done-Stored :
    (sha256 : Str → Str) (key digest : Str) (entry : TriageEntry) (e : TriageEngine) (a : Judging)
    (rest : List Judging)
    → Exclusive e
    → Picked key e.working a rest
    → Unchanged digest (e.memo key)
    → Stored sha256 key digest entry
        (record e { working = rest; inflight = put key false e.inflight })
work_done-Stored sha256 key digest entry e a rest x p u =
    let on = workers_on-Picked key e.working a rest p key in
    let once = x.once key in
    record {
      unqueued = ground (arith, on, once, str_eq_refl key);
      unasked = ground (arith, on, once, str_eq_refl key);
      unchanged = u;
    }

-- A letter that a worker has judged, or failed to, is not given to the workers again while its answer
-- stands: that of a judgment for as long as the letter is read as the same state, and that of a failure
-- for ten minutes. The answer was cached, the letter is not changed meanwhile, its files are kept, and
-- the engine may do what it will with other letters and be started anew.
pub judged-once :
    (sha256 : Str → Str) (e : TriageEngine) (digest : Str) (a : Judging) (rest : List Judging)
    (f : Replies) (r : Result AskError Nouls) (events : List Event)
    → Exclusive e
    → pick (key_of a.job) e.working ≡ some (a, rest)
    → (ask_until f.responses).verdict ≡ some r
    → f.cache_write_fails ≡ false
    → Unchanged digest (e.memo (key_of a.job))
    → Quiet sha256 (key_of a.job) digest (answer_of a r) events
    → jobs_on (key_of a.job) (submissions sha256 events (finish_job (key_of a.job) f e)) ≡ 0
unfolding finish_job finish_picked
judged-once sha256 e digest a rest f r events x at_work ended_with written u q =
    let key = key_of a.job in
    let view = subst (Picking key e.working) at_work (pick-Picking key e.working) in
    let stored =
      work_done-Stored sha256 key digest (answer_of a r) e a rest x
        (Picking-Picked key _ a rest view) u in
    let e' = record e { working = rest; inflight = put key false e.inflight } in
    let held = conclude-Held sha256 a f r e' digest written stored in
    let silent =
      held-Silent sha256 key digest (answer_of a r) events (conclude a f (some r) e') held q in
    let finished = ap (finish_picked key f e) at_work ∙ ap (λ v. conclude a f v e') ended_with in
    subst (λ e. jobs_on key (submissions sha256 events e) ≡ 0) (sym finished) silent
