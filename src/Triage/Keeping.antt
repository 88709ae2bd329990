-- ===== src/Triage/Keeping.antt =====
-- The steps of link/triage.go keep a letter that there is an answer for.
use khala_network.Common.{
  ℕ, ◌≡◌, sym, subst, ◌∙◌, Str, str_eq, lit, List, [], ◌∷◌, Option, none, some, Result, ok, err,
  if◌then◌else◌, Bool, true, false, arith,
}
use khala_network.Triage.Conf.{TriageConf}
use khala_network.Triage.Letters.{Nouls, TriageEntry, AskError, triage_tag, ask_until}
use khala_network.Triage.Engine.{
  Message, TriageMemo, TriageJob, key_of, Judging, TriageEngine, put, give_up, begin_judging,
  start_judging, take_from, unseen, if_seen,
}
use khala_network.Triage.Workers.{
  Replies, remember, write_tag, store, failure_of, judgment_of, store_failure, store_judgment,
  write_cache, or_conf, conclude, pick, finish_picked, finish_job,
}
use khala_network.Triage.Busy.{
  jobs_on, workers_on, Picked, Picking, picked, pick-Picking, workers_on-Picked, key_of-Picked,
}
use khala_network.Triage.Settled.{Known, Held, other_key}

module _ (sha256 : Str → Str) (key digest : Str) (entry : TriageEntry) where
  abbrev Held' : TriageEngine → Type 0
  Held' e = Held sha256 key digest entry e

  pub unseen-Known :
      (o : Option TriageMemo)
      → Known sha256 key digest entry o
      → Known sha256 key digest entry (unseen o)
  unseen-Known none n = tt
  unseen-Known (some m) n = record { kind = n.kind; digest_kept = n.digest_kept; answer = n.answer }

  pub if_seen-Known :
      (o : Option TriageMemo)
      → Known sha256 key digest entry o
      → Known sha256 key digest entry (if_seen o)
  if_seen-Known none n = tt
  if_seen-Known (some m) n = by m.seen
    where
      by : (b : Bool) → Known sha256 key digest entry (if b then some m else none)
      by true = n
      by false = tt

  given_up-Held :
      (j : TriageJob) (js : List TriageJob) (e : TriageEngine)
      → jobs_on key (j ∷ js) ≡ 0
      → Held' e
      → Held' (give_up j js e)
  unfolding jobs_on
  given_up-Held j js e q h = record {
    unqueued = ground (arith, q);
    unasked = h.unasked;
    cached_answer = h.cached_answer;
    known = h.known;
  }

  begun-Held :
      (a : Judging) (js : List TriageJob) (e : TriageEngine)
      → jobs_on key (a.job ∷ js) ≡ 0
      → Held' e
      → Held' (begin_judging a js e)
  unfolding jobs_on workers_on
  begun-Held a js e q h = record {
    unqueued = ground (arith, q);
    unasked = ground (arith, q, h.unasked);
    cached_answer = h.cached_answer;
    known = h.known;
  }

  Held-if : (b : Bool) (x y : TriageEngine) → Held' x → Held' y → Held' (if b then x else y)
  Held-if true x y p q = p
  Held-if false x y p q = q

  start_judging-Held :
      (now : ℕ) (j : TriageJob) (js : List TriageJob) (e : TriageEngine) (conf : Option TriageConf)
      (message : Option Message)
      → jobs_on key (j ∷ js) ≡ 0
      → Held' e
      → Held' (start_judging sha256 now j js e conf message)
  start_judging-Held now j js e none message q h = given_up-Held j js e q h
  start_judging-Held now j js e (some c) none q h = given_up-Held j js e q h
  start_judging-Held now j js e (some c) (some msg) q h =
      Held-if (str_eq msg.kind (lit "message")) _ _ (begun-Held _ js e q h)
        (given_up-Held j js e q h)

  pub take_from-Held :
      (now : ℕ) (message : Option Message) (e : TriageEngine) (js : List TriageJob)
      → jobs_on key js ≡ 0
      → Held' e
      → Held' (take_from sha256 now message e js)
  take_from-Held now message e [] q h = h
  take_from-Held now message e (j ∷ js) q h = start_judging-Held now j js e e.conf message q h

  -- A judgment of another letter.
  module _ (other : Str) (distinct : str_eq key other ≡ false) where
    remember-Held : (a : TriageEntry) (e : TriageEngine) → Held' e → Held' (remember other a e)
    unfolding remember
    remember-Held a e h = record {
      unqueued = h.unqueued;
      unasked = h.unasked;
      cached_answer = h.cached_answer;
      known =
          subst (Known sha256 key digest entry)
            (sym (other_key sha256 key digest entry other _ e.memo distinct)) h.known;
    }

    write_tag-Held :
        (fails : Bool) (tag : Str) (e : TriageEngine)
        → Held' e
        → Held' (write_tag fails other tag e)
    unfolding write_tag
    write_tag-Held fails tag e h = Held-if fails e _ h (record {
      unqueued = h.unqueued;
      unasked = h.unasked;
      cached_answer = h.cached_answer;
      known =
          subst (Known sha256 key digest entry)
            (sym (other_key sha256 key digest entry other _ e.memo distinct)) h.known;
    })

    store-Held :
        (fails : Bool) (a : TriageEntry) (tag : Str) (e : TriageEngine)
        → Held' e
        → Held' (store fails other a tag e)
    unfolding store
    store-Held fails a tag e h = write_tag-Held fails tag (remember other a e) (remember-Held a e h)

    cached-Held :
        (fails : Bool) (a : TriageEntry) (e : TriageEngine)
        → Held' e
        → Held' (write_cache fails other a e)
    cached-Held true a e h = h
    cached-Held false a e h = record {
      unqueued = h.unqueued;
      unasked = h.unasked;
      cached_answer =
          other_key sha256 key digest entry other (some a) e.cache distinct ∙ h.cached_answer;
      known = h.known;
    }

  conclude-Held :
      (a : Judging) (f : Replies) (verdict : Option (Result AskError Nouls)) (e : TriageEngine)
      → str_eq key (key_of a.job) ≡ false
      → Held' e
      → Held' (conclude a f verdict e)
  unfolding conclude store_failure store_judgment
  conclude-Held a f none e d h = h
  conclude-Held a f (some (err why)) e d h =
      let answer = failure_of a why in
      store-Held (key_of a.job) d f.tag_write_fails answer []
        (write_cache f.cache_write_fails (key_of a.job) answer e)
        (cached-Held (key_of a.job) d f.cache_write_fails answer e h)
  conclude-Held a f (some (ok nouls)) e d h =
      let answer = judgment_of a nouls in
      Held-if f.cache_write_fails e (store_judgment a f nouls e) h (
        store-Held (key_of a.job) d f.tag_write_fails answer
          (triage_tag answer (or_conf e.conf a.conf)) (write_cache false (key_of a.job) answer e)
          (cached-Held (key_of a.job) d false answer e h))

  work_done-Held :
      (other : Str) (a : Judging) (rest : List Judging) (e : TriageEngine)
      → Picked other e.working a rest
      → Held' e
      → (str_eq key (key_of a.job) ≡ false)
        × Held' (record e { working = rest; inflight = put other false e.inflight })
  work_done-Held other a rest e p h =
      let on = workers_on-Picked other e.working a rest p key in
      let k = key_of-Picked other e.working a rest p in
      (
        subst (λ s. str_eq key s ≡ false) (sym k) (ground (arith, on, h.unasked)),
        record {
          unqueued = h.unqueued;
          unasked = ground (arith, on, h.unasked);
          cached_answer = h.cached_answer;
          known = h.known;
        },
      )

  finish_picked-Held :
      (other : Str) (f : Replies) (e : TriageEngine) (o : Option (Judging × List Judging))
      → Picking other e.working o
      → Held' e
      → Held' (finish_picked other f e o)
  unfolding finish_picked
  finish_picked-Held other f e none v h = h
  finish_picked-Held other f e (some (a, rest)) (picked _ _ p) h =
      let (d, h') = work_done-Held other a rest e p h in
      conclude-Held a f (ask_until f.responses).verdict _ d h'

  pub finish_job-Held :
      (other : Str) (f : Replies) (e : TriageEngine) → Held' e → Held' (finish_job other f e)
  unfolding finish_job
  finish_job-Held other f e h =
      finish_picked-Held other f e (pick other e.working) (pick-Picking other e.working) h
