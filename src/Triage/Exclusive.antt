-- ===== src/Triage/Exclusive.antt =====
-- No letter is judged twice at a time in link/triage.go.
use khala_network.Common.{
  ℕ, ◌≡◌, refl, Str, lit, str_eq, List, [], ◌∷◌, Option, none, some, Result, ok, err, if◌then◌else◌,
  Bool, true, false, not, arith, ◌||◌,
}
use khala_network.Triage.Conf.{TriageConf}
use khala_network.Triage.Letters.{Nouls, TriageEntry, AskError, ask_until, triage_tag}
use khala_network.Triage.Engine.{
  Message, TriageMemo, TriageJob, key_of, Judging, TriageEngine, Look, Observed, observed, placed,
  submit, retag, submit_idle, decide_by, decide, see, observe_memo, observe, take_job,
  start_judging, take_from, current_memo, is_settled,
}
use khala_network.Triage.Workers.{
  Replies, remember, write_tag, store, failure_of, judgment_of, write_cache, store_failure,
  store_judgment, conclude, finish_picked, finish_job, Event, refreshed, begun, looked, ended,
  collected, taken, judged, restarted, restart, observe_on, step, run,
}
use khala_network.Triage.Busy.{
  jobs_on, workers_on, IsExclusive, Exclusive, queued-Exclusive, given_up-Exclusive,
  taken-Exclusive, Picking, picked, pick-Picking, work_done-Exclusive,
}

Exclusive-if :
    (b : Bool) (e e' : TriageEngine) → Exclusive e → Exclusive e' → Exclusive (if b then e else e')
Exclusive-if true e e' x y = x
Exclusive-if false e e' x y = y

record Keeps (o : Observed) : Type 0 where
  keeps : Exclusive o.engine

Keeps-if :
    (b : Bool) (x y : Observed) → Keeps x → (b ≡ false → Keeps y) → Keeps (if b then x else y)
Keeps-if true x y p q = p
Keeps-if false x y p q = q refl

keep : {e : TriageEngine} {o : Option TriageJob} → Exclusive e → Keeps (observed e o)
keep x = record { keeps = x }

placed-Keeps :
    (job : TriageJob) (e : TriageEngine) (granted : Bool) (asked : List ℕ) (room : Bool)
    → e.inflight (key_of job) ≡ false
    → Exclusive e
    → Keeps (placed job e granted asked room)
placed-Keeps job e false asked room idle x = keep x
placed-Keeps job e true asked false idle x = keep x
placed-Keeps job e true asked true idle x = keep (queued-Exclusive job e idle x)

submit-Keeps :
    (c : TriageConf) (now : ℕ) (job : TriageJob) (e : TriageEngine)
    → e.inflight (key_of job) ≡ false
    → Exclusive e
    → Keeps (submit c now job e)
unfolding submit
submit-Keeps c now job e idle x = placed-Keeps job e _ _ _ idle x

submit_idle-Keeps :
    (k : Look) (c : TriageConf) (e : TriageEngine) → Exclusive e → Keeps (submit_idle k c e)
unfolding submit_idle
submit_idle-Keeps k c e x =
    Keeps-if (e.inflight (key_of k.letter)) _ _ (keep x)
      (λ idle. submit-Keeps c k.now k.letter e idle x)

retag-Exclusive :
    (k : Look) (c : TriageConf) (m : TriageMemo) (entry : TriageEntry) (e : TriageEngine)
    → Exclusive e
    → Exclusive (retag k c m entry e)
unfolding retag
retag-Exclusive k c m entry e x =
    Exclusive-if
      (not (str_eq entry.error [])
        || str_eq (triage_tag entry c) m.tag_on_disk
        || k.tag_write_fails)
      e _ x x

decide_by-Keeps :
    (k : Look) (c : TriageConf) (m : TriageMemo) (e : TriageEngine) (o : Option TriageEntry)
    → Exclusive e
    → Keeps (decide_by k c m e o)
unfolding decide_by
decide_by-Keeps k c m e none x = submit_idle-Keeps k c e x
decide_by-Keeps k c m e (some entry) x =
    Keeps-if (is_settled k.now m.digest entry) _ _ (keep (retag-Exclusive k c m entry e x))
      (λ _. submit_idle-Keeps k c e x)

observe_memo-Keeps :
    (c : TriageConf) (k : Look) (e : TriageEngine) (o : Option TriageMemo)
    → Exclusive e
    → Keeps (observe_memo c k e o)
unfolding decide
observe_memo-Keeps c k e none x = keep x
observe_memo-Keeps c k e (some m) x =
    Keeps-if (not (str_eq m.kind (lit "message"))) _ _ (keep x)
      (λ _. decide_by-Keeps k c (see m) _ m.entry x)

observe_on-Keeps :
    (sha256 : Str → Str) (o : Option TriageConf) (k : Look) (e : TriageEngine)
    → Exclusive e
    → Keeps (observe_on sha256 o k e)
unfolding observe_on observe
observe_on-Keeps sha256 none k e x = keep x
observe_on-Keeps sha256 (some c) k e x = observe_memo-Keeps c k e (current_memo sha256 e k) x

start_judging-Exclusive :
    (sha256 : Str → Str) (now : ℕ) (j : TriageJob) (js : List TriageJob) (e : TriageEngine)
    (conf : Option TriageConf) (message : Option Message)
    → IsExclusive (j ∷ js) e.working e.inflight
    → Exclusive (start_judging sha256 now j js e conf message)
start_judging-Exclusive sha256 now j js e none message x = given_up-Exclusive j js _ _ x
start_judging-Exclusive sha256 now j js e (some c) none x = given_up-Exclusive j js _ _ x
start_judging-Exclusive sha256 now j js e (some c) (some msg) x =
    Exclusive-if (str_eq msg.kind (lit "message")) _ _ (taken-Exclusive _ js _ _ x)
      (given_up-Exclusive j js _ _ x)

take_from-Exclusive :
    (sha256 : Str → Str) (now : ℕ) (message : Option Message) (e : TriageEngine)
    (js : List TriageJob)
    → Exclusive e
    → IsExclusive js e.working e.inflight
    → Exclusive (take_from sha256 now message e js)
take_from-Exclusive sha256 now message e [] x y = x
take_from-Exclusive sha256 now message e (j ∷ js) x y =
    start_judging-Exclusive sha256 now j js e e.conf message y

take_job-Exclusive :
    (sha256 : Str → Str) (now : ℕ) (message : Option Message) (e : TriageEngine)
    → Exclusive e
    → Exclusive (take_job sha256 now message e)
unfolding take_job
take_job-Exclusive sha256 now message e x = take_from-Exclusive sha256 now message e e.jobs x x

store-Exclusive :
    (fails : Bool) (key : Str) (entry : TriageEntry) (tag : Str) (e : TriageEngine)
    → Exclusive e
    → Exclusive (store fails key entry tag e)
unfolding store remember write_tag
store-Exclusive fails key entry tag e x = Exclusive-if fails _ _ x x

conclude-Exclusive :
    (a : Judging) (f : Replies) (verdict : Option (Result AskError Nouls)) (e : TriageEngine)
    → Exclusive e
    → Exclusive (conclude a f verdict e)
unfolding conclude store_failure store_judgment
conclude-Exclusive a f none e x = x
conclude-Exclusive a f (some (err why)) e x =
    store-Exclusive f.tag_write_fails (key_of a.job) (failure_of a why) []
      (write_cache f.cache_write_fails (key_of a.job) (failure_of a why) e) x
conclude-Exclusive a f (some (ok nouls)) e x =
    let e' = write_cache false (key_of a.job) (judgment_of a nouls) e in
    Exclusive-if f.cache_write_fails e (store_judgment a f nouls e) x
      (store-Exclusive f.tag_write_fails (key_of a.job) (judgment_of a nouls) _ e' x)

finish_picked-Exclusive :
    (key : Str) (f : Replies) (e : TriageEngine) (o : Option (Judging × List Judging))
    → Picking key e.working o
    → Exclusive e
    → Exclusive (finish_picked key f e o)
unfolding finish_picked
finish_picked-Exclusive key f e none v x = x
finish_picked-Exclusive key f e (some (a, rest)) (picked _ _ p) x =
    conclude-Exclusive a f (ask_until f.responses).verdict _
      (work_done-Exclusive key e.jobs e.working e.inflight x a rest p)

finish_job-Exclusive :
    (key : Str) (f : Replies) (e : TriageEngine) → Exclusive e → Exclusive (finish_job key f e)
unfolding finish_job
finish_job-Exclusive key f e x = finish_picked-Exclusive key f e _ (pick-Picking key e.working) x

pub step-Keeps :
    (sha256 : Str → Str) (event : Event) (e : TriageEngine)
    → Exclusive e
    → Exclusive (step sha256 event e).engine
unfolding step restart jobs_on workers_on
step-Keeps sha256 (refreshed conf) e x = x
step-Keeps sha256 begun e x = x
step-Keeps sha256 (looked k) e x = (observe_on-Keeps sha256 e.conf k e x).keeps
step-Keeps sha256 ended e x = x
step-Keeps sha256 (collected keep) e x = x
step-Keeps sha256 (taken now message) e x = take_job-Exclusive sha256 now message e x
step-Keeps sha256 (judged key f) e x = finish_job-Exclusive key f e x
step-Keeps sha256 restarted e x = record { once = λ key. omega arith }

-- Whatever happens from an engine on in which it holds, each letter is queued or at a worker once at
-- most, and only while it is marked as in flight: no letter is asked about twice at a time.
pub run-Exclusive :
    (sha256 : Str → Str) (events : List Event) (e : TriageEngine)
    → Exclusive e
    → Exclusive (run sha256 events e)
unfolding run
run-Exclusive sha256 [] e x = x
run-Exclusive sha256 (event ∷ events) e x =
    run-Exclusive sha256 events _ (step-Keeps sha256 event e x)
