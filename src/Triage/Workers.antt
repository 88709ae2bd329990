-- ===== src/Triage/Workers.antt =====
-- The workers' side of link/triage.go, `judge` from the requests on and `store`, and the steps that the
-- engine takes.
use khala_network.Common.{
  ℕ, Str, str_eq, List, [], ◌∷◌, ◌++◌, Option, none, some, Result, ok, err, if◌then◌else◌, Bool,
  false,
}
use khala_network.Text.Floats.{zero_float}
use khala_network.Triage.Conf.{TriageConf}
use khala_network.Triage.Letters.{
  Nouls, TriageEntry, triage_tag, Response, AskError, error_text, ask_until,
}
use khala_network.Triage.Engine.{
  Message, TriageMemo, key_of, Judging, TriageEngine, put, Look, Observed, observed, observe,
  unseen, if_seen, take_job,
}

-- What a worker meets from the requests on.
pub record Replies : Type 0 where
  pub responses : ℕ → Response
  pub cache_write_fails : Bool
  pub tag_write_fails : Bool

abbrev pub with_entry : TriageEntry → Option TriageMemo → Option TriageMemo
with_entry entry none = none
with_entry entry (some m) = some (record m { entry = some entry })

abbrev pub with_tag : Str → Option TriageMemo → Option TriageMemo
with_tag tag none = none
with_tag tag (some m) = some (record m { tag_on_disk = tag })

abbrev pub tag_file : Str → Option Str
tag_file [] = none
tag_file (c ∷ tag) = some (c ∷ (tag ++ (10 ∷ [])))

-- `store`: the judgment goes to the memo first, then the tag to its file.
unfoldable pub remember : Str → TriageEntry → TriageEngine → TriageEngine
remember key entry e = record e { memo = put key (with_entry entry (e.memo key)) e.memo }

unfoldable pub write_tag : Bool → Str → Str → TriageEngine → TriageEngine
write_tag fails key tag e = if fails then e else record e {
  tags = put key (tag_file tag) e.tags;
  memo = put key (with_tag tag (e.memo key)) e.memo;
}

unfoldable pub store : Bool → Str → TriageEntry → Str → TriageEngine → TriageEngine
unfolding remember write_tag
store fails key entry tag e = write_tag fails key tag (remember key entry e)

abbrev pub failure_of : Judging → AskError → TriageEntry
failure_of a why = record {
  id = a.job.id;
  asked_at = a.asked_at;
  nouls = record {
    needs_action = zero_float;
    awaits_reply = zero_float;
    time_sensitive = zero_float;
  };
  digest = [];
  error = error_text why;
}

abbrev pub judgment_of : Judging → Nouls → TriageEntry
judgment_of a nouls = record {
  id = a.job.id;
  asked_at = a.asked_at;
  nouls = nouls;
  digest = a.digest;
  error = [];
}

abbrev pub or_conf : Option TriageConf → TriageConf → TriageConf
or_conf (some c) old = c
or_conf none old = old

-- The file of the cache, as it is read back.
abbrev pub write_cache : Bool → Str → TriageEntry → TriageEngine → TriageEngine
write_cache fails key entry e = record e {
  cache = if fails then e.cache else put key (some entry) e.cache;
}

unfoldable pub store_failure : Judging → Replies → AskError → TriageEngine → TriageEngine
unfolding store
store_failure a f why e =
    let key = key_of a.job in
    let entry = failure_of a why in
    store f.tag_write_fails key entry [] (write_cache f.cache_write_fails key entry e)

unfoldable pub store_judgment : Judging → Replies → Nouls → TriageEngine → TriageEngine
unfolding store triage_tag
store_judgment a f nouls e =
    let key = key_of a.job in
    let entry = judgment_of a nouls in
    store f.tag_write_fails key entry (triage_tag entry (or_conf e.conf a.conf))
      (write_cache false key entry e)

-- The rest of `judge`, by how the tries ended.
unfoldable pub conclude :
    Judging → Replies → Option (Result AskError Nouls) → TriageEngine → TriageEngine
unfolding store_failure store_judgment
conclude a f none e = e
conclude a f (some (err why)) e = store_failure a f why e
conclude a f (some (ok nouls)) e = if f.cache_write_fails then e else store_judgment a f nouls e

abbrev pub put_back : Judging → Option (Judging × List Judging) → Option (Judging × List Judging)
put_back a none = none
put_back a (some (b, rest)) = some (b, a ∷ rest)

-- The first worker on the letter of a key, and the others.
unfoldable pub pick : Str → List Judging → Option (Judging × List Judging)
pick key [] = none
pick key (a ∷ as') =
    let later = pick key as' in
    if str_eq (key_of a.job) key then some (a, as') else put_back a later

unfoldable pub finish_picked :
    Str → Replies → TriageEngine → Option (Judging × List Judging) → TriageEngine
unfolding conclude ask_until
finish_picked key f e none = e
finish_picked key f e (some (a, rest)) =
    conclude a f (ask_until f.responses).verdict
      (record e { working = rest; inflight = put key false e.inflight })

-- A worker ends the judgment that it is at, and the letter is no longer in flight.
unfoldable pub finish_job : Str → Replies → TriageEngine → TriageEngine
unfolding pick finish_picked
finish_job key f e = finish_picked key f e (pick key e.working)

-- `refresh`; the beginning and the end of a pass of `scan`, with the looks between them;
-- `collectGarbage`, which keeps the files of some letters; a worker's steps; and a new start of the
-- engine, which keeps the files.
pub data Event : Type 0 where
  refreshed : Option TriageConf → Event
  begun : Event
  looked : Look → Event
  ended : Event
  collected : (Str → Bool) → Event
  taken : ℕ → Option Message → Event
  judged : Str → Replies → Event
  restarted : Event

abbrev pub kept {ℓ} : {A : Type ℓ} → (Str → Bool) → (Str → Option A) → Str → Option A
kept keep files key = if keep key then files key else none

unfoldable pub restart : TriageEngine → TriageEngine
restart e = record {
  conf = none;
  memo = λ _. none;
  inflight = λ _. false;
  asked = [];
  jobs = [];
  working = [];
  cache = e.cache;
  tags = e.tags;
}

unfoldable pub observe_on : (Str → Str) → Option TriageConf → Look → TriageEngine → Observed
unfolding observe
observe_on sha256 none k e = observed e none
observe_on sha256 (some c) k e = observe sha256 c k e

unfoldable pub step : (Str → Str) → Event → TriageEngine → Observed
unfolding observe_on take_job finish_job restart
step sha256 (refreshed conf) e = observed (record e { conf = conf }) none
step sha256 begun e = observed (record e { memo = λ key. unseen (e.memo key) }) none
step sha256 (looked k) e = observe_on sha256 e.conf k e
step sha256 ended e = observed (record e { memo = λ key. if_seen (e.memo key) }) none
step sha256 (collected keep) e =
    observed (record e { cache = kept keep e.cache; tags = kept keep e.tags }) none
step sha256 (taken now message) e = observed (take_job sha256 now message e) none
step sha256 (judged key f) e = observed (finish_job key f e) none
step sha256 restarted e = observed (restart e) none

unfoldable pub run : (Str → Str) → List Event → TriageEngine → TriageEngine
unfolding step
run sha256 [] e = e
run sha256 (event ∷ events) e = run sha256 events (step sha256 event e).engine
