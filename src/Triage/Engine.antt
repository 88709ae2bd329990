-- ===== src/Triage/Engine.antt =====
-- The triage engine of link/triage.go: `scan` with `observe` for each letter, `reserveLocked`, and the
-- workers with `judge` and `store`. A step is what one goroutine does of a letter; `store` and a tag's
-- rewriting are one step each. Closing the engine and its log are not modelled.
use khala_network.Common.{
  ℕ, ◌-◌, ◌*◌, ◌/◌, Str, lit, str_eq, List, [], ◌∷◌, ◌++◌, length, Option, none, some,
  if◌then◌else◌, Bool, true, false, not, ◌&&◌, ◌||◌, ltb, ◌==◌,
}
use khala_network.Rolling.{attempt}
use khala_network.Conduit.Schedule.{second, minute}
use khala_network.Text.Strings.{cut_suffix, or_else}
use khala_network.Wire.Digest.{hex_encode}
use khala_network.Triage.Conf.{TriageConf}
use khala_network.Triage.Letters.{TriageEntry, triage_tag}

abbrev pub hour : ℕ
hour = 60 * minute

abbrev pub triage_error_retry : ℕ
triage_error_retry = 10 * minute

abbrev pub triage_queue_size : ℕ
triage_queue_size = 1024

-- What `readTriageMessage` returns: the Type header, and for a message the bytes that are sent.
pub record Message : Type 0 where
  pub kind : Str
  pub state : Str

pub record TriageMemo : Type 0 where
  pub size : ℕ
  pub mtime : ℕ
  pub kind : Str
  pub digest : Str
  pub entry : Option TriageEntry
  pub tag_on_disk : Str
  pub seen : Bool

pub record TriageJob : Type 0 where
  pub identity : Str
  pub id : Str

-- The key of a letter in the maps.
abbrev pub key_of : TriageJob → Str
key_of j = j.identity ++ (47 ∷ j.id)

-- What a worker holds from the start of `judge` on.
pub record Judging : Type 0 where
  pub job : TriageJob
  pub conf : TriageConf
  pub digest : Str
  pub asked_at : ℕ

-- The engine with the files of run/triage: `<id>.json` in `cache`, `<id>.tag` in `tags`.
pub record TriageEngine : Type 0 where
  pub conf : Option TriageConf
  pub memo : Str → Option TriageMemo
  pub inflight : Str → Bool
  pub asked : List ℕ
  pub jobs : List TriageJob
  pub working : List Judging
  pub cache : Str → Option TriageEntry
  pub tags : Str → Option Str

abbrev pub put {ℓ} : {A : Type ℓ} → Str → A → (Str → A) → Str → A
put key a f k = if str_eq k key then a else f k

abbrev pub digest_of : (Str → Str) → Str → Str
digest_of sha256 state = hex_encode (sha256 state)

-- What `observe` meets of one entry of new/. `message` is `none` where reading it fails.
pub record Look : Type 0 where
  pub now : ℕ
  pub letter : TriageJob
  pub size : ℕ
  pub mtime : ℕ
  pub message : Option Message
  pub tag_write_fails : Bool

-- The engine after a look, and the letter that was given to the workers, if it was.
pub record Observed : Type 0 where
  pub engine : TriageEngine
  pub submitted : Option TriageJob

abbrev pub observed : TriageEngine → Option TriageJob → Observed
observed e j = record { engine = e; submitted = j }

abbrev pub without_newline : Option Str → Str
without_newline none = []
without_newline (some text) = or_else (cut_suffix (10 ∷ []) text) text

abbrev pub cached_entry : Str → Option TriageEntry → Option TriageEntry
cached_entry id none = none
cached_entry id (some entry) = if str_eq entry.id id then some entry else none

abbrev pub or_entry : Option TriageEntry → Option TriageEntry → Option TriageEntry
or_entry (some entry) old = some entry
or_entry none old = old

abbrev pub entry_of : Option TriageMemo → Option TriageEntry
entry_of none = none
entry_of (some m) = m.entry

unfoldable pub message_memo : (Str → Str) → TriageEngine → Look → Message → TriageMemo
unfolding cut_suffix
message_memo sha256 e k msg =
    let key = key_of k.letter in
    record {
      size = k.size;
      mtime = k.mtime;
      kind = msg.kind;
      digest = digest_of sha256 msg.state;
      entry = or_entry (cached_entry k.letter.id (e.cache key)) (entry_of (e.memo key));
      tag_on_disk = without_newline (e.tags key);
      seen = false;
    }

abbrev pub other_memo : TriageEngine → Look → Message → TriageMemo
other_memo e k msg = record {
  size = k.size;
  mtime = k.mtime;
  kind = msg.kind;
  digest = [];
  entry = entry_of (e.memo (key_of k.letter));
  tag_on_disk = [];
  seen = false;
}

-- The memo of a letter that is new or has changed.
unfoldable pub fresh_memo : (Str → Str) → TriageEngine → Look → Message → TriageMemo
unfolding message_memo
fresh_memo sha256 e k msg =
    if str_eq msg.kind (lit "message") then message_memo sha256 e k msg else other_memo e k msg

abbrev pub fresh_of : (Str → Str) → TriageEngine → Look → Option Message → Option TriageMemo
fresh_of sha256 e k none = none
fresh_of sha256 e k (some msg) = some (fresh_memo sha256 e k msg)

abbrev pub reread : (Str → Str) → TriageEngine → Look → Option TriageMemo
reread sha256 e k = fresh_of sha256 e k k.message

abbrev pub memo_from : (Str → Str) → TriageEngine → Look → Option TriageMemo → Option TriageMemo
memo_from sha256 e k none = reread sha256 e k
memo_from sha256 e k (some m) =
    if (m.size == k.size) && (m.mtime == k.mtime) then some m else reread sha256 e k

-- The memo of the letter, as far as it is current; `none` where reading the letter fails.
unfoldable pub current_memo : (Str → Str) → TriageEngine → Look → Option TriageMemo
unfolding fresh_memo
current_memo sha256 e k = memo_from sha256 e k (e.memo (key_of k.letter))

abbrev pub drop_last {ℓ} : {A : Type ℓ} → List A → List A
drop_last [] = []
drop_last (a ∷ []) = []
drop_last (a ∷ b ∷ as') = a ∷ drop_last (b ∷ as')

-- The send on the channel of jobs, by whether the request was granted and whether there is room: a
-- reservation that is not used is given back.
abbrev pub placed : TriageJob → TriageEngine → Bool → List ℕ → Bool → Observed
placed job e false asked room = observed (record e { asked = asked }) none
placed job e true asked false = observed (record e { asked = drop_last asked }) none
placed job e true asked true =
    observed
      (record e {
        asked = asked;
        jobs = e.jobs ++ (job ∷ []);
        inflight = put (key_of job) true e.inflight;
      })
      (some job)

-- `reserveLocked` and the send, for a letter that is not in flight.
unfoldable pub submit : TriageConf → ℕ → TriageJob → TriageEngine → Observed
unfolding attempt
submit c now job e =
    let reserved = attempt c.max_per_hour hour now e.asked in
    placed job e reserved.0 reserved.1 (ltb (length e.jobs) triage_queue_size)

-- An entry that answers for a letter of this digest: a judgment of it, or a failure of late.
unfoldable pub is_settled : ℕ → Str → TriageEntry → Bool
is_settled now digest entry =
    if str_eq entry.error []
    then str_eq entry.digest digest
    else ltb (now - entry.asked_at * second) triage_error_retry

unfoldable pub retag : Look → TriageConf → TriageMemo → TriageEntry → TriageEngine → TriageEngine
unfolding triage_tag
retag k c m entry e =
    let key = key_of k.letter in
    let tag = triage_tag entry c in
    if not (str_eq entry.error []) || str_eq tag m.tag_on_disk || k.tag_write_fails
    then e
    else record e {
      tags = put key (some (tag ++ (10 ∷ []))) e.tags;
      memo = put key (some (record m { tag_on_disk = tag })) e.memo;
    }

unfoldable pub submit_idle : Look → TriageConf → TriageEngine → Observed
unfolding submit
submit_idle k c e =
    if e.inflight (key_of k.letter) then observed e none else submit c k.now k.letter e

-- The switch of `observe`, by the memo's entry.
unfoldable pub decide_by :
    Look → TriageConf → TriageMemo → TriageEngine → Option TriageEntry → Observed
unfolding is_settled retag submit_idle
decide_by k c m e none = submit_idle k c e
decide_by k c m e (some entry) =
    if is_settled k.now m.digest entry
    then observed (retag k c m entry e) none
    else submit_idle k c e

unfoldable pub decide : Look → TriageConf → TriageMemo → TriageEngine → Observed
unfolding decide_by
decide k c m e =
    if not (str_eq m.kind (lit "message")) then observed e none else decide_by k c m e m.entry

-- `m.seen = true`, in the map.
abbrev pub see : TriageMemo → TriageMemo
see m = record m { seen = true }

abbrev pub with_memo : Str → TriageMemo → TriageEngine → TriageEngine
with_memo key m e = record e { memo = put key (some m) e.memo }

abbrev pub observe_memo : TriageConf → Look → TriageEngine → Option TriageMemo → Observed
observe_memo c k e none = observed e none
observe_memo c k e (some m) = decide k c (see m) (with_memo (key_of k.letter) (see m) e)

-- `observe`, for one entry, while triage is on.
unfoldable pub observe : (Str → Str) → TriageConf → Look → TriageEngine → Observed
unfolding current_memo decide
observe sha256 c k e = observe_memo c k e (current_memo sha256 e k)

abbrev pub unseen : Option TriageMemo → Option TriageMemo
unseen none = none
unseen (some m) = some (record m { seen = false })

abbrev pub if_seen : Option TriageMemo → Option TriageMemo
if_seen none = none
if_seen (some m) = if m.seen then some m else none

abbrev pub give_up : TriageJob → List TriageJob → TriageEngine → TriageEngine
give_up j js e = record e { jobs = js; inflight = put (key_of j) false e.inflight }

abbrev pub begin_judging : Judging → List TriageJob → TriageEngine → TriageEngine
begin_judging a js e = record e { jobs = js; working = a ∷ e.working }

-- The beginning of `judge`: triage may be off by now, and the letter gone or changed.
abbrev pub start_judging :
    (Str → Str)
    → ℕ
    → TriageJob
    → List TriageJob
    → TriageEngine
    → Option TriageConf
    → Option Message
    → TriageEngine
start_judging sha256 now j js e none message = give_up j js e
start_judging sha256 now j js e (some c) none = give_up j js e
start_judging sha256 now j js e (some c) (some msg) =
    if str_eq msg.kind (lit "message")
    then begin_judging
        (record { job = j; conf = c; digest = digest_of sha256 msg.state; asked_at = now / second })
        js e
    else give_up j js e

abbrev pub take_from :
    (Str → Str) → ℕ → Option Message → TriageEngine → List TriageJob → TriageEngine
take_from sha256 now message e [] = e
take_from sha256 now message e (j ∷ js) = start_judging sha256 now j js e e.conf message

-- `worker` takes a job.
unfoldable pub take_job : (Str → Str) → ℕ → Option Message → TriageEngine → TriageEngine
take_job sha256 now message e = take_from sha256 now message e e.jobs
