-- ===== src/Examples/Judging.antt =====
-- Triage of two letters: one is judged, of the other the requests fail.
use khala_network.Common.{
  ℕ, ◌*◌, ◌≤◌, ◌≡◌, refl, Str, lit, str_eq, List, [], ◌∷◌, Option, none, some, ok, err, Bool, true,
  false, arith, inr, ◌==◌, if◌then◌else◌, Returns,
}
use khala_network.Rolling.{count, in_window, attempt}
use khala_network.Conduit.Schedule.{minute, second}
use khala_network.Conduit.Inbox.{PendingMessage}
use khala_network.Text.Strings.{cut_prefix, cut_suffix}
use khala_network.Wire.Digest.{hex_encode}
use khala_network.Text.Numbers.{decimal, parse_int, digits}
use khala_network.Text.Floats.{Float64, number, nan, less, at_least}
use khala_network.Triage.Conf.{
  TriageConf, load_triage_conf, read_conf_line, read_conf_lines, read_key, finish_conf,
}
use khala_network.Triage.Thresholds.{IsUsable, load_triage_conf-IsUsable}
use khala_network.Triage.Letters.{
  Nouls, AskError, request_failed, Response, unsent, replied, ask, ask_from, ask_until, noul_of,
  joined, tags_or_fyi, tag_of, triage_tag,
}
use khala_network.Triage.Engine.{
  hour, TriageMemo, TriageJob, Judging, TriageEngine, Look, submit, submit_idle, decide_by, decide,
  observe, is_settled, current_memo, fresh_memo, message_memo, take_job,
}
use khala_network.Triage.Workers.{
  Replies, pick, finish_job, Event, refreshed, begun, looked, ended, collected, taken, restarted,
  observe_on, step, run,
}
use khala_network.Triage.Busy.{Exclusive, jobs_on, workers_on}
use khala_network.Triage.Exclusive.{run-Exclusive}
use khala_network.Triage.Budget.{requests, requests_bounded}
use khala_network.Triage.Settled.{same_state, judged, failed}
use khala_network.Triage.Once.{submissions, answer_of, Quiet, judged-once}
use khala_network.Triage.Tries.{Tried, ask_until-Tried}
use khala_network.Triage.Frame.{tally, frame_line, contains_text, add_tag}
use khala_network.Triage.Counts.{Counts, tally-Counts}
use khala_network.Triage.Garbage.{cache_id, known_live, collect}

abbrev half : Float64
half = number false 0x3fe0000000000000

abbrev nine_tenths : Float64
nine_tenths = number false 0x3feccccccccccccd

-- strconv.ParseFloat, of the texts that are used here.
abbrev parse_float : Str → Option Float64
parse_float s = elim s [ [] ↦ none | c ∷ _ ↦ if c == 78 then some nan else some half ]

abbrev conf_lines : List (List Str)
conf_lines =
    (lit "#" ∷ lit "triage" ∷ [])
    ∷ (lit "provider" ∷ lit "typesafe" ∷ [])
    ∷ (lit "key" ∷ lit "k" ∷ [])
    ∷ (lit "max-per-hour" ∷ lit "1" ∷ [])
    ∷ (lit "threshold" ∷ lit "0.5" ∷ [])
    ∷ []

abbrev conf : TriageConf
conf = record {
  model = lit "jev-latest";
  endpoint = lit "https://api.typesafe.ai/v1/systemone";
  key = lit "k";
  max_per_hour = 1;
  threshold_action = half;
  threshold_reply = half;
  threshold_urgent = half;
}

conf_loaded : load_triage_conf parse_float (λ _. none) conf_lines ≡ ok conf
unfolding load_triage_conf read_conf_lines read_conf_line read_key finish_conf cut_prefix parse_int
    digits less
conf_loaded = refl

-- A threshold that is not a number passes the test for a number in 0..1.
nan_accepted :
    Returns
      (λ c. c.threshold_action ≡ nan)
      (load_triage_conf parse_float
        (λ _. none)
        ((lit "threshold" ∷ lit "NaN" ∷ [])
          ∷ (lit "provider" ∷ lit "typesafe" ∷ [])
          ∷ (lit "key" ∷ lit "k" ∷ [])
          ∷ []))
unfolding load_triage_conf read_conf_lines read_conf_line read_key finish_conf cut_prefix parse_int
    digits less
nan_accepted = refl

load_triage_conf-IsUsable_example :
    Returns IsUsable (load_triage_conf parse_float (λ _. none) conf_lines)
load_triage_conf-IsUsable_example = load_triage_conf-IsUsable parse_float (λ _. none) conf_lines

abbrev letter : Str → TriageJob
letter id = record { identity = lit "a"; id = id }

abbrev digest : Str → Str
digest s = s

abbrev look_at : ℕ → Str → Look
look_at now id = record {
  now = now;
  letter = letter id;
  size = 5;
  mtime = 7;
  message = some (record { kind = lit "message"; state = lit "s" });
  tag_write_fails = false;
}

abbrev start : TriageEngine
start = record {
  conf = some conf;
  memo = λ _. none;
  inflight = λ _. false;
  asked = [];
  jobs = [];
  working = [];
  cache = λ _. none;
  tags = λ _. none;
}

abbrev replies : (ℕ → Response) → Replies
replies responses = record {
  responses = responses;
  cache_write_fails = false;
  tag_write_fails = false;
}

-- A rate limit, then an answer.
abbrev answers : ℕ → Response
answers try = if try == 1 then replied 429 (err []) else replied 200 (ok (λ _. some nine_tenths))

abbrev events : List Event
events =
    begun
    ∷ looked (look_at (1 * minute) (lit "x"))
    ∷ looked (look_at (1 * minute) (lit "y"))
    ∷ taken (1 * minute) (some (record { kind = lit "message"; state = lit "s" }))
    ∷ looked (look_at (2 * minute) (lit "x"))
    ∷ looked (look_at (61 * minute) (lit "y"))
    ∷ []

requests_test : requests digest events start ≡ (1 * minute ∷ 61 * minute ∷ [])
unfolding requests step observe_on observe current_memo fresh_memo message_memo decide decide_by
    submit_idle submit attempt take_job cut_suffix
requests_test = refl

submissions_test : submissions digest events start ≡ (letter (lit "x") ∷ letter (lit "y") ∷ [])
unfolding submissions step observe_on observe current_memo fresh_memo message_memo decide decide_by
    submit_idle submit attempt take_job cut_suffix
submissions_test = refl

requests_bounded_example : count (in_window hour (1 * minute)) (requests digest events start) ≤ 1
requests_bounded_example =
    requests_bounded 1 0 digest events start refl (omega arith)
      (omega arith, (omega arith, (omega arith, (omega arith, tt)))) (1 * minute)

idle : Exclusive start
unfolding jobs_on workers_on
idle = record { once = λ key. omega arith }

run-Exclusive_example : Exclusive (run digest events start)
run-Exclusive_example = run-Exclusive digest events start idle

ask_until-Tried_example : Tried answers (ask_until answers)
ask_until-Tried_example = ask_until-Tried answers

answers_slept : (ask_until answers).slept ≡ second
unfolding ask_until ask_from ask noul_of less
answers_slept = refl

-- A worker is on the letter `x`, which is then looked at twice, once after a new start.
abbrev judging : Judging
judging = record { job = letter (lit "x"); conf = conf; digest = lit "73"; asked_at = 60 }

abbrev at_work : TriageEngine
at_work = record start { working = judging ∷ []; inflight = λ key. str_eq key (lit "a/x") }

abbrev quiet : List Event
quiet =
    looked (look_at (2 * minute) (lit "x"))
    ∷ ended
    ∷ restarted
    ∷ refreshed (some conf)
    ∷ looked (look_at (90 * minute) (lit "x"))
    ∷ collected (λ _. true)
    ∷ []

at_work_once : Exclusive at_work
unfolding jobs_on workers_on
at_work_once = record { once = λ key. ground arith }

abbrev answered : Nouls
answered = record {
  needs_action = nine_tenths;
  awaits_reply = nine_tenths;
  time_sensitive = nine_tenths;
}

quiet_letter : Quiet digest (lit "a/x") (lit "73") (answer_of judging (ok answered)) quiet
unfolding is_settled hex_encode
quiet_letter = (
  inr (record {
    same_key = refl;
    same_id = refl;
    message_read = same_state _ refl refl;
    stands = judged refl refl;
  }),
  (
    inr (record {
      same_key = refl;
      same_id = refl;
      message_read = same_state _ refl refl;
      stands = judged refl refl;
    }),
    (refl, tt),
  ),
)

verdict_reached : (ask_until answers).verdict ≡ some (ok answered)
unfolding ask_until ask_from ask noul_of less
verdict_reached = refl

picked_first : pick (lit "a/x") (judging ∷ []) ≡ some (judging, [])
unfolding pick
picked_first = refl

judged-once_example :
    jobs_on
      (lit "a/x")
      (submissions digest quiet (finish_job (lit "a/x") (replies answers) at_work))
    ≡ 0
judged-once_example =
    judged-once digest at_work (lit "73") judging [] (replies answers) (ok answered) quiet
      at_work_once picked_first verdict_reached refl tt quiet_letter

-- The requests fail: the letter is looked at again within ten minutes.
abbrev refusals : ℕ → Response
refusals try = unsent (lit "no route")

abbrev refused : AskError
refused = request_failed (lit "no route")

refusal_reached : (ask_until refusals).verdict ≡ some (err refused)
unfolding ask_until ask_from ask noul_of less
refusal_reached = refl

abbrev soon : List Event
soon = looked (look_at (10 * minute) (lit "x")) ∷ []

soon-Quiet : Quiet digest (lit "a/x") (lit "73") (answer_of judging (err refused)) soon
unfolding hex_encode
soon-Quiet = (
  inr (record {
    same_key = refl;
    same_id = refl;
    message_read = same_state _ refl refl;
    stands = failed (λ e. absurd (ground arith)) (omega arith);
  }),
  tt,
)

failed_once :
    jobs_on
      (lit "a/x")
      (submissions digest soon (finish_job (lit "a/x") (replies refusals) at_work))
    ≡ 0
failed_once =
    judged-once digest at_work (lit "73") judging [] (replies refusals) (err refused) soon
      at_work_once picked_first refusal_reached refl tt soon-Quiet

-- After the ten minutes it is asked about again.
asked_again :
    submissions digest
      (looked (look_at (11 * minute) (lit "x")) ∷ [])
      (finish_job (lit "a/x") (replies refusals) at_work)
    ≡ (letter (lit "x") ∷ [])
unfolding submissions step observe_on observe current_memo fresh_memo message_memo decide decide_by
    submit_idle submit attempt cut_suffix finish_job ask_until ask_from ask noul_of less is_settled
    pick
asked_again = refl

abbrev unread_letter : Str → PendingMessage
unread_letter id = record {
  id = id;
  kind = lit "message";
  from = lit "b@n";
  subject = [];
  alert = false;
  urgent = false;
  later = false;
}

abbrev memo_of : Str → Option TriageMemo
memo_of key =
    if str_eq key (lit "a/x")
    then some (record {
      size = 5;
      mtime = 7;
      kind = lit "message";
      digest = lit "73";
      entry = some (answer_of judging (ok answered));
      tag_on_disk = [];
      seen = true;
    })
    else none

abbrev unread : List PendingMessage
unread = unread_letter (lit "x") ∷ unread_letter (lit "y") ∷ []

line_test :
    frame_line (lit "a") unread (record start { memo = memo_of })
    ≡ lit "triage: action 1 (urgent 1, reply 1), fyi 0, pending 1"
unfolding frame_line tally add_tag contains_text cut_prefix triage_tag tag_of tags_or_fyi joined
    at_least decimal
line_test = refl

tally-Counts_example : Counts (lit "a") conf memo_of unread (tally (lit "a") conf memo_of unread)
tally-Counts_example = tally-Counts (lit "a") conf memo_of unread

abbrev cache_files : List Str
cache_files = lit "x.json" ∷ lit "x.tag" ∷ lit "y.json" ∷ lit ".khala-write-1" ∷ []

abbrev only_x : Str → Bool
only_x id = str_eq id (lit "x")

removed : collect (λ _. false) only_x [] cache_files ≡ (lit "y.json" ∷ [])
unfolding collect cache_id known_live cut_suffix cut_prefix
removed = refl

-- The entry of a letter `x.tag` is taken for one of a letter `x`.
tag_letter : cache_id (lit "x.tag.json") ≡ some (lit "x")
unfolding cache_id cut_suffix cut_prefix
tag_letter = refl
