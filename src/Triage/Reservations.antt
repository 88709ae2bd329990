-- ===== src/Triage/Reservations.antt =====
-- What the steps of link/triage.go do to the reservations of requests.
use khala_network.Common.{
  ℕ, ◌≤◌, ◌≡◌, refl, sym, subst, ap, Str, str_eq, lit, List, [], ◌∷◌, ◌++◌, length, filter, Option,
  none, some, Result, ok, err, if◌then◌else◌, Bool, true, false, not, ltb, arith, ◌⊎◌, inl, inr,
  Bool-cases, ◌||◌,
}
use khala_network.Rolling.{
  fresh, attempt, Tracks, Within, kept-Tracks, granted-Tracks, granted-Within, kept-count,
}
use khala_network.Triage.Conf.{TriageConf}
use khala_network.Triage.Letters.{Nouls, TriageEntry, AskError, triage_tag, ask_until}
use khala_network.Triage.Engine.{
  hour, triage_queue_size, Message, TriageMemo, TriageJob, key_of, Judging, TriageEngine, put, Look,
  Observed, observed, drop_last, placed, submit, retag, submit_idle, decide_by, decide, see,
  with_memo, observe_memo, observe, take_job, start_judging, take_from, current_memo, is_settled,
}
use khala_network.Triage.Workers.{
  Replies, remember, write_tag, store, store_failure, store_judgment, conclude, pick, finish_picked,
  finish_job, observe_on,
}

abbrev pub sent_at : ℕ → Option TriageJob → List ℕ
sent_at now none = []
sent_at now (some j) = now ∷ []

abbrev pub Allows : ℕ → Option TriageConf → Type 0
Allows limit none = Unit
Allows limit (some c) = c.max_per_hour ≤ limit

-- The reservations stand for the letters sent so far, which are within the limit.
pub record IsBudgeted (limit before : ℕ) (asked sent : List ℕ) : Type 0 where
  pub tracks : Tracks hour before asked sent
  pub within : Within limit hour sent

-- What a look leaves.
pub record Spent (limit now : ℕ) (sent : List ℕ) (conf : Option TriageConf) (o : Observed)
    : Type 0 where
  pub budgeted : IsBudgeted limit now o.engine.asked (sent ++ sent_at now o.submitted)
  pub same_conf : o.engine.conf ≡ conf

drop_last-append : (xs : List ℕ) (x : ℕ) → drop_last (xs ++ (x ∷ [])) ≡ xs
drop_last-append [] x = refl
drop_last-append (y ∷ []) x = refl
drop_last-append (y ∷ z ∷ xs) x = ap (◌∷◌ y) (drop_last-append (z ∷ xs) x)

pub append_nil : (xs : List ℕ) → xs ++ [] ≡ xs
append_nil [] = refl
append_nil (x ∷ xs) = ap (◌∷◌ x) (append_nil xs)

later-Budgeted :
    (limit before now : ℕ) (asked sent : List ℕ)
    → before ≤ now
    → IsBudgeted limit before asked sent
    → IsBudgeted limit now asked sent
later-Budgeted limit before now asked sent h b = record {
  tracks = λ later g. b.tracks later (omega (arith, h, g));
  within = b.within;
}

unsent :
    (limit now : ℕ) (sent : List ℕ) (e : TriageEngine)
    → IsBudgeted limit now e.asked sent
    → Spent limit now sent e.conf (observed e none)
unsent limit now sent e b = record {
  budgeted = subst (IsBudgeted limit now e.asked) (sym (append_nil sent)) b;
  same_conf = refl;
}

submit-Spent :
    (limit before : ℕ) (sent : List ℕ) (c : TriageConf) (now : ℕ) (job : TriageJob)
    (e : TriageEngine)
    → c.max_per_hour ≤ limit
    → before ≤ now
    → IsBudgeted limit before e.asked sent
    → Spent limit now sent e.conf (submit c now job e)
unfolding submit attempt
submit-Spent limit before sent c now job e fits h b =
    split (Bool-cases (ltb (length keep) c.max_per_hour)) (ltb (length e.jobs) triage_queue_size)
  where
    keep : List ℕ
    keep = filter (fresh hour now) e.asked

    tracked : Tracks hour now keep sent
    tracked = kept-Tracks hour before now e.asked sent h b.tracks

    left : IsBudgeted limit now keep sent
    left = record { tracks = tracked; within = b.within }

    split :
        (ltb (length keep) c.max_per_hour ≡ true) ⊎ (ltb (length keep) c.max_per_hour ≡ false)
        → (room : Bool)
        → Spent limit now sent e.conf (
            let reserved = attempt c.max_per_hour hour now e.asked in
            placed job e reserved.0 reserved.1 room)
    split (inr r) room = rw r (unsent limit now sent (record e { asked = keep }) left)
    split (inl r) false =
        rw (r, drop_last-append keep now) (unsent limit now sent (record e { asked = keep }) left)
    split (inl r) true = rw r (record {
      budgeted = record {
        tracks = granted-Tracks hour now keep sent tracked;
        within =
            granted-Within limit hour now sent b.within
              (kept-count limit hour now e.asked sent tracked (ground (arith, r, fits)));
      };
      same_conf = refl;
    })

Spent-if :
    {limit now : ℕ} {sent : List ℕ} {conf : Option TriageConf} (b : Bool) (x y : Observed)
    → Spent limit now sent conf x
    → Spent limit now sent conf y
    → Spent limit now sent conf (if b then x else y)
Spent-if true x y p q = p
Spent-if false x y p q = q

-- An engine with the reservations and the conf of another.
pub record Unspent (e e' : TriageEngine) : Type 0 where
  pub same_asked : e'.asked ≡ e.asked
  pub same_conf : e'.conf ≡ e.conf

untouched : (e : TriageEngine) → Unspent e e
untouched e = record { same_asked = refl; same_conf = refl }

Unspent-if :
    (e : TriageEngine) (b : Bool) (x y : TriageEngine)
    → Unspent e x
    → Unspent e y
    → Unspent e (if b then x else y)
Unspent-if e true x y p q = p
Unspent-if e false x y p q = q

retag-Unspent :
    (k : Look) (c : TriageConf) (m : TriageMemo) (entry : TriageEntry) (e : TriageEngine)
    → Unspent e (retag k c m entry e)
unfolding retag
retag-Unspent k c m entry e =
    Unspent-if e
      (not (str_eq entry.error [])
        || str_eq (triage_tag entry c) m.tag_on_disk
        || k.tag_write_fails)
      e _ (untouched e) (record { same_asked = refl; same_conf = refl })

-- A look at a letter, while a conf of at most the limit is in force.
module _ (limit before : ℕ) (sent : List ℕ) (c : TriageConf) (k : Look)
    (fits : c.max_per_hour ≤ limit) (h : before ≤ k.now) where
  submit_idle-Spent :
      (e : TriageEngine)
      → IsBudgeted limit before e.asked sent
      → Spent limit k.now sent e.conf (submit_idle k c e)
  unfolding submit_idle
  submit_idle-Spent e b =
      Spent-if (e.inflight (key_of k.letter)) (observed e none) _
        (unsent limit k.now sent e (later-Budgeted limit before k.now e.asked sent h b))
        (submit-Spent limit before sent c k.now k.letter e fits h b)

  settled-Spent :
      (e e' : TriageEngine)
      → Unspent e e'
      → IsBudgeted limit before e.asked sent
      → Spent limit k.now sent e.conf (observed e' none)
  settled-Spent e e' u b =
      subst (λ conf. Spent limit k.now sent conf (observed e' none)) u.same_conf
        (unsent limit k.now sent e' (
          subst (λ asked. IsBudgeted limit k.now asked sent) (sym u.same_asked)
            (later-Budgeted limit before k.now e.asked sent h b)))

  decide_by-Spent :
      (m : TriageMemo) (e : TriageEngine) (o : Option TriageEntry)
      → IsBudgeted limit before e.asked sent
      → Spent limit k.now sent e.conf (decide_by k c m e o)
  unfolding decide_by
  decide_by-Spent m e none b = submit_idle-Spent e b
  decide_by-Spent m e (some entry) b =
      Spent-if (is_settled k.now m.digest entry) (observed (retag k c m entry e) none) _
        (settled-Spent e _ (retag-Unspent k c m entry e) b) (submit_idle-Spent e b)

  observe_memo-Spent :
      (e : TriageEngine) (o : Option TriageMemo)
      → IsBudgeted limit before e.asked sent
      → Spent limit k.now sent e.conf (observe_memo c k e o)
  unfolding decide
  observe_memo-Spent e none b = settled-Spent e e (untouched e) b
  observe_memo-Spent e (some m) b =
      let e' = with_memo (key_of k.letter) (see m) e in
      Spent-if (not (str_eq m.kind (lit "message"))) (observed e' none) _
        (settled-Spent e' e' (untouched e') b) (decide_by-Spent (see m) e' m.entry b)

pub observe_on-Spent :
    (sha256 : Str → Str) (limit before : ℕ) (sent : List ℕ) (k : Look) (conf : Option TriageConf)
    (e : TriageEngine)
    → Allows limit conf
    → before ≤ k.now
    → IsBudgeted limit before e.asked sent
    → Spent limit k.now sent e.conf (observe_on sha256 conf k e)
unfolding observe_on observe
observe_on-Spent sha256 limit before sent k none e a h b =
    unsent limit k.now sent e (later-Budgeted limit before k.now e.asked sent h b)
observe_on-Spent sha256 limit before sent k (some c) e a h b =
    observe_memo-Spent limit before sent c k a h e (current_memo sha256 e k) b

start_judging-Unspent :
    (sha256 : Str → Str) (now : ℕ) (j : TriageJob) (js : List TriageJob) (e : TriageEngine)
    (conf : Option TriageConf) (message : Option Message)
    → Unspent e (start_judging sha256 now j js e conf message)
start_judging-Unspent sha256 now j js e none message = record {
  same_asked = refl;
  same_conf = refl;
}
start_judging-Unspent sha256 now j js e (some c) none = record {
  same_asked = refl;
  same_conf = refl;
}
start_judging-Unspent sha256 now j js e (some c) (some msg) =
    Unspent-if e (str_eq msg.kind (lit "message")) _ _
      (record { same_asked = refl; same_conf = refl })
      (record { same_asked = refl; same_conf = refl })

pub take_job-Unspent :
    (sha256 : Str → Str) (now : ℕ) (message : Option Message) (e : TriageEngine)
    → Unspent e (take_job sha256 now message e)
unfolding take_job
take_job-Unspent sha256 now message e = from e.jobs
  where
    from : (js : List TriageJob) → Unspent e (take_from sha256 now message e js)
    from [] = untouched e
    from (j ∷ js) = start_judging-Unspent sha256 now j js e e.conf message

conclude-Unspent :
    (a : Judging) (f : Replies) (verdict : Option (Result AskError Nouls)) (e : TriageEngine)
    → Unspent e (conclude a f verdict e)
unfolding conclude store_failure store_judgment store remember write_tag
conclude-Unspent a f none e = untouched e
conclude-Unspent a f (some (err why)) e =
    Unspent-if e f.tag_write_fails _ _ (record { same_asked = refl; same_conf = refl })
      (record { same_asked = refl; same_conf = refl })
conclude-Unspent a f (some (ok nouls)) e =
    Unspent-if e f.cache_write_fails e (store_judgment a f nouls e) (untouched e) (
      Unspent-if e f.tag_write_fails _ _ (record { same_asked = refl; same_conf = refl })
        (record { same_asked = refl; same_conf = refl }))

pub finish_job-Unspent :
    (key : Str) (f : Replies) (e : TriageEngine) → Unspent e (finish_job key f e)
unfolding finish_job finish_picked
finish_job-Unspent key f e = by (pick key e.working)
  where
    by : (o : Option (Judging × List Judging)) → Unspent e (finish_picked key f e o)
    by none = untouched e
    by (some (a, rest)) =
        let u =
          conclude-Unspent a f (ask_until f.responses).verdict
            (record e { working = rest; inflight = put key false e.inflight }) in
        record { same_asked = u.same_asked; same_conf = u.same_conf }
