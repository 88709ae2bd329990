-- ===== src/Triage/Settled.antt =====
-- A letter that link/triage.go has an answer for: what the steps of the engine do to it.
use khala_network.Common.{
  ℕ, ◌+◌, ◌*◌, ◌<◌, ◌≡◌, ◌≢◌, refl, str_eq_iff, Bool-cases, sym, subst, ap, ◌∙◌, Str, str_eq,
  str_eq_refl, lit, List, [], Option, none, some, if◌then◌else◌, Bool, true, false, not, arith, ◌⊎◌,
  inl, inr, ◌||◌, ◌&&◌, ◌==◌,
}
use khala_network.Triage.Conf.{TriageConf}
use khala_network.Triage.Letters.{TriageEntry, triage_tag}
use khala_network.Triage.Engine.{
  Message, TriageMemo, TriageJob, key_of, Judging, TriageEngine, put, Look, Observed, observed,
  placed, submit, retag, submit_idle, decide_by, decide, see, with_memo, message_memo, other_memo,
  fresh_memo, fresh_of, memo_from, cached_entry, or_entry, digest_of, observe_memo, observe,
  current_memo, is_settled,
}
use khala_network.Triage.Workers.{observe_on}
use khala_network.Triage.Busy.{jobs_on, workers_on, jobs_on-append}

-- The letter of a key and the digest of its state, with the entry that answers for it.
module _ (sha256 : Str → Str) (key digest : Str) (entry : TriageEntry) where
  pub record IsKnown (m : TriageMemo) : Type 0 where
    pub kind : m.kind ≡ lit "message"
    pub digest_kept : m.digest ≡ digest
    pub answer : m.entry ≡ some entry

  abbrev pub Known : Option TriageMemo → Type 0
  Known none = Unit
  Known (some m) = IsKnown m

  -- No worker has the letter or is to get it, its answer is cached, and the memo, if there is one, has it.
  pub record IsHeld (jobs : List TriageJob) (working : List Judging) (cached : Option TriageEntry)
      (memo : Option TriageMemo) : Type 0 where
    pub unqueued : jobs_on key jobs ≡ 0
    pub unasked : workers_on key working ≡ 0
    pub cached_answer : cached ≡ some entry
    pub known : Known memo

  abbrev pub Held : TriageEngine → Type 0
  Held e = IsHeld e.jobs e.working (e.cache key) (e.memo key)

  abbrev pub Silent : Option TriageJob → Type 0
  Silent none = Unit
  Silent (some j) = str_eq key (key_of j) ≡ false

  -- The letter is held still, and was not submitted.
  pub record Stays (o : Observed) : Type 0 where
    pub held : Held o.engine
    pub silent : Silent o.submitted

  quietly : {e : TriageEngine} → Held e → Stays (observed e none)
  quietly h = record { held = h; silent = tt }

  Stays-if : (b : Bool) (x y : Observed) → Stays x → Stays y → Stays (if b then x else y)
  Stays-if true x y p q = p
  Stays-if false x y p q = q

  Held-if : (b : Bool) (x y : TriageEngine) → Held x → Held y → Held (if b then x else y)
  Held-if true x y p q = p
  Held-if false x y p q = q

  -- What is put under another key.
  pub other_key {ℓ} :
      {A : Type ℓ} (k : Str) (a : A) (f : Str → A) → str_eq key k ≡ false → put k a f key ≡ f key
  other_key k a f e = rw e refl

  -- A look at another letter.
  module _ (k : Look) (c : TriageConf) (other : str_eq key (key_of k.letter) ≡ false) where
    other-memo-Held :
        (o : Option TriageMemo) (e : TriageEngine)
        → Held e
        → Held (record e { memo = put (key_of k.letter) o e.memo })
    other-memo-Held o e h = record {
      unqueued = h.unqueued;
      unasked = h.unasked;
      cached_answer = h.cached_answer;
      known = subst Known (sym (other_key (key_of k.letter) o e.memo other)) h.known;
    }

    placed-Stays :
        (e : TriageEngine) (granted : Bool) (asked : List ℕ) (room : Bool)
        → Held e
        → Stays (placed k.letter e granted asked room)
    placed-Stays e false asked room h = quietly h
    placed-Stays e true asked false h = quietly h
    placed-Stays e true asked true h = record {
      held = record {
        unqueued = ground (arith, jobs_on-append key e.jobs k.letter, h.unqueued, other);
        unasked = h.unasked;
        cached_answer = h.cached_answer;
        known = h.known;
      };
      silent = other;
    }

    submit_idle-Stays : (e : TriageEngine) → Held e → Stays (submit_idle k c e)
    unfolding submit_idle submit
    submit_idle-Stays e h =
        Stays-if (e.inflight (key_of k.letter)) (observed e none) (submit c k.now k.letter e)
          (quietly h) (placed-Stays e _ _ _ h)

    retag-Stays :
        (m : TriageMemo) (a : TriageEntry) (e : TriageEngine) → Held e → Held (retag k c m a e)
    unfolding retag
    retag-Stays m a e h =
        Held-if
          (not (str_eq a.error []) || str_eq (triage_tag a c) m.tag_on_disk || k.tag_write_fails) e
          _ h (other-memo-Held _ e h)

    decide_by-Stays :
        (m : TriageMemo) (e : TriageEngine) (o : Option TriageEntry)
        → Held e
        → Stays (decide_by k c m e o)
    unfolding decide_by
    decide_by-Stays m e none h = submit_idle-Stays e h
    decide_by-Stays m e (some a) h =
        Stays-if (is_settled k.now m.digest a) (observed (retag k c m a e) none) _
          (quietly (retag-Stays m a e h)) (submit_idle-Stays e h)

    other-Stays : (o : Option TriageMemo) (e : TriageEngine) → Held e → Stays (observe_memo c k e o)
    unfolding decide
    other-Stays none e h = quietly h
    other-Stays (some m) e h =
        let e' = with_memo (key_of k.letter) (see m) e in
        let h' = other-memo-Held (some (see m)) e h in
        Stays-if (not (str_eq m.kind (lit "message"))) (observed e' none) _ (quietly h')
          (decide_by-Stays (see m) e' m.entry h')

  -- A letter that is read as the same state, if it is read.
  pub data IsRead : Option Message → Type 0 where
    unread : IsRead none
    same_state :
        (msg : Message)
        → msg.kind ≡ lit "message"
        → digest_of sha256 msg.state ≡ digest
        → IsRead (some msg)

  -- An answer for the state of a digest stands: a judgment of that state for ever, a failure for ten
  -- minutes from when the letter was asked about.
  pub data Stands (now : ℕ) : Type 0 where
    judged : entry.error ≡ [] → entry.digest ≡ digest → Stands now
    failed : entry.error ≢ [] → now < (entry.asked_at + 600) * 1000000000 → Stands now

  Stands-is_settled : (now : ℕ) → Stands now → is_settled now digest entry ≡ true
  unfolding is_settled
  Stands-is_settled now (judged e d) = rw (e, d) (str_eq_refl digest)
  Stands-is_settled now (failed e h) = elim (Bool-cases (str_eq entry.error [])) [
    | inl q ↦ absurd (e ((str_eq_iff entry.error []).0 q))
    | inr q ↦ rw q (ground (arith, h))
  ]

  -- A look at the letter itself, while its answer stands.
  pub record IsOwn (k : Look) : Type 0 where
    pub same_key : key_of k.letter ≡ key
    pub same_id : entry.id ≡ k.letter.id
    pub message_read : IsRead k.message
    pub stands : Stands k.now

  cached_entry-own :
      (k : Look) (o : Option TriageEntry)
      → entry.id ≡ k.letter.id
      → o ≡ some entry
      → cached_entry k.letter.id o ≡ some entry
  cached_entry-own k o e f = rw (f, e, str_eq_refl k.letter.id) refl

  or_entry-cached : (o old : Option TriageEntry) → o ≡ some entry → or_entry o old ≡ some entry
  or_entry-cached o old e = rw e refl

  is_message : {kind : Str} → kind ≡ lit "message" → str_eq kind (lit "message") ≡ true
  is_message e = rw e refl

  fresh_memo-Known :
      (e : TriageEngine) (k : Look) (msg : Message)
      → IsOwn k
      → Held e
      → msg.kind ≡ lit "message"
      → digest_of sha256 msg.state ≡ digest
      → IsKnown (fresh_memo sha256 e k msg)
  unfolding fresh_memo message_memo
  fresh_memo-Known e k msg o h m d =
      subst (λ b. IsKnown (if b then message_memo sha256 e k msg else other_memo e k msg))
        (sym (is_message m))
        (record {
          kind = m;
          digest_kept = d;
          answer =
              or_entry-cached _ _
                (cached_entry-own k _ o.same_id (ap e.cache o.same_key ∙ h.cached_answer));
        })

  fresh_of-Known :
      (e : TriageEngine) (k : Look) (message : Option Message)
      → IsOwn k
      → Held e
      → IsRead message
      → Known (fresh_of sha256 e k message)
  fresh_of-Known e k none o h unread = tt
  fresh_of-Known e k (some msg) o h (same_state _ m d) = fresh_memo-Known e k msg o h m d

  Known-if : (b : Bool) (x y : Option TriageMemo) → Known x → Known y → Known (if b then x else y)
  Known-if true x y p q = p
  Known-if false x y p q = q

  memo_from-Known :
      (e : TriageEngine) (k : Look) (o : Option TriageMemo)
      → IsOwn k
      → Held e
      → Known o
      → Known (memo_from sha256 e k o)
  memo_from-Known e k none o h n = fresh_of-Known e k k.message o h o.message_read
  memo_from-Known e k (some m) o h n =
      Known-if ((m.size == k.size) && (m.mtime == k.mtime)) (some m) _ n
        (fresh_of-Known e k k.message o h o.message_read)

  own-memo-Held :
      (k : Look) (m : TriageMemo) (e : TriageEngine)
      → IsOwn k
      → Held e
      → IsKnown m
      → Held (with_memo (key_of k.letter) m e)
  own-memo-Held k m e o h n = record {
    unqueued = h.unqueued;
    unasked = h.unasked;
    cached_answer = h.cached_answer;
    known =
        subst (λ s. Known (put s (some m) e.memo key)) (sym o.same_key)
          (subst (λ b. Known (if b then some m else e.memo key)) (sym (str_eq_refl key)) n);
  }

  retag-own :
      (k : Look) (c : TriageConf) (m : TriageMemo) (e : TriageEngine)
      → IsOwn k
      → Held e
      → IsKnown m
      → Held (retag k c m entry e)
  unfolding retag
  retag-own k c m e o h n =
      Held-if
        (not (str_eq entry.error [])
          || str_eq (triage_tag entry c) m.tag_on_disk
          || k.tag_write_fails)
        e _ h
        (own-memo-Held k _ e o h
          (record { kind = n.kind; digest_kept = n.digest_kept; answer = n.answer }))

  -- The switch finds the answer.
  decide-Stays :
      (k : Look) (c : TriageConf) (m : TriageMemo) (e : TriageEngine)
      → IsOwn k
      → Held e
      → IsKnown m
      → Stays (decide k c m e)
  unfolding decide decide_by
  decide-Stays k c m e o h n =
      let stands =
        ap (λ d. is_settled k.now d entry) n.digest_kept ∙ Stands-is_settled k.now o.stands in
      let answered =
        subst (λ b. Stays (if b then observed (retag k c m entry e) none else submit_idle k c e))
          (sym stands) (quietly (retag-own k c m e o h n)) in
      subst (λ b. Stays (if b then observed e none else decide_by k c m e m.entry))
        (sym (ap not (is_message n.kind)))
        (subst (λ a. Stays (decide_by k c m e a)) (sym n.answer) answered)

  see-Known : (m : TriageMemo) → IsKnown m → IsKnown (see m)
  see-Known m n = record { kind = n.kind; digest_kept = n.digest_kept; answer = n.answer }

  own-Stays :
      (k : Look) (c : TriageConf) (o : Option TriageMemo) (e : TriageEngine)
      → IsOwn k
      → Held e
      → Known o
      → Stays (observe_memo c k e o)
  own-Stays k c none e own h n = quietly h
  own-Stays k c (some m) e own h n =
      decide-Stays k c (see m) _ own (own-memo-Held k (see m) e own h (see-Known m n))
        (see-Known m n)

  -- What a look finds of the letter: another letter, or it with its answer standing.
  abbrev pub Looks : Look → Type 0
  Looks k = (str_eq key (key_of k.letter) ≡ false) ⊎ IsOwn k

  pub observe_on-Stays :
      (k : Look) (conf : Option TriageConf) (e : TriageEngine)
      → Looks k
      → Held e
      → Stays (observe_on sha256 conf k e)
  unfolding observe_on observe current_memo
  observe_on-Stays k none e l h = quietly h
  observe_on-Stays k (some c) e (inl other) h = other-Stays k c other (current_memo sha256 e k) e h
  observe_on-Stays k (some c) e (inr own) h = own-Stays k c (current_memo sha256 e k) e own h (
      memo_from-Known e k (e.memo (key_of k.letter)) own h
        (subst (λ s. Known (e.memo s)) (sym own.same_key) h.known))
