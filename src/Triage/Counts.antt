-- ===== src/Triage/Counts.antt =====
-- What the counts of `frameLine` in link/triage.go count.
use khala_network.Common.{
  ◌+◌, ◌≡◌, ◌≢◌, refl, sym, subst, Str, lit, str_eq, str_eq_iff, List, [], ◌∷◌, ◌++◌, ◌||◌, arith,
  Option, none, some, if◌then◌else◌, Bool, true, false, not, ◌&&◌, ◌⊎◌, inl, inr, Bool-cases,
}
use khala_network.Conduit.Inbox.{PendingMessage}
use khala_network.Text.Strings.{cut_prefix}
use khala_network.Text.Floats.{at_least}
use khala_network.Triage.Conf.{TriageConf}
use khala_network.Triage.Letters.{TriageEntry, tag_of, tags_or_fyi, joined, triage_tag}
use khala_network.Triage.Engine.{TriageMemo}
use khala_network.Triage.Frame.{
  contains_text, Tally, plus, add_tag, add_judged, judgment, judgment_in, no_letters, tally,
}

-- The three decisions on a letter, if it is judged.
abbrev pub wants_action : TriageConf → TriageEntry → Bool
wants_action c entry = at_least entry.nouls.needs_action c.threshold_action

abbrev pub wants_reply : TriageConf → TriageEntry → Bool
wants_reply c entry = at_least entry.nouls.awaits_reply c.threshold_reply

abbrev pub is_pressing : TriageConf → TriageEntry → Bool
is_pressing c entry = at_least entry.nouls.time_sensitive c.threshold_urgent

-- What is known of a letter's present state: its judgment, if the memo has one of that state.
pub data Judgment : Option TriageMemo → Option TriageEntry → Type 0 where
  not_seen : Judgment none none
  not_asked : (m : TriageMemo) → m.entry ≡ none → Judgment (some m) none
  failed :
      (m : TriageMemo) (entry : TriageEntry)
      → m.entry ≡ some entry
      → entry.error ≢ []
      → Judgment (some m) none
  outdated :
      (m : TriageMemo) (entry : TriageEntry)
      → m.entry ≡ some entry
      → entry.digest ≢ m.digest
      → Judgment (some m) none
  current :
      (m : TriageMemo) (entry : TriageEntry)
      → m.entry ≡ some entry
      → entry.error ≡ []
      → entry.digest ≡ m.digest
      → Judgment (some m) (some entry)

-- A tally adds a letter by the three decisions.
abbrev pub decided : Bool → Bool → Bool → Tally → Tally
decided action reply urgent t = record {
  action = plus action t.action;
  urgent = plus urgent t.urgent;
  reply = plus reply t.reply;
  fyi = plus (not action && (not reply && not urgent)) t.fyi;
  pending = t.pending;
}

-- The counts of the letters of type message.
pub data Counts (identity : Str) (c : TriageConf) (memo : Str → Option TriageMemo)
    : List PendingMessage → Tally → Type 0 where
  no_more : Counts identity c memo [] no_letters
  other_kind :
      (m : PendingMessage) (ms : List PendingMessage) (t : Tally)
      → m.kind ≢ lit "message"
      → Counts identity c memo ms t
      → Counts identity c memo (m ∷ ms) t
  unjudged :
      (m : PendingMessage) (ms : List PendingMessage) (t : Tally)
      → m.kind ≡ lit "message"
      → Judgment (memo (identity ++ (47 ∷ m.id))) none
      → Counts identity c memo ms t
      → Counts identity c memo (m ∷ ms) (record t { pending = t.pending + 1 })
  judged :
      (m : PendingMessage) (ms : List PendingMessage) (t : Tally) (entry : TriageEntry)
      → m.kind ≡ lit "message"
      → Judgment (memo (identity ++ (47 ∷ m.id))) (some entry)
      → Counts identity c memo ms t
      → Counts identity c memo
          (m ∷ ms)
          (decided (wants_action c entry) (wants_reply c entry) (is_pressing c entry) t)

judgment-Judgment : (o : Option TriageMemo) → Judgment o (judgment o)
judgment-Judgment none = not_seen
judgment-Judgment (some m) = by_entry m.entry refl
  where
    by_entry :
        (o : Option TriageEntry)
        → m.entry ≡ o
        → Judgment (some m) (elim o [
          | none ↦ none
          | some entry ↦
              if not (str_eq entry.error []) || not (str_eq entry.digest m.digest)
              then none
              else some entry
        ])
    by_entry none e = not_asked m e
    by_entry (some entry) e = elim (Bool-cases (str_eq entry.error [])) [
      | inr n ↦
          rw n (failed m entry e (λ q. absurd (ground (arith, (str_eq_iff entry.error []).1 q))))
      | inl p ↦ elim (Bool-cases (str_eq entry.digest m.digest)) [
        | inr n ↦
            rw (p, n)
              (outdated m entry e
                (λ q. absurd (ground (arith, (str_eq_iff entry.digest m.digest).1 q))))
        | inl q ↦
            rw (p, q)
              (current m entry e ((str_eq_iff entry.error []).0 p)
                ((str_eq_iff entry.digest m.digest).0 q))
      ]
    ]

add_tag-decided :
    (action reply urgent : Bool) (t : Tally)
    → add_tag (tag_of action reply urgent) t ≡ decided action reply urgent t
unfolding add_tag tag_of tags_or_fyi joined contains_text cut_prefix
add_tag-decided true true true t = refl
add_tag-decided true true false t = refl
add_tag-decided true false true t = refl
add_tag-decided true false false t = refl
add_tag-decided false true true t = refl
add_tag-decided false true false t = refl
add_tag-decided false false true t = refl
add_tag-decided false false false t = refl

-- The counts of the inbox notification are those of the letters of type message whose present state has
-- a judgment that reaches the threshold for action, for reply or for urgent, has a judgment that reaches
-- none of them, or has no judgment: a failure is none, nor is a judgment of another state, and the texts
-- of the tags are told apart as they should be.
pub tally-Counts :
    (identity : Str) (c : TriageConf) (memo : Str → Option TriageMemo)
    (messages : List PendingMessage)
    → Counts identity c memo messages (tally identity c memo messages)
unfolding tally triage_tag
tally-Counts identity c memo [] = no_more
tally-Counts identity c memo (m ∷ ms) =
    split (Bool-cases (str_eq m.kind (lit "message"))) (tally-Counts identity c memo ms)
  where
    counted :
        (o : Option TriageEntry) (t : Tally)
        → m.kind ≡ lit "message"
        → Judgment (memo (identity ++ (47 ∷ m.id))) o
        → Counts identity c memo ms t
        → Counts identity c memo (m ∷ ms) (add_judged c o t)
    counted none t k j h = unjudged m ms t k j h
    counted (some entry) t k j h =
        subst (Counts identity c memo (m ∷ ms))
          (sym
            (add_tag-decided (wants_action c entry) (wants_reply c entry) (is_pressing c entry) t))
          (judged m ms t entry k j h)

    split :
        (str_eq m.kind (lit "message") ≡ true) ⊎ (str_eq m.kind (lit "message") ≡ false)
        → Counts identity c memo ms (tally identity c memo ms)
        → Counts identity c memo (m ∷ ms) (tally identity c memo (m ∷ ms))
    split (inl k) h = rw k (
        counted (judgment_in identity memo m) _ ((str_eq_iff m.kind (lit "message")).0 k)
          (judgment-Judgment (memo (identity ++ (47 ∷ m.id)))) h)
    split (inr k) h = rw k (
        other_kind m ms _ (λ q. absurd (ground (arith, (str_eq_iff m.kind (lit "message")).1 q))) h)
