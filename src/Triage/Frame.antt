-- ===== src/Triage/Frame.antt =====
-- `frameLine` of link/triage.go: the counts of the letters' tags in an inbox notification.
use khala_network.Common.{
  ℕ, ◌+◌, Str, lit, str_eq, List, [], ◌∷◌, ◌++◌, Option, none, some, if◌then◌else◌, Bool, not, ◌||◌,
}
use khala_network.Conduit.Inbox.{PendingMessage}
use khala_network.Text.Strings.{cut_prefix, present}
use khala_network.Text.Numbers.{decimal}
use khala_network.Triage.Conf.{TriageConf}
use khala_network.Triage.Letters.{TriageEntry, triage_tag}
use khala_network.Triage.Engine.{TriageMemo, TriageEngine}

-- `strings.Contains`.
unfoldable pub contains_text : Str → Str → Bool
unfolding cut_prefix
contains_text sub [] = str_eq sub []
contains_text sub (c ∷ s) = present (cut_prefix sub (c ∷ s)) || contains_text sub s

pub record Tally : Type 0 where
  pub action : ℕ
  pub urgent : ℕ
  pub reply : ℕ
  pub fyi : ℕ
  pub pending : ℕ

abbrev pub no_letters : Tally
no_letters = record { action = 0; urgent = 0; reply = 0; fyi = 0; pending = 0 }

abbrev pub plus : Bool → ℕ → ℕ
plus b n = if b then n + 1 else n

-- A letter with a tag.
unfoldable pub add_tag : Str → Tally → Tally
unfolding contains_text cut_prefix
add_tag tag t = if str_eq tag (lit "fyi") then record t { fyi = t.fyi + 1 } else record t {
  action = plus (present (cut_prefix (lit "action") tag)) t.action;
  reply = plus (contains_text (lit "reply") tag) t.reply;
  urgent = plus (contains_text (lit "urgent") tag) t.urgent;
}

-- The judgment of a letter in its present state.
abbrev pub judgment : Option TriageMemo → Option TriageEntry
judgment none = none
judgment (some m) = elim m.entry [
  | none ↦ none
  | some entry ↦
      if not (str_eq entry.error []) || not (str_eq entry.digest m.digest) then none else some entry
]

abbrev pub add_judged : TriageConf → Option TriageEntry → Tally → Tally
add_judged c none t = record t { pending = t.pending + 1 }
add_judged c (some entry) t = add_tag (triage_tag entry c) t

abbrev pub judgment_in : Str → (Str → Option TriageMemo) → PendingMessage → Option TriageEntry
judgment_in identity memo m = judgment (memo (identity ++ (47 ∷ m.id)))

unfoldable pub tally : Str → TriageConf → (Str → Option TriageMemo) → List PendingMessage → Tally
unfolding add_tag
tally identity c memo [] = no_letters
tally identity c memo (m ∷ ms) =
    let rest = tally identity c memo ms in
    if not (str_eq m.kind (lit "message"))
    then rest
    else add_judged c (judgment_in identity memo m) rest

abbrev pub tally_line : Tally → Str
tally_line t =
    lit "triage: action "
    ++ (decimal t.action
        ++ (lit " (urgent "
            ++ (decimal t.urgent
                ++ (lit ", reply "
                    ++ (decimal t.reply
                        ++ (lit "), fyi "
                            ++ (decimal t.fyi ++ (lit ", pending " ++ decimal t.pending))))))))

unfoldable pub frame_line : Str → List PendingMessage → TriageEngine → Str
unfolding tally decimal
frame_line identity messages e = elim e.conf [
  | none ↦ []
  | some c ↦ tally_line (tally identity c e.memo messages)
]
