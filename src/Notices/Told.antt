-- ===== src/Notices/Told.antt =====
-- How often link/parent.go tells a parent, restarts of the notifier included.
use khala_network.Common.{
  ℕ, ◌+◌, ◌-◌, ◌≤◌, ◌≡◌, ◌∙◌, refl, subst, ap, Str, List, [], ◌∷◌, length, Option, none, some,
  if◌then◌else◌, Bool, true, false, not, ltb, arith, All,
}
use khala_network.Conduit.Ring.{unix}
use khala_network.Notices.{
  max_notice_file, read_parent_noticed, notice_header, parent_noticed, has_uncovered, Wait, Look,
  Notice, Looked, looked, or_now, maybe_notice_parent, load_noticed, notice_parents,
}
use khala_network.Notices.Record.{IsId, IsHeader, read_parent_noticed-parent_noticed}

-- A look at the identity, or a restart, which leaves only the record.
pub data Moment : Type 0 where
  look : Look → Moment
  restarted : Moment

abbrev forget : Wait → Wait
forget w = record { since = none; noticed = none; file = w.file }

abbrev onto : Option Notice → List Notice → List Notice
onto none ns = ns
onto (some n) ns = n ∷ ns

abbrev pub notices : ℕ → List Moment → Wait → List Notice
notices grace [] w = []
notices grace (restarted ∷ ms) w = notices grace ms (forget w)
notices grace (look k ∷ ms) w =
    let l = notice_parents grace k w in onto l.notice (notices grace ms l.wait)

-- Each notice comes the grace period after the one before it at the soonest, and for a letter that that
-- one did not cover.
abbrev pub Told : ℕ → Option Notice → List Notice → Type 0
Told grace before [] = Unit
Told grace none (n ∷ ns) = Told grace (some n) ns
Told grace (some m) (n ∷ ns) =
    (m.at + grace ≤ n.at) × ((has_uncovered n.covered m.covered ≡ true) × Told grace (some n) ns)

-- A look whose notice is recorded: its letters are names, and the record is of one header and fits.
pub record Recorded (k : Look) : Type 0 where
  pub saved : k.record_fails ≡ false
  pub ids : All IsId k.letters
  pub header :
      (parent : Str)
      → k.parent ≡ some parent
      → IsHeader (notice_header (unix (some k.now)) k.notice_id parent)
  pub fits :
      (parent : Str)
      → k.parent ≡ some parent
      → length (parent_noticed (unix (some k.now)) k.notice_id parent k.letters) ≤ max_notice_file

abbrev pub Lasting : ℕ → List Moment → Type 0
Lasting last [] = Unit
Lasting last (restarted ∷ ms) = Lasting last ms
Lasting last (look k ∷ ms) = Recorded k × ((last ≤ k.now) × Lasting k.now ms)

abbrev Since : ℕ → ℕ → Option ℕ → Type 0
Since at last none = Unit
Since at last (some t) = (at ≤ t) × (t ≤ last)

abbrev Knows : List Str → Option (List Str) → Type 0
Knows covered none = Unit
Knows covered (some ids) = ids ≡ covered

-- What holds after the last notice, if there was one.
pub data After (last : ℕ) : Option Notice → Wait → Type 0 where
  untold : (w : Wait) → After last none w
  told :
      (n : Notice) (w : Wait)
      → n.at ≤ last
      → read_parent_noticed w.file ≡ n.covered
      → Knows n.covered w.noticed
      → Since n.at last w.since
      → After last (some n) w

le_trans : (a b c : ℕ) → a ≤ b → b ≤ c → a ≤ c
le_trans a b c p q = omega arith

Knows-loaded :
    (n : Notice) (w : Wait)
    → read_parent_noticed w.file ≡ n.covered
    → Knows n.covered w.noticed
    → load_noticed w ≡ n.covered
Knows-loaded n w e k = loaded w.noticed k
  where
    loaded :
        (o : Option (List Str))
        → Knows n.covered o
        → elim o [ some ids ↦ ids | none ↦ read_parent_noticed w.file ] ≡ n.covered
    loaded none k = e
    loaded (some ids) k = k

-- The state after a look that tells nothing and does not wait.
After-calm :
    {last : ℕ} {before : Option Notice} (now : ℕ) (w : Wait)
    → last ≤ now
    → After last before w
    → After now before (record w { since = none })
After-calm now _ h (untold w) = untold _
After-calm now _ h (told n w at e k s) = told n _ (le_trans _ _ _ at h) e k tt

After-loaded :
    {last : ℕ} {before : Option Notice} (w : Wait)
    → After last before w
    → After last before (record w { noticed = some (load_noticed w) })
After-loaded _ (untold w) = untold _
After-loaded _ (told n w at e k s) = told n _ at e (Knows-loaded n w e k) s

After-forgets :
    {last : ℕ} {before : Option Notice} (w : Wait)
    → After last before w
    → After last before (forget w)
After-forgets _ (untold w) = untold _
After-forgets _ (told n w at e k s) = told n _ at e tt tt

abbrev Due : ℕ → Option Notice → Notice → Type 0
Due grace none n = Unit
Due grace (some m) n = (m.at + grace ≤ n.at) × (has_uncovered n.covered m.covered ≡ true)

-- What a look comes to.
data Goes (grace : ℕ) (before : Option Notice) (now : ℕ) (l : Looked) : Type 0 where
  silent : l.notice ≡ none → After now before l.wait → Goes grace before now l
  tells :
      (n : Notice)
      → l.notice ≡ some n
      → Due grace before n
      → After now (some n) l.wait
      → Goes grace before now l

Goes-if :
    (grace : ℕ) (before : Option Notice) (now : ℕ) (b : Bool) (x y : Looked)
    → (b ≡ true → Goes grace before now x)
    → (b ≡ false → Goes grace before now y)
    → Goes grace before now (if b then x else y)
Goes-if grace before now true x y p q = p refl
Goes-if grace before now false x y p q = q refl

le_self : (a : ℕ) → a ≤ a
le_self a = omega arith

Since-now :
    (at last now : ℕ) (o : Option ℕ)
    → at ≤ last
    → last ≤ now
    → Since at last o
    → (at ≤ or_now now o) × (or_now now o ≤ now)
Since-now at last now none p h s = (le_trans _ _ _ p h, le_self now)
Since-now at last now (some t) p h (q, r) = (q, le_trans _ _ _ r h)

-- It waits since a moment after the last notice.
After-waits :
    {last : ℕ} {before : Option Notice} (now : ℕ) (w : Wait)
    → last ≤ now
    → After last before w
    → After now before (record w { since = some (or_now now w.since) })
After-waits now _ h (untold w) = untold _
After-waits {last = last} now _ h (told n w at e k s) =
    told n _ (le_trans _ _ _ at h) e k (Since-now n.at last now w.since at h s)

waited :
    (grace at since now : ℕ)
    → at ≤ since
    → since ≤ now
    → ltb (now - since) grace ≡ false
    → at + grace ≤ now
waited grace at since now p q e = ground arith

Due-waited :
    {last : ℕ} {before : Option Notice} (grace now : ℕ) (w : Wait) (ids : List Str)
    → last ≤ now
    → After last before w
    → ltb (now - or_now now w.since) grace ≡ false
    → has_uncovered ids (load_noticed w) ≡ true
    → Due grace before (record { at = now; covered = ids })
Due-waited grace now _ ids h (untold w) e u = tt
Due-waited {last = last} grace now _ ids h (told n w at f k s) e u =
    let (p, q) = Since-now n.at last now w.since at h s in
    (
      waited grace n.at (or_now now w.since) now p q e,
      subst (λ c. has_uncovered ids c ≡ true) (Knows-loaded n w f k) u,
    )

uncovered : (b : Bool) → not b ≡ false → b ≡ true
uncovered b e = ground arith

Told-none : (grace : ℕ) (before : Option Notice) → Told grace before []
Told-none grace none = tt
Told-none grace (some m) = tt

Told-Due :
    (grace : ℕ) (before : Option Notice) (n : Notice) (ns : List Notice)
    → Due grace before n
    → Told grace (some n) ns
    → Told grace before (n ∷ ns)
Told-Due grace none n ns d t = t
Told-Due grace (some m) n ns (p, q) t = (p, (q, t))

maybe_notice_parent-Goes :
    {last : ℕ} {before : Option Notice} (grace : ℕ) (k : Look) (parent : Str) (w : Wait)
    → k.parent ≡ some parent
    → Recorded k
    → last ≤ k.now
    → After last before w
    → has_uncovered k.letters (load_noticed w) ≡ true
    → Goes grace before k.now (maybe_notice_parent grace k parent w)
unfolding maybe_notice_parent
maybe_notice_parent-Goes {before = before} grace k parent w p r h a u =
    let waits = After-waits k.now w h a in
    Goes-if grace before k.now (ltb (k.now - or_now k.now w.since) grace) _ _
      (λ e. silent refl waits)
      (λ e.
        Goes-if grace before k.now k.queue_fails _ _ (λ f. silent refl waits)
          (λ f.
            tells (record { at = k.now; covered = k.letters }) refl
              (Due-waited grace k.now w k.letters h a e u)
              (told _ _ (le_self k.now)
                (ap
                    (λ b. read_parent_noticed (
                      if b
                      then w.file
                      else some (parent_noticed (unix (some k.now)) k.notice_id parent k.letters)))
                    r.saved
                  ∙ read_parent_noticed-parent_noticed _ k.notice_id parent k.letters
                      (r.header parent p) r.ids (r.fits parent p))
                refl tt)))

notice_parents-Goes :
    {last : ℕ} {before : Option Notice} (grace : ℕ) (k : Look) (w : Wait)
    → Recorded k
    → last ≤ k.now
    → After last before w
    → Goes grace before k.now (notice_parents grace k w)
unfolding notice_parents
notice_parents-Goes {last = last} {before = before} grace k w r h a = by_letters k.letters refl
  where
    w' : Wait
    w' = record w { noticed = some (load_noticed w) }

    loaded : After last before w'
    loaded = After-loaded w a

    by_parent :
        (o : Option Str)
        → k.parent ≡ o
        → has_uncovered k.letters (load_noticed w) ≡ true
        → Goes grace before k.now (elim o [
          | none ↦ looked (record w' { since = none }) none
          | some parent ↦
              if k.is_live
              then looked (record w' { since = none }) none
              else maybe_notice_parent grace k parent w'
        ])
    by_parent none e u = silent refl (After-calm k.now w' h loaded)
    by_parent (some parent) e u =
        Goes-if grace before k.now k.is_live _ _ (λ f. silent refl (After-calm k.now w' h loaded))
          (λ f. maybe_notice_parent-Goes grace k parent w' e r h loaded u)

    by_letters :
        (ids : List Str)
        → k.letters ≡ ids
        → Goes grace before k.now (elim ids [
          | [] ↦ looked (record w { since = none }) none
          | id ∷ ids ↦
              if not (has_uncovered k.letters (load_noticed w))
              then looked (record w' { since = none }) none
              else elim k.parent [
                | none ↦ looked (record w' { since = none }) none
                | some parent ↦
                    if k.is_live
                    then looked (record w' { since = none }) none
                    else maybe_notice_parent grace k parent w'
              ]
        ])
    by_letters [] e = silent refl (After-calm k.now w h a)
    by_letters (id ∷ ids) e =
        Goes-if grace before k.now (not (has_uncovered k.letters (load_noticed w))) _ _
          (λ f. silent refl (After-calm k.now w' h loaded))
          (λ f. by_parent k.parent refl (uncovered _ f))

-- Over looks at an identity and restarts, a parent is told again only after the grace period and for a
-- letter that the notice before did not cover, if the notices' records are written, read back and fit,
-- and the clock does not go back.
pub notices-Told :
    {last : ℕ} {before : Option Notice} (grace : ℕ) (ms : List Moment) (w : Wait)
    → After last before w
    → Lasting last ms
    → Told grace before (notices grace ms w)
notices-Told {last = last} {before = before} grace [] w a s = Told-none grace before
notices-Told {last = last} {before = before} grace (restarted ∷ ms) w a s =
    notices-Told grace ms (forget w) (After-forgets w a) s
notices-Told {last = last} {before = before} grace (look k ∷ ms) w a (r, (h, s)) =
    elim (notice_parents-Goes grace k w r h a) [
      | silent e b ↦ rw e (notices-Told {last = k.now} {before = before} grace ms _ b s)
      | tells n e due b ↦ rw e (
          Told-Due grace before n _ due
            (notices-Told {last = k.now} {before = some n} grace ms _ b s))
    ]
