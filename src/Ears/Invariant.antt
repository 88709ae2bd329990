-- ===== src/Ears/Invariant.antt =====
-- What holds while link/ears.go reads the records of a listener snapshot.
use khala_network.Common.{
  ℕ, ◌+◌, ◌<◌, ◌≡◌, refl, sym, subst, Str, lit, str_eq, str_eq_sound, str_eq_refl, List, [], ◌∷◌,
  ◌++◌, Option, none, some, Result, ok, err, if◌then◌else◌, Bool, true, false, ◌&&◌, ◌||◌, ◌==◌,
  arith, All, All-append, all, Returns, Returns-bind, Returns-at, ◌⊎◌, inl, inr, Bool-cases,
}
use khala_network.Text.Strings.{fields}
use khala_network.Names.{valid_node}
use khala_network.Ears.Snapshot.{ListenerIdentity, ListenerSnapshot, one_of, parse_nonnegative}
use khala_network.Ears.Records.{
  SnapshotError, bad_record, duplicate_identity, parse_component, parse_identity,
}
use khala_network.Ears.Identities.{IsIdentity, parse_identity-IsIdentity}
use khala_network.Ears.Parse.{
  Reading, unread, single, set_number, set_interval, set_link, set_state, set_complete,
  read_mailboxes, is_named, add_identity, read_truncated, read_record, read_fields, read_records,
}

-- No two identities have the same name.
unfoldable pub Distinct : List ListenerIdentity → Type 0
Distinct [] = Unit
Distinct (i ∷ is') = (is_named i.name is' ≡ false) × Distinct is'

str_eq-false : (s t : Str) → str_eq s t ≡ false → str_eq t s ≡ false
str_eq-false s t e = elim (Bool-cases (str_eq t s)) [
  | inl f ↦
      let same = subst (λ u. str_eq s u ≡ true) (sym (str_eq_sound t s f)) (str_eq_refl s) in
      ground (arith, same, e)
  | inr f ↦ f
]

is_named-append :
    (name : Str) (is' : List ListenerIdentity) (i : ListenerIdentity)
    → is_named name is' ≡ false
    → str_eq i.name name ≡ false
    → is_named name (is' ++ (i ∷ [])) ≡ false
unfolding is_named
is_named-append name [] i e f = ground (arith, e, f)
is_named-append name (j ∷ is') i e f =
    let rest = is_named-append name is' i in ground (arith, e, f, rest)

Distinct-append :
    (is' : List ListenerIdentity) (i : ListenerIdentity)
    → Distinct is'
    → is_named i.name is' ≡ false
    → Distinct (is' ++ (i ∷ []))
unfolding Distinct is_named
Distinct-append [] i d e = (refl, tt)
Distinct-append (j ∷ is') i (f, d) e =
    let other = str_eq-false j.name i.name (ground (arith, e)) in
    (is_named-append j.name is' i f other, Distinct-append is' i d (ground (arith, e)))

abbrev pub is_state : Str → Bool
is_state s = str_eq s (lit "running") || str_eq s (lit "stopping")

-- What holds of a reading, of the records that came and the parts of the snapshot that matter.
pub record FineParts (has_interval has_state has_truncated : Bool) (interval : ℕ) (state : Str)
    (truncated : ℕ) (identities : List ListenerIdentity) : Type 0 where
  pub timed : has_interval ≡ true → 0 < interval
  pub stated : has_state ≡ true → is_state state ≡ true
  pub whole : has_truncated ≡ false → truncated ≡ 0
  pub distinct : Distinct identities
  pub identities_fine : All IsIdentity identities

abbrev pub FineOf : List Str → ListenerSnapshot → Type 0
FineOf seen s =
    FineParts (one_of (lit "interval") seen) (one_of (lit "state") seen)
      (one_of (lit "truncated") seen) s.interval s.state s.truncated s.identities

abbrev pub Fine : Reading → Type 0
Fine r = FineOf r.seen r.snapshot

abbrev Holds : (ListenerSnapshot → Type 0) → Option ListenerSnapshot → Type 0
Holds P none = Unit
Holds P (some s) = P s

single-Fine :
    (key : Str) (use_value : Str → Option ListenerSnapshot) (args : List Str) (r : Reading)
    → ((v : Str) → Holds (FineOf (key ∷ r.seen)) (use_value v))
    → Returns Fine (single key use_value args r)
unfolding single
single-Fine key use_value [] r h = tt
single-Fine key use_value (value ∷ []) r h =
    split (Bool-cases (one_of key r.seen)) (use_value value) (h value)
  where
    split :
        (one_of key r.seen ≡ true) ⊎ (one_of key r.seen ≡ false)
        → (o : Option ListenerSnapshot) → Holds (FineOf (key ∷ r.seen)) o
        → Returns Fine (
            if one_of key r.seen then err bad_record else elim o [
              | none ↦ err bad_record
              | some s ↦ ok (record r { snapshot = s; seen = key ∷ r.seen })
            ])
    split (inl e) o f = rw e tt
    split (inr e) none f = rw e tt
    split (inr e) (some s) f = rw e f
single-Fine key use_value (v ∷ w ∷ args) r h = tt

set_number-Holds :
    (P : ListenerSnapshot → Type 0) (set : ℕ → ListenerSnapshot) (v : Str)
    → ((n : ℕ) → P (set n))
    → Holds P (set_number set v)
set_number-Holds P set v h = by (parse_nonnegative v)
  where
    by : (o : Option ℕ) → Holds P (elim o [ none ↦ none | some n ↦ some (set n) ])
    by none = tt
    by (some n) = h n

Holds-if :
    (P : ListenerSnapshot → Type 0) (b : Bool) (x y : Option ListenerSnapshot)
    → (b ≡ true → Holds P x)
    → (b ≡ false → Holds P y)
    → Holds P (if b then x else y)
Holds-if P true x y h k = h refl
Holds-if P false x y h k = k refl

set_interval-Holds :
    (P : ListenerSnapshot → Type 0) (s : ListenerSnapshot) (v : Str)
    → ((n : ℕ) → 0 < n → P (record s { interval = n }))
    → Holds P (set_interval s v)
set_interval-Holds P s v h = by (parse_nonnegative v)
  where
    by :
        (o : Option ℕ)
        → Holds P (elim o [
          | none ↦ none
          | some n ↦ if n == 0 then none else some (record s { interval = n })
        ])
    by none = tt
    by (some n) = Holds-if P (n == 0) none _ (λ _. tt) (λ e. h n (ground (arith, e)))

Fine-if :
    (b : Bool) (x y : Result SnapshotError Reading)
    → Returns Fine x
    → (b ≡ false → Returns Fine y)
    → Returns Fine (if b then x else y)
Fine-if true x y h k = h
Fine-if false x y h k = k refl

add_identity-Fine :
    (i : ListenerIdentity) (r : Reading) → IsIdentity i → Fine r → Returns Fine (add_identity i r)
add_identity-Fine i r p h =
    Fine-if (is_named i.name r.snapshot.identities) (err duplicate_identity) _ tt (λ e. record {
      timed = h.timed;
      stated = h.stated;
      whole = h.whole;
      distinct = Distinct-append r.snapshot.identities i h.distinct e;
      identities_fine =
          All-append IsIdentity r.snapshot.identities (i ∷ []) h.identities_fine (p, tt);
    })

-- The records of one value.
module _ (args : List Str) (r : Reading) (h : Fine r) where
  interval-Fine : Returns Fine (single (lit "interval") (set_interval r.snapshot) args r)
  unfolding one_of
  interval-Fine = single-Fine (lit "interval") (set_interval r.snapshot) args r (λ v.
      set_interval-Holds (FineOf (lit "interval" ∷ r.seen)) r.snapshot v (λ n p. record {
        timed = λ _. p;
        stated = h.stated;
        whole = h.whole;
        distinct = h.distinct;
        identities_fine = h.identities_fine;
      }))

  state-Fine : Returns Fine (single (lit "state") (set_state r.snapshot) args r)
  unfolding one_of
  state-Fine = single-Fine (lit "state") (set_state r.snapshot) args r (λ v.
      Holds-if (FineOf (lit "state" ∷ r.seen)) (is_state v) _ none
        (λ e. record {
          timed = h.timed;
          stated = λ _. e;
          whole = h.whole;
          distinct = h.distinct;
          identities_fine = h.identities_fine;
        })
        (λ _. tt))

  complete-Fine : Returns Fine (single (lit "complete") (set_complete r.snapshot) args r)
  unfolding one_of
  complete-Fine = single-Fine (lit "complete") (set_complete r.snapshot) args r (λ v.
      Holds-if (FineOf (lit "complete" ∷ r.seen)) (str_eq v (lit "yes") || str_eq v (lit "no")) _
        none (λ _. h) (λ _. tt))

  link-Fine : Returns Fine (single (lit "link") (set_link r.snapshot) args r)
  unfolding one_of
  link-Fine = single-Fine (lit "link") (set_link r.snapshot) args r (λ v.
      Holds-if (FineOf (lit "link" ∷ r.seen)) (str_eq v (lit "-")) (some r.snapshot) _ (λ _. h)
        (λ _.
          set_number-Holds (FineOf (lit "link" ∷ r.seen))
            (λ n. record r.snapshot { link_age = some n }) v (λ n. h)))

  generation-Fine :
      Returns Fine
        (single (lit "generation") (set_number (λ n. record r.snapshot { generation = n })) args r)
  unfolding one_of
  generation-Fine = single-Fine (lit "generation") _ args r (λ v.
      set_number-Holds (FineOf (lit "generation" ∷ r.seen))
        (λ n. record r.snapshot { generation = n }) v (λ n. h))

  written_at-Fine :
      Returns Fine
        (single (lit "written-at") (set_number (λ n. record r.snapshot { written_at = n })) args r)
  unfolding one_of
  written_at-Fine = single-Fine (lit "written-at") _ args r (λ v.
      set_number-Holds (FineOf (lit "written-at" ∷ r.seen))
        (λ n. record r.snapshot { written_at = n }) v (λ n. h))

  node-Fine : Returns Fine (single (lit "node") (λ v. some (record r.snapshot { node = v })) args r)
  unfolding one_of
  node-Fine = single-Fine (lit "node") (λ v. some (record r.snapshot { node = v })) args r (λ v. h)

  truncated-Fine : (index : ℕ) → Returns Fine (read_truncated index args r)
  unfolding one_of
  truncated-Fine index =
      Returns-bind Fine
        (single (lit "truncated") (set_number (λ n. record r.snapshot { truncated = n })) args r) _
        (λ r' e. Returns-at Fine _ e (
          single-Fine (lit "truncated") _ args r (λ v.
            set_number-Holds (FineOf (lit "truncated" ∷ r.seen))
              (λ n. record r.snapshot { truncated = n }) v
              (λ n. record {
                timed = h.timed;
                stated = h.stated;
                whole = λ e. absurd (ground (arith, e));
                distinct = h.distinct;
                identities_fine = h.identities_fine;
              }))))

mailboxes-Fine : (args : List Str) (r : Reading) → Fine r → Returns Fine (read_mailboxes args r)
unfolding one_of
mailboxes-Fine [] r h = tt
mailboxes-Fine (value ∷ values) r h =
    Fine-if (one_of (lit "mailbox") r.seen) (err bad_record) _ tt (λ _.
      Fine-if (str_eq value (lit "-") && elim values [ [] ↦ true | _ ∷ _ ↦ false ])
        (ok (record r { seen = lit "mailbox" ∷ r.seen })) _ h
        (λ _. Fine-if (all valid_node (value ∷ values)) _ (err bad_record) h (λ _. tt)))

read_record-Fine :
    (index : ℕ) (key : Str) (args : List Str) (r : Reading)
    → Fine r
    → Returns Fine (read_record index key args r)
unfolding read_record
read_record-Fine index key args r h =
    Fine-if (str_eq key (lit "node")) _ _ (node-Fine args r h) (λ _.
      Fine-if (str_eq key (lit "generation")) _ _ (generation-Fine args r h) (λ _.
        Fine-if (str_eq key (lit "written-at")) _ _ (written_at-Fine args r h) (λ _.
          Fine-if (str_eq key (lit "interval")) _ _ (interval-Fine args r h) (λ _.
            Fine-if (str_eq key (lit "state")) _ _ (state-Fine args r h) (λ _.
              Fine-if (str_eq key (lit "complete")) _ _ (complete-Fine args r h) (λ _.
                Fine-if (str_eq key (lit "component")) _ _
                  (Returns-bind Fine (parse_component args) _ (λ c _. h))
                  (λ _. Fine-if (str_eq key (lit "mailbox")) _ _ (mailboxes-Fine args r h) (λ _.
                    Fine-if (str_eq key (lit "link")) _ _ (link-Fine args r h) (λ _.
                      Fine-if (str_eq key (lit "identity")) _ _
                        (Returns-bind Fine (parse_identity args) _ (λ i e.
                          add_identity-Fine i r
                            (Returns-at IsIdentity _ e (parse_identity-IsIdentity args)) h))
                        (λ _.
                          Fine-if (str_eq key (lit "truncated")) _ (ok r)
                            (truncated-Fine args r h index) (λ _. h)))))))))))

read_fields-Fine :
    (index : ℕ) (words : List Str) (r : Reading) → Fine r → Returns Fine (read_fields index words r)
unfolding read_fields
read_fields-Fine index [] r h = h
read_fields-Fine index (key ∷ args) r h = read_record-Fine index key args r h

pub read_records-Fine :
    (index : ℕ) (lines : List Str) (r : Reading)
    → Fine r
    → Returns Fine (read_records index lines r)
unfolding read_records
read_records-Fine index [] r h = h
read_records-Fine index (line ∷ lines) r h =
    Returns-bind Fine (read_fields index (fields line) r) _ (λ r' e.
      read_records-Fine (index + 1) lines r'
        (Returns-at Fine _ e (read_fields-Fine index (fields line) r h)))

pub unread-Fine : Fine unread
unfolding one_of Distinct
unread-Fine = record {
  timed = λ e. absurd (ground (arith, e));
  stated = λ e. absurd (ground (arith, e));
  whole = λ e. refl;
  distinct = tt;
  identities_fine = tt;
}
