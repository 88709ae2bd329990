-- ===== src/Ears/Order.antt =====
-- The identities of a snapshot of link/ears.go in the order of their names, and their lines.
use khala_network.Common.{
  ◌≤◌, ◌≡◌, refl, Str, List, [], ◌∷◌, length, Option, none, some, if◌then◌else◌, Bool, true, false,
  not, ◌&&◌, ltb, ◌-◌, arith,
}
use mathlib.Core.List.{Permᴰ}
use mathlib.Core.List.Permᴰ
use khala_network.Text.Strings.{str_lt}
use khala_network.Ears.Snapshot.{ListenerIdentity, valid_enums, route_agrees}
use khala_network.Ears.Format.{
  safe_value, identity_line, format_identity, insert_identity, sort_identities, cons_line,
  format_identities,
}

-- The second name, as it is written, is not below the first.
abbrev pub Before : ListenerIdentity → ListenerIdentity → Type 0
Before i j = str_lt (safe_value j.name) (safe_value i.name) ≡ false

abbrev pub Ordered : List ListenerIdentity → Type 0
Ordered [] = Unit
Ordered (i ∷ []) = Unit
Ordered (i ∷ j ∷ js) = Before i j × Ordered (j ∷ js)

str_lt-asymmetric : (s t : Str) → str_lt s t ≡ true → str_lt t s ≡ false
unfolding str_lt
str_lt-asymmetric [] [] h = cc
str_lt-asymmetric [] (b ∷ t) h = refl
str_lt-asymmetric (a ∷ s) [] h = cc
str_lt-asymmetric (a ∷ s) (b ∷ t) h = ground (arith, h, str_lt-asymmetric s t)

Permᴰ-if :
    (is' : List ListenerIdentity) (b : Bool) (x y : List ListenerIdentity)
    → Permᴰ is' x
    → Permᴰ is' y
    → Permᴰ is' (if b then x else y)
Permᴰ-if is' true x y p q = p
Permᴰ-if is' false x y p q = q

insert_identity-Permᴰ :
    (i : ListenerIdentity) (js : List ListenerIdentity) → Permᴰ (i ∷ js) (insert_identity i js)
unfolding insert_identity
insert_identity-Permᴰ i [] = Permᴰ.refl (i ∷ [])
insert_identity-Permᴰ i (j ∷ js) =
    Permᴰ-if (i ∷ j ∷ js) (str_lt (safe_value j.name) (safe_value i.name)) _ _
      (Permᴰ.trans (Permᴰ.swap refl refl) (Permᴰ.cons refl (insert_identity-Permᴰ i js)))
      (Permᴰ.refl (i ∷ j ∷ js))

pub sort_identities-Permᴰ : (is' : List ListenerIdentity) → Permᴰ is' (sort_identities is')
unfolding sort_identities
sort_identities-Permᴰ [] = Permᴰ.nil
sort_identities-Permᴰ (i ∷ is') =
    Permᴰ.trans (Permᴰ.cons refl (sort_identities-Permᴰ is'))
      (insert_identity-Permᴰ i (sort_identities is'))

Ordered-if :
    (b : Bool) (x y : List ListenerIdentity)
    → (b ≡ true → Ordered x)
    → (b ≡ false → Ordered y)
    → Ordered (if b then x else y)
Ordered-if true x y h k = h refl
Ordered-if false x y h k = k refl

insert_after-Ordered :
    (k i : ListenerIdentity) (js : List ListenerIdentity)
    → Before k i
    → Ordered (k ∷ js)
    → Ordered (k ∷ insert_identity i js)
unfolding insert_identity
insert_after-Ordered k i [] b o = (b, tt)
insert_after-Ordered k i (j ∷ js) b o =
    let rest = insert_after-Ordered j i js in
    split (str_lt (safe_value j.name) (safe_value i.name)) refl rest
  where
    split :
        (c : Bool)
        → str_lt (safe_value j.name) (safe_value i.name) ≡ c
        → (Before j i → Ordered (j ∷ js) → Ordered (j ∷ insert_identity i js))
        → Ordered (k ∷ (if c then j ∷ insert_identity i js else i ∷ (j ∷ js)))
    split true e rest =
        (o.0, rest (str_lt-asymmetric (safe_value j.name) (safe_value i.name) e) o.1)
    split false e rest = (b, (e, o.1))

insert_identity-Ordered :
    (i : ListenerIdentity) (js : List ListenerIdentity)
    → Ordered js
    → Ordered (insert_identity i js)
unfolding insert_identity
insert_identity-Ordered i [] o = tt
insert_identity-Ordered i (j ∷ js) o =
    Ordered-if (str_lt (safe_value j.name) (safe_value i.name)) _ _
      (λ e.
        insert_after-Ordered j i js (str_lt-asymmetric (safe_value j.name) (safe_value i.name) e) o)
      (λ e. (e, o))

pub sort_identities-Ordered : (is' : List ListenerIdentity) → Ordered (sort_identities is')
unfolding sort_identities
sort_identities-Ordered [] = tt
sort_identities-Ordered (i ∷ is') =
    insert_identity-Ordered i (sort_identities is') (sort_identities-Ordered is')

-- A line for each identity, of 1024 bytes and a newline at most.
pub data Lines : List ListenerIdentity → List Str → Type 0 where
  no_lines : Lines [] []
  line :
      (i : ListenerIdentity) (is' : List ListenerIdentity) (ls : List Str)
      → length (identity_line i) ≤ 1025
      → Lines is' ls
      → Lines (i ∷ is') (identity_line i ∷ ls)

abbrev pub LinesOf : List ListenerIdentity → Option (List Str) → Type 0
LinesOf is' none = Unit
LinesOf is' (some ls) = Lines is' ls

abbrev IsLine : ListenerIdentity → Option Str → Type 0
IsLine i none = Unit
IsLine i (some l) = (l ≡ identity_line i) × (length (identity_line i) ≤ 1025)

format_identity-IsLine : (i : ListenerIdentity) → IsLine i (format_identity i)
unfolding format_identity
format_identity-IsLine i =
    split (not (valid_enums i && route_agrees i)) (ltb 1024 (length (identity_line i) - 1)) refl
  where
    split :
        (b c : Bool)
        → ltb 1024 (length (identity_line i) - 1) ≡ c
        → IsLine i (if b then none else if c then none else some (identity_line i))
    split true c e = tt
    split false true e = tt
    split false false e = (refl, ground arith)

cons_line-LinesOf :
    (i : ListenerIdentity) (is' : List ListenerIdentity) (o : Option Str) (ls : Option (List Str))
    → IsLine i o
    → LinesOf is' ls
    → LinesOf (i ∷ is') (cons_line o ls)
cons_line-LinesOf i is' none ls h k = tt
cons_line-LinesOf i is' (some l) none h k = tt
cons_line-LinesOf i is' (some l) (some ls) h k = rw (h.0) (line i is' ls h.1 k)

pub format_identities-LinesOf : (is' : List ListenerIdentity) → LinesOf is' (format_identities is')
unfolding format_identities
format_identities-LinesOf [] = no_lines
format_identities-LinesOf (i ∷ is') =
    cons_line-LinesOf i is' (format_identity i) (format_identities is') (format_identity-IsLine i)
      (format_identities-LinesOf is')
