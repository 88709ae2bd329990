-- ===== src/Install/Objects.antt =====
-- An object with a destination has names without zero bytes: what `destination` of link/install.go
-- checks is enough for transfer ids to be told apart.
use khala_network.Common.{
  ◌≡◌, refl, Str, lit, str_eq, str_eq_iff, [], ◌∷◌, ok, true, false, ◌||◌, arith, inl, inr,
  Bool-cases, length, ◌⊎◌,
}
use khala_network.Text.Strings.{contains}
use khala_network.Wire.Digest.{ObjectId, IsObject, NoNul, SameObject}
use khala_network.Names.{
  IsSegment, valid_node, valid_basename, valid_node-IsSegment, valid_basename-IsSegment,
}
use khala_network.Install.Files.{FilePath}
use khala_network.Install.Destination.{Installer, destination}

pub contains-NoNul : (s : Str) → contains 0 s ≡ false → NoNul s
unfolding contains
contains-NoNul [] h = tt
contains-NoNul (b ∷ s) h = (ground (arith, h), contains-NoNul s (ground (arith, h)))

stream_only :
    (c : Str)
    → str_eq c (lit "stream") ≡ true
    → (str_eq c (lit "spool") ≡ false) × (str_eq c (lit "presence") ≡ false)
stream_only c h = rw ((str_eq_iff c (lit "stream")).0 h) (refl, refl)

mind_only :
    (c : Str)
    → str_eq c (lit "mind") ≡ true
    → (str_eq c (lit "spool") ≡ false)
      × (str_eq c (lit "presence") ≡ false)
      × (str_eq c (lit "stream") ≡ false)
mind_only c h = rw ((str_eq_iff c (lit "mind")).0 h) (refl, refl, refl)

-- The names that `destination` has checked, by the class.
destination-names :
    (i : Installer) (o : ObjectId) {p : FilePath}
    → destination i o ≡ ok p
    → (valid_node o.node ≡ true)
      × (valid_basename o.basename ≡ true)
      × (str_eq o.class (lit "stream") ≡ true → valid_node o.stream ≡ true)
      × (str_eq o.class (lit "mind") ≡ true → valid_node o.session ≡ true)
      × (((str_eq o.class (lit "spool") || str_eq o.class (lit "presence"))
            || (str_eq o.class (lit "stream") || str_eq o.class (lit "mind")))
          ≡ true)
unfolding destination
destination-names i o h = ground (arith, stream_only o.class, mind_only o.class)

pub literal-NoNul : (c k : Str) → str_eq c k ≡ true → contains 0 k ≡ false → NoNul c
literal-NoNul c k h e = rw ((str_eq_iff c k).0 h) (contains-NoNul k e)

class-NoNul :
    (c : Str)
    → ((str_eq c (lit "spool") || str_eq c (lit "presence"))
        || (str_eq c (lit "stream") || str_eq c (lit "mind")))
      ≡ true
    → NoNul c
unfolding contains
class-NoNul c h =
    split (Bool-cases (str_eq c (lit "spool"))) (Bool-cases (str_eq c (lit "presence")))
      (Bool-cases (str_eq c (lit "stream")))
  where
    split :
        (str_eq c (lit "spool") ≡ true) ⊎ (str_eq c (lit "spool") ≡ false)
        → (str_eq c (lit "presence") ≡ true) ⊎ (str_eq c (lit "presence") ≡ false)
        → (str_eq c (lit "stream") ≡ true) ⊎ (str_eq c (lit "stream") ≡ false)
        → NoNul c
    split (inl e) p s = literal-NoNul c (lit "spool") e refl
    split (inr n) (inl e) s = literal-NoNul c (lit "presence") e refl
    split (inr n) (inr m) (inl e) = literal-NoNul c (lit "stream") e refl
    split (inr n) (inr m) (inr k) = literal-NoNul c (lit "mind") (ground (arith, h, n, m, k)) refl

-- The object of an accepted OFFER can be told from any other by its transfer input.
pub destination-IsObject :
    (i : Installer) (o : ObjectId) {p : FilePath}
    → destination i o ≡ ok p
    → length o.digest ≡ 32
    → IsObject o
destination-IsObject i o h d =
    let (n, b, s, m, c) = destination-names i o h in
    let segment = λ (x : Str) (v : valid_node x ≡ true).
      contains-NoNul x (IsSegment.no_nul (valid_node-IsSegment x v)) in
    record {
      class = class-NoNul o.class c;
      stream = λ e. segment o.stream (s e);
      node = segment o.node n;
      session = λ e. segment o.session (m e);
      basename =
          contains-NoNul o.basename (IsSegment.no_nul (valid_basename-IsSegment o.basename b));
      digest = d;
    }

-- The same object has the same destination.
pub destination-SameObject :
    (i : Installer) (o p : ObjectId) → SameObject o p → destination i o ≡ destination i p
unfolding destination
destination-SameObject i o p s = ground (arith, s.class, s.node, s.basename, s.stream, s.session)
