-- ===== src/Ears/Identities.antt =====
-- What an identity record that link/ears.go accepts is like.
use khala_network.Common.{
  ◌≡◌, refl, Str, lit, List, [], Result, err, both_true, if◌then◌else◌, Bool, true, false, not,
  ◌&&◌, Returns, Returns-bind,
}
use khala_network.Ears.Snapshot.{ListenerIdentity, valid_enums, route_agrees, digest_or_dash}
use khala_network.Ears.Records.{
  SnapshotError, value_of, parse_key_values, has_all, number_or_zero, identity_of, with_numbers,
  mandatory_tokens, valid_listening, check_identity, parse_identity, missing_token, bad_enum,
  bad_route, bad_digest,
}

-- An identity whose values are of their enumerations, which has a route just when it listens, and whose
-- generation is a digest or missing.
pub record IsIdentity (i : ListenerIdentity) : Type 0 where
  pub enums : valid_enums i ≡ true
  pub route : route_agrees i ≡ true
  pub generation : digest_or_dash i.generation ≡ true

Returns-unless :
    {A : Type 0} (P : A → Type 0) (b : Bool) (e : SnapshotError) (m : Result SnapshotError A)
    → (b ≡ true → Returns P m)
    → Returns P (if not b then err e else m)
Returns-unless P true e m h = h refl
Returns-unless P false e m h = tt

with_numbers-IsIdentity :
    (values : List (Str × Str)) (i : ListenerIdentity)
    → IsIdentity i
    → Returns IsIdentity (with_numbers values i)
unfolding with_numbers valid_enums
with_numbers-IsIdentity values i h =
    Returns-bind IsIdentity (number_or_zero (value_of (lit "first-seen") values)) _ (λ _ _.
      Returns-bind IsIdentity (number_or_zero (value_of (lit "oldest-pending") values)) _ (λ _ _.
        Returns-bind IsIdentity (number_or_zero (value_of (lit "last-written") values)) _ (λ _ _.
          Returns-bind IsIdentity (number_or_zero (value_of (lit "last-drain") values)) _ (λ _ _.
            Returns-bind IsIdentity (number_or_zero (value_of (lit "pending-ring") values)) _
              (λ _ _.
                Returns-bind IsIdentity (number_or_zero (value_of (lit "pending-info") values)) _
                  (λ _ _.
                    Returns-bind IsIdentity
                      (number_or_zero (value_of (lit "pending-operator") values)) _
                      (λ _ _.
                        Returns-bind IsIdentity
                          (number_or_zero (value_of (lit "written-rings") values)) _
                          (λ _ _. record {
                            enums = h.enums;
                            route = h.route;
                            generation = h.generation;
                          }))))))))

check_identity-IsIdentity : (values : List (Str × Str)) → Returns IsIdentity (check_identity values)
unfolding check_identity
check_identity-IsIdentity values =
    let i = identity_of values in
    Returns-unless IsIdentity (has_all mandatory_tokens values) missing_token _ (λ _.
      Returns-unless IsIdentity (valid_listening (value_of (lit "listening") values)) bad_enum _
        (λ _. Returns-unless IsIdentity (valid_enums i) bad_enum _ (λ e.
          Returns-unless IsIdentity (route_agrees i) bad_route _ (λ f.
            Returns-unless IsIdentity
              (digest_or_dash i.generation
                && (digest_or_dash i.last_drain_before && digest_or_dash i.last_drain_after))
              bad_digest _
              (λ g.
                with_numbers-IsIdentity values i
                  (record { enums = e; route = f; generation = (both_true _ _ g).0 }))))))

pub parse_identity-IsIdentity : (fields : List Str) → Returns IsIdentity (parse_identity fields)
unfolding parse_identity
parse_identity-IsIdentity fields =
    Returns-bind IsIdentity (parse_key_values fields []) check_identity
      (λ values _. check_identity-IsIdentity values)
