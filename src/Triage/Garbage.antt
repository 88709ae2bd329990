-- ===== src/Triage/Garbage.antt =====
-- `collectGarbage` of link/triage.go, for the directory of one identity, and `logOnce`.
use khala_network.Common.{
  ℕ, ◌-◌, Str, lit, str_eq, List, [], ◌∷◌, Option, none, some, if◌then◌else◌, Bool, true, false,
  ◌||◌, ltb,
}
use khala_network.Text.Strings.{cut_prefix, cut_suffix, or_else, present}
use khala_network.Triage.Engine.{hour, put}

-- `strings.TrimSuffix`.
abbrev pub trim_suffix : Str → Str → Str
trim_suffix suffix s = or_else (cut_suffix suffix s) s

-- The id of the letter that a file of the cache is of, unless the file is none of the cache's.
unfoldable pub cache_id : Str → Option Str
unfolding cut_suffix cut_prefix
cache_id name =
    let id = trim_suffix (lit ".tag") (trim_suffix (lit ".json") name) in
    if str_eq id name || present (cut_prefix (lit ".") name) then none else some id

-- The map `present`, from an id to whether its letter is live.
unfoldable pub known_live : Str → List (Str × Bool) → Option Bool
known_live id [] = none
known_live id ((i, live) ∷ known) =
    let rest = known_live id known in if str_eq i id then some live else rest

-- `new/<id>` or `cur/<id>` is there.
abbrev pub is_live : (Str → Bool) → (Str → Bool) → Str → Bool
is_live in_new in_cur id = in_new id || in_cur id

-- Whether the letter is live, and the map after it is looked up.
abbrev pub look_up :
    (Str → Bool) → (Str → Bool) → Str → List (Str × Bool) → Option Bool → Bool × List (Str × Bool)
look_up in_new in_cur id known (some live) = (live, known)
look_up in_new in_cur id known none =
    (is_live in_new in_cur id, (id, is_live in_new in_cur id) ∷ known)

abbrev pub remove_if : Bool → Str → List Str → List Str
remove_if live name names = if live then names else name ∷ names

-- The files that are removed, in the order of the directory.
unfoldable pub collect : (Str → Bool) → (Str → Bool) → List (Str × Bool) → List Str → List Str
unfolding cache_id known_live
collect in_new in_cur known [] = []
collect in_new in_cur known (name ∷ names) = elim (cache_id name) [
  | none ↦ collect in_new in_cur known names
  | some id ↦
      let found = look_up in_new in_cur id known (known_live id known) in
      remove_if found.0 name (collect in_new in_cur found.1 names)
]

-- `logOnce`: whether the line is logged, and when each was logged last.
unfoldable pub log_once : ℕ → Str → (Str → Option ℕ) → Bool × (Str → Option ℕ)
log_once now key logged = elim (logged key) [
  | none ↦ (true, put key (some now) logged)
  | some at ↦ if ltb (now - at) hour then (false, logged) else (true, put key (some now) logged)
]
