-- ===== src/Config/Dialing.antt =====
-- What `loadConfig` and `dialEndpoints` of link/config.go establish.
use khala_network.Common.{
  ℕ, ◌<◌, ◌≡◌, ◌≢◌, Str, lit, str_eq, str_eq_iff, List, [], ◌∷◌, Option, none, some, Result, ok,
  err, if◌then◌else◌, Bool, true, false, ◌||◌, not, ◌==◌, arith, All, All-append, Returns,
  Returns-bind, Returns-at, >>=-eq-ok, ◌⊎◌, inl, inr, Bool-cases,
}
use khala_network.Names.{valid_node}
use khala_network.Text.Numbers.{Int64, parse_uint, parse_int}
use khala_network.Text.Strings.{cut_prefix, present}
use khala_network.Config.{
  Config, ConfigError, DialEndpoint, Loading, bad_retain, bad_ttl, bad_ears, bad_self, defaults,
  retain_of, set_retain, ttl_of, set_ttl, set_ears, set_self, add_peer, directive, read_line,
  read_lines, load_config, is_abs, peer_endpoints, node_endpoints, all_endpoints, some_endpoints,
  dial_endpoints, addresses_of,
}

-- An endpoint that may be dialed: a valid node other than this one, at an address that is no path.
abbrev pub Dialable : Config → DialEndpoint → Type 0
Dialable c e = (valid_node e.node ≡ true) × (e.node ≢ c.self) × (is_abs e.address ≡ false)

peer_endpoints-Dialable :
    (c : Config) (node : Str) (addresses : List Str)
    → valid_node node ≡ true
    → node ≢ c.self
    → Returns (λ es. All (Dialable c) es) (peer_endpoints node addresses)
unfolding peer_endpoints
peer_endpoints-Dialable c node [] v n = tt
peer_endpoints-Dialable c node (a ∷ addresses) v n =
    split (peer_endpoints-Dialable c node addresses v n) (Bool-cases (is_abs a))
  where
    split :
        Returns (λ es. All (Dialable c) es) (peer_endpoints node addresses)
        → (is_abs a ≡ true) ⊎ (is_abs a ≡ false)
        → Returns (λ es. All (Dialable c) es) (peer_endpoints node (a ∷ addresses))
    split rest (inl e) = rw (peer_endpoints, e) tt
    split rest (inr e) =
        rw (peer_endpoints, e)
          (Returns-bind (λ es. All (Dialable c) es) (peer_endpoints node addresses) _
            (λ es h. (
              (v, n, e),
              Returns-at (λ es. All (Dialable c) es) (peer_endpoints node addresses) h rest,
            )))

node_endpoints-Dialable :
    (c : Config) (node : Str) → Returns (λ es. All (Dialable c) es) (node_endpoints c node)
node_endpoints-Dialable c node =
    split (Bool-cases (valid_node node)) (Bool-cases (str_eq node c.self))
  where
    split :
        (valid_node node ≡ true) ⊎ (valid_node node ≡ false)
        → (str_eq node c.self ≡ true) ⊎ (str_eq node c.self ≡ false)
        → Returns (λ es. All (Dialable c) es) (node_endpoints c node)
    split (inr v) n = rw v tt
    split (inl v) (inl n) = rw (v, n) tt
    split (inl v) (inr n) =
        rw (v, n)
          (peer_endpoints-Dialable c node (addresses_of node c.peers) v
            (λ e. cc ((str_eq_iff node c.self).1 e, n)))

all_endpoints-Dialable :
    (c : Config) (nodes : List Str) → Returns (λ es. All (Dialable c) es) (all_endpoints c nodes)
unfolding all_endpoints
all_endpoints-Dialable c [] = tt
all_endpoints-Dialable c (node ∷ nodes) =
    Returns-bind (λ es. All (Dialable c) es) (node_endpoints c node) _
      λ es h.
        Returns-bind (λ es. All (Dialable c) es) (all_endpoints c nodes) _
          λ rest k.
            All-append (Dialable c) es rest
              (Returns-at (λ es. All (Dialable c) es) (node_endpoints c node) h
                (node_endpoints-Dialable c node))
              (Returns-at (λ es. All (Dialable c) es) (all_endpoints c nodes) k
                (all_endpoints-Dialable c nodes))

some_endpoints_same :
    (es found : List DialEndpoint) → some_endpoints es ≡ ok found → (es ≡ found) × (found ≢ [])
some_endpoints_same [] found h = cc
some_endpoints_same (e ∷ es) found h = ground (arith, h)

-- When `dialEndpoints` returns no error there is an endpoint to dial, and every one is of a valid node
-- other than this one, at an address that is no path.
pub dial_endpoints-Dialable :
    (c : Config) (es : List DialEndpoint)
    → dial_endpoints c ≡ ok es
    → All (Dialable c) es × (es ≢ [])
unfolding dial_endpoints
dial_endpoints-Dialable c es h =
    let (found, e, k) = >>=-eq-ok (all_endpoints c c.upstream_nodes) some_endpoints h in
    (
      rw (← (some_endpoints_same found es k).0) (
          Returns-at (λ es. All (Dialable c) es) (all_endpoints c c.upstream_nodes) e
            (all_endpoints-Dialable c c.upstream_nodes)),
      (some_endpoints_same found es k).1,
    )

-- Every line leaves a positive ttl positive.
abbrev LoadingFits : Loading → Type 0
LoadingFits l = 0 < l.config.ttl

retain_of-LoadingFits :
    (r : Option ℕ) (l : Loading) → LoadingFits l → Returns LoadingFits (retain_of r l)
retain_of-LoadingFits (some n) l f = f
retain_of-LoadingFits none l f = tt

set_retain-LoadingFits :
    (args : List Str) (l : Loading) → LoadingFits l → Returns LoadingFits (set_retain args l)
set_retain-LoadingFits [] l f = tt
set_retain-LoadingFits (v ∷ w ∷ args) l f = tt
set_retain-LoadingFits (v ∷ []) l f = split l.retain_set
  where
    split :
        (b : Bool) → Returns LoadingFits (if b then err bad_retain else retain_of (parse_uint v) l)
    split true = tt
    split false = retain_of-LoadingFits (parse_uint v) l f

ttl_of-LoadingFits : (r : Option Int64) (l : Loading) → Returns LoadingFits (ttl_of r l)
ttl_of-LoadingFits none l = tt
ttl_of-LoadingFits (some i) l = split (Bool-cases (i.negative || (i.magnitude == 0)))
  where
    split :
        ((i.negative || (i.magnitude == 0)) ≡ true) ⊎ ((i.negative || (i.magnitude == 0)) ≡ false)
        → Returns LoadingFits (ttl_of (some i) l)
    split (inl e) = rw e tt
    split (inr e) = rw e (ground (arith, e))

set_ttl-LoadingFits : (args : List Str) (l : Loading) → Returns LoadingFits (set_ttl args l)
set_ttl-LoadingFits [] l = tt
set_ttl-LoadingFits (v ∷ w ∷ args) l = tt
set_ttl-LoadingFits (v ∷ []) l = split l.ttl_set
  where
    split : (b : Bool) → Returns LoadingFits (if b then err bad_ttl else ttl_of (parse_int v) l)
    split true = tt
    split false = ttl_of-LoadingFits (parse_int v) l

set_self-LoadingFits :
    (args : List Str) (l : Loading) → LoadingFits l → LoadingFits (set_self args l)
set_self-LoadingFits [] l f = f
set_self-LoadingFits (s ∷ []) l f = f
set_self-LoadingFits (s ∷ t ∷ args) l f = f

add_peer-LoadingFits :
    (args : List Str) (l : Loading) → LoadingFits l → LoadingFits (add_peer args l)
add_peer-LoadingFits [] l f = f
add_peer-LoadingFits (s ∷ []) l f = f
add_peer-LoadingFits (s ∷ t ∷ args) l f = f

set_ears-LoadingFits :
    (args : List Str) (l : Loading) → LoadingFits l → Returns LoadingFits (set_ears args l)
set_ears-LoadingFits [] l f = tt
set_ears-LoadingFits (v ∷ w ∷ args) l f = tt
set_ears-LoadingFits (v ∷ []) l f =
    split (l.listener_set || not (str_eq v (lit "on") || str_eq v (lit "off")))
  where
    split :
        (b : Bool)
        → Returns LoadingFits (
            if b
            then err bad_ears
            else ok (record l {
              config = record l.config { listener_enabled = str_eq v (lit "on") };
              listener_set = true;
            }))
    split true = tt
    split false = f

Returns-if :
    (P : Loading → Type 0) (b : Bool) (x y : Result ConfigError Loading)
    → Returns P x
    → Returns P y
    → Returns P (if b then x else y)
Returns-if P true x y hx hy = hx
Returns-if P false x y hx hy = hy

directive-LoadingFits :
    (name : Str) (args : List Str) (l : Loading)
    → LoadingFits l
    → Returns LoadingFits (directive name args l)
directive-LoadingFits name args l f =
    Returns-if LoadingFits (str_eq name (lit "self")) _ _ (set_self-LoadingFits args l f) (
      Returns-if LoadingFits (str_eq name (lit "mailbox")) _ _ f (
        Returns-if LoadingFits (str_eq name (lit "peer")) _ _ (add_peer-LoadingFits args l f) (
          Returns-if LoadingFits (str_eq name (lit "retain")) _ _ (set_retain-LoadingFits args l f)
            (Returns-if LoadingFits (str_eq name (lit "ttl")) _ _ (set_ttl-LoadingFits args l) (
              Returns-if LoadingFits (str_eq name (lit "ears")) _ _ (set_ears-LoadingFits args l f)
                f)))))

read_line-LoadingFits :
    (line : List Str) (l : Loading) → LoadingFits l → Returns LoadingFits (read_line line l)
unfolding read_line
read_line-LoadingFits [] l f = f
read_line-LoadingFits (name ∷ args) l f =
    Returns-if LoadingFits (present (cut_prefix (lit "#") name)) _ _ f
      (directive-LoadingFits name args l f)

read_lines-LoadingFits :
    (lines : List (List Str)) (l : Loading)
    → LoadingFits l
    → Returns LoadingFits (read_lines lines l)
unfolding read_lines
read_lines-LoadingFits [] l f = f
read_lines-LoadingFits (line ∷ lines) l f = Returns-bind LoadingFits (read_line line l) _ λ l' e.
    read_lines-LoadingFits lines l'
      (Returns-at LoadingFits (read_line line l) e (read_line-LoadingFits line l f))

checked_self :
    (l : Loading) (c : Config)
    → (if valid_node l.config.self then ok l.config else err bad_self) ≡ ok c
    → (valid_node c.self ≡ true) × (l.config ≡ c)
checked_self l c h = split h (Bool-cases (valid_node l.config.self))
  where
    split :
        (if valid_node l.config.self then ok l.config else err bad_self) ≡ ok c
        → (valid_node l.config.self ≡ true) ⊎ (valid_node l.config.self ≡ false)
        → (valid_node c.self ≡ true) × (l.config ≡ c)
    split g (inl e) = ground (arith, g, e)
    split g (inr e) = ground (arith, g, e)

-- A configuration that is loaded names this node validly and has a positive ttl, whatever its lines.
load_config_sound :
    (lines : List (List Str)) (c : Config)
    → load_config lines ≡ ok c
    → (valid_node c.self ≡ true) × (0 < c.ttl)
unfolding load_config
load_config_sound lines c h =
    let (l, e, k) = >>=-eq-ok (read_lines lines defaults) _ h in
    (
      (checked_self l c k).0,
      rw (← (checked_self l c k).1) (
          Returns-at LoadingFits (read_lines lines defaults) e
            (read_lines-LoadingFits lines defaults (omega arith))),
    )
