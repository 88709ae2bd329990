-- ===== src/Config.antt =====
-- link/config.go: `loadConfig` and `dialEndpoints`. The file's lines come as `strings.Fields` splits
-- them; opening and scanning the file is not modelled.
pub mod Dialing
use khala_network.Common.{
  ℕ, zero, suc, ◌<◌, ◌≡◌, ◌≢◌, refl, Str, lit, str_eq, str_eq_iff, List, [], ◌∷◌, ◌++◌, Option,
  none, some, Result, ok, err, ◌>>=◌, guard, if◌then◌else◌, Bool, true, false, ◌&&◌, ◌||◌, not,
  arith, All, All-append, Returns, Returns-bind, Returns-at, >>=-eq-ok, ◌==◌, ◌⊎◌, inl, inr,
  Bool-cases, Option-cases,
}
use khala_network.Names.{valid_node}
use khala_network.Text.Strings.{cut_prefix, present}
use khala_network.Text.Numbers.{Int64, parse_uint, parse_int}

pub data ConfigError : Type 0 where
  bad_retain bad_ttl bad_ears bad_self bad_mailbox local_peer no_dial_endpoints : ConfigError

pub record Config : Type 0 where
  pub self : Str
  pub upstream_nodes : List Str
  pub retain_days : ℕ
  pub ttl : ℕ
  pub listener_enabled : Bool
  pub peers : List (Str × List Str)

-- The configuration so far, and which of the three single directives have been read.
pub record Loading : Type 0 where
  pub config : Config
  pub retain_set : Bool
  pub ttl_set : Bool
  pub listener_set : Bool

abbrev pub defaults : Loading
defaults = record {
  config = record {
    self = [];
    upstream_nodes = [];
    retain_days = 30;
    ttl = 120;
    listener_enabled = true;
    peers = [];
  };
  retain_set = false;
  ttl_set = false;
  listener_set = false;
}

abbrev pub addresses_of : Str → List (Str × List Str) → List Str
addresses_of node [] = []
addresses_of node ((n, addresses) ∷ peers) =
    if str_eq n node then addresses else addresses_of node peers

abbrev pub set_self : List Str → Loading → Loading
set_self (s ∷ []) l = record l { config = record l.config { self = s } }
set_self _ l = l

abbrev pub add_peer : List Str → Loading → Loading
add_peer (node ∷ a ∷ addresses) l =
    let peers = l.config.peers in
    record l {
      config = record l.config {
        peers = (node, addresses_of node peers ++ (a ∷ addresses)) ∷ peers;
      };
    }
add_peer _ l = l

abbrev pub retain_of : Option ℕ → Loading → Result ConfigError Loading
retain_of (some days) l =
    ok (record l { config = record l.config { retain_days = days }; retain_set = true })
retain_of none l = err bad_retain

abbrev pub set_retain : List Str → Loading → Result ConfigError Loading
set_retain (v ∷ []) l = if l.retain_set then err bad_retain else retain_of (parse_uint v) l
set_retain _ l = err bad_retain

-- A positive number of seconds.
abbrev pub ttl_of : Option Int64 → Loading → Result ConfigError Loading
ttl_of none l = err bad_ttl
ttl_of (some i) l =
    if i.negative || (i.magnitude == 0)
    then err bad_ttl
    else ok (record l { config = record l.config { ttl = i.magnitude }; ttl_set = true })

abbrev pub set_ttl : List Str → Loading → Result ConfigError Loading
set_ttl (v ∷ []) l = if l.ttl_set then err bad_ttl else ttl_of (parse_int v) l
set_ttl _ l = err bad_ttl

abbrev pub set_ears : List Str → Loading → Result ConfigError Loading
set_ears (v ∷ []) l =
    if l.listener_set || not (str_eq v (lit "on") || str_eq v (lit "off"))
    then err bad_ears
    else ok (record l {
      config = record l.config { listener_enabled = str_eq v (lit "on") };
      listener_set = true;
    })
set_ears _ l = err bad_ears

abbrev pub directive : Str → List Str → Loading → Result ConfigError Loading
directive name args l =
    if str_eq name (lit "self")
    then ok (set_self args l)
    else if str_eq name (lit "mailbox")
    then ok
        (record l { config = record l.config { upstream_nodes = l.config.upstream_nodes ++ args } })
    else if str_eq name (lit "peer")
    then ok (add_peer args l)
    else if str_eq name (lit "retain")
    then set_retain args l
    else if str_eq name (lit "ttl")
    then set_ttl args l
    else if str_eq name (lit "ears")
    then set_ears args l
    else ok l

-- A line: empty, a comment, or a directive with its arguments.
unfoldable pub read_line : List Str → Loading → Result ConfigError Loading
read_line [] l = ok l
read_line (name ∷ args) l =
    if present (cut_prefix (lit "#") name) then ok l else directive name args l

unfoldable pub read_lines : List (List Str) → Loading → Result ConfigError Loading
read_lines [] l = ok l
read_lines (line ∷ lines) l = read_line line l >>= λ l'. read_lines lines l'

unfoldable pub load_config : List (List Str) → Result ConfigError Config
load_config lines = read_lines lines defaults >>= λ l.
    if valid_node l.config.self then ok l.config else err bad_self

pub record DialEndpoint : Type 0 where
  pub node : Str
  pub address : Str

-- `filepath.IsAbs`.
abbrev pub is_abs : Str → Bool
is_abs s = present (cut_prefix (lit "/") s)

unfoldable pub peer_endpoints : Str → List Str → Result ConfigError (List DialEndpoint)
peer_endpoints node [] = ok []
peer_endpoints node (a ∷ addresses) =
    let rest = peer_endpoints node addresses in
    if is_abs a
    then err local_peer
    else rest >>= λ es. ok (record { node = node; address = a } ∷ es)

abbrev pub node_endpoints : Config → Str → Result ConfigError (List DialEndpoint)
node_endpoints c node =
    if not (valid_node node)
    then err bad_mailbox
    else if str_eq node c.self
    then ok []
    else peer_endpoints node (addresses_of node c.peers)

unfoldable pub all_endpoints : Config → List Str → Result ConfigError (List DialEndpoint)
all_endpoints c [] = ok []
all_endpoints c (node ∷ nodes) =
    node_endpoints c node >>= λ es. all_endpoints c nodes >>= λ rest. ok (es ++ rest)

abbrev pub some_endpoints : List DialEndpoint → Result ConfigError (List DialEndpoint)
some_endpoints [] = err no_dial_endpoints
some_endpoints (e ∷ es) = ok (e ∷ es)

unfoldable pub dial_endpoints : Config → Result ConfigError (List DialEndpoint)
dial_endpoints c = all_endpoints c c.upstream_nodes >>= some_endpoints
