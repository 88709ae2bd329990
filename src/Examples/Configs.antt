-- ===== src/Examples/Configs.antt =====
-- A configuration file, and the endpoint that it names.
use khala_network.Common.{◌≡◌, ◌≢◌, refl, Str, lit, List, [], ◌∷◌, ok, true, All}
use khala_network.Names.{valid_node}
use khala_network.Text.Numbers.{parse_int}
use khala_network.Text.Strings.{cut_prefix}
use khala_network.Config.{
  Config, DialEndpoint, load_config, read_line, read_lines, dial_endpoints, all_endpoints,
  peer_endpoints,
}
use khala_network.Config.Dialing.{Dialable, dial_endpoints-Dialable}

abbrev lines : List (List Str)
lines =
    (lit "#" ∷ lit "note" ∷ [])
    ∷ (lit "self" ∷ lit "probe" ∷ [])
    ∷ (lit "mailbox" ∷ lit "probe" ∷ lit "adun" ∷ [])
    ∷ (lit "peer" ∷ lit "adun" ∷ lit "adun.example" ∷ [])
    ∷ (lit "ttl" ∷ lit "60" ∷ [])
    ∷ []

abbrev config : Config
config = record {
  self = lit "probe";
  upstream_nodes = lit "probe" ∷ lit "adun" ∷ [];
  retain_days = 30;
  ttl = 60;
  listener_enabled = true;
  peers = (lit "adun", lit "adun.example" ∷ []) ∷ [];
}

abbrev endpoint : DialEndpoint
endpoint = record { node = lit "adun"; address = lit "adun.example" }

loaded : load_config lines ≡ ok config
unfolding load_config read_lines read_line valid_node parse_int cut_prefix
loaded = refl

to_dial : dial_endpoints config ≡ ok (endpoint ∷ [])
unfolding dial_endpoints all_endpoints peer_endpoints valid_node cut_prefix
to_dial = refl

dial_endpoints-Dialable_example : All (Dialable config) (endpoint ∷ []) × ((endpoint ∷ []) ≢ [])
dial_endpoints-Dialable_example = dial_endpoints-Dialable config (endpoint ∷ []) to_dial
