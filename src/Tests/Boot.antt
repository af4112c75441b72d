-- ===== src/Tests/Boot.antt =====
-- Booting with two plugins, and the route table of the fixtures.
use Prim.Native.Nat.{ℕ}
use yaagents_gateway.Prelude.{
  String, Bool, true, false, List, [], ◌∷◌, Option, none, some, All, Distinct, map, keep, ◌≡◌, ◌↔◌,
  refl,
}
use yaagents_gateway.Prelude.Maps.{lookup, delete}
use yaagents_gateway.Prelude.Result.{ok}
use yaagents_gateway.Value.{str, bool, Object, str_at}
use yaagents_gateway.Http.Request.{Handler}
use yaagents_gateway.Plugin.Contract.{Plugin}
use yaagents_gateway.Loader.{
  Entry, read_entries, entries_from, validator_stays_on, merge_env, load, init_entries, init_plugin,
  by_name, says_disabled, default_from_env,
}
use yaagents_gateway.Loader.Chain.{chain, validate_route_overrides, overridden_off}
use yaagents_gateway.Loader.Laws.{chain-nested, nested}
use yaagents_gateway.Loader.Boot.{load-Boots, Boots, is_registered}
use yaagents_gateway.Routes.{Route}
use yaagents_gateway.Routes.Validate.{validate}
use yaagents_gateway.Routes.Laws.{validate_iff, IsAcceptable, normal_forms}
use yaagents_gateway.Tests.Fixtures.{orders, chat}

-- A plugin that counts its initialisations and passes every request on.
abbrev pub counting : String → Plugin ℕ
counting name = record {
  name = name;
  init = λ c n. (1, none);
  handler = λ h. h;
  shutdown = λ n. (0, none);
}

abbrev pub two_plugins : List (Plugin ℕ)
two_plugins = counting "token-validator" ∷ counting "cors" ∷ []

abbrev block : List Object
block = (("name", str "token-validator") ∷ []) ∷ (("name", str "unknown") ∷ []) ∷ []

abbrev from_file : String → Option (List Object)
from_file path = some block

abbrev last_handler : Handler ℕ
last_handler r w n = (w, n)

boot :
    load from_file two_plugins "" "routes.yaml" "s" "" 0 ≡ ok (counting "token-validator" ∷ [], 1)
unfolding load read_entries entries_from init_entries merge_env validator_stays_on says_disabled
    by_name str_at lookup delete init_plugin default_from_env
boot = refl

load_example :
    (es : List Entry) × (read_entries from_file "" "routes.yaml" ≡ ok es)
    × (validator_stays_on es ≡ true)
    × Boots two_plugins (merge_env "s" "" es) 0 (counting "token-validator" ∷ []) 1
    × (map (λ p. p.name) (counting "token-validator" ∷ [])
        ≡ keep (is_registered two_plugins) (map (λ e. e.name) es))
load_example =
    load-Boots from_file two_plugins "" "routes.yaml" "s" "" 0 1 (counting "token-validator" ∷ [])
      boot

abbrev validator_entry : Entry
validator_entry = record { name = "token-validator"; config = ("jwt_secret", str "file") ∷ [] }

chain_example : chain two_plugins last_handler ≡ nested two_plugins last_handler
chain_example = chain-nested two_plugins last_handler

abbrev no_cors : List (String × Object)
no_cors = ("cors", ("enabled", bool false) ∷ []) ∷ []

abbrev plain_orders : Route
plain_orders = record orders { plugins = no_cors }

overrides_allowed : validate_route_overrides (plain_orders ∷ []) ≡ none
unfolding validate_route_overrides overridden_off lookup
overrides_allowed = refl

abbrev any_uri : String → Bool
any_uri s = true

validate_example : (validate any_uri (orders ∷ chat ∷ []) ≡ ok (orders ∷ chat ∷ [])) ↔ (
    (a : All (IsAcceptable any_uri) (orders ∷ chat ∷ [])) × Distinct ("orders" ∷ "chat" ∷ [])
    × (orders ∷ chat ∷ [] ≡ normal_forms any_uri (orders ∷ chat ∷ []) a))
validate_example = validate_iff any_uri (orders ∷ chat ∷ []) (orders ∷ chat ∷ [])
