-- ===== src/Loader.antt =====
-- internal/loader/loader.go: from the plugins block of the configuration to the middleware chain.
-- Reading and decoding the YAML file is a parameter (`read`): the decoded sequence of maps, or none
-- if the file cannot be read or parsed.
pub mod Chain
pub mod Boot
pub mod Laws
use yaagents_gateway.Prelude.{
  String, Bool, true, false, not, ◌&&◌, List, [], ◌∷◌, reverse, Option, none, some, ℕ, suc, ◌≡◌,
  refl, if◌then◌else◌, ◌==◌,
}
use yaagents_gateway.Prelude.Maps.{lookup, insert, delete}
use yaagents_gateway.Prelude.Result.{Result, ok, err, ◌>>=◌}
use yaagents_gateway.Value.{Value, str, Object, as_bool, str_at}
use yaagents_gateway.Plugin.MapConfig.{MapConfig, new_map_config}
use yaagents_gateway.Plugin.Contract.{Plugin}

abbrev pub token_validator_name : String
token_validator_name = "token-validator"

pub record Entry : Type 0 where
  pub name : String
  pub config : Object

pub data LoadError : Type 0 where
  unreadable : LoadError
  missing_name : ℕ → LoadError
  validator_disabled : LoadError
  init_failed : String → String → LoadError

-- `en, ok := m["enabled"].(bool); ok && !en`
abbrev is_false : Option Bool → Bool
is_false (some false) = true
is_false _ = false

unfoldable pub says_disabled : Object → Bool
says_disabled m = is_false (as_bool (lookup "enabled" m))

-- The loop of `readEntries`, from index i on.
unfoldable pub entries_from : ℕ → List Object → Result LoadError (List Entry)
entries_from i [] = ok []
entries_from i (raw ∷ raws) =
    let name = str_at "name" raw in
    let rest = entries_from (suc i) raws in
    if name == ""
    then err (missing_name i)
    else do more ← rest; ok (record { name = name; config = delete "name" raw } ∷ more)

-- `readEntries`
unfoldable pub read_entries :
    (String → Option (List Object)) → String → String → Result LoadError (List Entry)
unfolding entries_from
read_entries read plugins_path routes_path =
    elim (read (if plugins_path == "" then routes_path else plugins_path)) [
      | none ↦ err unreadable
      | some raws ↦ entries_from 0 raws
    ]

-- `assertTokenValidatorAlwaysOn`: it looks at the first entry of that name.
unfoldable pub validator_stays_on : List Entry → Bool
validator_stays_on [] = true
validator_stays_on (e ∷ es) =
    if e.name == token_validator_name then not (says_disabled e.config) else validator_stays_on es

-- `if _, ok := cfg[key]; !ok && value != "" { cfg[key] = value }`
unfoldable pub default_from_env : String → String → Object → Object
default_from_env key value m = elim (lookup key m) [
  | some _ ↦ m
  | none ↦ if value == "" then m else insert key (str value) m
]

-- `mergeTokenValidatorEnv`
unfoldable pub merge_env : String → String → List Entry → List Entry
unfolding default_from_env
merge_env secret jwks_url [] = []
merge_env secret jwks_url (e ∷ es) =
    if e.name == token_validator_name
    then record e {
      config = default_from_env "jwks_url" jwks_url (default_from_env "jwt_secret" secret e.config);
    }
      ∷ es
    else e ∷ merge_env secret jwks_url es

module _ {W : Type 0} where
  -- `regByName`: the plugin that was entered last under the name.
  unfoldable pub by_name : List (Plugin W) → String → Option (Plugin W)
  by_name [] name = none
  by_name (p ∷ ps) name = elim (by_name ps name) [
    | some q ↦ some q
    | none ↦ if p.name == name then some p else none
  ]

  -- `p.Init(cfg)` with its error wrapped.
  unfoldable pub init_plugin : Plugin W → Entry → W → Result LoadError W
  init_plugin p e w =
      let (w', failure) = p.init (new_map_config (some e.config)) w in
      elim failure [ some text ↦ err (init_failed e.name text) | none ↦ ok w' ]

  -- The loop of `Load`: plugins that are not registered are skipped, the others initialised.
  unfoldable pub init_entries :
      List (Plugin W) → List Entry → W → Result LoadError (List (Plugin W) × W)
  unfolding init_plugin
  init_entries reg [] w = ok ([], w)
  init_entries reg (e ∷ es) w =
      let rest = λ (w' : W). init_entries reg es w' in
      elim (by_name reg e.name) [
        | none ↦ rest w
        | some p ↦ do w' ← init_plugin p e w; more ← rest w'; ok (p ∷ more.0, more.1)
      ]

  -- `Load`
  unfoldable pub load :
      (String → Option (List Object))
      → List (Plugin W)
      → String
      → String
      → String
      → String
      → W
      → Result LoadError (List (Plugin W) × W)
  load read reg plugins_path routes_path secret jwks_url w = do
    entries ← read_entries read plugins_path routes_path
    if validator_stays_on entries
        then init_entries reg (merge_env secret jwks_url entries) w
        else err validator_disabled
