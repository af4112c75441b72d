-- ===== src/Loader/Boot.antt =====
-- What a successful boot has checked, and which configuration token-validator is given.
use yaagents_gateway.Prelude.{
  String, Bool, true, false, List, [], ◌∷◌, ◌≡◌, refl, ap, ◌∙◌, map, keep, arith, none, some,
  Option, if◌then◌else◌, Bool-cases, Option-cases, inl, inr, ◌==◌, eq_iff, ◌≢◌,
}
use mathlib.Core.Option
use mathlib.Core.Path.{ap₂}
use yaagents_gateway.Prelude.Maps.{lookup, lookup-insert}
use yaagents_gateway.Prelude.Result.{ok, ok->>=}
use yaagents_gateway.Value.{Value, str, Object}
use yaagents_gateway.Plugin.Contract.{Plugin}
use yaagents_gateway.Loader.{
  Entry, token_validator_name, read_entries, validator_stays_on, default_from_env, merge_env,
  by_name, init_plugin, init_entries, load,
}

-- The configuration block of the first token-validator entry.
abbrev pub validator_config : List Entry → Option Object
validator_config [] = none
validator_config (e ∷ es) =
    if e.name == token_validator_name then some e.config else validator_config es

-- What the file says of a key, or else the environment's value unless it is empty.
abbrev pub file_or_env : String → String → Object → Option Value
file_or_env key value m = elim (lookup key m) [
  | some v ↦ some v
  | none ↦ if value == "" then none else some (str value)
]

lookup-default_from_env :
    (key value j : String) (m : Object)
    → lookup j (default_from_env key value m)
      ≡ (if key == j then file_or_env key value m else lookup j m)
unfolding default_from_env
lookup-default_from_env key value j m =
    ground (arith, lookup-insert key j (str value) m, eq_iff key j)

map-name-merge_env :
    (secret jwks_url : String) (es : List Entry)
    → map (λ e. e.name) (merge_env secret jwks_url es) ≡ map (λ e. e.name) es
unfolding merge_env
map-name-merge_env secret jwks_url [] = refl
map-name-merge_env secret jwks_url (e ∷ es) = elim (Bool-cases (e.name == token_validator_name)) [
  | inl same ↦ rw same refl
  | inr other ↦ rw other (ap (λ l. e.name ∷ l) (map-name-merge_env secret jwks_url es))
]

abbrev merged : String → String → Object → Object
merged secret jwks_url m =
    default_from_env "jwks_url" jwks_url (default_from_env "jwt_secret" secret m)

validator_config-merge_env :
    (secret jwks_url : String) (es : List Entry) {m : Object}
    → validator_config es ≡ some m
    → validator_config (merge_env secret jwks_url es) ≡ some (merged secret jwks_url m)
unfolding merge_env
validator_config-merge_env secret jwks_url [] h = cc
validator_config-merge_env secret jwks_url (e ∷ es) {m} h =
    elim (Bool-cases (e.name == token_validator_name)) [
      | inl same ↦
          rw (same, merge_env) (rw same (ap (Option.map (merged secret jwks_url)) (rw same at h)))
      | inr other ↦
          rw (other, merge_env)
            (rw other (validator_config-merge_env secret jwks_url es (rw other at h)))
    ]

-- The entries keep their names and order; in the first token-validator entry the two keys take the
-- environment's values only where the file has none, and every other key stays as it was.
merge_env_precedence :
    (secret jwks_url : String) (es : List Entry) {m : Object}
    → validator_config es ≡ some m
    → (m' : Object) × (validator_config (merge_env secret jwks_url es) ≡ some m')
      × (lookup "jwt_secret" m' ≡ file_or_env "jwt_secret" secret m)
      × (lookup "jwks_url" m' ≡ file_or_env "jwks_url" jwks_url m)
      × ((j : String) → j ≢ "jwt_secret" → j ≢ "jwks_url" → lookup j m' ≡ lookup j m)
      × (map (λ e. e.name) (merge_env secret jwks_url es) ≡ map (λ e. e.name) es)
merge_env_precedence secret jwks_url es {m} h =
    let inner = default_from_env "jwt_secret" secret m in
    (
      merged secret jwks_url m,
      validator_config-merge_env secret jwks_url es h,
      lookup-default_from_env "jwks_url" jwks_url "jwt_secret" inner
          ∙ lookup-default_from_env "jwt_secret" secret "jwt_secret" m,
      ground (
        arith,
        lookup-default_from_env "jwks_url" jwks_url "jwks_url" inner,
        lookup-default_from_env "jwt_secret" secret "jwks_url" m,
      ),
      λ j a b. ground (
        arith,
        lookup-default_from_env "jwks_url" jwks_url j inner,
        lookup-default_from_env "jwt_secret" secret j m,
        eq_iff "jwks_url" j,
        eq_iff "jwt_secret" j,
      ),
      map-name-merge_env secret jwks_url es,
    )

module _ {W : Type 0} where
  by_name-name :
      (reg : List (Plugin W)) (n : String) {p : Plugin W} → by_name reg n ≡ some p → p.name ≡ n
  unfolding by_name
  by_name-name [] n h = cc
  by_name-name (q ∷ ps) n {p} h = ground (arith, by_name-name ps n {p = p}, eq_iff q.name n)

  abbrev pub is_registered : List (Plugin W) → String → Bool
  is_registered reg n = elim (by_name reg n) [ none ↦ false | some p ↦ true ]

  -- How the entries bring up the plugins, from one state of the process to another.
  pub data Boots (reg : List (Plugin W)) : List Entry → W → List (Plugin W) → W → Type 0 where
    done : {w : W} → Boots reg [] w [] w
    skipped :
        {e : Entry} {es : List Entry} {w w' : W} {ps : List (Plugin W)}
        → by_name reg e.name ≡ none
        → Boots reg es w ps w'
        → Boots reg (e ∷ es) w ps w'
    started :
        {e : Entry} {es : List Entry} {p : Plugin W} {w v w' : W} {ps : List (Plugin W)}
        → by_name reg e.name ≡ some p
        → init_plugin p e w ≡ ok v
        → Boots reg es v ps w'
        → Boots reg (e ∷ es) w (p ∷ ps) w'

  init_entries-Boots :
      (reg : List (Plugin W)) (es : List Entry) (w : W) {ps : List (Plugin W)} {w' : W}
      → init_entries reg es w ≡ ok (ps, w')
      → Boots reg es w ps w'
  unfolding init_entries
  init_entries-Boots reg [] w {ps} {w'} h =
      let e : ps ≡ [] = cc in let e' : w' ≡ w = cc in rw (e, e') done
  init_entries-Boots reg (e ∷ es) w {ps} {w'} h = elim (Option-cases (by_name reg e.name)) [
    | inl missing ↦ skipped missing (init_entries-Boots reg es w (rw (missing, init_entries) at h))
    | inr (p, found) ↦
        let (v, up, k) = ok->>= (init_plugin p e w) _ (rw (found, init_entries) at h) in
        let (more, later, out) = ok->>= (init_entries reg es v) _ k in
        let e₁ : ps ≡ p ∷ more.0 = cc in
        let e₂ : w' ≡ more.1 = cc in
        rw (e₁, e₂) (started found up (init_entries-Boots reg es v later))
  ]

  -- The names of the plugins that came up are those of the entries with a registered plugin.
  Boots-names :
      {reg : List (Plugin W)} {es : List Entry} {w w' : W} {ps : List (Plugin W)}
      → Boots reg es w ps w'
      → map (λ p. p.name) ps ≡ keep (is_registered reg) (map (λ e. e.name) es)
  Boots-names done = refl
  Boots-names {reg} (skipped {e} h b) =
      let unknown : is_registered reg e.name ≡ false = ground arith in
      rw (unknown, keep) (Boots-names b)
  Boots-names {reg} (started {e} {p} h i b) =
      let known : is_registered reg e.name ≡ true = ground arith in
      rw (known, keep) (ap₂ ◌∷◌ (by_name-name reg e.name h) (Boots-names b))

  -- A boot that succeeds has read the entries and found token-validator not disabled in the first
  -- of its entries; it has initialised, in their order and each with its merged configuration and
  -- without an error, the registered plugins among the entries, and skipped the others.
  pub load-Boots :
      (read : String → Option (List Object)) (reg : List (Plugin W))
      (plugins_path routes_path secret jwks_url : String) (w w' : W) (ps : List (Plugin W))
      → load read reg plugins_path routes_path secret jwks_url w ≡ ok (ps, w')
      → (es : List Entry) × (read_entries read plugins_path routes_path ≡ ok es)
        × (validator_stays_on es ≡ true)
        × Boots reg (merge_env secret jwks_url es) w ps w'
        × (map (λ p. p.name) ps ≡ keep (is_registered reg) (map (λ e. e.name) es))
  unfolding load
  load-Boots read reg plugins_path routes_path secret jwks_url w w' ps h =
      let (es, entries, k) = ok->>= (read_entries read plugins_path routes_path) _ h in
      elim (Bool-cases (validator_stays_on es)) [
        | inl on ↦
            let b = init_entries-Boots reg (merge_env secret jwks_url es) w (rw on at k) in
            (
              es,
              entries,
              on,
              b,
              Boots-names b ∙ ap (keep (is_registered reg)) (map-name-merge_env secret jwks_url es),
            )
        | inr off ↦ absurd (ground arith)
      ]
