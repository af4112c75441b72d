-- ===== src/Plugins/TokenValidator/Init/Pool.antt =====
-- Which issuer's keys each entry of the pool refers to.
use Prim.Native.Nat.{ℕ, suc, ◌+◌, ◌*◌, ◌<◌}
use mathlib.Core.List.{Memᴰ}
use yaagents_gateway.Prelude.{
  String, Bool, false, List, [], ◌∷◌, ◌≡◌, ◌≢◌, refl, ap, sym, ◌∙◌, inl, inr, arith, Bool-cases,
  String-cases,
}
use yaagents_gateway.Prelude.Int.{pos, seconds, seconds_fits}
use yaagents_gateway.Prelude.Result.{ok, ok->>=}
use yaagents_gateway.Plugin.MapConfig.{MapConfig, get_bool, raw_values}
use yaagents_gateway.Jwks.{Jwks, new_jwks}
use yaagents_gateway.Plugins.TokenValidator.Config.{Settings, IssuerEntry}
use yaagents_gateway.Plugins.TokenValidator.Init.{allocate, settings_of, init_v2}
use yaagents_gateway.Plugins.TokenValidator.Init.Issuers.{
  KeySources, IssuerCfg, build_pool, key_sources, parse_issuers,
}
use yaagents_gateway.Plugins.TokenValidator.Init.Parts.{init_v2-Parts}

-- A new validator for a configured issuer.
abbrev pub IsFor : List IssuerCfg → String → Jwks → Type 0
IsFor ics iss v =
    (ic : IssuerCfg) × Memᴰ ic ics
    × (ic.issuer ≡ iss)
    × (iss ≢ "")
    × (v ≡ new_jwks ic.jwks_url (seconds ic.ttl))
    × ((n : ℕ)
        → ic.ttl ≡ pos n
        → n * 1000000000 < 9223372036854775808
        → v ≡ new_jwks ic.jwks_url (pos (n * 1000000000)))

build_pool-step :
    (is_uri : String → Bool) (n : ℕ) (ic : IssuerCfg) (ics : List IssuerCfg) (sources : KeySources)
    → build_pool is_uri n (ic ∷ ics) ≡ ok sources
    → (rest : KeySources) × (ic.issuer ≢ "")
      × (build_pool is_uri (n + 1) ics ≡ ok rest)
      × (record { issuer = ic.issuer; validator = n } ∷ rest.pool ≡ sources.pool)
      × (new_jwks ic.jwks_url (seconds ic.ttl) ∷ rest.made ≡ sources.made)
unfolding build_pool
build_pool-step is_uri n ic ics sources fine = elim (String-cases ic.issuer "") [
  | inl (_, unnamed) ↦ (let stopped = rw (unnamed, build_pool) at fine in absurd (cc stopped))
  | inr (ne, named) ↦ elim (Bool-cases (is_uri ic.jwks_url)) [
    | inr bad ↦ (let stopped = rw (named, bad, build_pool) at fine in absurd (cc stopped))
    | inl good ↦
        (let chain = rw (named, good, build_pool) at fine in
          let (rest, built, same) = ok->>= (build_pool is_uri (n + 1) ics) _ chain in
          (rest, ne, built, cc same, cc same))
  ]
]

build_pool-IsFor :
    (is_uri : String → Bool) (n : ℕ) (ics : List IssuerCfg) (sources : KeySources) (e : IssuerEntry)
    → build_pool is_uri n ics ≡ ok sources
    → Memᴰ e sources.pool
    → (k : ℕ) × (e.validator ≡ n + k) × IsFor ics e.issuer (allocate sources.made k)
unfolding build_pool allocate
build_pool-IsFor is_uri n [] sources e fine m =
    let none_there : sources.pool ≡ [] = cc fine in let gone = rw none_there at m in elim gone [ ]
build_pool-IsFor is_uri n (ic ∷ ics) sources e fine m =
    let (rest, ne, built, pool, made) = build_pool-step is_uri n ic ics sources fine in
    rw (← made) (elim (rw (← pool) at m) [
      | Memᴰ.head same ↦
          (let issuer = ap (λ x. x.issuer) same in
            (
              0,
              ap (λ x. x.validator) same ∙ omega arith,
              (
                ic,
                Memᴰ.head refl,
                sym issuer,
                λ empty. ne (sym issuer ∙ empty),
                refl,
                λ n given short.
                    ap (new_jwks ic.jwks_url) (ap seconds given ∙ seconds_fits n short),
              ),
            ))
      | Memᴰ.tail later ↦
          (let (k, place, (ic', m', named, full, for', exactly)) =
              build_pool-IsFor is_uri (n + 1) ics rest e built later in
            (suc k, omega (arith, place), (ic', Memᴰ.tail m', named, full, for', exactly)))
    ])

-- If initV2 accepts a list of issuers outside the test mode, then each entry of the pool refers to a
-- new validator with the JWKS address that the list gives for an issuer of the same name, which is
-- not empty, and with the lifetime that it gives there: its seconds as an int64 duration, which is
-- exactly that many seconds where their nanoseconds fit.
pub init_v2_pool :
    (is_uri : String → Bool) (cfg : MapConfig) (c : Settings) (validators : ℕ → Jwks)
    (first : IssuerCfg) (others : List IssuerCfg) (e : IssuerEntry)
    → init_v2 is_uri cfg ≡ ok (c, validators)
    → get_bool cfg "test_mode" ≡ false
    → parse_issuers (raw_values cfg) ≡ ok (first ∷ others)
    → Memᴰ e c.issuers_pool
    → IsFor (first ∷ others) e.issuer (validators e.validator)
unfolding settings_of key_sources
init_v2_pool is_uri cfg c validators first others e fine off parsed m =
    let (
      sources, algs, skew, prop, token, max, sourced, allowed, skewed, propagated, named, capped,
      same, placed,
    ) =
      init_v2-Parts is_uri cfg c validators fine in
    let built : build_pool is_uri 0 (first ∷ others) ≡ ok sources =
      rw (off, parsed, key_sources) at sourced in
    let m' : Memᴰ e sources.pool = rw (← same) at m in
    let (k, place, is) = build_pool-IsFor is_uri 0 (first ∷ others) sources e built m' in
    let here : e.validator ≡ k = omega (arith, place) in rw (← placed, here) is
