-- ===== src/Plugins/TokenValidator/Init/Parts.antt =====
-- The steps that an accepted configuration went through.
use Prim.Native.Nat.{ℕ}
use yaagents_gateway.Prelude.{String, Bool, List, ◌≡◌, refl}
use yaagents_gateway.Prelude.Int.{ℤ}
use yaagents_gateway.Prelude.Maps.{lookup}
use yaagents_gateway.Prelude.Result.{Result, ok, err, ◌>>=◌}
use yaagents_gateway.Value.{as_object}
use yaagents_gateway.Plugin.MapConfig.{MapConfig, raw_values}
use yaagents_gateway.Jwks.{Jwks}
use yaagents_gateway.Plugins.TokenValidator.Config.{Settings}
use yaagents_gateway.Plugins.TokenValidator.Init.{settings_of, allocate, init_v2}
use yaagents_gateway.Plugins.TokenValidator.Init.Issuers.{InitError, KeySources, key_sources}
use yaagents_gateway.Plugins.TokenValidator.Init.Fields.{
  allowed_algorithms, skew_of, propagation, token_fields, max_bytes_of,
}

-- The steps of initV2 from their results.
unfoldable pub assembled :
    MapConfig
    → Result InitError KeySources
    → Result InitError (List String)
    → Result InitError ℤ
    → Result InitError (String × List String)
    → Result InitError (String × String)
    → Result InitError ℤ
    → Result InitError (Settings × (ℕ → Jwks))
assembled cfg sources algorithms skew propagate token max = sources >>= (λ s. algorithms >>= (λ a.
    skew >>= (λ k. propagate >>= (λ p.
      token >>= (λ t. max >>= (λ m. ok (settings_of cfg s a k p t m, allocate s.made)))))))

-- What the steps of a configuration that initV2 accepts give.
abbrev pub Parts : (String → Bool) → MapConfig → Settings → (ℕ → Jwks) → Type 0
Parts is_uri cfg c validators =
    (sources : KeySources) × (algorithms : List String) × (skew : ℤ) × (propagate : String
      × List String)
    × (token : String × String) × (max : ℤ) × (key_sources is_uri cfg ≡ ok sources)
    × (allowed_algorithms cfg ≡ ok algorithms)
    × (skew_of cfg ≡ ok skew)
    × (propagation (as_object (lookup "propagate_claims" (raw_values cfg))) ≡ ok propagate)
    × (token_fields (as_object (lookup "token" (raw_values cfg))) ≡ ok token)
    × (max_bytes_of cfg ≡ ok max)
    × (settings_of cfg sources algorithms skew propagate token max ≡ c)
    × (allocate sources.made ≡ validators)

assembled-ok :
    (cfg : MapConfig) (sources : Result InitError KeySources)
    (algorithms : Result InitError (List String)) (skew : Result InitError ℤ)
    (propagate : Result InitError (String × List String))
    (token : Result InitError (String × String)) (max : Result InitError ℤ) (c : Settings)
    (validators : ℕ → Jwks)
    → assembled cfg sources algorithms skew propagate token max ≡ ok (c, validators)
    → (s : KeySources) × (a : List String) × (k : ℤ) × (p : String × List String) × (t : String
        × String)
      × (m : ℤ) × (sources ≡ ok s)
      × (algorithms ≡ ok a)
      × (skew ≡ ok k)
      × (propagate ≡ ok p)
      × (token ≡ ok t)
      × (max ≡ ok m)
      × (settings_of cfg s a k p t m ≡ c)
      × (allocate s.made ≡ validators)
unfolding assembled
assembled-ok cfg (err e) algorithms skew propagate token max c v fine = absurd (cc fine)
assembled-ok cfg (ok s) (err e) skew propagate token max c v fine = absurd (cc fine)
assembled-ok cfg (ok s) (ok a) (err e) propagate token max c v fine = absurd (cc fine)
assembled-ok cfg (ok s) (ok a) (ok k) (err e) token max c v fine = absurd (cc fine)
assembled-ok cfg (ok s) (ok a) (ok k) (ok p) (err e) max c v fine = absurd (cc fine)
assembled-ok cfg (ok s) (ok a) (ok k) (ok p) (ok t) (err e) c v fine = absurd (cc fine)
assembled-ok cfg (ok s) (ok a) (ok k) (ok p) (ok t) (ok m) c v fine =
    (s, a, k, p, t, m, refl, refl, refl, refl, refl, refl, cc fine, cc fine)

pub init_v2-Parts :
    (is_uri : String → Bool) (cfg : MapConfig) (c : Settings) (validators : ℕ → Jwks)
    → init_v2 is_uri cfg ≡ ok (c, validators)
    → Parts is_uri cfg c validators
unfolding init_v2 assembled
init_v2-Parts is_uri cfg c validators fine =
    assembled-ok cfg (key_sources is_uri cfg) (allowed_algorithms cfg) (skew_of cfg)
      (propagation (as_object (lookup "propagate_claims" (raw_values cfg))))
      (token_fields (as_object (lookup "token" (raw_values cfg)))) (max_bytes_of cfg) c validators
      fine
