-- ===== src/Plugins/TokenValidator/Init/Steps.antt =====
-- What each step of initV2 guarantees.
use Prim.Native.Nat.{ℕ, ◌+◌, ◌<◌, ◌≤◌}
use native.Mathlib.Decide.{dec_lt}
use yaagents_gateway.Prelude.{
  String, Bool, true, false, List, [], ◌∷◌, Option, none, some, ◌≡◌, ◌≢◌, refl, ◌⊎◌, inl, inr,
  arith, All, any, Bool-cases, String-cases, ◌==◌, eq_iff, eqb, ltb,
}
use yaagents_gateway.Prelude.Int.{ℤ, pos, negsuc}
use yaagents_gateway.Prelude.Text.{equal_fold}
use yaagents_gateway.Prelude.Maps.{lookup}
use yaagents_gateway.Prelude.Result.{ok, ok->>=}
use yaagents_gateway.Value.{Object, str_at}
use yaagents_gateway.Plugin.MapConfig.{
  MapConfig, get_bool, get_string, get_string_slice, raw_values,
}
use yaagents_gateway.Plugins.TokenValidator.Init.Issuers.{
  InitError, KeySources, IssuerCfg, build_pool, key_sources, parse_issuers, sources_of,
}
use yaagents_gateway.Plugins.TokenValidator.Init.Fields.{
  or_default, or_else, some_names, string_slice_from_any, in_range, allowed_algorithms, propagation,
  token_fields,
}

-- A number within the range of a setting.
abbrev pub IsWithin : ℕ → ℤ → Type 0
IsWithin max n = (k : ℕ) × (n ≡ pos k) × (0 < k) × (k ≤ max)

pub in_range-IsWithin :
    (given : ℤ) (default max : ℕ) (e : InitError) (n : ℤ)
    → 0 < default
    → default ≤ max
    → in_range given default max e ≡ ok n
    → IsWithin max n
unfolding in_range
in_range-IsWithin (pos k) default max e n low high fine = elim (Bool-cases (eqb k 0)) [
  | inl unset ↦
      (let small : ltb max default ≡ false = ground (arith, high) in
        let same = rw (unset, small, in_range) at fine in (default, cc same, low, high))
  | inr given ↦ elim (Bool-cases (ltb max k)) [
    | inl large ↦ (let stopped = rw (given, large, in_range) at fine in absurd (cc stopped))
    | inr small ↦
        (let same = rw (given, small, in_range) at fine in
          (k, cc same, ground (arith, given), ground (arith, small)))
  ]
]
in_range-IsWithin (negsuc k) default max e n low high fine = absurd (cc fine)

none_folds :
    (algs : List String)
    → any (λ a. equal_fold a "none") algs ≡ false
    → All (λ a. equal_fold a "none" ≡ false) algs
none_folds [] h = tt
none_folds (a ∷ algs) h = ground (arith, none_folds algs)

hs256_is_not_none : equal_fold "HS256" "none" ≡ false
unfolding equal_fold dec_lt
hs256_is_not_none = refl

pub or_default-ne-nil {ℓ} :
    {A : Type ℓ} (given : List A) (x : A) (xs : List A) → or_default given (x ∷ xs) ≢ []
or_default-ne-nil [] x xs e = cc e
or_default-ne-nil (y ∷ ys) x xs e = cc e

pub allowed_algorithms_lem :
    (cfg : MapConfig) (algs : List String)
    → allowed_algorithms cfg ≡ ok algs
    → (algs ≢ []) × All (λ a. equal_fold a "none" ≡ false) algs
unfolding allowed_algorithms
allowed_algorithms_lem cfg algs fine =
    let given = or_default (get_string_slice cfg "algorithms") ("RS256" ∷ "ES256" ∷ []) in
    elim (Bool-cases (get_bool cfg "test_mode")) [
      | inl on ↦
          (let same = rw (on, allowed_algorithms) at fine in
            let is : "HS256" ∷ [] ≡ algs = cc same in
            rw (← is) (λ e. cc e, (hs256_is_not_none, tt)))
      | inr off ↦ elim (Bool-cases (any (λ a. equal_fold a "none") given)) [
        | inl bad ↦ (let stopped = rw (off, bad, allowed_algorithms) at fine in absurd (cc stopped))
        | inr good ↦
            (let same = rw (off, good, allowed_algorithms) at fine in
              let is : given ≡ algs = cc same in
              rw (← is) (
                or_default-ne-nil (get_string_slice cfg "algorithms") "RS256" ("ES256" ∷ []),
                none_folds given good,
              ))
      ]
    ]

some_names-ne-nil :
    (o : Option (List String)) (names : List String) → some_names o ≡ ok names → names ≢ []
some_names-ne-nil none names fine empty = cc
some_names-ne-nil (some []) names fine empty = cc
some_names-ne-nil (some (x ∷ xs)) names fine empty = cc

pub propagation_lem :
    (o : Option Object) (mode : String) (claims : List String)
    → propagation o ≡ ok (mode, claims)
    → (mode ≡ "all") ⊎ ((mode ≡ "allowlist") × (claims ≢ []))
unfolding propagation
propagation_lem none mode claims fine = inl (cc fine)
propagation_lem (some pc) mode claims fine =
    let chosen = or_else (str_at "mode" pc) "all" in
    elim (String-cases chosen "all") [
      | inl (is_all, test) ↦
          (let other : chosen == "allowlist" ≡ false = rw is_all refl in
            let same = rw (test, other, propagation) at fine in inl (cc (same, is_all)))
      | inr (ne_all, test) ↦ elim (String-cases chosen "allowlist") [
        | inr (ne, test') ↦
            (let stopped = rw (test, test', propagation) at fine in absurd (cc stopped))
        | inl (is_list, test') ↦
            (let rest = rw (test, test', propagation) at fine in
              let (names, given, same) =
                ok->>= (some_names (string_slice_from_any (lookup "claims" pc))) _ rest in
              inr (cc (same, is_list), λ empty. some_names-ne-nil _ names given (cc (same, empty))))
      ]
    ]

pub token_fields_lem :
    (o : Option Object) (header scheme : String)
    → token_fields o ≡ ok (header, scheme)
    → header ≢ ""
unfolding token_fields
token_fields_lem none header scheme fine empty =
    let same : ◌≡◌ {A = String} "Authorization" "" = cc (fine, empty) in
    ground (arith, eq_iff "Authorization" "")
token_fields_lem (some t) header scheme fine empty =
    elim (String-cases (or_else (str_at "header" t) "Authorization") "") [
      | inl (_, test) ↦ (let stopped = rw (test, token_fields) at fine in absurd (cc stopped))
      | inr (ne, test) ↦ (let same = rw (test, token_fields) at fine in ne (cc (same, empty)))
    ]

build_pool-ne-nil :
    (is_uri : String → Bool) (n : ℕ) (ic : IssuerCfg) (ics : List IssuerCfg) (sources : KeySources)
    → build_pool is_uri n (ic ∷ ics) ≡ ok sources
    → sources.pool ≢ []
unfolding build_pool
build_pool-ne-nil is_uri n ic ics sources fine empty = elim (Bool-cases (ic.issuer == "")) [
  | inl unnamed ↦ (let stopped = rw (unnamed, build_pool) at fine in cc stopped)
  | inr named ↦ elim (Bool-cases (is_uri ic.jwks_url)) [
    | inr bad ↦ (let stopped = rw (named, bad, build_pool) at fine in cc stopped)
    | inl good ↦
        (let chain = rw (named, good, build_pool) at fine in
          let (rest, built, same) = ok->>= (build_pool is_uri (n + 1) ics) _ chain in
          cc (same, empty))
  ]
]

sources_of-ne-nil :
    (is_uri : String → Bool) (cfg : MapConfig) (issuers : List IssuerCfg) (sources : KeySources)
    → sources_of is_uri cfg issuers ≡ ok sources
    → sources.pool ≢ []
sources_of-ne-nil is_uri cfg [] sources fine = elim (Bool-cases (get_string cfg "jwks_url" == "")) [
  | inl unset ↦ (let stopped = rw unset at fine in absurd (cc stopped))
  | inr given ↦ (let same = rw given at fine in λ empty. cc (same, empty))
]
sources_of-ne-nil is_uri cfg (ic ∷ ics) sources fine =
    build_pool-ne-nil is_uri 0 ic ics sources fine

pub key_sources_lem :
    (is_uri : String → Bool) (cfg : MapConfig) (sources : KeySources)
    → key_sources is_uri cfg ≡ ok sources
    → (get_bool cfg "test_mode" ≡ true → get_string cfg "jwt_secret" ≢ "")
      × (get_bool cfg "test_mode" ≡ false → sources.pool ≢ [])
unfolding key_sources
key_sources_lem is_uri cfg sources fine = elim (Bool-cases (get_bool cfg "test_mode")) [
  | inl on ↦ elim (String-cases (get_string cfg "jwt_secret") "") [
    | inl (_, test) ↦ (let stopped = rw (on, test, key_sources) at fine in absurd (cc stopped))
    | inr (ne, test) ↦ (λ _. ne, λ off. absurd (cc (on, off)))
  ]
  | inr off ↦
      (let chain = rw (off, key_sources) at fine in
        let (issuers, parsed, made) = ok->>= (parse_issuers (raw_values cfg)) _ chain in
        (λ on. absurd (cc (on, off)), λ _. sources_of-ne-nil is_uri cfg issuers sources made))
]
