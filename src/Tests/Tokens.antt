-- ===== src/Tests/Tokens.antt =====
-- The token validator with one issuer, whose endpoint has one key, on a token that it accepts.
use Prim.Native.Nat.{ℕ, ◌*◌, ◌<◌, ◌≤◌}
use mathlib.Core.List.{Memᴰ}
use native.Mathlib.Decide.{dec_lt}
use yaagents_gateway.Prelude.{
  true, false, String, [], ◌∷◌, some, ◌≡◌, ◌≢◌, ◌⊎◌, refl, arith, eq_iff,
}
use yaagents_gateway.Prelude.Int.{pos}
use yaagents_gateway.Prelude.Text.{equal_fold, cut_prefix, split_cuts, byte_size}
use yaagents_gateway.Prelude.Maps.{lookup, insert}
use yaagents_gateway.Prelude.Result.{ok, err}
use yaagents_gateway.Value.{Object, str, bool, list, object, cons, nil, field, end, str_at}
use yaagents_gateway.Http.Header
use yaagents_gateway.Http.Header.{canonical_key}
use yaagents_gateway.Http.Writer.{fresh}
use yaagents_gateway.Http.Request.{Request, Handler, with_context}
use yaagents_gateway.Jwt.{rsa, Unverified, parse}
use yaagents_gateway.Jwks.{
  Jwk, Jwks, KeyServer, new_jwks, get_key, published, load_keys, rsa_from_jwk,
}
use yaagents_gateway.Plugins.{Part}
use yaagents_gateway.Plugins.TokenValidator.{handle_v2, identified_v2}
use yaagents_gateway.Plugins.TokenValidator.Config.{Settings}
use yaagents_gateway.Plugins.TokenValidator.Init.Fields.{default_failure_codes}
use yaagents_gateway.Plugins.TokenValidator.Claims.{check_audiences, check_required_claims}
use yaagents_gateway.Plugins.TokenValidator.Validators.{
  Provider, Store, find_validator, peek_algorithm, peek_issuer, validate_with,
}
use yaagents_gateway.Plugins.TokenValidator.Verify.{absent, extract_token_v2, verified_claims}
use yaagents_gateway.Plugins.TokenValidator.Laws.{
  IsAccepted, verified_claims_iff, handle_v2_lem, after_checks,
}
use yaagents_gateway.Plugins.TokenValidator.Causes.{refusal-Cause}
use yaagents_gateway.Plugins.TokenValidator.Faults.{Cause}
use yaagents_gateway.Plugins.TokenValidator.{handle_v1}
use yaagents_gateway.Plugins.TokenValidator.Verify.{extract_bearer}
use yaagents_gateway.Plugins.TokenValidator.Identity.{identified_v2_lem}
use yaagents_gateway.Plugins.TokenValidator.Legacy.{IsChallenge, handle_v1_lem}
use yaagents_gateway.Plugins.TokenValidator.Init.{init_v2, settings_of, allocate}
use yaagents_gateway.Plugins.TokenValidator.Init.Issuers.{IssuerCfg, KeySources, parse_issuers}
use yaagents_gateway.Plugins.TokenValidator.Init.Bounds.{init_v2_bounds}
use yaagents_gateway.Plugins.TokenValidator.Init.Pool.{IsFor, init_v2_pool}
use yaagents_gateway.Plugins.VerifiedTenant.{guarded, IsVouched, guarded-IsVouched}
use yaagents_gateway.Plugins.TenantInjector
use yaagents_gateway.Plugins.TenantInjector.{Directory, answered}
use yaagents_gateway.Plugin.MapConfig.{MapConfig, get_bool, get_string, get_int, get_string_slice}
use yaagents_gateway.Http.Context.{actor_subject}
use yaagents_gateway.Lru.{new_lru}
use yaagents_gateway.Tests.Caching.{injector_settings}
use yaagents_gateway.Tests.Fixtures.{visit}

abbrev claims : Object
claims = ("sub", str "u1") ∷ ("aud", str "gateway") ∷ []

abbrev one_key : Jwk
one_key = record { kty = "RSA"; kid = "k1"; n = "AQ"; e = "AQ" }

-- The outside is the time; the endpoint always answers.
abbrev pub key_server : KeyServer ℕ
key_server = record {
  now = λ x. x;
  get = λ url x. (some "document", x);
  decode = λ body. some (one_key ∷ []);
  decode_base64 = λ s. some (1 ∷ []);
}

abbrev header : Unverified
header = record { method = rsa; header = ("kid", str "k1") ∷ [] }

abbrev provider : Provider ℕ
provider = record {
  server = key_server;
  parser = record {
    unverified = λ opts token. some header;
    verified = λ opts now token key. ok claims;
  };
  unmarshal = λ bytes. some (("alg", str "RS256") ∷ ("iss", str "https://idp") ∷ []);
}

abbrev settings : Settings
settings = record {
  test_mode = false;
  hs256_key = "";
  jwks_val = 0;
  audience = "";
  v2_mode = true;
  issuers_pool = record { issuer = "https://idp"; validator = 0 } ∷ [];
  algorithms = "RS256" ∷ [];
  audiences = "gateway" ∷ [];
  clock_skew = 60000000000;
  required_claims = "sub" ∷ [];
  propagate_mode = "all";
  propagate_claims = [];
  token_header = "Authorization";
  token_scheme = "Bearer";
  on_failure = default_failure_codes;
  max_token_bytes = pos 8192;
}

abbrev empty_store : Jwks
empty_store = new_jwks "https://idp/jwks" (pos 600)

abbrev store : Store ℕ
store = record { validators = λ i. empty_store; outside = 5 }

abbrev whole : Part (Store ℕ) (Store ℕ)
whole = record { part = λ s. s; with_part = λ s old. s }

abbrev last_handler : Handler (Store ℕ)
last_handler r w s = (w, s)

abbrev bearer : Request
bearer = record visit { header = ("Authorization", "Bearer a.b.c") ∷ [] }

bearer-verified : (verified_claims provider settings bearer store).0 ≡ ok claims
unfolding verified_claims extract_token_v2 Header.get canonical_key dec_lt cut_prefix byte_size
    peek_algorithm peek_issuer split_cuts str_at lookup find_validator validate_with parse get_key
    published load_keys rsa_from_jwk insert check_audiences check_required_claims
bearer-verified = refl

required_named : ◌≢◌ {A = String} "sub" "" × Unit {0}
required_named = (λ e. ground (arith, eq_iff "sub" ""), tt)

bearer-IsAccepted : IsAccepted provider settings bearer store claims
bearer-IsAccepted =
    (verified_claims_iff provider settings bearer store claims required_named).0 bearer-verified

handle_v2_example :
    handle_v2 provider settings whole last_handler bearer fresh store
    ≡ last_handler
        (with_context bearer (identified_v2 settings claims bearer.context))
        fresh
        (after_checks provider settings whole bearer store)
handle_v2_example =
    (handle_v2_lem provider settings whole last_handler bearer fresh store required_named).0 claims
      bearer-IsAccepted

visit-refused : (verified_claims provider settings visit store).0 ≡ err absent
unfolding verified_claims extract_token_v2 Header.get canonical_key dec_lt
visit-refused = refl

refusal_example : Cause provider settings visit store absent
refusal_example = refusal-Cause provider settings visit store absent visit-refused

-- The directory behind the validator knows the principal.
abbrev directory : Directory (Store ℕ)
directory = record {
  now = λ x. x.outside;
  path_escape = λ s. s;
  is_valid_request = λ method url. true;
  fetch = λ q x. (answered 200 (some "{}"), x);
  unmarshal = λ s. some (("tenant_id", str "t1") ∷ []);
}

abbrev BothStores : Type 0
BothStores = Store ℕ × TenantInjector.Store (Store ℕ)

abbrev first_place : Part BothStores (Store ℕ)
first_place = record { part = λ s. s.0; with_part = λ s old. (s, old.1) }

abbrev second_place : Part BothStores (TenantInjector.Store (Store ℕ))
second_place = record { part = λ s. s.1; with_part = λ s old. (old.0, s) }

abbrev state : BothStores
state = (store, record { cache = new_lru 10; outside = store })

guarded_example :
    IsVouched provider settings first_place directory injector_settings second_place
      (λ r w s. (w, s))
      bearer
      fresh
      state
    ⊎ ((other : Handler BothStores)
        → guarded provider settings first_place directory injector_settings second_place
            (λ r w s. (w, s))
            bearer
            fresh
            state
          ≡ guarded provider settings first_place directory injector_settings second_place other
              bearer fresh state)
guarded_example =
    guarded-IsVouched provider settings first_place directory injector_settings second_place
      (λ r w s. (w, s)) bearer fresh state required_named refl

identity_example :
    actor_subject (identified_v2 settings claims bearer.context) ≡ str_at "sub" claims
identity_example = (identified_v2_lem settings claims bearer.context).0

legacy_example :
    IsChallenge (handle_v1 provider settings whole last_handler visit fresh store).0
    × ((handle_v1 provider settings whole last_handler visit fresh store).1 ≡ store)
unfolding extract_bearer Header.get canonical_key dec_lt cut_prefix
legacy_example =
    ((handle_v1_lem provider settings whole last_handler visit fresh store).1
        (λ token mc found signed. absurd (cc found))).1
      refl refl

-- A configuration with one issuer.
abbrev raw : Object
raw =
    ("enabled", bool true)
    ∷ (
      "issuers",
      list (
          cons
            (object
              (field "issuer" (str "https://idp") (field "jwks_url" (str "https://idp/jwks") end)))
            nil),
    )
    ∷ []

abbrev cfg : MapConfig
cfg = record { values = raw }

abbrev issuer : IssuerCfg
issuer = record { issuer = "https://idp"; jwks_url = "https://idp/jwks"; ttl = pos 600 }

abbrev sources : KeySources
sources = record {
  pool = record { issuer = "https://idp"; validator = 0 } ∷ [];
  made = new_jwks "https://idp/jwks" (pos 600000000000) ∷ [];
  v1_shim = false;
}

abbrev made_settings : Settings
made_settings =
    settings_of cfg sources ("RS256" ∷ "ES256" ∷ []) (pos 60) ("all", [])
      ("Authorization", "Bearer") (pos 8192)

cfg-accepted : init_v2 (λ s. true) cfg ≡ ok (made_settings, allocate sources.made)
unfolding init_v2 lookup dec_lt equal_fold get_bool get_string get_int get_string_slice str_at
    yaagents_gateway.Prelude.Int.seconds
cfg-accepted = refl

bounds_example : (n : ℕ) × (made_settings.clock_skew ≡ n * 1000000000) × (0 < n) × (n ≤ 600)
unfolding settings_of
bounds_example =
    (init_v2_bounds (λ s. true) cfg made_settings (allocate sources.made) cfg-accepted).0

pool_example : IsFor (issuer ∷ []) "https://idp" (allocate sources.made 0)
unfolding settings_of parse_issuers get_bool lookup str_at
pool_example =
    init_v2_pool (λ s. true) cfg made_settings (allocate sources.made) issuer []
      (record { issuer = "https://idp"; validator = 0 }) cfg-accepted refl refl (Memᴰ.head refl)
