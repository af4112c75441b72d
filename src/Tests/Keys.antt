-- ===== src/Tests/Keys.antt =====
-- The key stores on an endpoint that answers and on one that is out, the middleware of internal/auth
-- on a signed token, the settings in an empty environment, and the text of the metrics.
use Prim.Native.Nat.{ℕ}
use native.Mathlib.Decide.{dec_lt}
use yaagents_gateway.Prelude.{String, List, [], ◌∷◌, none, some, ◌≡◌, refl, inr}
use yaagents_gateway.Prelude.Int.{pos}
use yaagents_gateway.Prelude.Maps.{lookup, insert}
use yaagents_gateway.Prelude.Text.{cut_prefix}
use yaagents_gateway.Prelude.Result.{ok, err}
use yaagents_gateway.Value.{Object, str}
use yaagents_gateway.Http.Header
use yaagents_gateway.Http.Header.{canonical_key}
use yaagents_gateway.Http.Context.{AuthClaims, with_auth_claims}
use yaagents_gateway.Http.Writer.{fresh}
use yaagents_gateway.Http.Request.{Request, Handler, with_context}
use yaagents_gateway.Jwt.{hmac}
use yaagents_gateway.Jwks.{
  Jwks, KeyServer, PublicKey, new_jwks, get_key, published, load_keys, rsa_from_jwk, key_or_none,
  fetch_failed,
}
use yaagents_gateway.Jwks.Laws.{Outage, needs_fetch, get_key-Outage, get_key_recovers}
use yaagents_gateway.Auth.{
  hs256, AuthOutside, AuthStore, bearer_token, auth_middleware, validate_token,
}
use yaagents_gateway.Auth.Middleware.{auth_middleware_lem, IsOf}
use yaagents_gateway.Auth.Laws.{Agree, cached_key-get_key}
use yaagents_gateway.Plugins.{Part}
use yaagents_gateway.Tests.Tokens.{key_server}
use yaagents_gateway.Tests.Fixtures.{visit}

abbrev out_server : KeyServer ℕ
out_server = record key_server { get = λ url x. (none, x) }

abbrev pub key : PublicKey
key = record { modulus = 1; exponent = 1 }

abbrev pub keys : List (String × PublicKey)
keys = ("k1", key) ∷ []

-- The keys of this store have expired.
abbrev pub old_store : Jwks
old_store = record (new_jwks "https://idp/jwks" (pos 10)) { keys = keys; fetch_at = some 0 }

out : published out_server (out_server.get "https://idp/jwks" 100).0 ≡ err fetch_failed
unfolding published
out = refl

answers : published key_server (key_server.get "https://idp/jwks" 100).0 ≡ ok keys
unfolding published load_keys rsa_from_jwk insert
answers = refl

stale_example : Outage "k1" keys (get_key out_server "k1" old_store 100).0
stale_example = (get_key-Outage out_server "k1" old_store 100 fetch_failed out).0

recovery_example : (get_key key_server "k1" old_store 100).0 ≡ key_or_none (lookup "k1" keys)
unfolding needs_fetch lookup
recovery_example = (get_key_recovers key_server "k1" old_store 100 keys answers refl).0

abbrev claims : Object
claims = ("sub", str "u1") ∷ []

abbrev auth : AuthOutside ℕ
auth = record {
  server = key_server;
  parser = record {
    unverified = λ opts token. some (record { method = hmac; header = [] });
    verified = λ opts now token key. ok claims;
  };
  new_uuid = λ x. ("uuid", x);
}

abbrev auth_store : AuthStore ℕ
auth_store = record { validator = hs256 "s"; outside = 5 }

agree_example : Agree auth "k1" old_store 100
agree_example = (cached_key-get_key auth "k1" old_store 100).0 (inr (keys, answers))

abbrev whole : Part (AuthStore ℕ) (AuthStore ℕ)
whole = record { part = λ s. s; with_part = λ s old. s }

abbrev last_handler : Handler (AuthStore ℕ)
last_handler r w s = (w, s)

abbrev bearer : Request
bearer = record visit { header = ("Authorization", "Bearer a.b.c") ∷ [] }

bearer-carried : bearer_token bearer ≡ some "a.b.c"
unfolding bearer_token Header.get canonical_key dec_lt cut_prefix
bearer-carried = refl

middleware_example :
    (x : AuthClaims) × IsOf claims x
    × (auth_middleware auth whole last_handler bearer fresh auth_store
        ≡ last_handler
            (with_context bearer (with_auth_claims bearer.context x))
            fresh
            (validate_token auth "a.b.c" auth_store).1)
middleware_example =
    (auth_middleware_lem auth whole last_handler bearer fresh auth_store).0 "a.b.c" claims
      bearer-carried (record { method = hmac; header = [] }, refl, refl, refl)
