-- ===== src/Tests/Checks.antt =====
-- The license check on a server that says yes, and the CORS plugin with one origin.
use Prim.Native.Nat.{ℕ}
use native.Mathlib.Decide.{dec_lt}
use yaagents_gateway.Prelude.{true, [], ◌∷◌, some, ◌≡◌, refl, inl, inr, arith}
use yaagents_gateway.Prelude.Int.{pos}
use yaagents_gateway.Http.Header
use yaagents_gateway.Http.Header.{canonical_key}
use yaagents_gateway.Http.Writer.{fresh}
use yaagents_gateway.Http.Request.{Request, Handler}
use yaagents_gateway.Prelude.Maps.{lookup}
use yaagents_gateway.Lru.{new_lru, cache_get}
use yaagents_gateway.Plugins.{Part}
use yaagents_gateway.Plugins.LicenseCheck.{
  Settings, Server, Store, decide, handler, verify, attempts,
}
use yaagents_gateway.Plugins.LicenseCheck.Laws.{license_handler_lem, decided}
use yaagents_gateway.Plugins.Cors.{CorsPlugin}
use yaagents_gateway.Plugins.Cors
use yaagents_gateway.Plugins.Cors.Laws.{cors_handler_lem, IsPreflightAnswer}
use yaagents_gateway.Tests.Fixtures.{visit}

abbrev settings : Settings
settings = record {
  header = "X-License-Token";
  license_url = "http://license";
  cache_ttl = pos 300;
  client_timeout = pos 5;
}

-- The outside is the time; the server accepts every token.
abbrev yes_server : Server ℕ
yes_server = record { now = λ x. x; is_valid_url = λ u. true; send = λ q x. (some 200, x) }

abbrev store : Store ℕ
store = record { cache = new_lru 10; outside = 0 }

abbrev whole : Part (Store ℕ) (Store ℕ)
whole = record { part = λ s. s; with_part = λ s old. s }

abbrev last_handler : Handler (Store ℕ)
last_handler r w s = (w, s)

license_example :
    handler yes_server settings whole last_handler visit fresh store
    ≡ last_handler visit fresh (decided yes_server settings whole visit store).1
unfolding decide verify attempts cache_get lookup
license_example =
    (license_handler_lem yes_server settings whole last_handler visit fresh store).0
      (inr (refl, (refl, 200, inl refl, omega arith, omega arith)))

abbrev one_origin : CorsPlugin
one_origin = record {
  allowed_origins = "https://app" ∷ [];
  allow_methods = "GET";
  allow_headers = "Content-Type";
  max_age = "60";
}

abbrev preflight : Request
preflight = record visit { method = "OPTIONS"; header = ("Origin", "https://app") ∷ [] }

cors_example :
    (h : Header.Header) × ((Cors.handler one_origin last_handler preflight fresh store).0.sent
      ≡ some (record { status = 200; header = h }))
    × IsPreflightAnswer one_origin preflight fresh h
    × ((Cors.handler one_origin last_handler preflight fresh store).1 ≡ store)
unfolding Header.get canonical_key dec_lt
cors_example = (cors_handler_lem one_origin last_handler preflight fresh store).0 refl refl
