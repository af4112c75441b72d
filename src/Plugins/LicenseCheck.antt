-- ===== src/Plugins/LicenseCheck.antt =====
-- internal/plugins/licensecheck/plugin.go: a license token that a server has to confirm, with a cache
-- of the answers. Durations do not reach the bounds of int64.
pub mod Laws
use Prim.Native.Nat.{ℕ, zero, suc, ◌+◌, ◌*◌}
use Prim.Native.String
use yaagents_gateway.Prelude.{
  String, Bool, true, false, not, ◌&&◌, ◌||◌, Option, none, some, ltb, leb, if◌then◌else◌, ◌==◌, [],
}
use yaagents_gateway.Prelude.Int.{ℤ, pos, negsuc, to_ℕ, is_nonpos, moved, seconds}
use yaagents_gateway.Prelude.Result.{Result, ok, err, ◌>>=◌, ◌>>◌, fail_if}
use yaagents_gateway.Plugin.MapConfig.{MapConfig, get_string, get_int}
use yaagents_gateway.World.{Url}
use yaagents_gateway.Http.Header
use yaagents_gateway.Http.Header.{Header}
use yaagents_gateway.Http.Writer.{Writer, ErrorBody, plain, write_error}
use yaagents_gateway.Http.Request.{Request, Handler}
use yaagents_gateway.Tenant.{trace_of}
use yaagents_gateway.Lru.{Lru, CacheEntry, cache_get, cache_set, new_lru}
use yaagents_gateway.Plugins.{Part}

-- The fields that Init sets; the durations are in nanoseconds.
pub record Settings : Type 0 where
  pub header : String
  pub license_url : String
  pub cache_ttl : ℤ
  pub client_timeout : ℤ

pub data InitError : Type 0 where
  no_license_url bad_license_url : InitError

abbrev is_absolute : Option Url → Bool
is_absolute none = false
is_absolute (some u) = not (u.scheme == "" || u.host == "")

abbrev positive_or : ℤ → ℕ → ℕ
positive_or n default = if is_nonpos n then default else to_ℕ n

abbrev or_else : String → String → String
or_else s default = if s == "" then default else s

-- `Init`, with url.Parse as a parameter: the settings and the empty cache.
unfoldable pub init : (String → Option Url) → MapConfig → Result InitError (Settings × Lru Bool)
init parse_url cfg = do
  fail_if (get_string cfg "license_url" == "") no_license_url
  fail_if (not (is_absolute (parse_url (get_string cfg "license_url")))) bad_license_url
  ok (
    record {
      header = or_else (get_string cfg "header") "X-License-Token";
      license_url = get_string cfg "license_url";
      cache_ttl = seconds (pos (positive_or (get_int cfg "cache_ttl_seconds") 300));
      client_timeout = seconds (pos (positive_or (get_int cfg "timeout_seconds") 5));
    },
    new_lru (positive_or (get_int cfg "max_cache_size") 1024),
  )

-- A GET request with the time that the client and the inbound request's context leave it.
pub record LicenseRequest : Type 0 where
  pub url : String
  pub header : Header
  pub client_timeout : ℤ
  pub context_timeout : Option ℕ

-- What the plugin asks of the outside: the clock, whether NewRequest accepts a URL, and the status of
-- an answer, none on a network error.
pub record Server (X : Type 0) : Type 0 where
  pub now : X → ℕ
  pub is_valid_url : String → Bool
  pub send : LicenseRequest → X → Option ℕ × X

pub record Store (X : Type 0) : Type 0 where
  pub cache : Lru Bool
  pub outside : X

abbrev pub license_server : String
license_server = "license-server"

abbrev authorization : String → Header
authorization token =
    if token == "" then [] else Header.set [] "Authorization" (String.◌++◌ "Bearer " token)

abbrev pub is_2xx : ℕ → Bool
is_2xx status = leb 200 status && ltb status 300

-- What came of a request: the plugin's (valid, dependency), or an answer from the cache.
pub data Outcome : Type 0 where
  cached : Bool → Outcome
  verified : Bool → String → Outcome

abbrev pub is_licensed : Outcome → Bool
is_licensed (cached valid) = valid
is_licensed (verified valid dependency) = valid

module _ {X : Type 0} (d : Server X) (c : Settings) where
  abbrev pub license_request : String → Option ℕ → LicenseRequest
  license_request token timeout = record {
    url = c.license_url;
    header = authorization token;
    client_timeout = c.client_timeout;
    context_timeout = timeout;
  }

  -- The loop of `verify`, with the attempts that are left.
  unfoldable pub attempts : ℕ → String → Option ℕ → X → (Bool × String) × X
  attempts zero token timeout x = ((false, license_server), x)
  attempts (suc n) token timeout x =
      let (status, x') = d.send (license_request token timeout) x in
      let again = attempts n token timeout x' in
      elim status [ none ↦ again | some code ↦ ((is_2xx code, ""), x') ]

  -- `verify`
  unfoldable pub verify : String → Option ℕ → X → (Bool × String) × X
  unfolding attempts
  verify token timeout x =
      if d.is_valid_url c.license_url
      then attempts 2 token timeout x
      else ((false, license_server), x)

  -- `cacheSet` with the expiry that it computes.
  abbrev pub remember : String → Bool → Store X → Store X
  remember token valid s =
      let e : CacheEntry Bool = record {
        key = token;
        value = valid;
        expires_at = moved (d.now s.outside) c.cache_ttl;
      } in
      record s { cache = cache_set e s.cache }

  -- What the handler caches of a verification: a network failure is not cached.
  unfoldable pub keep_answer : String → Bool × String → Store X → Store X
  keep_answer token (valid, dependency) s =
      if valid || dependency == "" then remember token valid s else s

  -- The handler's decision, from the cache or else from the server.
  unfoldable pub decide : String → Option ℕ → Store X → Outcome × Store X
  unfolding keep_answer
  decide token timeout s =
      let (found, cache) = cache_get token (d.now s.outside) s.cache in
      let s' = record s { cache = cache } in
      elim found [
        | some valid ↦ (cached valid, s')
        | none ↦
            (let (answer, x) = verify token timeout s'.outside in
              (verified answer.0 answer.1, keep_answer token answer (record s' { outside = x })))
      ]

abbrev license_invalid : String → String → Request → ErrorBody
license_invalid message dependency r = record {
  kind = "forbidden";
  code = "license_invalid";
  message = plain message;
  retry_after = 0;
  trace = trace_of r.context dependency;
}

-- The body of a refusal.
abbrev pub refusal : Outcome → Request → ErrorBody
refusal (cached valid) r = license_invalid "license token is not valid" "" r
refusal (verified valid dependency) r = license_invalid "license verification failed" dependency r

-- `Handler`
unfoldable pub handler :
    {W X : Type 0} → Server X → Settings → Part W (Store X) → Handler W → Handler W
handler d c at next r w s =
    let (outcome, store) =
      decide d c (Header.get r.header c.header) r.context.timeout (at.part s) in
    let s' = at.with_part store s in
    if is_licensed outcome then next r w s' else (write_error 403 (refusal outcome r) w, s')
