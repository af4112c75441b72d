-- ===== src/Auth.antt =====
-- internal/auth: bearer tokens in front of every route, with one validator that the environment
-- chooses. One goroutine at a time uses the key cache here.
pub mod Laws
pub mod Middleware
use Prim.Native.Nat.{ℕ}
use yaagents_gateway.Prelude.{
  String, Bool, true, false, not, ◌&&◌, List, [], ◌∷◌, Option, none, some, ltb, if◌then◌else◌, ◌==◌,
}
use yaagents_gateway.Prelude.Int.{ℤ, pos, moved}
use yaagents_gateway.Prelude.Maps.{lookup}
use yaagents_gateway.Prelude.Text.{cut_prefix}
use yaagents_gateway.Prelude.Result.{Result, ok, err}
use yaagents_gateway.Value.{Object, str_at, list_texts}
use yaagents_gateway.Http.Header
use yaagents_gateway.Http.Context.{AuthClaims, with_auth_claims}
use yaagents_gateway.Http.Writer.{Writer, Trace, plain, write_error}
use yaagents_gateway.Http.Request.{Request, Handler, with_context}
use yaagents_gateway.Jwt.{
  rsa, hmac, Method, Unverified, kid_of, Parser, ParserOption, ParseError, parse,
  with_valid_methods, with_expiration_required,
}
use yaagents_gateway.Jwks.{PublicKey, KeyServer, published}
use yaagents_gateway.Plugins.{Part}

-- The fields of a `JWKSValidator`; `fetch_at` is none for the zero time. Times are in nanoseconds.
pub record KeyCache : Type 0 where
  pub url : String
  pub keys : List (String × PublicKey)
  pub fetch_at : Option ℕ
  pub ttl : ℤ

-- `NewJWKSValidator`: five minutes.
abbrev pub new_key_cache : String → KeyCache
new_key_cache url = record { url = url; keys = []; fetch_at = none; ttl = pos 300000000000 }

-- A Validator: an `HS256Validator` or a `JWKSValidator`.
pub data Validator : Type 0 where
  hs256 : String → Validator
  jwks : KeyCache → Validator

-- `NewValidator`, from GATEWAY_JWT_SECRET and GATEWAY_JWT_JWKS_URL; none for its error.
unfoldable pub new_validator : String → String → Option Validator
new_validator secret jwks_url =
    if not (jwks_url == "") && not (secret == "")
    then some (jwks (new_key_cache jwks_url))
    else if not (jwks_url == "")
    then some (jwks (new_key_cache jwks_url))
    else if not (secret == "")
    then some (hs256 secret)
    else none

pub data AuthKey : Type 0 where
  shared : String → AuthKey
  public_key : PublicKey → AuthKey

-- Why the key function failed: the token's method, the refresh, or the key id.
pub data AuthKeyError : Type 0 where
  wrong_method refresh_failed unknown_kid : AuthKeyError

-- The endpoint and the clock, golang-jwt, and crypto/rand behind newUUID.
pub record AuthOutside (X : Type 0) : Type 0 where
  pub server : KeyServer X
  pub parser : Parser AuthKey
  pub new_uuid : X → String × X

pub record AuthStore (X : Type 0) : Type 0 where
  pub validator : Validator
  pub outside : X

-- `extractClaims`; a copy of the map is the map.
unfoldable pub extract_claims : Object → AuthClaims
extract_claims mc = record {
  subject = str_at "sub" mc;
  roles = list_texts (lookup "roles" mc);
  raw = mc;
}

-- `extractBearer`
unfoldable pub bearer_token : Request → Option String
bearer_token r = elim (cut_prefix (Header.get r.header "Authorization") "Bearer ") [
  | none ↦ none
  | some after ↦ if after == "" then none else some after
]

abbrev pub found_key : Option PublicKey → Result AuthKeyError PublicKey
found_key none = err unknown_kid
found_key (some key) = ok key

abbrev pub after_refresh_cache :
    {X : Type 0} → String → Bool × KeyCache × X → Result AuthKeyError PublicKey × KeyCache × X
after_refresh_cache kid (false, v, x) = (err refresh_failed, v, x)
after_refresh_cache kid (true, v, x) = (found_key (lookup kid v.keys), v, x)

abbrev pub key_or_error : Result AuthKeyError PublicKey → Result AuthKeyError AuthKey
key_or_error (ok k) = ok (public_key k)
key_or_error (err e) = err e

abbrev pub options : String → List ParserOption
options alg = with_valid_methods (alg ∷ []) ∷ with_expiration_required ∷ []

abbrev pub algorithm_of : Validator → String
algorithm_of (hs256 key) = "HS256"
algorithm_of (jwks v) = "RS256"

module _ {X : Type 0} (d : AuthOutside X) where
  -- `refresh`: whether it succeeded, the cache and the outside behind it.
  unfoldable pub refresh_cache : KeyCache → X → Bool × KeyCache × X
  refresh_cache v x =
      let (answer, x') = d.server.get v.url x in
      elim (published d.server answer) [
        | err e ↦ (false, v, x')
        | ok keys ↦ (true, record v { keys = keys; fetch_at = some (d.server.now x') }, x')
      ]

  abbrev pub is_stale : KeyCache → X → Bool
  is_stale v x = elim v.fetch_at [ none ↦ true | some t ↦ ltb (moved t v.ttl) (d.server.now x) ]

  -- `getKey`
  unfoldable pub cached_key : String → KeyCache → X → Result AuthKeyError PublicKey × KeyCache × X
  unfolding refresh_cache
  cached_key kid v x =
      let slow = after_refresh_cache kid (refresh_cache v x) in
      elim (lookup kid v.keys) [
        | none ↦ slow
        | some key ↦ if is_stale v x then slow else (ok key, v, x)
      ]

  -- The key functions of the two validators.
  unfoldable pub key_func : Unverified → AuthStore X → Result AuthKeyError AuthKey × AuthStore X
  key_func t s = elim s.validator [
    | hs256 key ↦ elim t.method [
      | hmac ↦ (ok (shared key), s)
      | rsa ↦ (err wrong_method, s)
      | Method.other ↦ (err wrong_method, s)
    ]
    | jwks v ↦ elim t.method [
      | rsa ↦
          (let got = cached_key (kid_of t) v s.outside in
            (key_or_error got.0, record { validator = jwks got.1; outside = got.2 }))
      | hmac ↦ (err wrong_method, s)
      | Method.other ↦ (err wrong_method, s)
    ]
  ]

  -- The parsing in either Validate.
  unfoldable pub parsed :
      String → AuthStore X → Result (ParseError AuthKeyError) Object × AuthStore X
  unfolding key_func
  parsed token s =
      parse d.parser (λ s. d.server.now s.outside) (options (algorithm_of s.validator)) token
        key_func s

  -- `Validate` of either validator.
  unfoldable pub validate_token :
      String → AuthStore X → Result (ParseError AuthKeyError) AuthClaims × AuthStore X
  unfolding parsed extract_claims
  validate_token token s =
      let (result, s') = parsed token s in
      (elim result [ ok mc ↦ ok (extract_claims mc) | err e ↦ err e ], s')

  abbrev pub header_or_uuid : String → Request → X → String × X
  header_or_uuid name r x =
      let id = Header.get r.header name in if id == "" then d.new_uuid x else (id, x)

  -- `writeAuthError`
  unfoldable pub write_auth_error : String → String → Request → Writer → X → Writer × X
  write_auth_error code message r w x =
      let (correlation, x₁) = header_or_uuid "X-Correlation-ID" r x in
      let (request, x₂) = header_or_uuid "X-Request-ID" r x₁ in
      (
        write_error 401
            (record {
              kind = "error";
              code = code;
              message = plain message;
              retry_after = 0;
              trace = record {
                correlation_id = correlation;
                request_id = request;
                dependency = "";
              };
            })
            w,
        x₂,
      )

module _ {W X : Type 0} (d : AuthOutside X) (at : Part W (AuthStore X)) where
  abbrev pub rejected : String → String → Request → Writer → AuthStore X → W → Writer × W
  rejected code message r w store s =
      let (w', x) = write_auth_error d code message r w store.outside in
      (w', at.with_part (record store { outside = x }) s)

  -- `Middleware`
  unfoldable pub auth_middleware : Handler W → Handler W
  unfolding write_auth_error
  auth_middleware next r w s = elim (bearer_token r) [
    | none ↦
        rejected "MISSING_TOKEN" "authorization header with Bearer token is required" r w
          (at.part s) s
    | some token ↦
        (let (result, store) = validate_token d token (at.part s) in
          elim result [
            | err e ↦ rejected "INVALID_TOKEN" "token validation failed" r w store s
            | ok claims ↦
                next (with_context r (with_auth_claims r.context claims)) w (at.with_part store s)
          ])
  ]
