-- ===== src/Auth/Middleware.antt =====
-- Which requests pass the middleware.
use yaagents_gateway.Prelude.{String, none, some, ◌≡◌, refl, ◌↔◌, inl, inr, Option-cases}
use yaagents_gateway.Prelude.Result.{Result, ok, err, Result-cases}
use yaagents_gateway.Value.{Object, str_at, IsListTexts, list_texts-IsListTexts}
use yaagents_gateway.Prelude.Maps.{lookup}
use yaagents_gateway.Http.Context.{AuthClaims, with_auth_claims}
use yaagents_gateway.Http.Writer.{Writer, status_of}
use yaagents_gateway.Http.Request.{Request, Handler, with_context}
use yaagents_gateway.Http.Laws.{write_error_lem}
use yaagents_gateway.Jwt.{rsa, hmac, Unverified, kid_of}
use yaagents_gateway.Jwt.Laws.{Method-cases, parse_iff}
use yaagents_gateway.Jwks.{PublicKey}
use yaagents_gateway.Plugins.{Part}
use yaagents_gateway.Auth.{
  Validator, hs256, jwks, AuthOutside, AuthStore, AuthKey, AuthKeyError, shared, public_key,
  options, key_func, key_or_error, cached_key, parsed, extract_claims, validate_token, bearer_token,
  auth_middleware, write_auth_error,
}

module _ {X : Type 0} (d : AuthOutside X) where
  -- The token is signed with the validator's secret by an HMAC method, or by an RSA method with the key
  -- that its endpoint or cache has for the key id, and golang-jwt finds its claims valid.
  abbrev pub IsSigned : Validator → X → String → Object → Type 0
  IsSigned (hs256 key) x token mc =
      (t : Unverified) × (d.parser.unverified (options "HS256") token ≡ some t)
      × (t.method ≡ hmac)
      × (d.parser.verified (options "HS256") (d.server.now x) token (shared key) ≡ ok mc)
  IsSigned (jwks v) x token mc =
      (t : Unverified) × (k : PublicKey) × (d.parser.unverified (options "RS256") token ≡ some t)
      × (t.method ≡ rsa)
      × ((cached_key d (kid_of t) v x).0 ≡ ok k)
      × (d.parser.verified (options "RS256") (d.server.now (cached_key d (kid_of t) v x).2) token
            (public_key k)
          ≡ ok mc)

  abbrev store_with : Validator → X → AuthStore X
  store_with v x = record { validator = v; outside = x }

  key_or_error-ok :
      (result : Result AuthKeyError PublicKey) (k : AuthKey)
      → key_or_error result ≡ ok k
      → (key : PublicKey) × (result ≡ ok key) × (public_key key ≡ k)
  key_or_error-ok (ok key) k h = (key, refl, cc h)
  key_or_error-ok (err e) k h = absurd (cc h)

  parsed_iff :
      (v : Validator) (x : X) (token : String) (mc : Object)
      → ((parsed d token (store_with v x)).0 ≡ ok mc) ↔ IsSigned v x token mc
  unfolding parsed key_func
  parsed_iff (hs256 key) x token mc =
      let (down, up) =
        parse_iff d.parser (λ (s : AuthStore X). d.server.now s.outside) (options "HS256") token
          (key_func d) (store_with (hs256 key) x) mc in
      (
        λ h.
            (let (t, k, read, given, good) = down h in
              elim (Method-cases t.method) [
                | inl is_rsa ↦ (let stopped = rw (is_rsa, key_func) at given in absurd (cc stopped))
                | inr (inl is_hmac) ↦
                    (let same : shared key ≡ k = cc (rw (is_hmac, key_func) at given) in
                      let good' = rw (is_hmac, key_func) at good in
                      (t, read, is_hmac, rw (← same) at good'))
                | inr (inr is_other) ↦
                    (let stopped = rw (is_other, key_func) at given in absurd (cc stopped))
              ]),
        λ h.
            (let (t, read, is_hmac, good) = h in
              up (t, shared key, read, rw (is_hmac, key_func) refl, rw (is_hmac, key_func) good)),
      )
  parsed_iff (jwks v) x token mc =
      let (down, up) =
        parse_iff d.parser (λ (s : AuthStore X). d.server.now s.outside) (options "RS256") token
          (key_func d) (store_with (jwks v) x) mc in
      (
        λ h.
            (let (t, k, read, given, good) = down h in
              elim (Method-cases t.method) [
                | inr (inl is_hmac) ↦
                    (let stopped = rw (is_hmac, key_func) at given in absurd (cc stopped))
                | inl is_rsa ↦
                    (let got = rw (is_rsa, key_func) at given in
                      let good' = rw (is_rsa, key_func) at good in
                      let (key, found, same) =
                        key_or_error-ok (cached_key d (kid_of t) v x).0 k got in
                      (t, key, read, is_rsa, found, rw (← same) at good'))
                | inr (inr is_other) ↦
                    (let stopped = rw (is_other, key_func) at given in absurd (cc stopped))
              ]),
        λ h.
            (let (t, k, read, is_rsa, found, good) = h in
              up (
                t,
                public_key k,
                read,
                rw (is_rsa, found, key_func) refl,
                rw (is_rsa, key_func) good,
              )),
      )

-- The claims are those of the token.
abbrev pub IsOf : Object → AuthClaims → Type 0
IsOf mc claims =
    (claims.subject ≡ str_at "sub" mc)
    × IsListTexts (lookup "roles" mc) claims.roles
    × (claims.raw ≡ mc)

extract_claims-IsOf : (mc : Object) → IsOf mc (extract_claims mc)
unfolding extract_claims
extract_claims-IsOf mc = (refl, list_texts-IsListTexts (lookup "roles" mc), refl)

module _ {W X : Type 0} (d : AuthOutside X) (at : Part W (AuthStore X)) where
  abbrev pub IsVouchedFor : W → String → Object → Type 0
  IsVouchedFor s token mc = IsSigned d (at.part s).validator (at.part s).outside token mc

  -- A request whose bearer token the validator vouches for goes on, with the subject, the roles and the
  -- claims of that token in its context: the texts that the token has under "sub" and, as a list, under
  -- "roles", none if it has something else there, and all of its claims. Any other is answered without the next handler, whatever that
  -- is, and, where nothing was sent yet, with 401.
  pub auth_middleware_lem :
      (next : Handler W) (r : Request) (w : Writer) (s : W)
      → ((token : String) (mc : Object)
          → bearer_token r ≡ some token
          → IsVouchedFor s token mc
          → (claims : AuthClaims) × IsOf mc claims
            × (auth_middleware d at next r w s
                ≡ next
                    (with_context r (with_auth_claims r.context claims))
                    w
                    (at.with_part (validate_token d token (at.part s)).1 s)))
        × (((token : String) (mc : Object)
              → bearer_token r ≡ some token
              → ¬ IsVouchedFor s token mc)
            → ((other : Handler W)
                → auth_middleware d at next r w s ≡ auth_middleware d at other r w s)
              × (w.sent ≡ none → status_of (auth_middleware d at next r w s).0 ≡ some 401))
  unfolding auth_middleware validate_token write_auth_error
  auth_middleware_lem next r w s = (
    λ token mc found signed.
        (let good = (parsed_iff d (at.part s).validator (at.part s).outside token mc).1 signed in
          (extract_claims mc, extract_claims-IsOf mc, rw (found, good, auth_middleware) refl)),
    λ nobody. elim (Option-cases (bearer_token r)) [
      | inl absent ↦
          rw (absent, auth_middleware) (λ other. refl, λ unsent. (write_error_lem 401 _ w unsent).0)
      | inr (token, found) ↦ elim (Result-cases (parsed d token (at.part s)).0) [
        | inl (mc, good) ↦ absurd (
            nobody token mc found
              ((parsed_iff d (at.part s).validator (at.part s).outside token mc).0 good))
        | inr (e, bad) ↦
            rw (found, bad, auth_middleware)
              (λ other. refl, λ unsent. (write_error_lem 401 _ w unsent).0)
      ]
    ],
  )
