-- ===== src/Plugins/TokenValidator/LegacyTokens.antt =====
-- Which tokens the first form of the configuration accepts, and whom they identify.
use yaagents_gateway.Prelude.{
  String, true, false, not, List, [], ◌∷◌, some, ◌≡◌, refl, ◌↔◌, ◌⊎◌, inl, inr, Bool-cases,
  if◌then◌else◌, ◌==◌,
}
use yaagents_gateway.Prelude.Maps.{lookup}
use yaagents_gateway.Prelude.Result.{ok}
use yaagents_gateway.Value.{Object, str_at, IsListTexts, list_texts-IsListTexts}
use yaagents_gateway.Http.Context.{
  Context, actor_subject, actor_roles, tenant_id, jwt_claims, correlation_id, request_id,
}
use yaagents_gateway.Jwt.{
  rsa, hmac, Unverified, kid_of, ParserOption, with_valid_methods, with_expiration_required,
  with_audience,
}
use yaagents_gateway.Jwt.Laws.{parse_iff}
use yaagents_gateway.Jwks.{PublicKey, get_key}
use yaagents_gateway.Plugins.TokenValidator.{identified_v1}
use yaagents_gateway.Plugins.TokenValidator.Claims.{claim_str_slice}
use yaagents_gateway.Plugins.TokenValidator.Config.{Settings}
use yaagents_gateway.Plugins.TokenValidator.Validators.{
  Provider, Store, secret, public_key, append_if, clock, rsa_key, hs256_key, validate_jwks,
  validate_hs256, validate,
}
use yaagents_gateway.Plugins.TokenValidator.KeyFunctions.{
  hs256_key_iff, hs256_key-store, rsa_key_iff, clock-rsa_key,
}

-- What golang-jwt is asked to check: the method, an expiry, and the audience if one is configured.
abbrev pub legacy_options : String → String → List ParserOption
legacy_options method audience =
    if audience == ""
    then with_valid_methods (method ∷ []) ∷ with_expiration_required ∷ []
    else with_valid_methods (method ∷ []) ∷ with_expiration_required ∷ with_audience audience ∷ []

legacy_options_lem :
    (method audience : String)
    → append_if
        (not (audience == ""))
        (with_audience audience)
        (with_valid_methods (method ∷ []) ∷ with_expiration_required ∷ [])
      ≡ legacy_options method audience
legacy_options_lem method audience = elim (Bool-cases (audience == "")) [
  | inl none_set ↦ rw none_set refl
  | inr set ↦ rw set refl
]

-- The context has the subject, the roles, the tenant (if the token has one) and the claims of the token,
-- and keeps its ids.
abbrev pub IsIdentity : Object → Context → Context → Type 0
IsIdentity mc ctx ctx' =
    (actor_subject ctx' ≡ str_at "sub" mc)
    × IsListTexts (lookup "roles" mc) (actor_roles ctx')
    × (tenant_id ctx'
        ≡ (if str_at "tenant_id" mc == "" then tenant_id ctx else str_at "tenant_id" mc))
    × (jwt_claims ctx' ≡ some mc)
    × (correlation_id ctx' ≡ correlation_id ctx)
    × (request_id ctx' ≡ request_id ctx)

pub identified_v1-IsIdentity :
    (mc : Object) (ctx : Context) → IsIdentity mc ctx (identified_v1 mc ctx)
unfolding identified_v1 claim_str_slice
identified_v1-IsIdentity mc ctx = elim (Bool-cases (str_at "tenant_id" mc == "")) [
  | inl off ↦ rw off (refl, list_texts-IsListTexts (lookup "roles" mc), refl, refl, refl, refl)
  | inr on ↦ rw on (refl, list_texts-IsListTexts (lookup "roles" mc), refl, refl, refl, refl)
]

module _ {X : Type 0} (d : Provider X) (c : Settings) where
  -- golang-jwt accepts the token under the secret of the test mode, or under the RSA key that the key
  -- store gives for its key id, with the options for the method and the audience.
  abbrev pub IsSigned : Store X → String → Object → Type 0
  IsSigned s token mc =
      ((c.test_mode ≡ true)
        × (t : Unverified) × (d.parser.unverified (legacy_options "HS256" c.audience) token
            ≡ some t)
        × (t.method ≡ hmac)
        × (d.parser.verified (legacy_options "HS256" c.audience) (clock d s) token
              (secret c.hs256_key)
            ≡ ok mc))
      ⊎ ((c.test_mode ≡ false)
          × (t : Unverified) × (key : PublicKey) × (d.parser.unverified
                (legacy_options "RS256" c.audience) token
              ≡ some t)
          × (t.method ≡ rsa)
          × ((get_key d.server (kid_of t) (s.validators c.jwks_val) s.outside).0 ≡ ok key)
          × (d.parser.verified (legacy_options "RS256" c.audience)
                (d.server.now (get_key d.server (kid_of t) (s.validators c.jwks_val) s.outside).2)
                token (public_key key)
              ≡ ok mc))

  pub validate-IsSigned :
      (s : Store X) (token : String) (mc : Object)
      → ((validate d c token s).0 ≡ ok mc) ↔ IsSigned s token mc
  unfolding validate validate_hs256 validate_jwks
  validate-IsSigned s token mc = elim (Bool-cases c.test_mode) [
    | inl on ↦
        (let (down, up) =
            parse_iff d.parser (λ (s : Store X). clock d s) (legacy_options "HS256" c.audience)
              token (hs256_key c.hs256_key) s mc in
          rw (on, legacy_options_lem "HS256" c.audience)
            (
              λ h.
                  (let (t, k, read, given, good) = down h in
                    let (is_hmac, same) = (hs256_key_iff c.hs256_key t s k).0 given in
                    inl
                      (refl, t, read, is_hmac, rw (hs256_key-store c.hs256_key t s, same) at good)),
              λ h. elim h [
                | inl (_, t, read, is_hmac, good) ↦ up (
                  t,
                  secret c.hs256_key,
                  read,
                  (hs256_key_iff c.hs256_key t s (secret c.hs256_key)).1 (is_hmac, refl),
                  rw (hs256_key-store c.hs256_key t s) good,
                )
                | inr other ↦ absurd (cc (other.0))
              ],
            ))
    | inr off ↦
        (let (down, up) =
            parse_iff d.parser (λ (s : Store X). clock d s) (legacy_options "RS256" c.audience)
              token (rsa_key d c.jwks_val) s mc in
          rw (off, legacy_options_lem "RS256" c.audience)
            (
              λ h.
                  (let (t, k, read, given, good) = down h in
                    let (is_rsa, key, got, same) = (rsa_key_iff d c.jwks_val t s k).0 given in
                    inr (
                      refl,
                      t,
                      key,
                      read,
                      is_rsa,
                      got,
                      rw (clock-rsa_key d c.jwks_val t s is_rsa, same) at good,
                    )),
              λ h. elim h [
                | inl other ↦ absurd (cc (other.0))
                | inr (_, t, key, read, is_rsa, got, good) ↦ up (
                  t,
                  public_key key,
                  read,
                  (rsa_key_iff d c.jwks_val t s (public_key key)).1 (is_rsa, key, got, refl),
                  rw (clock-rsa_key d c.jwks_val t s is_rsa) good,
                )
              ],
            ))
  ]
