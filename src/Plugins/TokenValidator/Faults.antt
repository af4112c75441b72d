-- ===== src/Plugins/TokenValidator/Faults.antt =====
-- What may be wrong with a token, and which faults are found before it is parsed.
use Prim.Native.Nat.{ℕ, ◌<◌}
use yaagents_gateway.Prelude.{
  String, true, false, [], ◌∷◌, none, some, ◌≡◌, ◌≢◌, refl, sym, ◌⊎◌, inl, inr, arith, Contains,
  contains, contains_iff, ◌&&◌, Bool-cases, Option-cases, String-cases, ltb,
}
use yaagents_gateway.Prelude.Int.{ℤ, pos, negsuc, to_ℕ, exceeds}
use yaagents_gateway.Prelude.Text.{byte_size}
use yaagents_gateway.Prelude.Maps.{lookup}
use yaagents_gateway.Prelude.Result.{ok, err, Result-cases}
use yaagents_gateway.Value.{Object}
use yaagents_gateway.Http.Request.{Request}
use yaagents_gateway.Jwt.{rsa, hmac, Unverified, kid_of, Refused}
use yaagents_gateway.Jwks.{PublicKey, unavailable, get_key}
use yaagents_gateway.Plugins.TokenValidator.Config.{Settings}
use yaagents_gateway.Plugins.TokenValidator.Claims.{token_audiences}
use yaagents_gateway.Plugins.TokenValidator.Trust.{Overlap, IsPresent}
use yaagents_gateway.Plugins.TokenValidator.Validators.{
  Provider, Store, secret, public_key, find_validator, peek_algorithm, peek_issuer, clock,
  with_skew,
}
use yaagents_gateway.Plugins.TokenValidator.Verify.{
  Refusal, absent, oversized, undecodable, disallowed, issuer_unknown, keys_unavailable,
  token_expired, token_not_yet_valid, invalid, wrong_audience, claim_missing, extract_token_v2,
  check_algorithm, pre_check,
}
use yaagents_gateway.Plugins.TokenValidator.Selection.{LacksIssuer}
use yaagents_gateway.Plugins.TokenValidator.Signed.{IsAuthentic}

module _ {X : Type 0} (d : Provider X) (c : Settings) where
  -- golang-jwt refuses the token for this reason, at the time of the request and under the options of
  -- the configuration, with the secret of the test mode or with the key that the store of the token's
  -- issuer gives for the token's key id.
  abbrev pub IsRefused : String → Store X → Refused → Type 0
  IsRefused token s why =
      ((c.test_mode ≡ true)
        × (t : Unverified) × (d.parser.unverified (with_skew ("HS256" ∷ []) c.clock_skew) token
            ≡ some t)
        × (t.method ≡ hmac)
        × (d.parser.verified (with_skew ("HS256" ∷ []) c.clock_skew) (clock d s) token
              (secret c.hs256_key)
            ≡ err why))
      ⊎ ((c.test_mode ≡ false)
          × (ref : ℕ) × (t : Unverified) × (key : PublicKey) × (find_validator c.issuers_pool
                (peek_issuer d token)
              ≡ some ref)
          × (d.parser.unverified (with_skew c.algorithms c.clock_skew) token ≡ some t)
          × (t.method ≡ rsa)
          × ((get_key d.server (kid_of t) (s.validators ref) s.outside).0 ≡ ok key)
          × (d.parser.verified (with_skew c.algorithms c.clock_skew)
                (d.server.now (get_key d.server (kid_of t) (s.validators ref) s.outside).2) token
                (public_key key)
              ≡ err why))

  -- What is wrong with a token that a request carries.
  abbrev pub Fault : String → Store X → Refusal → Type 0
  Fault token s absent = ⊥
  Fault token s oversized =
      (0 < to_ℕ c.max_token_bytes) × (to_ℕ c.max_token_bytes < byte_size token)
  Fault token s undecodable = (c.test_mode ≡ false) × (peek_algorithm d token ≡ "")
  Fault token s (disallowed alg) =
      (c.test_mode ≡ false) × (peek_algorithm d token ≡ alg) × (¬ Contains c.algorithms alg)
  Fault token s (issuer_unknown iss) =
      (c.test_mode ≡ false)
      × (peek_issuer d token ≡ iss)
      × LacksIssuer c.issuers_pool iss
      × LacksIssuer c.issuers_pool ""
  Fault token s keys_unavailable =
      (c.test_mode ≡ false)
      × (ref : ℕ) × (t : Unverified) × (find_validator c.issuers_pool (peek_issuer d token)
          ≡ some ref)
      × (d.parser.unverified (with_skew c.algorithms c.clock_skew) token ≡ some t)
      × (t.method ≡ rsa)
      × ((get_key d.server (kid_of t) (s.validators ref) s.outside).0 ≡ err unavailable)
  Fault token s token_expired = (why : Refused) × IsRefused token s why × (why.is_expired ≡ true)
  Fault token s token_not_yet_valid =
      (why : Refused) × IsRefused token s why
      × (why.is_expired ≡ false)
      × (why.is_not_valid_yet ≡ true)
  Fault token s invalid = (mc : Object) → ¬ IsAuthentic d c s token mc
  Fault token s wrong_audience =
      (mc : Object) × IsAuthentic d c s token mc
      × (c.audiences ≢ [])
      × (¬ Overlap (token_audiences (lookup "aud" mc)) c.audiences)
  Fault token s (claim_missing name) =
      (mc : Object) × IsAuthentic d c s token mc
      × Contains c.required_claims name
      × (¬ IsPresent mc name)

  -- The cause of a refusal: no token, or what is wrong with it.
  abbrev pub Cause : Request → Store X → Refusal → Type 0
  Cause r s e =
      ((e ≡ absent) × (extract_token_v2 c r ≡ none))
      ⊎ ((token : String) × (extract_token_v2 c r ≡ some token) × Fault token s e)

  size_cause :
      (max : ℤ) (size : ℕ)
      → (exceeds max 0 && ltb (to_ℕ max) size) ≡ true
      → (0 < to_ℕ max) × (to_ℕ max < size)
  size_cause (pos n) size h = ground arith
  size_cause (negsuc n) size h = absurd (cc h)

  algorithm_cause :
      (token : String) (s : Store X) (e : Refusal)
      → check_algorithm d c token ≡ err e
      → Fault token s e
  unfolding check_algorithm
  algorithm_cause token s e h =
      let alg = peek_algorithm d token in
      elim (Bool-cases c.test_mode) [
        | inl on ↦ (let fine = rw (on, check_algorithm) at h in absurd (cc fine))
        | inr off ↦ elim (String-cases alg "") [
          | inl (empty, test) ↦
              (let stopped = rw (off, test, check_algorithm) at h in
                let is : undecodable ≡ e = cc stopped in rw (← is) (off, empty))
          | inr (_, test) ↦ elim (Bool-cases (contains c.algorithms alg)) [
            | inl there ↦
                (let fine = rw (off, test, there, check_algorithm) at h in absurd (cc fine))
            | inr gone ↦
                (let stopped = rw (off, test, gone, check_algorithm) at h in
                  let is : disallowed alg ≡ e = cc stopped in
                  rw (← is)
                    (off, refl, λ there. cc ((contains_iff c.algorithms alg).1 there, gone)))
          ]
        ]
      ]

  pub pre_check-Cause :
      (r : Request) (s : Store X) (e : Refusal) → pre_check d c r ≡ err e → Cause r s e
  unfolding pre_check
  pre_check-Cause r s e h = elim (Option-cases (extract_token_v2 c r)) [
    | inl lacks ↦ (let stopped = rw (lacks, pre_check) at h in inl (sym (cc stopped), lacks))
    | inr (token, found) ↦
        elim (Bool-cases
          (exceeds c.max_token_bytes 0 && ltb (to_ℕ c.max_token_bytes) (byte_size token))) [
            | inl large ↦
                (let stopped = rw (found, large, pre_check) at h in
                  let is : oversized ≡ e = cc stopped in
                  inr (
                    token,
                    found,
                    rw (← is) (size_cause c.max_token_bytes (byte_size token) large),
                  ))
            | inr small ↦ elim (Result-cases (check_algorithm d c token)) [
              | inl (u, good) ↦
                  (let fine = rw (found, small, good, pre_check) at h in absurd (cc fine))
              | inr (e', bad) ↦
                  (let stopped = rw (found, small, bad, pre_check) at h in
                    let is : e' ≡ e = cc stopped in
                    inr (token, found, rw (← is) (algorithm_cause token s e' bad)))
            ]
          ]
  ]
