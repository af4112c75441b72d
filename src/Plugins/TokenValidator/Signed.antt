-- ===== src/Plugins/TokenValidator/Signed.antt =====
-- Which tokens are taken for what they claim.
use Prim.Native.Nat.{ℕ}
use yaagents_gateway.Prelude.{
  String, true, false, [], ◌∷◌, some, ◌≡◌, refl, sym, ◌∙◌, ◌↔◌, ◌⊎◌, inl, inr, Bool-cases,
  Option-cases,
}
use yaagents_gateway.Prelude.Result.{Result, ok, err}
use yaagents_gateway.Value.{Object}
use yaagents_gateway.Jwt.{rsa, hmac, Unverified, kid_of, ParseError}
use yaagents_gateway.Jwt.Laws.{parse_iff}
use yaagents_gateway.Jwks.{PublicKey, get_key}
use yaagents_gateway.Plugins.TokenValidator.Config.{Settings}
use yaagents_gateway.Plugins.TokenValidator.Validators.{
  Provider, Store, NoKey, secret, public_key, find_validator, peek_issuer, clock, with_skew,
  rsa_key, hs256_key, validate_with, validate_hs256_v2,
}
use yaagents_gateway.Plugins.TokenValidator.Verify.{valid_or_refuse, authenticate}
use yaagents_gateway.Plugins.TokenValidator.KeyFunctions.{
  hs256_key_iff, hs256_key-store, rsa_key_iff, clock-rsa_key,
}

valid_or_refuse_iff :
    (result : Result (ParseError NoKey) Object) (mc : Object)
    → (valid_or_refuse result ≡ ok mc) ↔ (result ≡ ok mc)
valid_or_refuse_iff (ok claims) mc = (λ h. cc h, λ h. cc h)
valid_or_refuse_iff (err e) mc = (λ h. cc h, λ h. cc h)

module _ {X : Type 0} (d : Provider X) (c : Settings) where
  -- The token is signed with the shared secret of the test mode, and golang-jwt finds its claims valid
  -- at the present time.
  abbrev pub IsSignedBySecret : Store X → String → Object → Type 0
  IsSignedBySecret s token mc =
      (t : Unverified) × (d.parser.unverified (with_skew ("HS256" ∷ []) c.clock_skew) token
        ≡ some t)
      × (t.method ≡ hmac)
      × (d.parser.verified (with_skew ("HS256" ∷ []) c.clock_skew) (clock d s) token
            (secret c.hs256_key)
          ≡ ok mc)

  -- The token is signed by an RSA key that the validator for the issuer that it names gives for its key
  -- id, and golang-jwt finds its claims valid at the time when it has the key.
  abbrev pub IsSignedByIssuer : Store X → String → Object → Type 0
  IsSignedByIssuer s token mc =
      (ref : ℕ) × (t : Unverified) × (key : PublicKey) × (find_validator c.issuers_pool
          (peek_issuer d token)
        ≡ some ref)
      × (d.parser.unverified (with_skew c.algorithms c.clock_skew) token ≡ some t)
      × (t.method ≡ rsa)
      × ((get_key d.server (kid_of t) (s.validators ref) s.outside).0 ≡ ok key)
      × (d.parser.verified (with_skew c.algorithms c.clock_skew)
            (d.server.now (get_key d.server (kid_of t) (s.validators ref) s.outside).2) token
            (public_key key)
          ≡ ok mc)

  abbrev pub IsAuthentic : Store X → String → Object → Type 0
  IsAuthentic s token mc =
      ((c.test_mode ≡ true) × IsSignedBySecret s token mc)
      ⊎ ((c.test_mode ≡ false) × IsSignedByIssuer s token mc)

  secret_iff :
      (s : Store X) (token : String) (mc : Object)
      → ((validate_hs256_v2 d token c.hs256_key c.clock_skew s).0 ≡ ok mc)
        ↔ IsSignedBySecret s token mc
  unfolding validate_hs256_v2
  secret_iff s token mc =
      let opts = with_skew ("HS256" ∷ []) c.clock_skew in
      let (down, up) =
        parse_iff d.parser (λ (s : Store X). clock d s) opts token (hs256_key c.hs256_key) s mc in
      (
        λ h.
            (let (t, k, read, given, good) = down h in
              let (is_hmac, same) = (hs256_key_iff c.hs256_key t s k).0 given in
              (t, read, is_hmac, rw (hs256_key-store c.hs256_key t s, same) at good)),
        λ h.
            (let (t, read, is_hmac, good) = h in
              up (
                t,
                secret c.hs256_key,
                read,
                (hs256_key_iff c.hs256_key t s (secret c.hs256_key)).1 (is_hmac, refl),
                rw (hs256_key-store c.hs256_key t s) good,
              )),
      )

  issuer_iff :
      (ref : ℕ) (s : Store X) (token : String) (mc : Object)
      → find_validator c.issuers_pool (peek_issuer d token) ≡ some ref
      → ((validate_with d ref token c.algorithms c.clock_skew s).0 ≡ ok mc)
        ↔ IsSignedByIssuer s token mc
  unfolding validate_with
  issuer_iff ref s token mc found =
      let opts = with_skew c.algorithms c.clock_skew in
      let (down, up) =
        parse_iff d.parser (λ (s : Store X). clock d s) opts token (rsa_key d ref) s mc in
      (
        λ h.
            (let (t, k, read, given, good) = down h in
              let (is_rsa, key, got, same) = (rsa_key_iff d ref t s k).0 given in
              (
                ref,
                t,
                key,
                found,
                read,
                is_rsa,
                got,
                rw (clock-rsa_key d ref t s is_rsa, same) at good,
              )),
        λ h.
            (let (other, t, key, chosen, read, is_rsa, got, good) = h in
              let same : other ≡ ref = cc (found, chosen) in
              let got' = rw same at got in
              let good' = rw same at good in
              up (
                t,
                public_key key,
                read,
                (rsa_key_iff d ref t s (public_key key)).1 (is_rsa, key, got', refl),
                rw (clock-rsa_key d ref t s is_rsa) good',
              )),
      )

  authenticate-secret :
      (s : Store X) (token : String)
      → c.test_mode ≡ true
      → (authenticate d c token s).0
        ≡ valid_or_refuse (validate_hs256_v2 d token c.hs256_key c.clock_skew s).0
  unfolding authenticate
  authenticate-secret s token on = rw (on, authenticate) refl

  authenticate-issuer :
      (ref : ℕ) (s : Store X) (token : String)
      → c.test_mode ≡ false
      → find_validator c.issuers_pool (peek_issuer d token) ≡ some ref
      → (authenticate d c token s).0
        ≡ valid_or_refuse (validate_with d ref token c.algorithms c.clock_skew s).0
  unfolding authenticate
  authenticate-issuer ref s token off found = rw (off, found, authenticate) refl

  pub authenticate_iff :
      (s : Store X) (token : String) (mc : Object)
      → ((authenticate d c token s).0 ≡ ok mc) ↔ IsAuthentic s token mc
  unfolding authenticate
  authenticate_iff s token mc = elim (Bool-cases c.test_mode) [
    | inl on ↦
        (let same = authenticate-secret s token on in
          let (valid, accepts) =
            valid_or_refuse_iff (validate_hs256_v2 d token c.hs256_key c.clock_skew s).0 mc in
          (
            λ h. inl (on, (secret_iff s token mc).0 (valid (sym same ∙ h))),
            λ h. elim h [
              | inl (_, signed) ↦ same ∙ accepts ((secret_iff s token mc).1 signed)
              | inr (off, signed) ↦ absurd (cc (on, off))
            ],
          ))
    | inr off ↦ elim (Option-cases (find_validator c.issuers_pool (peek_issuer d token))) [
      | inl lacks ↦ (
        λ h. (let stopped = rw (off, lacks, authenticate) at h in absurd (cc stopped)),
        λ h. elim h [
          | inl (on, signed) ↦ absurd (cc (on, off))
          | inr (_, signed) ↦ absurd (cc (lacks, signed.3))
        ],
      )
      | inr (ref, found) ↦
          (let same = authenticate-issuer ref s token off found in
            let (valid, accepts) =
              valid_or_refuse_iff (validate_with d ref token c.algorithms c.clock_skew s).0 mc in
            (
              λ h. inr (off, (issuer_iff ref s token mc found).0 (valid (sym same ∙ h))),
              λ h. elim h [
                | inl (on, signed) ↦ absurd (cc (on, off))
                | inr (_, signed) ↦ same ∙ accepts ((issuer_iff ref s token mc found).1 signed)
              ],
            ))
    ]
  ]
