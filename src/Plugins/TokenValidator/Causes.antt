-- ===== src/Plugins/TokenValidator/Causes.antt =====
-- Why handleV2 refuses a request.
use Prim.Native.Nat.{ℕ}
use yaagents_gateway.Prelude.{
  String, true, false, [], ◌∷◌, some, ◌≡◌, refl, inl, inr, not, ◌&&◌, Bool-cases, Option-cases,
  String-cases,
}
use yaagents_gateway.Prelude.Result.{Result, ok, err, Result-cases}
use yaagents_gateway.Value.{Object}
use yaagents_gateway.Http.Request.{Request}
use yaagents_gateway.Jwt.{Refused, ParseError, refused, malformed, no_key}
use yaagents_gateway.Jwt.Laws.{Method-cases, WhyRefused, parse-WhyRefused}
use yaagents_gateway.Jwks.{PublicKey, KeyError, unavailable, not_in_stale_set, no_such_key}
use yaagents_gateway.Plugins.TokenValidator.Config.{Settings}
use yaagents_gateway.Plugins.TokenValidator.Claims.{check_audiences, check_required_claims}
use yaagents_gateway.Plugins.TokenValidator.Trust.{audience_iff, required_cause}
use yaagents_gateway.Plugins.TokenValidator.Validators.{
  Provider, Store, NoKey, unexpected_method, key_error, key_result, find_validator, peek_issuer,
  clock, with_skew, rsa_key, hs256_key, validate_with, validate_hs256_v2,
}
use yaagents_gateway.Plugins.TokenValidator.Verify.{
  Refusal, issuer_unknown, invalid, wrong_audience, claim_missing, why_invalid, has_any, pre_check,
  authenticate, check_claims, verified_claims, valid_or_refuse,
}
use yaagents_gateway.Plugins.TokenValidator.KeyFunctions.{
  hs256_key_iff, hs256_key-store, rsa_key_iff, clock-rsa_key,
}
use yaagents_gateway.Plugins.TokenValidator.Selection.{find_validator_lem}
use yaagents_gateway.Plugins.TokenValidator.Admission.{pre_check_iff}
use yaagents_gateway.Plugins.TokenValidator.Signed.{IsAuthentic, authenticate_iff}
use yaagents_gateway.Plugins.TokenValidator.Faults.{Fault, Cause, IsRefused, pre_check-Cause}

key_result-err :
    (result : Result KeyError PublicKey) (e : KeyError)
    → key_result result ≡ err (key_error e)
    → result ≡ err e
key_result-err (ok k) e h = absurd (cc h)
key_result-err (err e') e h = cc h

module _ {X : Type 0} (d : Provider X) (c : Settings) where
  valid_or_refuse_cause :
      (result : Result (ParseError NoKey) Object) (e : Refusal)
      → valid_or_refuse result ≡ err e
      → (why : ParseError NoKey) × (result ≡ err why) × (why_invalid why ≡ e)
  valid_or_refuse_cause (ok mc) e h = absurd (cc h)
  valid_or_refuse_cause (err why) e h = (why, refl, cc h)

  refused_cause :
      (token : String) (s : Store X) (why : Refused)
      → IsRefused d c token s why
      → Fault d c token s invalid
      → Fault d c token s (why_invalid (refused why))
  unfolding why_invalid
  refused_cause token s why bad nobody = elim (Bool-cases why.is_expired) [
    | inl late ↦ rw (late, why_invalid) (why, bad, late)
    | inr live ↦ elim (Bool-cases why.is_not_valid_yet) [
      | inl early ↦ rw (live, early, why_invalid) (why, bad, live, early)
      | inr settled ↦ rw (live, settled, why_invalid) nobody
    ]
  ]

  secret_fault :
      (token : String) (s : Store X) (why : ParseError NoKey)
      → c.test_mode ≡ true
      → WhyRefused d.parser
          (λ (s : Store X). clock d s)
          (with_skew ("HS256" ∷ []) c.clock_skew)
          token
          (hs256_key c.hs256_key)
          s
          why
      → Fault d c token s invalid
      → Fault d c token s (why_invalid why)
  unfolding why_invalid hs256_key
  secret_fault token s malformed on h nobody = nobody
  secret_fault token s (no_key unexpected_method) on h nobody = nobody
  secret_fault token s (no_key (key_error not_in_stale_set)) on h nobody = nobody
  secret_fault token s (no_key (key_error no_such_key)) on h nobody = nobody
  secret_fault token s (no_key (key_error unavailable)) on (t, read, failed) nobody =
      elim (Method-cases t.method) [
        | inl is_rsa ↦ (let other = rw (is_rsa, hs256_key) at failed in absurd (cc other))
        | inr (inl is_hmac) ↦ (let other = rw (is_hmac, hs256_key) at failed in absurd (cc other))
        | inr (inr is_other) ↦ (let other = rw (is_other, hs256_key) at failed in absurd (cc other))
      ]
  secret_fault token s (refused why) on (t, k, read, given, bad) nobody =
      let (is_hmac, same) = (hs256_key_iff c.hs256_key t s k).0 given in
      refused_cause token s why
        (inl (on, t, read, is_hmac, rw (hs256_key-store c.hs256_key t s, same) at bad)) nobody

  issuer_fault :
      (ref : ℕ) (token : String) (s : Store X) (why : ParseError NoKey)
      → c.test_mode ≡ false
      → find_validator c.issuers_pool (peek_issuer d token) ≡ some ref
      → WhyRefused d.parser
          (λ (s : Store X). clock d s)
          (with_skew c.algorithms c.clock_skew)
          token
          (rsa_key d ref)
          s
          why
      → Fault d c token s invalid
      → Fault d c token s (why_invalid why)
  unfolding why_invalid rsa_key
  issuer_fault ref token s malformed off found h nobody = nobody
  issuer_fault ref token s (no_key unexpected_method) off found h nobody = nobody
  issuer_fault ref token s (no_key (key_error not_in_stale_set)) off found h nobody = nobody
  issuer_fault ref token s (no_key (key_error no_such_key)) off found h nobody = nobody
  issuer_fault ref token s (no_key (key_error unavailable)) off found (t, read, failed) nobody =
      elim (Method-cases t.method) [
        | inl is_rsa ↦
            (let got = rw (is_rsa, rsa_key) at failed in
              (off, ref, t, found, read, is_rsa, key_result-err _ unavailable got))
        | inr (inl is_hmac) ↦ (let other = rw (is_hmac, rsa_key) at failed in absurd (cc other))
        | inr (inr is_other) ↦ (let other = rw (is_other, rsa_key) at failed in absurd (cc other))
      ]
  issuer_fault ref token s (refused why) off found (t, k, read, given, bad) nobody =
      let (is_rsa, key, got, same) = (rsa_key_iff d ref t s k).0 given in
      refused_cause token s why
        (inr (
          off,
          ref,
          t,
          key,
          found,
          read,
          is_rsa,
          got,
          rw (clock-rsa_key d ref t s is_rsa, same) at bad,
        ))
        nobody

  authenticate_cause :
      (token : String) (s : Store X) (e : Refusal)
      → (authenticate d c token s).0 ≡ err e
      → Fault d c token s e
  unfolding authenticate validate_hs256_v2 validate_with
  authenticate_cause token s e h =
      let nobody : Fault d c token s invalid =
        λ mc signed. absurd (cc ((authenticate_iff d c s token mc).1 signed, h)) in
      elim (Bool-cases c.test_mode) [
        | inl on ↦
            (let out = rw (on, authenticate) at h in
              let (why, bad, is) =
                valid_or_refuse_cause (validate_hs256_v2 d token c.hs256_key c.clock_skew s).0 e
                  out in
              rw (← is) (
                secret_fault token s why on
                  (parse-WhyRefused d.parser (λ (s : Store X). clock d s) _ token _ s why bad)
                  nobody))
        | inr off ↦ elim (Option-cases (find_validator c.issuers_pool (peek_issuer d token))) [
          | inl lacks ↦
              (let out = rw (off, lacks, authenticate) at h in
                let is : issuer_unknown (peek_issuer d token) ≡ e = cc out in
                let (exact, wild) =
                  (find_validator_lem c.issuers_pool (peek_issuer d token)).1.0 lacks in
                rw (← is) (off, refl, exact, wild))
          | inr (ref, found) ↦
              (let out = rw (off, found, authenticate) at h in
                let (why, bad, is) =
                  valid_or_refuse_cause (validate_with d ref token c.algorithms c.clock_skew s).0 e
                    out in
                rw (← is) (
                  issuer_fault ref token s why off found
                    (parse-WhyRefused d.parser (λ (s : Store X). clock d s) _ token _ s why bad)
                    nobody))
        ]
      ]

  check_claims_cause :
      (token : String) (s : Store X) (mc : Object) (e : Refusal)
      → IsAuthentic d c s token mc
      → check_claims c mc ≡ err e
      → Fault d c token s e
  unfolding check_claims
  check_claims_cause token s mc e signed h =
      let missing = check_required_claims mc c.required_claims in
      elim (Bool-cases (has_any c.audiences && not (check_audiences mc c.audiences))) [
        | inl wrong ↦
            (let out = rw (wrong, check_claims) at h in
              let is : wrong_audience ≡ e = cc out in
              rw (← is) (
                mc,
                signed,
                λ none_set. cc ((audience_iff mc c.audiences).1 (inl none_set), wrong),
                λ both. cc ((audience_iff mc c.audiences).1 (inr both), wrong),
              ))
        | inr right ↦ elim (String-cases missing "") [
          | inl (_, test) ↦ (let fine = rw (right, test, check_claims) at h in absurd (cc fine))
          | inr (ne, test) ↦
              (let out = rw (right, test, check_claims) at h in
                let is : claim_missing missing ≡ e = cc out in
                let (listed, lacking) = required_cause mc c.required_claims ne in
                rw (← is) (mc, signed, listed, lacking))
        ]
      ]

  -- Each refusal of handleV2 has its cause: there is no token; it is larger than the cap; its header
  -- names no algorithm, or one that is not allowed; the pool has no entry for its issuer and no
  -- wildcard; the store of the issuer's keys answers for the token's key id that its endpoint is
  -- unavailable; golang-jwt finds the token expired, or not yet valid, under the key for it, the
  -- configured options and the time of the request; it is not signed by whom it claims; it is, but for none of the
  -- audiences, or a required claim is missing or empty.
  pub refusal-Cause :
      (r : Request) (s : Store X) (e : Refusal)
      → (verified_claims d c r s).0 ≡ err e
      → Cause d c r s e
  unfolding verified_claims
  refusal-Cause r s e h = elim (Result-cases (pre_check d c r)) [
    | inr (e', bad) ↦
        (let is : e' ≡ e = cc (rw (bad, verified_claims) at h) in
          rw (← is) (pre_check-Cause d c r s e' bad))
    | inl (token, checked) ↦
        (let (found, fine) = (pre_check_iff d c r token).0 checked in
          inr (
            token,
            found,
            elim (Result-cases (authenticate d c token s).0) [
              | inr (e', bad) ↦
                  (let is : e' ≡ e = cc (rw (checked, bad, verified_claims) at h) in
                    rw (← is) (authenticate_cause token s e' bad))
              | inl (mc, good) ↦
                  check_claims_cause token s mc e ((authenticate_iff d c s token mc).0 good)
                    (rw (checked, good, verified_claims) at h)
            ],
          ))
  ]
