-- ===== src/Plugins/TokenValidator/Laws.antt =====
-- Which requests handleV2 accepts, and with which claims.
use yaagents_gateway.Prelude.{String, none, some, ◌≡◌, ◌≢◌, refl, ap, ◌∙◌, ◌↔◌, inl, inr, All}
use yaagents_gateway.Prelude.Int.{to_ℕ}
use yaagents_gateway.Prelude.Result.{ok, err, Result-cases}
use yaagents_gateway.Value.{Object}
use yaagents_gateway.Http.Writer.{Writer, status_of}
use yaagents_gateway.Http.Request.{Request, Handler, with_context}
use yaagents_gateway.Plugins.{Part}
use yaagents_gateway.Plugins.TokenValidator.Config.{Settings}
use yaagents_gateway.Plugins.TokenValidator.Trust.{IsTrusted, check_claims_iff}
use yaagents_gateway.Plugins.TokenValidator.Validators.{Provider, Store}
use yaagents_gateway.Plugins.TokenValidator.Verify.{
  Refusal, extract_token_v2, pre_check, authenticate, check_claims, verified_claims,
}
use yaagents_gateway.Plugins.TokenValidator.{handle_v2, identified_v2}
use yaagents_gateway.Plugins.TokenValidator.Admission.{IsAdmissible, pre_check_iff}
use yaagents_gateway.Plugins.TokenValidator.Signed.{IsAuthentic, authenticate_iff}
use yaagents_gateway.Plugins.TokenValidator.Statuses.{code_for, refuse-status}

module _ {X : Type 0} (d : Provider X) (c : Settings) where
  -- A request with a token that is admissible, signed by whom it claims, and trusted.
  abbrev pub IsAccepted : Request → Store X → Object → Type 0
  IsAccepted r s mc =
      (token : String) × (extract_token_v2 c r ≡ some token)
      × IsAdmissible d c token
      × IsAuthentic d c s token mc
      × IsTrusted c mc

  verified_claims-ok :
      (r : Request) (s : Store X) (token : String) (mc : Object)
      → pre_check d c r ≡ ok token
      → ((verified_claims d c r s).0 ≡ ok mc) ↔ (
          ((claims : Object) × ((authenticate d c token s).0 ≡ ok claims)
            × (check_claims c claims ≡ ok mc)))
  unfolding verified_claims
  verified_claims-ok r s token mc checked = elim (Result-cases (authenticate d c token s).0) [
    | inr (e, bad) ↦ (
      λ h. (let stopped = rw (checked, bad, verified_claims) at h in absurd (cc stopped)),
      λ h. absurd (cc (bad, h.1)),
    )
    | inl (claims, good) ↦ (
      λ h. (claims, good, rw (checked, good, verified_claims) at h),
      λ h. (let (other, valid, trusted) = h in rw (checked, valid, verified_claims) trusted),
    )
  ]

  verified_claims-IsAccepted :
      (r : Request) (s : Store X) (mc : Object)
      → All (λ name. name ≢ "") c.required_claims
      → (verified_claims d c r s).0 ≡ ok mc
      → IsAccepted r s mc
  unfolding verified_claims
  verified_claims-IsAccepted r s mc named h = elim (Result-cases (pre_check d c r)) [
    | inr (e, bad) ↦ (let stopped = rw (bad, verified_claims) at h in absurd (cc stopped))
    | inl (token, checked) ↦
        (let (found, fine) = (pre_check_iff d c r token).0 checked in
          let (claims, valid, right) = (verified_claims-ok r s token mc checked).0 h in
          let (same, trusted) = (check_claims_iff c claims mc named).0 right in
          (
            token,
            found,
            fine,
            (authenticate_iff d c s token mc).0 (valid ∙ ap ok same),
            rw same at trusted,
          ))
  ]

  -- The claims that a request is accepted with are those of an acceptable token that it carries.
  pub verified_claims_iff :
      (r : Request) (s : Store X) (mc : Object)
      → All (λ name. name ≢ "") c.required_claims
      → ((verified_claims d c r s).0 ≡ ok mc) ↔ IsAccepted r s mc
  verified_claims_iff r s mc named = (
    verified_claims-IsAccepted r s mc named,
    λ h.
        (let (token, found, fine, signed, trusted) = h in
          (verified_claims-ok r s token mc ((pre_check_iff d c r token).1 (found, fine))).1 (
            mc,
            (authenticate_iff d c s token mc).1 signed,
            (check_claims_iff c mc mc named).1 (refl, trusted),
          )),
  )

module _ {W X : Type 0} (d : Provider X) (c : Settings) (at : Part W (Store X)) where
  -- The state behind the checks of a request.
  abbrev pub after_checks : Request → W → W
  after_checks r s = at.with_part (verified_claims d c r (at.part s)).1 s

  -- The answer does not depend on the next handler and leaves the state as the checks left it; where
  -- nothing was sent yet, it has the status that is configured for the cause.
  abbrev pub Refuses : Handler W → Request → Writer → W → Type 0
  Refuses next r w s =
      (e : Refusal) × ((verified_claims d c r (at.part s)).0 ≡ err e)
      × ((other : Handler W) → handle_v2 d c at next r w s ≡ handle_v2 d c at other r w s)
      × ((handle_v2 d c at next r w s).1 ≡ after_checks r s)
      × (w.sent ≡ none → status_of (handle_v2 d c at next r w s).0 ≡ some (to_ℕ (code_for c e)))

  -- If no required claim has the empty name: a request with a token that is within the size cap and
  -- the algorithm allowlist, is signed by the issuer that it names (or, where the
  -- pool does not have that one, by the issuer of the wildcard entry that the v1 form of the
  -- configuration installs; in the test mode by the secret) and valid now, is for a configured audience, and has the
  -- required claims, goes on with a context that those claims identify, and otherwise unchanged. Any
  -- other request is answered without the next handler, whatever that is, and, where nothing was sent
  -- yet, with the status that is configured for the cause.
  pub handle_v2_lem :
      (next : Handler W) (r : Request) (w : Writer) (s : W)
      → All (λ name. name ≢ "") c.required_claims
      → ((mc : Object)
          → IsAccepted d c r (at.part s) mc
          → handle_v2 d c at next r w s
            ≡ next (with_context r (identified_v2 c mc r.context)) w (after_checks r s))
        × (((mc : Object) → ¬ IsAccepted d c r (at.part s) mc) → Refuses next r w s)
  unfolding handle_v2
  handle_v2_lem next r w s named = (
    λ mc accepted.
        (let good = (verified_claims_iff d c r (at.part s) mc named).1 accepted in
          rw (good, handle_v2) refl),
    λ nobody. elim (Result-cases (verified_claims d c r (at.part s)).0) [
      | inl (mc, good) ↦
          absurd (nobody mc ((verified_claims_iff d c r (at.part s) mc named).0 good))
      | inr (e, bad) ↦ (
        e,
        bad,
        λ other. rw (bad, handle_v2) refl,
        rw (bad, handle_v2) refl,
        λ unsent. rw (bad, handle_v2) (refuse-status c e r w unsent),
      )
    ],
  )
