-- ===== src/Plugins/VerifiedTenant.antt =====
-- The token validator in front of the tenant injector, as a gateway's chain has them.
use yaagents_gateway.Prelude.{
  String, false, some, ◌≡◌, ◌≢◌, refl, sym, ◌∙◌, ◌⊎◌, inl, inr, All, ◌==◌,
}
use yaagents_gateway.Prelude.Result.{ok, Result-cases}
use yaagents_gateway.Value.{Object, str_at}
use yaagents_gateway.Http.Writer.{Writer}
use yaagents_gateway.Http.Request.{Request, Handler, with_context}
use yaagents_gateway.Plugins.{Part}
use yaagents_gateway.Plugins.TokenValidator.{handle_v2, identified_v2}
use yaagents_gateway.Plugins.TokenValidator.Config
use yaagents_gateway.Plugins.TokenValidator.Validators
use yaagents_gateway.Plugins.TokenValidator.Validators.{Provider}
use yaagents_gateway.Plugins.TokenValidator.Verify.{verified_claims}
use yaagents_gateway.Plugins.TokenValidator.Laws.{IsAccepted, after_checks, verified_claims_iff}
use yaagents_gateway.Plugins.TokenValidator.Identity.{jwt_claims-identified_v2}
use yaagents_gateway.Plugins.TenantInjector
use yaagents_gateway.Plugins.TenantInjector.{Directory, principal_of}
use yaagents_gateway.Plugins.TenantInjector.Laws.{
  Resolved, injected, injected-IsInjected, IsInjected, after_lookup, handler_cases,
}

module _ {W X Y : Type 0} (d : Provider X) (c : Config.Settings) (at : Part W (Validators.Store X))
    (dir : Directory Y) (ci : TenantInjector.Settings)
    (place : Part W (TenantInjector.Store Y)) where
  -- The two plugins around the next handler.
  abbrev pub guarded : Handler W → Handler W
  guarded next = handle_v2 d c at (TenantInjector.handler dir ci place next)

  -- The request behind the validator.
  abbrev pub identified : Request → Object → Request
  identified r mc = with_context r (identified_v2 c mc r.context)

  -- An accepted token says who the principal is, and the next handler gets the identified request with
  -- the tenant found for that principal in the tenant header.
  abbrev pub IsVouched : Handler W → Request → Writer → W → Type 0
  IsVouched next r w s =
      (mc : Object) × (principal : String) × (tenant : String) × IsAccepted d c r (at.part s) mc
      × (str_at ci.principal_claim mc ≡ principal)
      × Resolved dir ci place (identified r mc) (after_checks d c at r s) principal tenant
      × (r' : Request) × IsInjected ci principal tenant (identified r mc) r'
      × (guarded next r w s
          ≡ next r' w (after_lookup dir ci place (after_checks d c at r s) principal))

  principal-claim :
      (r : Request) (mc : Object) (principal : String)
      → c.propagate_mode == "allowlist" ≡ false
      → principal_of ci (identified r mc).context ≡ some principal
      → str_at ci.principal_claim mc ≡ principal
  principal-claim r mc principal all_of named =
      let claims = jwt_claims-identified_v2 c mc r.context all_of in
      let same = rw (claims, principal_of) at named in cc same

  reached :
      (next : Handler W) (r : Request) (w : Writer) (s : W) (mc : Object)
      → (verified_claims d c r (at.part s)).0 ≡ ok mc
      → guarded next r w s
        ≡ TenantInjector.handler dir ci place next (identified r mc) w (after_checks d c at r s)
  unfolding handle_v2
  reached next r w s mc good = rw (good, handle_v2) refl

  -- If all claims are propagated and no required claim has the empty name, then what a client sends
  -- either comes to the next handler with the principal that an accepted token names and with the
  -- tenant found for that principal as the only value of the tenant header (unless the principal is
  -- configured to go under the same header), or is answered without the next handler, whatever that is.
  pub guarded-IsVouched :
      (next : Handler W) (r : Request) (w : Writer) (s : W)
      → All (λ name. name ≢ "") c.required_claims
      → c.propagate_mode == "allowlist" ≡ false
      → IsVouched next r w s ⊎ ((other : Handler W) → guarded next r w s ≡ guarded other r w s)
  unfolding handle_v2
  guarded-IsVouched next r w s named all_of =
      elim (Result-cases (verified_claims d c r (at.part s)).0) [
        | inr (e, bad) ↦ inr (λ other. rw (bad, handle_v2) refl)
        | inl (mc, good) ↦
            (let accepted = (verified_claims_iff d c r (at.part s) mc named).0 good in
              elim (handler_cases dir ci place next (identified r mc) w (after_checks d c at r s)) [
                | inl (principal, tenant, resolved, same) ↦ inl (
                  mc,
                  principal,
                  tenant,
                  accepted,
                  principal-claim r mc principal all_of resolved.0,
                  resolved,
                  injected ci principal tenant (identified r mc),
                  injected-IsInjected ci principal tenant (identified r mc),
                  reached next r w s mc good ∙ same,
                )
                | inr refused ↦ inr (λ other.
                    reached next r w s mc good
                    ∙ refused.0 other
                    ∙ sym (reached other r w s mc good))
              ])
      ]
