-- ===== src/Plugins/TokenValidator/Identity.antt =====
-- What the handlers behind the token validator know of the caller.
use yaagents_gateway.Prelude.{
  String, false, Option, none, some, ◌≡◌, refl, inl, inr, contains, Bool-cases, if◌then◌else◌, ◌==◌,
}
use yaagents_gateway.Prelude.Maps.{lookup}
use yaagents_gateway.Value.{Value, Object, str_at}
use yaagents_gateway.Http.Context.{
  Context, actor_subject, actor_roles, tenant_id, jwt_claims, correlation_id, request_id,
}
use yaagents_gateway.Plugins.TokenValidator.{identified_v2}
use yaagents_gateway.Plugins.TokenValidator.Claims.{claim_str_slice, propagate_claims_to_ctx}
use yaagents_gateway.Plugins.TokenValidator.Config.{Settings}
use yaagents_gateway.Plugins.TokenValidator.Trust.{lookup-allowed}

-- The claims that a context holds under a name.
abbrev pub claim_in : Context → String → Option Value
claim_in ctx k = elim (jwt_claims ctx) [ none ↦ none | some mc ↦ lookup k mc ]

-- Behind the validator the subject and the roles of the
-- context are those of the claims, and so is the tenant, unless the claims have none and the context's
-- stays. The claims that it holds are the token's, those of the allowlist in that mode. Its
-- correlation and request ids stay.
pub identified_v2_lem :
    (c : Settings) (mc : Object) (ctx : Context)
    → (actor_subject (identified_v2 c mc ctx) ≡ str_at "sub" mc)
      × (actor_roles (identified_v2 c mc ctx) ≡ claim_str_slice mc "roles")
      × (tenant_id (identified_v2 c mc ctx)
          ≡ (if str_at "tenant_id" mc == "" then tenant_id ctx else str_at "tenant_id" mc))
      × ((k : String)
          → claim_in (identified_v2 c mc ctx) k ≡ (
              if c.propagate_mode == "allowlist"
              then (if contains c.propagate_claims k then lookup k mc else none)
              else lookup k mc))
      × (correlation_id (identified_v2 c mc ctx) ≡ correlation_id ctx)
      × (request_id (identified_v2 c mc ctx) ≡ request_id ctx)
unfolding identified_v2 propagate_claims_to_ctx
identified_v2_lem c mc ctx = elim (Bool-cases (c.propagate_mode == "allowlist")) [
  | inl some_of ↦ elim (Bool-cases (str_at "tenant_id" mc == "")) [
    | inl off ↦
        rw (some_of, off)
          (refl, refl, refl, λ k. lookup-allowed mc c.propagate_claims k, refl, refl)
    | inr on ↦
        rw (some_of, on) (refl, refl, refl, λ k. lookup-allowed mc c.propagate_claims k, refl, refl)
  ]
  | inr all_of ↦ elim (Bool-cases (str_at "tenant_id" mc == "")) [
    | inl off ↦ rw (all_of, off) (refl, refl, refl, λ k. refl, refl, refl)
    | inr on ↦ rw (all_of, on) (refl, refl, refl, λ k. refl, refl, refl)
  ]
]

pub jwt_claims-identified_v2 :
    (c : Settings) (mc : Object) (ctx : Context)
    → c.propagate_mode == "allowlist" ≡ false
    → jwt_claims (identified_v2 c mc ctx) ≡ some mc
unfolding identified_v2 propagate_claims_to_ctx
jwt_claims-identified_v2 c mc ctx all_of = elim (Bool-cases (str_at "tenant_id" mc == "")) [
  | inl off ↦ rw (all_of, off) refl
  | inr on ↦ rw (all_of, on) refl
]
