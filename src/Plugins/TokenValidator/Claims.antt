-- ===== src/Plugins/TokenValidator/Claims.antt =====
-- internal/plugins/tokenvalidator/plugin.go: the reads and checks of a token's claims, and what the
-- request's context keeps of them.
use yaagents_gateway.Prelude.{
  String, Bool, true, false, List, [], ◌∷◌, Option, none, some, contains, any, if◌then◌else◌, ◌==◌,
}
use yaagents_gateway.Prelude.Maps.{lookup, insert}
use yaagents_gateway.Value.{Value, str, strs, list, Object, elems, str_at, texts_of, list_texts}
use yaagents_gateway.Http.Context.{
  Context, with_jwt_claims, with_actor_subject, with_actor_roles, with_tenant_id,
}

-- `claimStr`
abbrev pub claim_str : Object → String → String
claim_str mc key = str_at key mc

-- `claimStrSlice`: nil and empty read alike.
unfoldable pub claim_str_slice : Object → String → List String
claim_str_slice mc key = list_texts (lookup key mc)

-- The switch of `checkAudiences` on the claim's type.
unfoldable pub token_audiences : Option Value → List String
token_audiences (some (str s)) = s ∷ []
token_audiences (some (list vs)) = texts_of (elems vs)
token_audiences (some (strs ss)) = ss
token_audiences _ = []

-- `checkAudiences`
unfoldable pub check_audiences : Object → List String → Bool
unfolding token_audiences
check_audiences mc audiences = any (λ ta. contains audiences ta) (token_audiences (lookup "aud" mc))

-- A claim that the check of the required claims lets pass.
abbrev pub is_present : Option Value → Bool
is_present none = false
is_present (some (str s)) = if s == "" then false else true
is_present (some v) = true

-- `checkRequiredClaims`: the first name that is missing or empty, else the empty text.
unfoldable pub check_required_claims : Object → List String → String
check_required_claims mc [] = ""
check_required_claims mc (name ∷ names) =
    let rest = check_required_claims mc names in if is_present (lookup name mc) then rest else name

-- The loop of `propagateClaimsToCtx` over the allowlist.
unfoldable pub filter_claims : Object → List String → Object → Object
filter_claims mc [] filtered = filtered
filter_claims mc (k ∷ allow) filtered =
    filter_claims mc allow (elim (lookup k mc) [ none ↦ filtered | some v ↦ insert k v filtered ])

-- `propagateClaimsToCtx`
unfoldable pub propagate_claims_to_ctx : Context → Object → String → List String → Context
unfolding filter_claims
propagate_claims_to_ctx ctx mc mode allow =
    if mode == "allowlist"
    then with_jwt_claims ctx (filter_claims mc allow [])
    else with_jwt_claims ctx mc

-- `if tid := claimStr(mc, "tenant_id"); tid != ""`
abbrev with_claimed_tenant : Object → Context → Context
with_claimed_tenant mc ctx =
    if claim_str mc "tenant_id" == "" then ctx else with_tenant_id ctx (claim_str mc "tenant_id")

-- The subject, the roles and the tenant of the claims.
abbrev pub with_actor : Object → Context → Context
with_actor mc ctx =
    with_claimed_tenant mc
      (with_actor_roles (with_actor_subject ctx (claim_str mc "sub")) (claim_str_slice mc "roles"))
