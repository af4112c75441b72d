-- ===== src/Proxy/Roles/Laws.antt =====
-- Which actors pass the role check.
use yaagents_gateway.Prelude.{
  String, false, List, [], ◌∷◌, none, some, contains, Contains, contains_iff, All, ◌≡◌, refl, ◌↔◌,
  arith,
}
use yaagents_gateway.Http.Context.{Context, actor_roles}
use yaagents_gateway.Proxy.Roles.{first_missing, enforce_roles}

first_missing-none_iff :
    (held required : List String)
    → (first_missing held required ≡ none) ↔ All (Contains held) required
unfolding first_missing
first_missing-none_iff held [] = (λ h. tt, λ h. refl)
first_missing-none_iff held (r ∷ rs) =
    ground (arith, contains_iff held r, first_missing-none_iff held rs)

first_missing-some :
    (held required : List String) {role : String}
    → first_missing held required ≡ some role
    → Contains required role × (contains held role ≡ false)
unfolding first_missing
first_missing-some held [] h = cc
first_missing-some held (r ∷ rs) {role} h = ground (arith, first_missing-some held rs {role = role})

-- The check passes exactly for actors that hold every required role, and otherwise names a required
-- role that the actor lacks.
pub enforce_roles_iff :
    (c : Context) (required : List String)
    → ((enforce_roles c required ≡ none) ↔ All (Contains (actor_roles c)) required)
      × ((role : String)
          → enforce_roles c required ≡ some role
          → Contains required role × (contains (actor_roles c) role ≡ false))
unfolding enforce_roles
enforce_roles_iff c [] = ((λ h. tt, λ h. refl), λ role h. cc)
enforce_roles_iff c (r ∷ rs) = (
  first_missing-none_iff (actor_roles c) (r ∷ rs),
  λ role h. first_missing-some (actor_roles c) (r ∷ rs) h,
)
