-- ===== src/Proxy/Roles.antt =====
-- `enforceRoles`: the first required role that the actor lacks.
pub mod Laws
use yaagents_gateway.Prelude.{String, List, [], ◌∷◌, Option, none, some, contains, if◌then◌else◌}
use yaagents_gateway.Http.Context.{Context, actor_roles}

unfoldable pub first_missing : List String → List String → Option String
first_missing held [] = none
first_missing held (r ∷ rs) = if contains held r then first_missing held rs else some r

unfoldable pub enforce_roles : Context → List String → Option String
unfolding first_missing
enforce_roles c [] = none
enforce_roles c (r ∷ rs) = first_missing (actor_roles c) (r ∷ rs)
