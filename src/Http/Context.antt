-- ===== src/Http/Context.antt =====
-- internal/reqctx/reqctx.go: the values that a request's context carries. Each key holds one type,
-- and a read of a key that was never written gives that type's zero value.
use Prim.Native.Nat.{ℕ, min}
use yaagents_gateway.Prelude.{String, List, [], Option, none, some}
use yaagents_gateway.Value.{Object}

-- internal/auth: the claims that auth.Middleware stores under its own key.
pub record AuthClaims : Type 0 where
  pub subject : String
  pub roles : List String
  pub raw : Object

pub record Context : Type 0 where
  pub correlation_id_value : Option String
  pub request_id_value : Option String
  pub tenant_id_value : Option String
  pub actor_subject_value : Option String
  pub actor_roles_value : Option (List String)
  pub jwt_claims_value : Option Object
  pub auth_claims_value : Option AuthClaims
  -- The deadline that WithTimeout set, in nanoseconds from its call.
  pub timeout : Option ℕ

abbrev pub background : Context
background = record {
  correlation_id_value = none;
  request_id_value = none;
  tenant_id_value = none;
  actor_subject_value = none;
  actor_roles_value = none;
  jwt_claims_value = none;
  auth_claims_value = none;
  timeout = none;
}

abbrev or_empty : Option String → String
or_empty none = ""
or_empty (some s) = s

abbrev or_nil : Option (List String) → List String
or_nil none = []
or_nil (some xs) = xs

abbrev pub with_correlation_id : Context → String → Context
with_correlation_id c id = record c { correlation_id_value = some id }

abbrev pub correlation_id : Context → String
correlation_id c = or_empty c.correlation_id_value

abbrev pub with_request_id : Context → String → Context
with_request_id c id = record c { request_id_value = some id }

abbrev pub request_id : Context → String
request_id c = or_empty c.request_id_value

abbrev pub with_tenant_id : Context → String → Context
with_tenant_id c id = record c { tenant_id_value = some id }

abbrev pub tenant_id : Context → String
tenant_id c = or_empty c.tenant_id_value

abbrev pub with_actor_subject : Context → String → Context
with_actor_subject c sub = record c { actor_subject_value = some sub }

abbrev pub actor_subject : Context → String
actor_subject c = or_empty c.actor_subject_value

abbrev pub with_actor_roles : Context → List String → Context
with_actor_roles c roles = record c { actor_roles_value = some roles }

abbrev pub actor_roles : Context → List String
actor_roles c = or_nil c.actor_roles_value

abbrev pub with_jwt_claims : Context → Object → Context
with_jwt_claims c claims = record c { jwt_claims_value = some claims }

-- none is the nil map.
abbrev pub jwt_claims : Context → Option Object
jwt_claims c = c.jwt_claims_value

abbrev pub with_auth_claims : Context → AuthClaims → Context
with_auth_claims c claims = record c { auth_claims_value = some claims }

abbrev sooner : Option ℕ → ℕ → ℕ
sooner none n = n
sooner (some m) n = min m n

-- `context.WithTimeout`: an earlier deadline stays.
abbrev pub with_timeout : Context → ℕ → Context
with_timeout c d = record c { timeout = some (sooner c.timeout d) }
