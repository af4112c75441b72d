-- ===== src/Routes.antt =====
-- internal/routes/routes.go: the route table, its validation at boot, and the placeholders of a
-- path. Reading and decoding the file, and net/url's parser of a target, are parameters.
pub mod Placeholders
pub mod Validate
pub mod Laws
use yaagents_gateway.Prelude.{String, Bool, List}
use yaagents_gateway.Prelude.Int.{ℤ}
use yaagents_gateway.Value.{Object}

pub record Route : Type 0 where
  pub id : String
  pub method : String
  pub path : String
  pub target : String
  pub roles : List String
  pub tenant_required : Bool
  pub audit : Bool
  pub mode : String
  pub execution_timeout_seconds : ℤ
  pub plugins : List (String × Object)
  pub path_params : List String
