-- ===== src/Config.antt =====
-- internal/config/config.go: the gateway's settings from the environment, with os.Getenv and
-- strconv.Atoi as parameters.
pub mod Laws
use yaagents_gateway.Prelude.{String, Bool, Option, none, some, if◌then◌else◌, ◌==◌}
use yaagents_gateway.Prelude.Int.{ℤ, pos, is_nonpos}

pub record Environment : Type 0 where
  pub getenv : String → String
  pub atoi : String → Option ℤ

pub record GatewayConfig : Type 0 where
  pub port : String
  pub routes_file : String
  pub audit_log : String
  pub plugins_file : String
  pub jwt_secret : String
  pub jwt_jwks_url : String
  pub shutdown_timeout_s : ℤ
  pub llm_max_sse_per_tenant : ℤ

module _ (d : Environment) where
  -- `envOr`
  unfoldable pub env_or : String → String → String
  env_or key fallback = if d.getenv key == "" then fallback else d.getenv key

  -- `envInt`
  unfoldable pub env_int : String → ℤ → ℤ
  env_int key fallback = if d.getenv key == "" then fallback else (elim (d.atoi (d.getenv key)) [
    | none ↦ fallback
    | some n ↦ if is_nonpos n then fallback else n
  ])

  -- `Load`
  unfoldable pub load_config : GatewayConfig
  unfolding env_or env_int
  load_config = record {
    port = env_or "GATEWAY_PORT" "8120";
    routes_file = env_or "GATEWAY_ROUTES_FILE" "routes.yaml";
    audit_log = env_or "GATEWAY_AUDIT_LOG" "stdout";
    plugins_file = d.getenv "GATEWAY_PLUGINS_FILE";
    jwt_secret = d.getenv "GATEWAY_JWT_SECRET";
    jwt_jwks_url = d.getenv "GATEWAY_JWT_JWKS_URL";
    shutdown_timeout_s = env_int "GATEWAY_SHUTDOWN_TIMEOUT_S" (pos 30);
    llm_max_sse_per_tenant = env_int "GATEWAY_LLM_MAX_SSE_PER_TENANT" (pos 10);
  }
