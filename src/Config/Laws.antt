-- ===== src/Config/Laws.antt =====
-- What the settings guarantee, whatever the environment holds.
use Prim.Native.Nat.{ℕ, ◌<◌}
use yaagents_gateway.Prelude.{
  String, false, ◌≡◌, ◌≢◌, refl, inl, inr, arith, Bool-cases, Option-cases, String-cases, ◌==◌,
  eq_iff,
}
use yaagents_gateway.Prelude.Int.{ℤ, pos, negsuc, is_nonpos}
use yaagents_gateway.Config.{Environment, env_or, env_int, load_config}

-- A number above 0.
abbrev pub IsPositive : ℤ → Type 0
IsPositive n = (k : ℕ) × (n ≡ pos k) × (0 < k)

is_nonpos-false : (n : ℤ) → is_nonpos n ≡ false → IsPositive n
is_nonpos-false (pos k) h = (k, refl, ground (arith, h))
is_nonpos-false (negsuc k) h = absurd (cc h)

module _ (d : Environment) where
  env_or-ne-nil : (key fallback : String) → fallback ≢ "" → env_or d key fallback ≢ ""
  unfolding env_or
  env_or-ne-nil key fallback full = elim (String-cases (d.getenv key) "") [
    | inl (_, test) ↦ rw test full
    | inr (given, test) ↦ rw test given
  ]

  env_int-IsPositive :
      (key : String) (fallback : ℤ) → IsPositive fallback → IsPositive (env_int d key fallback)
  unfolding env_int
  env_int-IsPositive key fallback fine = elim (Bool-cases (d.getenv key == "")) [
    | inl unset ↦ rw unset fine
    | inr given ↦ elim (Option-cases (d.atoi (d.getenv key))) [
      | inl bad ↦ rw (given, bad, env_int) fine
      | inr (n, read) ↦ elim (Bool-cases (is_nonpos n)) [
        | inl low ↦ rw (given, read, low, env_int) fine
        | inr high ↦ rw (given, read, high, env_int) (is_nonpos-false n high)
      ]
    ]
  ]

  -- Whatever the environment holds, the port, the routes file and the sink of the audit log have a
  -- name, and the shutdown timeout and the limit of streams for a tenant are positive.
  load_config_bounds :
      ((load_config d).port ≢ "")
      × ((load_config d).routes_file ≢ "")
      × ((load_config d).audit_log ≢ "")
      × IsPositive (load_config d).shutdown_timeout_s
      × IsPositive (load_config d).llm_max_sse_per_tenant
  unfolding load_config
  load_config_bounds = (
    env_or-ne-nil "GATEWAY_PORT" "8120" (λ e. ground (arith, eq_iff "8120" "")),
    env_or-ne-nil "GATEWAY_ROUTES_FILE" "routes.yaml"
        (λ e. ground (arith, eq_iff "routes.yaml" "")),
    env_or-ne-nil "GATEWAY_AUDIT_LOG" "stdout" (λ e. ground (arith, eq_iff "stdout" "")),
    env_int-IsPositive "GATEWAY_SHUTDOWN_TIMEOUT_S" (pos 30) (30, refl, omega arith),
    env_int-IsPositive "GATEWAY_LLM_MAX_SSE_PER_TENANT" (pos 10) (10, refl, omega arith),
  )
