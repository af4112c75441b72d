-- ===== src/Plugins/Stubs.antt =====
-- internal/plugins/promptsanitize/plugin.go and internal/plugins/otelaudit/plugin.go: plugins that
-- pass every request on, and warn once. The warnings are kept as a count in the plugin's state.
use Prim.Native.Nat.{ℕ, ◌+◌}
use yaagents_gateway.Prelude.{
  String, Bool, true, false, not, ◌&&◌, ◌||◌, Option, none, some, if◌then◌else◌, ◌==◌,
}
use yaagents_gateway.Prelude.Result.{Result, ok, ◌>>◌, fail_if}
use yaagents_gateway.Plugin.MapConfig.{MapConfig, get_bool, get_string}
use yaagents_gateway.World.{Url}
use yaagents_gateway.Http.Request.{Handler}
use yaagents_gateway.Plugins.{Part}

-- `sync.Once`: whether it has run, and the warnings so far.
pub record WarnOnce : Type 0 where
  pub done : Bool
  pub warnings : ℕ

-- `warnOnce.Do`
unfoldable pub warn_once : WarnOnce → WarnOnce
warn_once o = if o.done then o else record { done = true; warnings = o.warnings + 1 }

-- `PromptSanitize`, as Init leaves it.
pub record PromptSanitize : Type 0 where
  pub enabled : Bool

abbrev pub init_sanitize : MapConfig → PromptSanitize
init_sanitize cfg = record { enabled = get_bool cfg "enabled" }

-- `OtelAudit`, as Init leaves it.
pub record OtelAudit : Type 0 where
  pub enabled : Bool
  pub endpoint : String

abbrev is_absolute : Option Url → Bool
is_absolute none = false
is_absolute (some u) = not (u.scheme == "" || u.host == "")

pub data BadEndpoint : Type 0 where
  bad_endpoint : BadEndpoint

-- `Init` of otel-audit, with url.Parse as a parameter.
unfoldable pub init_audit : (String → Option Url) → MapConfig → Result BadEndpoint OtelAudit
init_audit parse_url cfg = do
  fail_if
      (not (get_string cfg "endpoint" == "")
        && not (is_absolute (parse_url (get_string cfg "endpoint"))))
      bad_endpoint
  ok (record { enabled = get_bool cfg "enabled"; endpoint = get_string cfg "endpoint" })

module _ {W : Type 0} (at : Part W WarnOnce) where
  abbrev warned_if : Bool → W → W
  warned_if b s = if b then at.with_part (warn_once (at.part s)) s else s

  -- `Handler` of prompt-sanitize.
  unfoldable pub sanitize_handler : PromptSanitize → Handler W → Handler W
  unfolding warn_once
  sanitize_handler p next r w s = next r w (warned_if p.enabled s)

  -- `Handler` of otel-audit; the tracer's span leaves the context as it is.
  unfoldable pub audit_handler : OtelAudit → Handler W → Handler W
  unfolding warn_once
  audit_handler a next r w s = next r w (warned_if (a.enabled && a.endpoint == "") s)
