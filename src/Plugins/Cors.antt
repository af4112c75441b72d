-- ===== src/Plugins/Cors.antt =====
-- internal/plugins/cors/plugin.go: the answer to a preflight and the origin header.
pub mod Laws
use yaagents_gateway.Prelude.{
  String, Bool, true, false, ◌||◌, List, [], ◌∷◌, contains, if◌then◌else◌, ◌==◌,
}
use yaagents_gateway.Prelude.Int.{ℤ, pos, is_nonpos}
use yaagents_gateway.Plugin.MapConfig.{MapConfig, get_string, get_string_slice, get_int}
use yaagents_gateway.Http.Header
use yaagents_gateway.Http.Writer.{Writer, set_header, write_header}
use yaagents_gateway.Http.Request.{Request, Handler}

pub record CorsPlugin : Type 0 where
  pub allowed_origins : List String
  pub allow_methods : String
  pub allow_headers : String
  pub max_age : String

abbrev or_else : String → String → String
or_else s default = if s == "" then default else s

-- `Init`, which cannot fail, with strconv.Itoa as a parameter.
unfoldable pub init : (ℤ → String) → MapConfig → CorsPlugin
init itoa cfg = record {
  allowed_origins = get_string_slice cfg "allowed_origins";
  allow_methods = or_else (get_string cfg "allow_methods") "GET, POST, PUT, PATCH, DELETE, OPTIONS";
  allow_headers =
      or_else (get_string cfg "allow_headers")
        "Content-Type, Authorization, X-Request-Id, X-Correlation-Id";
  max_age = itoa (if is_nonpos (get_int cfg "max_age") then pos 86400 else get_int cfg "max_age");
}

-- The headers of a preflight whose origin matches.
abbrev pub preflight_headers : CorsPlugin → String → Writer → Writer
preflight_headers c origin w = set_header "Access-Control-Max-Age" c.max_age (
    set_header "Access-Control-Allow-Headers" c.allow_headers (
      set_header "Access-Control-Allow-Methods" c.allow_methods
        (set_header "Access-Control-Allow-Origin" origin w)))

abbrev pub is_disabled : List String → Bool
is_disabled [] = true
is_disabled (x ∷ xs) = false

-- `Handler`
unfoldable pub handler : {W : Type 0} → CorsPlugin → Handler W → Handler W
handler c next r w s =
    let origin = Header.get r.header "Origin" in
    let matched = contains c.allowed_origins origin in
    if is_disabled c.allowed_origins || origin == ""
    then next r w s
    else if r.method == "OPTIONS"
    then (write_header 200 (if matched then preflight_headers c origin w else w), s)
    else next r (if matched then set_header "Access-Control-Allow-Origin" origin w else w) s
