-- ===== src/Plugins/Cors/Laws.antt =====
-- Which requests the plugin answers itself, and whose origin it names as allowed.
use native.Mathlib.Decide.{dec_lt}
use yaagents_gateway.Prelude.{
  String, Bool, true, false, List, [], ◌∷◌, ◌||◌, ◌&&◌, none, some, ◌≡◌, ◌≢◌, refl, ◌∙◌, inl, inr,
  arith, Bool-cases, ◌==◌, eq_iff, contains, Contains, contains_iff, not,
}
use yaagents_gateway.Http.Header
use yaagents_gateway.Http.Header.{canonical_key, get-set, get-set_self}
use yaagents_gateway.Http.Writer.{Writer, write_header}
use yaagents_gateway.Http.Request.{Request, Handler}
use yaagents_gateway.Plugins.Cors.{CorsPlugin, handler, is_disabled, preflight_headers}

abbrev pub allow_origin : String
allow_origin = "Access-Control-Allow-Origin"

-- The plugin looks at a request: it has origins to allow, and the request names one.
abbrev pub is_cross_origin : CorsPlugin → Request → Bool
is_cross_origin c r = not (is_disabled c.allowed_origins || Header.get r.header "Origin" == "")

-- The plugin is on, and the request names an origin that is on its list.
abbrev pub IsListed : CorsPlugin → Request → Type 0
IsListed c r =
    (Header.get r.header "Origin" ≢ "") × Contains c.allowed_origins (Header.get r.header "Origin")

on-IsListed :
    (c : CorsPlugin) (r : Request)
    → (is_disabled c.allowed_origins || Header.get r.header "Origin" == "") ≡ false
    → contains c.allowed_origins (Header.get r.header "Origin") ≡ true
    → IsListed c r
on-IsListed c r on listed = (
  ground (arith, eq_iff (Header.get r.header "Origin") ""),
  (contains_iff c.allowed_origins _).0 listed,
)

listed_enabled :
    (xs : List String) (origin : String) → contains xs origin ≡ true → is_disabled xs ≡ false
listed_enabled [] origin there = absurd (cc there)
listed_enabled (x ∷ xs) origin there = refl

off_unlisted :
    (c : CorsPlugin) (r : Request)
    → (is_disabled c.allowed_origins || Header.get r.header "Origin" == "") ≡ true
    → ¬ IsListed c r
off_unlisted c r off (named, among) =
    let there = (contains_iff c.allowed_origins (Header.get r.header "Origin")).1 among in
    let set = listed_enabled c.allowed_origins (Header.get r.header "Origin") there in
    ground (arith, eq_iff (Header.get r.header "Origin") "")

-- The response to a preflight whose origin is listed: the four headers.
abbrev pub IsPermitted : CorsPlugin → Request → Header.Header → Type 0
IsPermitted c r h =
    (Header.get h allow_origin ≡ Header.get r.header "Origin")
    × (Header.get h "Access-Control-Allow-Methods" ≡ c.allow_methods)
    × (Header.get h "Access-Control-Allow-Headers" ≡ c.allow_headers)
    × (Header.get h "Access-Control-Max-Age" ≡ c.max_age)

keys_differ :
    (canonical_key "Access-Control-Max-Age" == canonical_key allow_origin ≡ false)
    × (canonical_key "Access-Control-Max-Age" == canonical_key "Access-Control-Allow-Methods"
        ≡ false)
    × (canonical_key "Access-Control-Max-Age" == canonical_key "Access-Control-Allow-Headers"
        ≡ false)
    × (canonical_key "Access-Control-Allow-Headers" == canonical_key allow_origin ≡ false)
    × (canonical_key "Access-Control-Allow-Headers" == canonical_key "Access-Control-Allow-Methods"
        ≡ false)
    × (canonical_key "Access-Control-Allow-Methods" == canonical_key allow_origin ≡ false)
unfolding canonical_key dec_lt
keys_differ = (refl, refl, refl, refl, refl, refl)

preflight_headers-IsPermitted :
    (c : CorsPlugin) (r : Request) (w : Writer)
    → IsPermitted c r (preflight_headers c (Header.get r.header "Origin") w).header
preflight_headers-IsPermitted c r w = (
  get-set _ allow_origin "Access-Control-Max-Age" c.max_age
      ∙ rw keys_differ.0 (
          get-set _ allow_origin "Access-Control-Allow-Headers" c.allow_headers
          ∙ rw keys_differ.3 (
              get-set _ allow_origin "Access-Control-Allow-Methods" c.allow_methods
              ∙ rw keys_differ.5 (get-set_self w.header allow_origin _))),
  get-set _ "Access-Control-Allow-Methods" "Access-Control-Max-Age" c.max_age
      ∙ rw keys_differ.1 (
          get-set _ "Access-Control-Allow-Methods" "Access-Control-Allow-Headers" c.allow_headers
          ∙ rw keys_differ.4 (get-set_self _ "Access-Control-Allow-Methods" c.allow_methods)),
  get-set _ "Access-Control-Allow-Headers" "Access-Control-Max-Age" c.max_age
      ∙ rw keys_differ.2 (get-set_self _ "Access-Control-Allow-Headers" c.allow_headers),
  get-set_self _ "Access-Control-Max-Age" c.max_age,
)

-- What the client is told of a preflight: the permissions if its origin is listed, else what the
-- writer had.
abbrev pub IsPreflightAnswer : CorsPlugin → Request → Writer → Header.Header → Type 0
IsPreflightAnswer c r w h = (IsListed c r → IsPermitted c r h) × (¬ IsListed c r → h ≡ w.header)

module _ {W : Type 0} (c : CorsPlugin) (next : Handler W) (r : Request) (w : Writer) (s : W) where
  -- A cross-origin OPTIONS request is answered 200 without the next handler, where nothing was sent
  -- yet: with the permissions of the configuration if its origin is listed, and with no header of the
  -- plugin otherwise; the state stays. Any other request goes on as it is: if its origin is listed,
  -- with a response that names that origin as allowed and has its other headers unchanged, else with
  -- the response untouched.
  pub cors_handler_lem :
      ((is_cross_origin c r && r.method == "OPTIONS") ≡ true
        → w.sent ≡ none
        → (h : Header.Header) × ((handler c next r w s).0.sent
            ≡ some (record { status = 200; header = h }))
          × IsPreflightAnswer c r w h
          × ((handler c next r w s).1 ≡ s))
      × ((is_cross_origin c r && r.method == "OPTIONS") ≡ false
          → (IsListed c r
              → (h : Header.Header) × (handler c next r w s ≡ next r (record w { header = h }) s)
                × (Header.get h allow_origin ≡ Header.get r.header "Origin")
                × ((k : String)
                    → canonical_key allow_origin == canonical_key k ≡ false
                    → Header.get h k ≡ Header.get w.header k))
            × (¬ IsListed c r → handler c next r w s ≡ next r w s))
  unfolding handler write_header
  cors_handler_lem =
      elim (Bool-cases (is_disabled c.allowed_origins || Header.get r.header "Origin" == "")) [
        | inl off ↦ rw off (
          λ h. absurd cc,
          λ h. (λ listed. absurd (off_unlisted c r off listed), λ unlisted. refl),
        )
        | inr on ↦ elim (Bool-cases (contains c.allowed_origins (Header.get r.header "Origin"))) [
          | inl listed ↦
              (let is = on-IsListed c r on listed in
                elim (Bool-cases (r.method == "OPTIONS")) [
                  | inl options ↦
                      rw (on, listed, options)
                        (
                          λ h unsent. (
                            _,
                            rw unsent refl,
                            (
                              λ permitted. preflight_headers-IsPermitted c r w,
                              λ no. absurd (no is),
                            ),
                            refl,
                          ),
                          λ h. absurd cc,
                        )
                  | inr other ↦
                      rw (on, listed, other)
                        (
                          λ h. absurd cc,
                          λ h. (
                            λ permitted. (
                              Header.set w.header allow_origin (Header.get r.header "Origin"),
                              refl,
                              get-set_self w.header allow_origin _,
                              λ k apart. get-set w.header k allow_origin _ ∙ rw apart refl,
                            ),
                            λ no. absurd (no is),
                          ),
                        )
                ])
          | inr unlisted ↦
              (let no : ¬ IsListed c r =
                  λ is. cc ((contains_iff c.allowed_origins _).1 is.1, unlisted) in
                elim (Bool-cases (r.method == "OPTIONS")) [
                  | inl options ↦
                      rw (on, unlisted, options)
                        (
                          λ h unsent.
                              (w.header, rw unsent refl, (λ is. absurd (no is), λ _. refl), refl),
                          λ h. absurd cc,
                        )
                  | inr other ↦
                      rw (on, unlisted, other)
                        (λ h. absurd cc, λ h. (λ is. absurd (no is), λ _. refl))
                ])
        ]
      ]
