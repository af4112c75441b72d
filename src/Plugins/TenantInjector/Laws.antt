-- ===== src/Plugins/TenantInjector/Laws.antt =====
-- What the tenant injector promises.
use yaagents_gateway.Prelude.{
  String, true, false, [], ◌∷◌, String-cases, Option, none, some, ◌≡◌, ◌≢◌, refl, ap, ◌∙◌, ◌⊎◌, inl,
  inr, arith, Bool-cases, Option-cases, if◌then◌else◌, ◌==◌, eq_iff,
}
use yaagents_gateway.Prelude.Result.{Result, ok, err, Result-cases}
use yaagents_gateway.Http.Header
use yaagents_gateway.Http.Header.{values-set, values-set_other, values-del_other, del-set, del-add}
use yaagents_gateway.Http.Writer.{Writer, status_of}
use yaagents_gateway.Http.Request.{Request, Handler}
use yaagents_gateway.Http.Laws.{write_error_lem}
use yaagents_gateway.Prelude.Int.{ℤ, to_ℕ}
use yaagents_gateway.Plugins.{Part}
use yaagents_gateway.Plugins.TenantInjector.{
  Directory, Settings, Store, LookupError, handler, identify, with_principal, resolve_tenant,
  principal_of, is_allowed, inject, stripped, lookup_failed, principal_not_found, lookup_timeout,
  lookup_network,
}

-- The request that the next handler gets for a principal and the tenant found for it.
abbrev pub injected : Settings → String → String → Request → Request
injected c principal tenant r = inject c principal tenant (stripped c r)

-- The request has one value for the tenant header, the tenant, unless the principal is configured to go
-- under the same header; one for the principal header, if that is configured, the principal; and
-- is otherwise the given one.
abbrev pub IsInjected : Settings → String → String → Request → Request → Type 0
IsInjected c principal tenant r r' =
    (r' ≡ record r { header = r'.header })
    × ((c.inject_principal_hdr ≡ "")
          ⊎ (Header.canonical_key c.inject_principal_hdr
                == Header.canonical_key c.inject_tenant_header
              ≡ false)
        → Header.values r'.header c.inject_tenant_header ≡ tenant ∷ [])
    × (c.inject_principal_hdr ≢ ""
        → Header.values r'.header c.inject_principal_hdr ≡ principal ∷ [])
    × ((k : String)
        → Header.canonical_key c.inject_tenant_header == Header.canonical_key k ≡ false
        → (c.inject_principal_hdr ≡ "")
          ⊎ (Header.canonical_key c.inject_principal_hdr == Header.canonical_key k ≡ false)
        → Header.values r'.header k ≡ Header.values r.header k)

pub injected-IsInjected :
    (c : Settings) (principal tenant : String) (r : Request)
    → IsInjected c principal tenant r (injected c principal tenant r)
unfolding inject
injected-IsInjected c principal tenant r = elim (String-cases c.inject_principal_hdr "") [
  | inl (off, test) ↦ rw test (
    refl,
    λ apart. values-set _ c.inject_tenant_header tenant,
    λ on. absurd (on off),
    λ k other _.
        values-set_other _ k c.inject_tenant_header tenant other
        ∙ values-del_other r.header k c.inject_tenant_header other,
  )
  | inr (on, test) ↦ rw test (
    refl,
    λ apart. elim apart [
      | inl off ↦ absurd (on off)
      | inr differs ↦
          values-set_other _ c.inject_tenant_header c.inject_principal_hdr principal differs
          ∙ values-set _ c.inject_tenant_header tenant
    ],
    λ _. values-set _ c.inject_principal_hdr principal,
    λ k other apart. elim apart [
      | inl off ↦ absurd (on off)
      | inr differs ↦
          values-set_other _ k c.inject_principal_hdr principal differs
          ∙ (values-set_other _ k c.inject_tenant_header tenant other
              ∙ values-del_other r.header k c.inject_tenant_header other)
    ],
  )
]

-- The configured status for what came of the lookup, where the next handler does not run.
abbrev pub code_for : Settings → Result LookupError String → ℤ
code_for c (ok tenant) = c.failures.principal_not_found_code
code_for c (err principal_not_found) = c.failures.principal_not_found_code
code_for c (err lookup_timeout) = c.failures.lookup_timeout_code
code_for c (err lookup_network) = c.failures.lookup_network_error

lookup_failed-status :
    (c : Settings) (e : LookupError) (r : Request) (w : Writer)
    → w.sent ≡ none
    → status_of (lookup_failed c.failures e r w) ≡ some (to_ℕ (code_for c (err e)))
unfolding lookup_failed
lookup_failed-status c principal_not_found r w h = (write_error_lem _ _ w h).0
lookup_failed-status c lookup_timeout r w h = (write_error_lem _ _ w h).0
lookup_failed-status c lookup_network r w h = (write_error_lem _ _ w h).0

module _ {W X : Type 0} (d : Directory X) (c : Settings) (at : Part W (Store X)) where
  -- Why the next handler runs on a request: the token names a principal, the cache or the directory
  -- has a tenant for it, and the allowlist admits that tenant.
  abbrev pub Resolved : Request → W → String → String → Type 0
  Resolved r s principal tenant =
      (principal_of c r.context ≡ some principal)
      × (principal ≢ "")
      × ((resolve_tenant d c principal (at.part s)).0 ≡ ok tenant)
      × (is_allowed c.allowlist tenant ≡ true)

  -- The state in which the next handler runs.
  abbrev pub after_lookup : W → String → W
  after_lookup s principal = at.with_part (resolve_tenant d c principal (at.part s)).1 s

  abbrev pub refusal_code : W → Option String → ℤ
  refusal_code s none = c.failures.claim_missing
  refusal_code s (some principal) =
      if principal == ""
      then c.failures.claim_missing
      else code_for c (resolve_tenant d c principal (at.part s)).0

  -- The answer does not depend on the next handler, and has the configured status where nothing was
  -- sent yet.
  abbrev pub Refuses : Handler W → Request → Writer → W → Type 0
  Refuses next r w s =
      ((other : Handler W) → handler d c at next r w s ≡ handler d c at other r w s)
      × (w.sent ≡ none
          → status_of (handler d c at next r w s).0
            ≡ some (to_ℕ (refusal_code s (principal_of c r.context))))

  pub handler_cases :
      (next : Handler W) (r : Request) (w : Writer) (s : W)
      → ((principal : String) × (tenant : String) × Resolved r s principal tenant
          × (handler d c at next r w s
              ≡ next (injected c principal tenant r) w (after_lookup s principal)))
        ⊎ Refuses next r w s
  unfolding handler identify with_principal
  handler_cases next r w s = elim (Option-cases (principal_of c r.context)) [
    | inl absent ↦ inr (
      λ other. rw (absent, identify) refl,
      λ unsent. rw (absent, identify) (write_error_lem _ _ w unsent).0,
    )
    | inr (principal, named) ↦ elim (Bool-cases (principal == "")) [
      | inl empty ↦ inr (
        λ other. rw (named, empty, identify) refl,
        λ unsent. rw (named, empty, identify) (write_error_lem _ _ w unsent).0,
      )
      | inr full ↦ elim (Result-cases (resolve_tenant d c principal (at.part s)).0) [
        | inl (tenant, found) ↦ elim (Bool-cases (is_allowed c.allowlist tenant)) [
          | inl allowed ↦ inl (
            principal,
            tenant,
            (named, ground (arith, eq_iff principal ""), found, allowed),
            rw (named, full, found, allowed, identify, with_principal) refl,
          )
          | inr barred ↦ inr (
            λ other. rw (named, full, found, barred, identify, with_principal) refl,
            λ unsent.
                rw (named, full, found, barred, identify, with_principal)
                  (write_error_lem _ _ w unsent).0,
          )
        ]
        | inr (e, lost) ↦ inr (
          λ other. rw (named, full, lost, identify, with_principal) refl,
          λ unsent.
              rw (named, full, lost, identify, with_principal)
                (lookup_failed-status c e _ w unsent),
        )
      ]
    ]
  ]

  handler-Resolved :
      (next : Handler W) (r : Request) (w : Writer) (s : W) (principal tenant : String)
      → Resolved r s principal tenant
      → handler d c at next r w s
        ≡ next (injected c principal tenant r) w (after_lookup s principal)
  unfolding handler identify with_principal
  handler-Resolved next r w s principal tenant (named, ne, found, allowed) =
      let full : principal == "" ≡ false = ground (arith, eq_iff principal "") in
      rw (named, full, found, allowed, identify, with_principal) refl

  -- The next handler runs on a request with the tenant and the principal in the configured headers, and
  -- otherwise as it came.
  abbrev pub RunsInjected : Handler W → Request → Writer → W → String → String → Type 0
  RunsInjected next r w s principal tenant =
      (r' : Request) × IsInjected c principal tenant r r'
      × (handler d c at next r w s ≡ next r' w (after_lookup s principal))

  -- If the token names a principal for which the cache or the directory has an admitted tenant, the
  -- next handler gets the request with that tenant as the only value of the tenant header (unless the
  -- principal is configured to go under the same header), with the principal in its header if one is
  -- configured, and otherwise as it came. Any other request is answered without the next handler,
  -- whatever that is, and, where nothing was sent yet, with the status that is configured for the
  -- cause.
  pub handler_lem :
      (next : Handler W) (r : Request) (w : Writer) (s : W)
      → ((principal tenant : String)
          → Resolved r s principal tenant
          → RunsInjected next r w s principal tenant)
        × (((principal tenant : String) → ¬ Resolved r s principal tenant) → Refuses next r w s)
  handler_lem next r w s = (
    λ principal tenant resolved. (
      injected c principal tenant r,
      injected-IsInjected c principal tenant r,
      handler-Resolved next r w s principal tenant resolved,
    ),
    λ unresolved. elim (handler_cases next r w s) [
      | inl (principal, tenant, resolved, same) ↦ absurd (unresolved principal tenant resolved)
      | inr refused ↦ refused
    ],
  )

  -- What the client puts into the tenant header, set or added, makes no difference to anything that
  -- the plugin or the handlers behind it do.
  pub handler-no_smuggling :
      (next : Handler W) (r : Request) (w : Writer) (s : W) (v : String)
      → (handler d c at next
            (record r { header = Header.set r.header c.inject_tenant_header v })
            w
            s
          ≡ handler d c at next r w s)
        × (handler d c at next
              (record r { header = Header.add r.header c.inject_tenant_header v })
              w
              s
            ≡ handler d c at next r w s)
  unfolding handler
  handler-no_smuggling next r w s v = (
    ap (λ h. identify d c at next (record r { header = h }) w s)
        (del-set r.header c.inject_tenant_header v),
    ap (λ h. identify d c at next (record r { header = h }) w s)
        (del-add r.header c.inject_tenant_header v),
  )
