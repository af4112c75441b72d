-- ===== src/Tenant/Laws.antt =====
-- What an upstream is told about the request, and whom the tenant requirement turns away.
use native.Mathlib.Decide.{dec_lt}
use yaagents_gateway.Prelude.{
  String, Bool, true, false, ◌&&◌, List, [], ◌∷◌, none, some, ◌≡◌, refl, ap, ◌∙◌, ◌==◌,
  if◌then◌else◌, Bool-cases, inl, inr,
}
use yaagents_gateway.Http.Header
use yaagents_gateway.Http.Header.{Header, canonical_key, get-set, get-set_self}
use yaagents_gateway.Http.Context.{
  Context, tenant_id, actor_subject, actor_roles, correlation_id, request_id,
}
use yaagents_gateway.Http.Writer.{Writer, status_of}
use yaagents_gateway.Http.Laws.{write_error_lem}
use yaagents_gateway.Http.Request.{Request, Handler}
use yaagents_gateway.Tenant.{
  inject_upstream_headers, enforce_tenant, join_commas, set_roles, set_unless_empty,
}

-- The five keys are different header fields.
keys_differ :
    (canonical_key "X-Request-ID" == canonical_key "X-Correlation-ID" ≡ false)
    × (canonical_key "X-Request-ID" == canonical_key "X-Tenant-ID" ≡ false)
    × (canonical_key "X-Request-ID" == canonical_key "X-Actor-Subject" ≡ false)
    × (canonical_key "X-Correlation-ID" == canonical_key "X-Tenant-ID" ≡ false)
    × (canonical_key "X-Correlation-ID" == canonical_key "X-Actor-Subject" ≡ false)
    × (canonical_key "X-Actor-Roles" == canonical_key "X-Tenant-ID" ≡ false)
    × (canonical_key "X-Actor-Roles" == canonical_key "X-Actor-Subject" ≡ false)
    × (canonical_key "X-Actor-Subject" == canonical_key "X-Tenant-ID" ≡ false)
    × (canonical_key "X-Tenant-ID" == canonical_key "X-Actor-Subject" ≡ false)
    × (canonical_key "X-Request-ID" == canonical_key "X-Actor-Roles" ≡ false)
    × (canonical_key "X-Correlation-ID" == canonical_key "X-Actor-Roles" ≡ false)
    × (canonical_key "X-Actor-Subject" == canonical_key "X-Actor-Roles" ≡ false)
    × (canonical_key "X-Tenant-ID" == canonical_key "X-Actor-Roles" ≡ false)
unfolding canonical_key dec_lt
keys_differ = (refl, refl, refl, refl, refl, refl, refl, refl, refl, refl, refl, refl, refl)

get-set_other :
    (g : Header) (q k v : String)
    → (canonical_key k == canonical_key q) ≡ false
    → Header.get (Header.set g k v) q ≡ Header.get g q
get-set_other g q k v differ = get-set g q k v ∙ rw differ refl

get-unless_other :
    (g : Header) (q k v : String)
    → (canonical_key k == canonical_key q) ≡ false
    → Header.get (set_unless_empty k v g) q ≡ Header.get g q
get-unless_other g q k v differ = elim (Bool-cases (v == "")) [
  | inl e ↦ rw e refl
  | inr n ↦ rw n (get-set_other g q k v differ)
]

get-unless_self :
    (g : Header) (k v : String)
    → Header.get (set_unless_empty k v g) k ≡ (if v == "" then Header.get g k else v)
get-unless_self g k v = elim (Bool-cases (v == "")) [
  | inl e ↦ rw e refl
  | inr n ↦ rw n (get-set_self g k v)
]

get-roles_other :
    (xs : List String) (g : Header) (q : String)
    → (canonical_key "X-Actor-Roles" == canonical_key q) ≡ false
    → Header.get (set_roles xs g) q ≡ Header.get g q
get-roles_other [] g q differ = refl
get-roles_other (x ∷ xs) g q differ =
    get-set_other g q "X-Actor-Roles" (join_commas (x ∷ xs)) differ

-- The roles, separated by commas; where there are none, what the client sent.
abbrev pub roles_or : List String → String → String
roles_or [] sent = sent
roles_or (x ∷ xs) sent = join_commas (x ∷ xs)

get-roles_self :
    (xs : List String) (g : Header)
    → Header.get (set_roles xs g) "X-Actor-Roles" ≡ roles_or xs (Header.get g "X-Actor-Roles")
get-roles_self [] g = refl
get-roles_self (x ∷ xs) g = get-set_self g "X-Actor-Roles" (join_commas (x ∷ xs))

module _ (c : Context) (h : Header) where
  -- The context's two ids are set last, empty ones included.
  pub get-inject-ids :
      (Header.get (inject_upstream_headers c h) "X-Request-ID" ≡ request_id c)
      × (Header.get (inject_upstream_headers c h) "X-Correlation-ID" ≡ correlation_id c)
  unfolding inject_upstream_headers
  get-inject-ids = (
    get-set_self _ "X-Request-ID" (request_id c),
    get-set_other _ "X-Correlation-ID" "X-Request-ID" (request_id c) keys_differ.0
        ∙ get-set_self _ "X-Correlation-ID" (correlation_id c),
  )

  -- The ids leave the other fields alone.
  get-inject_other :
      (q : String)
      → (canonical_key "X-Request-ID" == canonical_key q) ≡ false
      → (canonical_key "X-Correlation-ID" == canonical_key q) ≡ false
      → Header.get (inject_upstream_headers c h) q
        ≡ Header.get
            (set_roles (actor_roles c) (
              set_unless_empty "X-Actor-Subject"
                (actor_subject c)
                (set_unless_empty "X-Tenant-ID" (tenant_id c) h)))
            q
  unfolding inject_upstream_headers
  get-inject_other q not_request not_correlation =
      get-set_other _ q "X-Request-ID" (request_id c) not_request
      ∙ get-set_other _ q "X-Correlation-ID" (correlation_id c) not_correlation

  get-inject-tenant :
      Header.get (inject_upstream_headers c h) "X-Tenant-ID"
      ≡ (if tenant_id c == "" then Header.get h "X-Tenant-ID" else tenant_id c)
  get-inject-tenant =
      get-inject_other "X-Tenant-ID" keys_differ.1 keys_differ.3
      ∙ get-roles_other (actor_roles c) _ "X-Tenant-ID" keys_differ.5
      ∙ get-unless_other _ "X-Tenant-ID" "X-Actor-Subject" (actor_subject c) keys_differ.7
      ∙ get-unless_self h "X-Tenant-ID" (tenant_id c)

  get-inject-subject :
      Header.get (inject_upstream_headers c h) "X-Actor-Subject"
      ≡ (if actor_subject c == "" then Header.get h "X-Actor-Subject" else actor_subject c)
  get-inject-subject =
      get-inject_other "X-Actor-Subject" keys_differ.2 keys_differ.4
      ∙ get-roles_other (actor_roles c) _ "X-Actor-Subject" keys_differ.6
      ∙ get-unless_self _ "X-Actor-Subject" (actor_subject c)
      ∙ ap (λ v. if actor_subject c == "" then v else actor_subject c)
          (get-unless_other h "X-Actor-Subject" "X-Tenant-ID" (tenant_id c) keys_differ.8)

  get-inject-roles :
      Header.get (inject_upstream_headers c h) "X-Actor-Roles"
      ≡ roles_or (actor_roles c) (Header.get h "X-Actor-Roles")
  get-inject-roles =
      get-inject_other "X-Actor-Roles" keys_differ.9 keys_differ.10
      ∙ get-roles_self (actor_roles c) _
      ∙ ap (roles_or (actor_roles c)) (
          get-unless_other _ "X-Actor-Roles" "X-Actor-Subject" (actor_subject c) keys_differ.11
          ∙ get-unless_other h "X-Actor-Roles" "X-Tenant-ID" (tenant_id c) keys_differ.12)

  -- The header that InjectUpstreamHeaders leaves has the context's two ids, empty ones included,
  -- whatever it had before; and it has the context's tenant, subject and roles (separated by commas),
  -- each of them unchanged where the context has none.
  pub inject_upstream_headers_lem :
      (Header.get (inject_upstream_headers c h) "X-Request-ID" ≡ request_id c)
      × (Header.get (inject_upstream_headers c h) "X-Correlation-ID" ≡ correlation_id c)
      × (Header.get (inject_upstream_headers c h) "X-Tenant-ID"
          ≡ (if tenant_id c == "" then Header.get h "X-Tenant-ID" else tenant_id c))
      × (Header.get (inject_upstream_headers c h) "X-Actor-Subject"
          ≡ (if actor_subject c == "" then Header.get h "X-Actor-Subject" else actor_subject c))
      × (Header.get (inject_upstream_headers c h) "X-Actor-Roles"
          ≡ roles_or (actor_roles c) (Header.get h "X-Actor-Roles"))
  inject_upstream_headers_lem =
      (get-inject-ids.0, get-inject-ids.1, get-inject-tenant, get-inject-subject, get-inject-roles)

module _ {W : Type 0} where
  -- A route that requires a tenant answers 403 to a request whose context has none, and does nothing
  -- else; every other request is handled as without the requirement.
  enforce_tenant_lem :
      (required : Bool) (next : Handler W) (r : Request) (w : Writer) (s : W)
      → w.sent ≡ none
      → ((required && tenant_id r.context == "") ≡ true
          → (status_of (enforce_tenant required next r w s).0 ≡ some 403)
            × ((enforce_tenant required next r w s).1 ≡ s))
        × ((required && tenant_id r.context == "") ≡ false
            → enforce_tenant required next r w s ≡ next r w s)
  unfolding enforce_tenant
  enforce_tenant_lem required next r w s unsent =
      (λ refused. rw refused ((write_error_lem 403 _ w unsent).0, refl), λ passed. rw passed refl)
