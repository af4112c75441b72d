-- ===== src/Routes/Laws.antt =====
-- What a route table satisfies once it is accepted, and which tables are accepted.
use yaagents_gateway.Prelude.{
  String, Bool, true, false, List, [], ◌∷◌, ◌++◌, ◌≡◌, refl, sym, ◌≢◌, ◌↔◌, ◌∙◌, none, inl, inr,
  arith, All, Distinct, AreNew, AreNew-snoc, AreNew-cons, AreNew-nil, contains, eq_iff, map,
}
use mathlib.Core.List.{append_assoc, append-nil}
use Prim.Native.Nat.{ℕ, suc}
use yaagents_gateway.Prelude.Result.{ok, Result-cases}
use yaagents_gateway.Prelude.Text.{to_upper}
use yaagents_gateway.Routes.{Route}
use yaagents_gateway.Routes.Placeholders.{scan, collect, parse_placeholders}
use yaagents_gateway.Routes.Validate.{
  valid_methods, Label, check_id, check_method, check_path, check_target, check_route, check_from,
  validate,
}

-- ------------------------------------------------------------------ placeholders

abbrev NonEmpty : String → Type 0
NonEmpty s = s ≢ ""

collect-ok :
    (names rest out : List String)
    → collect names rest ≡ ok out
    → (out ≡ names ++ rest) × All NonEmpty rest × AreNew names rest × Distinct rest
unfolding collect
collect-ok names [] out h = (ground (arith, append-nil names), tt, tt, tt)
collect-ok names (x ∷ rest) out h =
    let ih = collect-ok (names ++ x ∷ []) rest out (ground arith) in
    let (new, apart) = (AreNew-snoc names x rest).0 ih.2 in
    (
      ih.0 ∙ append_assoc names (x ∷ []) rest,
      (ground (arith, eq_iff x ""), ih.1),
      (ground arith, new),
      (apart, ih.3),
    )

collect_complete :
    (names rest : List String)
    → All NonEmpty rest
    → AreNew names rest
    → Distinct rest
    → collect names rest ≡ ok (names ++ rest)
unfolding collect
collect_complete names [] h n d = ground (arith, append-nil names)
collect_complete names (x ∷ rest) (h, hs) (n, ns) (a, d) =
    let ih = collect_complete (names ++ x ∷ []) rest hs ((AreNew-snoc names x rest).1 (ns, a)) d in
    ground (arith, eq_iff x "", append_assoc names (x ∷ []) rest)

-- `parse_placeholders` gives exactly the names between braces, in order, and does so exactly when
-- none is empty and none stands twice.
parse_placeholders_iff :
    (path : String) (names : List String)
    → (parse_placeholders path ≡ ok names)
      ↔ ((names ≡ scan none path) × All NonEmpty names × Distinct names)
unfolding parse_placeholders
parse_placeholders_iff path names = (
  λ h. let (e, n, _, d) = collect-ok [] (scan none path) names h in (e, rw e n, rw e d),
  λ h. rw h.0 (
      collect_complete [] (scan none path) (rw h.0 at h.1) (AreNew-nil (scan none path))
        (rw h.0 at h.2)),
)

-- ------------------------------------------------------------------ one route

append-nil-parts {ℓ} : {A : Type ℓ} (xs ys : List A) → xs ++ ys ≡ [] → (xs ≡ []) × (ys ≡ [])
append-nil-parts [] ys h = (refl, h)
append-nil-parts (x ∷ xs) ys h = cc

-- A route as the file gives it that passes the checks, where `seen` holds the ids above it.
pub record IsAcceptable (is_request_uri : String → Bool) (r : Route) : Type 0 where
  pub has_id : r.id ≢ ""
  pub has_method : r.method ≢ ""
  pub method_known : contains valid_methods (to_upper r.method) ≡ true
  pub has_path : r.path ≢ ""
  pub names : List String
  pub placeholders : parse_placeholders r.path ≡ ok names
  pub has_target : r.target ≢ ""
  pub target_parsed : is_request_uri r.target ≡ true

-- The route with its method in upper case and its placeholder names filled in.
abbrev pub normal_form : Route → List String → Route
normal_form r names = record r { method = to_upper r.method; path_params = names }

module _ (label : Label) (r : Route) where
  check_method-ok :
      (check_method label r).0 ≡ []
      → (r.method ≢ "")
        × (contains valid_methods (to_upper r.method) ≡ true)
        × ((check_method label r).1 ≡ record r { method = to_upper r.method })
  unfolding check_method
  check_method-ok h = ground (arith, eq_iff r.method "")

  check_path-ok :
      (check_path label r).0 ≡ []
      → (names : List String) × (r.path ≢ "")
        × (parse_placeholders r.path ≡ ok names)
        × ((check_path label r).1 ≡ record r { path_params = names })
  unfolding check_path
  check_path-ok h = elim (Result-cases (parse_placeholders r.path)) [
    | inl (names, e) ↦ (names, ground (arith, eq_iff r.path ""), e, ground arith)
    | inr (x, e) ↦ absurd (ground arith)
  ]

  check_target-ok :
      (is_request_uri : String → Bool)
      → check_target is_request_uri label r ≡ []
      → (r.target ≢ "") × (is_request_uri r.target ≡ true)
  unfolding check_target
  check_target-ok is_request_uri h = ground (arith, eq_iff r.target "")

module _ (is_request_uri : String → Bool) (i : ℕ) (seen : List String) (r : Route) where
  check_id-ok :
      (check_id i seen r).0 ≡ []
      → (r.id ≢ "") × (contains seen r.id ≡ false) × ((check_id i seen r).1 ≡ r.id ∷ seen)
  unfolding check_id
  check_id-ok h = ground (arith, eq_iff r.id "")

  check_route-ok :
      (check_route is_request_uri i seen r).0 ≡ []
      → (a : IsAcceptable is_request_uri r) × (contains seen r.id ≡ false)
        × ((check_route is_request_uri i seen r).1 ≡ r.id ∷ seen)
        × ((check_route is_request_uri i seen r).2 ≡ normal_form r a.names)
  unfolding check_route
  check_route-ok h =
      let label = (check_id i seen r).2 in
      let (front, target) = append-nil-parts _ _ h in
      let (front', path) = append-nil-parts _ _ front in
      let (id, method) = append-nil-parts _ _ front' in
      let (has_id, new, seen_eq) = check_id-ok id in
      let (has_method, known, r_eq) = check_method-ok label r method in
      let (names, has_path, parsed, out) =
        check_path-ok label (record r { method = to_upper r.method }) (rw r_eq at path) in
      let (has_target, uri) =
        check_target-ok label (normal_form r names) is_request_uri (rw (r_eq, out) at target) in
      (
        record {
          has_id = has_id;
          has_method = has_method;
          method_known = known;
          has_path = has_path;
          names = names;
          placeholders = parsed;
          has_target = has_target;
          target_parsed = uri;
        },
        new,
        seen_eq,
        rw r_eq out,
      )

  check_route_complete :
      (a : IsAcceptable is_request_uri r)
      → contains seen r.id ≡ false
      → check_route is_request_uri i seen r ≡ ([], r.id ∷ seen, normal_form r a.names)
  unfolding check_route check_id check_method check_path check_target
  check_route_complete a new =
      ground (arith, eq_iff r.id "", eq_iff r.method "", eq_iff r.path "", eq_iff r.target "")

-- ------------------------------------------------------------------ the table

module _ (is_request_uri : String → Bool) where
  -- The table as the file gives it passes: every route does, and the ids are distinct.
  abbrev pub AllAcceptable : List Route → Type 0
  AllAcceptable rs = All (IsAcceptable is_request_uri) rs × Distinct (map (λ r. r.id) rs)

  abbrev pub normal_forms : (rs : List Route) → All (IsAcceptable is_request_uri) rs → List Route
  normal_forms [] a = []
  normal_forms (r ∷ rs) (a, more) = normal_form r a.names ∷ normal_forms rs more

  check_from-ok :
      (i : ℕ) (seen : List String) (rs : List Route)
      → (check_from is_request_uri i seen rs).0 ≡ []
      → (a : All (IsAcceptable is_request_uri) rs) × AreNew seen (map (λ r. r.id) rs)
        × Distinct (map (λ r. r.id) rs)
        × ((check_from is_request_uri i seen rs).1 ≡ normal_forms rs a)
  unfolding check_from
  check_from-ok i seen [] h = (tt, tt, tt, refl)
  check_from-ok i seen (r ∷ rs) h =
      let (here, later) = append-nil-parts _ _ h in
      let (a, new, same, out) = check_route-ok is_request_uri i seen r here in
      let (more, news, apart, outs) = check_from-ok (suc i) (r.id ∷ seen) rs (rw same at later) in
      let (old, ne) = (AreNew-cons seen r.id (map (λ q. q.id) rs)).0 news in
      ((a, more), (new, old), (ne, apart), rw (same, out, outs) refl)

  check_from_complete :
      (i : ℕ) (seen : List String) (rs : List Route) (a : All (IsAcceptable is_request_uri) rs)
      → AreNew seen (map (λ r. r.id) rs)
      → Distinct (map (λ r. r.id) rs)
      → check_from is_request_uri i seen rs ≡ ([], normal_forms rs a)
  unfolding check_from
  check_from_complete i seen [] a n d = refl
  check_from_complete i seen (r ∷ rs) (a, more) (n, ns) (d, ds) =
      rw (check_route_complete is_request_uri i seen r a n) (
        rw
          (check_from_complete (suc i) (r.id ∷ seen) rs more
            ((AreNew-cons seen r.id (map (λ q. q.id) rs)).1 (ns, d)) ds)
          refl)

  validate-ok :
      (rs rs' : List Route)
      → validate is_request_uri rs ≡ ok rs'
      → ((check_from is_request_uri 0 [] rs).0 ≡ []) × ((check_from is_request_uri 0 [] rs).1 ≡ rs')
  unfolding validate
  validate-ok rs rs' h = ground arith

  -- A table is accepted exactly when each of its routes is acceptable and their ids are distinct;
  -- what comes out are the same routes in the same order, with the method in upper case and the
  -- placeholder names filled in, and nothing else changed.
  pub validate_iff :
      (rs rs' : List Route)
      → (validate is_request_uri rs ≡ ok rs') ↔ (
          (a : All (IsAcceptable is_request_uri) rs) × Distinct (map (λ r. r.id) rs)
          × (rs' ≡ normal_forms rs a))
  unfolding validate
  validate_iff rs rs' = (
    λ h.
        let (clean, out) = validate-ok rs rs' h in
        let (a, _, apart, outs) = check_from-ok 0 [] rs clean in (a, apart, sym out ∙ outs),
    λ (a, apart, e).
        let clean = check_from_complete 0 [] rs a (AreNew-nil (map (λ r. r.id) rs)) apart in
        ground arith,
  )
