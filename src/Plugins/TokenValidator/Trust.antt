-- ===== src/Plugins/TokenValidator/Trust.antt =====
-- What the checks of the claims ask for, and what the context keeps of them.
use yaagents_gateway.Prelude.{
  String, Bool, true, false, List, [], ◌∷◌, Option, none, some, ◌≡◌, ◌≢◌, refl, ap, ◌∙◌, ◌↔◌, ◌⊎◌,
  inl, inr, All, Contains, contains, contains_iff, any, Bool-cases, Option-cases, String-cases,
  if◌then◌else◌,
}
use yaagents_gateway.Prelude.Maps.{lookup, insert, lookup-insert}
use yaagents_gateway.Value.{Value, null, bool, int, int64, float64, str, strs, list, object, Object}
use yaagents_gateway.Plugins.TokenValidator.Claims.{
  token_audiences, check_audiences, check_required_claims, is_present, filter_claims,
}
use yaagents_gateway.Prelude.{not, ◌&&◌}
use yaagents_gateway.Prelude.Result.{ok}
use yaagents_gateway.Plugins.TokenValidator.Config.{Settings}
use yaagents_gateway.Plugins.TokenValidator.Verify.{has_any, check_claims}

-- Some text is in both lists.
abbrev pub Overlap : List String → List String → Type 0
Overlap xs ys = (a : String) × Contains xs a × Contains ys a

any-contains_iff : (ys xs : List String) → (any (λ x. contains ys x) xs ≡ true) ↔ Overlap xs ys
any-contains_iff ys [] = (λ h. cc, λ h. absurd h.1)
any-contains_iff ys (x ∷ xs) =
    let (down, up) = any-contains_iff ys xs in
    let (out, into) = contains_iff ys x in
    elim (Bool-cases (contains ys x)) [
      | inl there ↦ (λ h. (x, inl refl, out there), λ h. rw there refl)
      | inr gone ↦ rw gone (
        λ h. (let (a, m, n) = down h in (a, inr m, n)),
        λ h. elim h.1 [
          | inl same ↦ (let found = rw (← same) at h.2 in absurd (cc (into found)))
          | inr m ↦ up (h.0, m, h.2)
        ],
      )
    ]

-- The audiences that are configured and those of the token have one in common.
pub check_audiences_iff :
    (mc : Object) (audiences : List String)
    → (check_audiences mc audiences ≡ true) ↔ Overlap (token_audiences (lookup "aud" mc)) audiences
unfolding check_audiences
check_audiences_iff mc audiences = any-contains_iff audiences (token_audiences (lookup "aud" mc))

-- The claim is there and is not the empty text.
abbrev pub IsPresent : Object → String → Type 0
IsPresent mc name = (v : Value) × (lookup name mc ≡ some v) × (v ≢ str "")

is_present_iff :
    (o : Option Value) → (is_present o ≡ true) ↔ ((v : Value) × (o ≡ some v) × (v ≢ str ""))
is_present_iff none = (λ h. cc, λ h. cc)
is_present_iff (some (str s)) = elim (String-cases s "") [
  | inl (empty, test) ↦ rw test (λ h. cc, λ h. absurd (h.2 (cc (h.1, empty))))
  | inr (ne, test) ↦ rw test (λ h. (str s, refl, λ e. ne (cc e)), λ h. refl)
]
is_present_iff (some null) = (λ h. (null, refl, λ e. cc), λ h. refl)
is_present_iff (some (bool b)) = (λ h. (bool b, refl, λ e. cc), λ h. refl)
is_present_iff (some (int n)) = (λ h. (int n, refl, λ e. cc), λ h. refl)
is_present_iff (some (int64 n)) = (λ h. (int64 n, refl, λ e. cc), λ h. refl)
is_present_iff (some (float64 n)) = (λ h. (float64 n, refl, λ e. cc), λ h. refl)
is_present_iff (some (strs ss)) = (λ h. (strs ss, refl, λ e. cc), λ h. refl)
is_present_iff (some (list vs)) = (λ h. (list vs, refl, λ e. cc), λ h. refl)
is_present_iff (some (object fs)) = (λ h. (object fs, refl, λ e. cc), λ h. refl)

pub check_required_claims_iff :
    (mc : Object) (names : List String)
    → All (λ name. name ≢ "") names
    → (check_required_claims mc names ≡ "") ↔ All (λ name. IsPresent mc name) names
unfolding check_required_claims
check_required_claims_iff mc [] h = (λ e. tt, λ e. refl)
check_required_claims_iff mc (name ∷ names) (ne, h) =
    let (fwd, bwd) = is_present_iff (lookup name mc) in
    let (down, up) = check_required_claims_iff mc names h in
    elim (Bool-cases (is_present (lookup name mc))) [
      | inl there ↦ rw (there, check_required_claims) (λ e. (fwd there, down e), λ e. up e.1)
      | inr gone ↦ rw (gone, check_required_claims) (λ e. absurd (ne e), λ e. absurd (cc (bwd e.0)))
    ]

if_same : (b : Bool) (o : Option Value) → (if b then o else o) ≡ o
if_same true o = refl
if_same false o = refl

-- What is found in the claims that were filtered: the claim, if its name is on the list.
lookup-filter_claims :
    (mc : Object) (allow : List String) (filtered : Object) (k : String)
    → lookup k (filter_claims mc allow filtered) ≡ (
        if contains allow k
        then (elim (lookup k mc) [ none ↦ lookup k filtered | some v ↦ some v ])
        else lookup k filtered)
unfolding filter_claims
lookup-filter_claims mc [] filtered k = refl
lookup-filter_claims mc (name ∷ allow) filtered k = elim (Option-cases (lookup name mc)) [
  | inl absent ↦ rw absent (
      lookup-filter_claims mc allow filtered k ∙ elim (String-cases name k) [
        | inl (same, test) ↦
            (let gone = rw same at absent in
              rw (test, gone) (if_same (contains allow k) (lookup k filtered)))
        | inr (ne, test) ↦ rw test refl
      ])
  | inr (v, there) ↦ rw there (
      lookup-filter_claims mc allow (insert name v filtered) k ∙ elim (String-cases name k) [
        | inl (same, test) ↦
            (let found = rw same at there in
              rw (lookup-insert name k v filtered, test, found)
                (if_same (contains allow k) (some v)))
        | inr (ne, test) ↦
            (let kept : lookup k (insert name v filtered) ≡ lookup k filtered =
                rw (lookup-insert name k v filtered, test) refl in
              elim (Option-cases (lookup k mc)) [
                | inl gone ↦ rw (gone, kept, test) refl
                | inr (other, found) ↦ rw (found, kept, test) refl
              ])
      ])
]

-- What the allowlist lets through of the claims: those that it names, with their values.
pub lookup-allowed :
    (mc : Object) (allow : List String) (k : String)
    → lookup k (filter_claims mc allow []) ≡ (if contains allow k then lookup k mc else none)
unfolding lookup
lookup-allowed mc allow k =
    lookup-filter_claims mc allow [] k
    ∙ elim (Option-cases (lookup k mc)) [ inl gone ↦ rw gone refl | inr (v, found) ↦ rw found refl ]

-- The claims are for one of the audiences, if any are configured, and have every required claim.
abbrev pub IsTrusted : Settings → Object → Type 0
IsTrusted c mc =
    ((c.audiences ≡ []) ⊎ Overlap (token_audiences (lookup "aud" mc)) c.audiences)
    × All (λ name. IsPresent mc name) c.required_claims

pub audience_iff :
    (mc : Object) (audiences : List String)
    → ((has_any audiences && not (check_audiences mc audiences)) ≡ false)
      ↔ ((audiences ≡ []) ⊎ Overlap (token_audiences (lookup "aud" mc)) audiences)
audience_iff mc [] = (λ h. inl refl, λ h. refl)
audience_iff mc (a ∷ audiences) =
    let (down, up) = check_audiences_iff mc (a ∷ audiences) in
    elim (Bool-cases (check_audiences mc (a ∷ audiences))) [
      | inl there ↦ rw there (λ h. inr (down there), λ h. refl)
      | inr gone ↦ rw gone (
        λ h. cc h,
        λ h. elim h [ inl e ↦ absurd (cc e) | inr both ↦ absurd (cc (up both, gone)) ],
      )
    ]

pub check_claims_iff :
    (c : Settings) (mc out : Object)
    → All (λ name. name ≢ "") c.required_claims
    → (check_claims c mc ≡ ok out) ↔ ((mc ≡ out) × IsTrusted c mc)
unfolding check_claims
check_claims_iff c mc out named =
    let (heard, for_us) = audience_iff mc c.audiences in
    let (full, complete) = check_required_claims_iff mc c.required_claims named in
    elim (Bool-cases (has_any c.audiences && not (check_audiences mc c.audiences))) [
      | inl wrong ↦ (
        λ h. (let stopped = rw (wrong, check_claims) at h in absurd (cc stopped)),
        λ h. absurd (cc (for_us h.1.0)),
      )
      | inr right ↦ elim (String-cases (check_required_claims mc c.required_claims) "") [
        | inl (all_there, test) ↦ (
          λ h.
              (let same = rw (right, test, check_claims) at h in
                (cc same, (heard right, full all_there))),
          λ h. rw (right, test, check_claims) (ap ok h.0),
        )
        | inr (missing, test) ↦ (
          λ h. (let stopped = rw (right, test, check_claims) at h in absurd (cc stopped)),
          λ h. absurd (missing (complete h.1.1)),
        )
      ]
    ]

-- The name that the check reports is a required one, and the claim is missing or empty.
pub required_cause :
    (mc : Object) (names : List String)
    → check_required_claims mc names ≢ ""
    → Contains names (check_required_claims mc names)
      × (¬ IsPresent mc (check_required_claims mc names))
unfolding check_required_claims
required_cause mc [] ne = absurd (ne refl)
required_cause mc (name ∷ names) ne = elim (Bool-cases (is_present (lookup name mc))) [
  | inl there ↦
      (let (listed, missing) =
          required_cause mc names (λ e. ne (rw (there, check_required_claims) e)) in
        rw (there, check_required_claims) (inr listed, missing))
  | inr gone ↦
      rw (gone, check_required_claims)
        (inl refl, λ here. absurd (cc ((is_present_iff (lookup name mc)).1 here, gone)))
]
