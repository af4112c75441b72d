-- ===== src/Plugins/TokenValidator/Selection.antt =====
-- Which issuer's keys a token is checked with.
use Prim.Native.Nat.{ℕ}
use mathlib.Core.List.{Memᴰ}
use yaagents_gateway.Prelude.{
  String, List, [], ◌∷◌, Option, none, some, ◌≡◌, ◌≢◌, refl, ◌↔◌, ◌⊎◌, inl, inr, All, String-cases,
  ◌==◌, if◌then◌else◌,
}
use yaagents_gateway.Plugins.TokenValidator.Config.{IssuerEntry}
use yaagents_gateway.Plugins.TokenValidator.Validators.{find_from, find_validator}

-- The pool has an entry for the issuer with the validator.
abbrev pub HasEntry : List IssuerEntry → String → ℕ → Type 0
HasEntry pool iss ref = (e : IssuerEntry) × Memᴰ e pool × (e.issuer ≡ iss) × (e.validator ≡ ref)

-- No entry is for the issuer.
abbrev pub LacksIssuer : List IssuerEntry → String → Type 0
LacksIssuer pool iss = All (λ e. e.issuer ≢ iss) pool

HasEntry-tail :
    (e : IssuerEntry) (pool : List IssuerEntry) (iss : String) (ref : ℕ)
    → HasEntry pool iss ref
    → HasEntry (e ∷ pool) iss ref
HasEntry-tail e pool iss ref (f, m, named, refers) = (f, Memᴰ.tail m, named, refers)

find_from-some :
    (pool : List IssuerEntry) (iss : String) (wildcard : Option ℕ) (ref : ℕ)
    → find_from pool iss wildcard ≡ some ref
    → HasEntry pool iss ref
      ⊎ (LacksIssuer pool iss × (HasEntry pool "" ref ⊎ (wildcard ≡ some ref)))
unfolding find_from
find_from-some [] iss wildcard ref found = inr (tt, inr found)
find_from-some (e ∷ pool) iss wildcard ref found = elim (String-cases e.issuer iss) [
  | inl (same, test) ↦
      (let here = rw (test, find_from) at found in inl (e, Memᴰ.head refl, same, cc here))
  | inr (ne, test) ↦
      (let later = rw (test, find_from) at found in
        elim (find_from-some pool iss (if e.issuer == "" then some e.validator else wildcard) ref
          later) [
            | inl entry ↦ inl (HasEntry-tail e pool iss ref entry)
            | inr (lacks, inl entry) ↦ inr ((ne, lacks), inl (HasEntry-tail e pool "" ref entry))
            | inr (lacks, inr kept) ↦ elim (String-cases e.issuer "") [
              | inl (empty, wild) ↦
                  (let here = rw wild at kept in
                    inr ((ne, lacks), inl (e, Memᴰ.head refl, empty, cc here)))
              | inr (named, plain) ↦ (let old = rw plain at kept in inr ((ne, lacks), inr old))
            ]
          ])
]

find_from-none :
    (pool : List IssuerEntry) (iss : String) (wildcard : Option ℕ)
    → (find_from pool iss wildcard ≡ none)
      ↔ (LacksIssuer pool iss × LacksIssuer pool "" × (wildcard ≡ none))
unfolding find_from
find_from-none [] iss wildcard = (λ h. (tt, tt, h), λ h. h.2)
find_from-none (e ∷ pool) iss wildcard = elim (String-cases e.issuer iss) [
  | inl (same, test) ↦ rw (test, find_from) (λ h. cc, λ h. absurd (h.0.0 same))
  | inr (ne, test) ↦
      rw (test, find_from)
        (elim (String-cases e.issuer "") [
          | inl (empty, wild) ↦
              (let (down, up) = find_from-none pool iss (some e.validator) in
                rw wild (λ h. absurd (cc ((down h).2)), λ h. absurd (h.1.0 empty)))
          | inr (named, plain) ↦
              (let (down, up) = find_from-none pool iss wildcard in
                rw plain (
                  λ h. (let (a, b, c) = down h in ((ne, a), (named, b), c)),
                  λ h. up (h.0.1, h.1.1, h.2),
                ))
        ])
]

-- The validator that is found is one that the pool has for the issuer, or, only if the pool has none
-- for it, one of a wildcard entry; none is found exactly if the pool has neither.
pub find_validator_lem :
    (pool : List IssuerEntry) (iss : String)
    → ((ref : ℕ)
        → find_validator pool iss ≡ some ref
        → HasEntry pool iss ref ⊎ (LacksIssuer pool iss × HasEntry pool "" ref))
      × ((find_validator pool iss ≡ none) ↔ (LacksIssuer pool iss × LacksIssuer pool ""))
unfolding find_validator
find_validator_lem pool iss = (
  λ ref found. elim (find_from-some pool iss none ref found) [
    | inl entry ↦ inl entry
    | inr (lacks, inl entry) ↦ inr (lacks, entry)
    | inr (lacks, inr kept) ↦ absurd (cc kept)
  ],
  (
    λ h. (let (a, b, c) = (find_from-none pool iss none).0 h in (a, b)),
    λ h. (find_from-none pool iss none).1 (h.0, h.1, refl),
  ),
)
