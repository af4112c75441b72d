-- ===== src/Proxy/Match/Laws.antt =====
-- What the path of a route matches.
use Prim.Native.Char.{code}
use Prim.Native.String
use Prim.Native.String.{[], ◌∷◌}
use text.Mathlib.TextLemmas.{cons-append}
use yaagents_gateway.Prelude.{
  String, Bool, true, false, not, List, ◌++◌, keep, length, All, eqb, ◌==◌, eq_iff, if◌then◌else◌,
  ◌≡◌, refl, ap, ◌∙◌, ◌≢◌, ◌↔◌, ◌⊎◌, inl, inr, Bool-cases, arith,
}
use yaagents_gateway.Prelude.Text.{split, split_from}
use yaagents_gateway.Proxy.Match.{
  split_path, is_placeholder, segment_matches, segments_match, match_path,
}

-- A pattern segment in braces stands for any part, any other for itself.
abbrev pub SegmentMatches : String → String → Type 0
SegmentMatches p part = (is_placeholder p ≡ true) ⊎ ((is_placeholder p ≡ false) × (p ≡ part))

abbrev pub AllMatch : List String → List String → Type 0
AllMatch List.[] List.[] = Unit
AllMatch (List.◌∷◌ p ps) (List.◌∷◌ r rs) = SegmentMatches p r × AllMatch ps rs
AllMatch _ _ = ⊥

abbrev pub NonEmpty : String → Type 0
NonEmpty s = s ≢ ""

keep-snoc_false :
    {A : Type 0} (p : A → Bool) (x : A) (xs : List A)
    → p x ≡ false
    → keep p (xs ++ List.◌∷◌ x List.[]) ≡ keep p xs
keep-snoc_false p x List.[] h = rw (h, keep) refl
keep-snoc_false p x (List.◌∷◌ y xs) h = elim (Bool-cases (p y)) [
  | inl kept ↦ rw (kept, keep) (ap (λ l. List.◌∷◌ y l) (keep-snoc_false p x xs h))
  | inr dropped ↦ rw (dropped, keep) (keep-snoc_false p x xs h)
]

keep-NonEmpty : (xs : List String) → All NonEmpty (keep (λ p. not (p == "")) xs)
keep-NonEmpty List.[] = tt
keep-NonEmpty (List.◌∷◌ x xs) = ground (arith, keep-NonEmpty xs, eq_iff x "")

-- No part of a split path is empty.
pub split_path-NonEmpty : (path : String) → All NonEmpty (split_path path)
unfolding split_path
split_path-NonEmpty path = keep-NonEmpty (split b'/' path)

segments_match_iff :
    (ps rs : List String)
    → All NonEmpty rs
    → ((if not (eqb (length ps) (length rs)) then false else segments_match ps rs) ≡ true)
      ↔ AllMatch ps rs
unfolding segments_match segment_matches
segments_match_iff List.[] List.[] h = (λ e. tt, λ m. refl)
segments_match_iff List.[] (List.◌∷◌ r rs) h = ground arith
segments_match_iff (List.◌∷◌ p ps) List.[] h = ground arith
segments_match_iff (List.◌∷◌ p ps) (List.◌∷◌ r rs) (n, h) =
    ground (arith, segments_match_iff ps rs h, eq_iff p r, eq_iff r "")

-- A route's path matches a request path exactly when both have as many non-empty segments and each
-- segment of the route is a placeholder or equal to that of the request.
pub match_path_iff :
    (pattern path : String)
    → (match_path pattern path ≡ true) ↔ AllMatch (split_path pattern) (split_path path)
unfolding match_path
match_path_iff pattern path =
    segments_match_iff (split_path pattern) (split_path path) (split_path-NonEmpty path)

split_from-slash :
    (cur s : String)
    → split_from b'/' cur (String.◌++◌ s "/") ≡ split_from b'/' cur s ++ List.◌∷◌ "" List.[]
unfolding split_from
split_from-slash cur [] = refl
split_from-slash cur (c ∷ s) = rw cons-append (elim (Bool-cases (eqb (code c) b'/')) [
  | inl slash ↦ rw slash (ap (λ l. List.◌∷◌ cur l) (split_from-slash "" s))
  | inr other ↦ rw other (split_from-slash (String.◌++◌ cur (c ∷ "")) s)
])

split_path-slash : (path : String) → split_path (String.◌++◌ path "/") ≡ split_path path
unfolding split_path split
split_path-slash path =
    ap (keep (λ p. not (p == ""))) (split_from-slash "" path)
    ∙ keep-snoc_false (λ p. not (p == "")) "" (split_from b'/' "" path) refl

-- A slash at the end of a request path makes no difference.
match_path-trailing_slash :
    (pattern path : String) → match_path pattern (String.◌++◌ path "/") ≡ match_path pattern path
unfolding match_path
match_path-trailing_slash pattern path = rw (split_path-slash path) refl
