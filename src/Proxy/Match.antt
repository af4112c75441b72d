-- ===== src/Proxy/Match.antt =====
-- Matching a request path against the path of a route.
pub mod Laws
use Prim.Native.Char.{Char, code}
use Prim.Native.String.{[], ◌∷◌}
use yaagents_gateway.Prelude.{
  String, Bool, true, false, not, ◌&&◌, List, keep, length, eqb, ◌==◌, if◌then◌else◌,
}
use yaagents_gateway.Prelude.Text.{split}

-- `splitPath`: the parts between slashes that are not empty.
unfoldable pub split_path : String → List String
split_path path = keep (λ p. not (p == "")) (split b'/' path)

starts_with_code : String → Bool
starts_with_code [] = false
starts_with_code (c ∷ s) = eqb (code c) b'{'

ends_from : Bool → String → Bool
ends_from last [] = last
ends_from last (c ∷ s) = ends_from (eqb (code c) b'}') s

-- `strings.HasPrefix(ps, "{") && strings.HasSuffix(ps, "}")`
unfoldable pub is_placeholder : String → Bool
unfolding starts_with_code ends_from
is_placeholder s = starts_with_code s && ends_from false s

-- One round of the loop: whether it goes on.
unfoldable pub segment_matches : String → String → Bool
segment_matches pattern part = if is_placeholder pattern then not (part == "") else pattern == part

-- The loop of `matchPath`, over lists of one length.
unfoldable pub segments_match : List String → List String → Bool
segments_match List.[] parts = true
segments_match (List.◌∷◌ p ps) List.[] = true
segments_match (List.◌∷◌ p ps) (List.◌∷◌ r rs) = segment_matches p r && segments_match ps rs

-- `matchPath`
unfoldable pub match_path : String → String → Bool
match_path pattern request_path =
    let ps = split_path pattern in
    let rs = split_path request_path in
    if not (eqb (length ps) (length rs)) then false else segments_match ps rs
