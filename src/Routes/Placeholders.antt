-- ===== src/Routes/Placeholders.antt =====
-- `parsePlaceholders`, with the matches of the regular expression \{([^{}]*)\} from left to right.
use Prim.Native.Char.{Char, code}
use Prim.Native.String
use Prim.Native.String.{[], ◌∷◌}
use yaagents_gateway.Prelude.{
  String, List, Option, none, some, eqb, ◌==◌, contains, if◌then◌else◌, ◌≡◌, refl, ◌++◌,
}
use yaagents_gateway.Prelude.Result.{Result, ok, err}

abbrev snoc : String → Char → String
snoc s c = String.◌++◌ s (c ∷ "")

-- The scan: `none` outside braces, and inside, behind the last "{", the name read so far. A "{"
-- begins anew, since a name holds no brace.
unfoldable pub scan : Option String → String → List String
scan at [] = List.[]
scan none (c ∷ s) =
    let inside = scan (some "") s in
    let outside = scan none s in if eqb (code c) b'{' then inside else outside
scan (some name) (c ∷ s) =
    let inside = scan (some "") s in
    let closed = List.◌∷◌ name (scan none s) in
    let longer = scan (some (snoc name c)) s in
    if eqb (code c) b'{' then inside else if eqb (code c) b'}' then closed else longer

pub data PathError : Type 0 where
  empty_placeholder : PathError
  repeated_placeholder : String → PathError

-- The loop over the matches; `seen` and `names` hold the names so far.
unfoldable pub collect : List String → List String → Result PathError (List String)
collect names List.[] = ok names
collect names (List.◌∷◌ name rest) =
    let more = collect (names ++ List.◌∷◌ name List.[]) rest in
    if name == ""
    then err empty_placeholder
    else if contains names name
    then err (repeated_placeholder name)
    else more

unfoldable pub parse_placeholders : String → Result PathError (List String)
unfolding scan collect
parse_placeholders path = collect List.[] (scan none path)

placeholder_tests :
    (parse_placeholders "/a/{x}/b/{y{z}" ≡ ok (List.◌∷◌ "x" (List.◌∷◌ "z" List.[])))
    × (parse_placeholders "/{x}/{x}" ≡ err (repeated_placeholder "x"))
    × (parse_placeholders "/{}" ≡ err empty_placeholder)
unfolding parse_placeholders
placeholder_tests = (refl, refl, refl)
