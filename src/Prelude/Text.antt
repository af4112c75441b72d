-- ===== src/Prelude/Text.antt =====
-- Letter case and separators of texts. A text is a sequence of Unicode characters; the separators
-- and letters that the gateway looks at are ASCII, so that characters and bytes agree on them.
use Prim.Native.Nat.{ℕ, zero, suc, ◌+◌, ◌-◌, ◌<◌}
use Prim.Native.Char.{Char, char, code, IsScalar}
use Prim.Native.String
use Prim.Native.String.{String, [], ◌∷◌}
use mathlib.Core.Path.{◌≡◌, refl}
use mathlib.Core.Bool.{Bool, true, false, ◌&&◌}
use mathlib.Core.Logic.{dite}
use mathlib.Core.List.{List}
use mathlib.Core.Option.{Option, none, some}
use native.Mathlib.Omega.{arith}
use native.Mathlib.Decide.{dec_lt}
use text.Mathlib.Text.{◌==◌}
use yaagents_gateway.Prelude.Tests.{leb, eqb, if◌then◌else◌}

-- A number below 55296 is a character.
pub IsScalar-below : (n : ℕ) → n < 55296 → IsScalar n
IsScalar-below n h = ground arith

-- The character with a given number; the numbers given here are ASCII.
unfoldable pub of_code : ℕ → Char
unfolding dec_lt
of_code n = dite (dec_lt n 55296) (λ h. char n (IsScalar-below n h)) (λ _. char 0 tt)

abbrev pub is_upper : ℕ → Bool
is_upper c = leb b'A' c && leb c b'Z'

abbrev pub is_lower : ℕ → Bool
is_lower c = leb b'a' c && leb c b'z'

abbrev pub is_digit : ℕ → Bool
is_digit c = leb b'0' c && leb c b'9'

unfoldable pub map_chars : (Char → Char) → String → String
map_chars f [] = ""
map_chars f (c ∷ s) = f c ∷ map_chars f s

-- `unicode.ToUpper`, as far as its result is an ASCII letter: besides a to z, that is U+017F and
-- U+0131. Any other letter outside ASCII is left alone here, and maps outside ASCII there.
unfoldable pub upper_char : Char → Char
unfolding of_code
upper_char c =
    if is_lower (code c)
    then of_code (code c - 32)
    else if eqb (code c) 0x17f
    then of_code b'S'
    else if eqb (code c) 0x131
    then of_code b'I'
    else c

-- The simple case folding to lower case, as far as its result is an ASCII letter: besides A to Z,
-- that is U+017F and U+212A.
unfoldable pub fold_char : Char → Char
unfolding of_code
fold_char c =
    if is_upper (code c)
    then of_code (code c + 32)
    else if eqb (code c) 0x17f
    then of_code b's'
    else if eqb (code c) 0x212a
    then of_code b'k'
    else c

-- `strings.ToUpper`
unfoldable pub to_upper : String → String
unfolding map_chars upper_char
to_upper s = map_chars upper_char s

-- `strings.EqualFold`, exact where one of the two texts is ASCII.
unfoldable pub equal_fold : String → String → Bool
unfolding map_chars fold_char
equal_fold s t = map_chars fold_char s == map_chars fold_char t

-- `strings.Split` at one ASCII character, from the text read so far.
unfoldable pub split_from : ℕ → String → String → List String
split_from sep cur [] = List.◌∷◌ cur List.[]
split_from sep cur (c ∷ s) =
    let closed = List.◌∷◌ cur (split_from sep "" s) in
    let longer = split_from sep (String.◌++◌ cur (c ∷ "")) s in
    if eqb (code c) sep then closed else longer

unfoldable pub split : ℕ → String → List String
unfolding split_from
split sep s = split_from sep "" s

-- `strings.CutPrefix`: the rest behind the prefix.
unfoldable pub cut_prefix : String → String → Option String
cut_prefix s [] = some s
cut_prefix [] (p ∷ ps) = none
cut_prefix (c ∷ s) (p ∷ ps) =
    let rest = cut_prefix s ps in if eqb (code c) (code p) then rest else none

upper_example : to_upper "pOſt" ≡ "POST"
unfolding to_upper dec_lt
upper_example = refl

fold_example : equal_fold "POST" "poſt" ≡ true
unfolding equal_fold dec_lt
fold_example = refl

split_example :
    split b'/' "/a//bc" ≡ List.◌∷◌ "" (List.◌∷◌ "a" (List.◌∷◌ "" (List.◌∷◌ "bc" List.[])))
unfolding split
split_example = refl

unfoldable pub size : String → ℕ
size [] = 0
size (c ∷ s) = 1 + size s

unfoldable pub has_prefix : String → String → Bool
has_prefix [] s = true
has_prefix (c ∷ p) [] = false
has_prefix (c ∷ p) (d ∷ s) = eqb (code c) (code d) && has_prefix p s

-- The occurrences of a text that is not empty, behind the next `skip` characters.
unfoldable pub count_from : String → ℕ → String → ℕ
unfolding has_prefix size
count_from sub skip [] = 0
count_from sub (suc skip) (c ∷ s) = count_from sub skip s
count_from sub zero (c ∷ s) =
    let inside = count_from sub (size sub - 1) s in
    let later = count_from sub 0 s in if has_prefix sub (c ∷ s) then 1 + inside else later

-- `strings.Count`
unfoldable pub count_of : String → String → ℕ
unfolding count_from
count_of s sub = count_from sub 0 s

unfoldable pub replace_from : String → String → ℕ → String → String
unfolding has_prefix size
replace_from old new skip [] = ""
replace_from old new (suc skip) (c ∷ s) = replace_from old new skip s
replace_from old new zero (c ∷ s) =
    let inside = String.◌++◌ new (replace_from old new (size old - 1) s) in
    let later = c ∷ replace_from old new 0 s in if has_prefix old (c ∷ s) then inside else later

-- `strings.ReplaceAll`, for an old text that is not empty.
unfoldable pub replace_all : String → String → String → String
unfolding replace_from
replace_all s old new = replace_from old new 0 s

-- `len`: the bytes of a text in UTF-8.
unfoldable pub byte_size : String → ℕ
byte_size [] = 0
byte_size (c ∷ s) =
    (if leb (code c) 0x7f
      then 1
      else if leb (code c) 0x7ff
      then 2
      else if leb (code c) 0xffff
      then 3
      else 4)
    + byte_size s

-- `strings.SplitN` at one ASCII character, with the cuts that are left.
unfoldable pub split_cuts : ℕ → ℕ → String → String → List String
split_cuts sep zero cur s = List.◌∷◌ (String.◌++◌ cur s) List.[]
split_cuts sep (suc cuts) cur [] = List.◌∷◌ cur List.[]
split_cuts sep (suc cuts) cur (c ∷ s) =
    let closed = List.◌∷◌ cur (split_cuts sep cuts "" s) in
    let longer = split_cuts sep (suc cuts) (String.◌++◌ cur (c ∷ "")) s in
    if eqb (code c) sep then closed else longer

split_cuts_example :
    split_cuts b'.' 2 "" "a.b.c.d" ≡ List.◌∷◌ "a" (List.◌∷◌ "b" (List.◌∷◌ "c.d" List.[]))
unfolding split_cuts
split_cuts_example = refl
