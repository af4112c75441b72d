-- ===== src/Http/Header.antt =====
-- http.Header: a list of (key, value) pairs, one pair for each value, under canonical keys.
use Prim.Native.Nat.{ℕ, ◌+◌, ◌-◌}
use Prim.Native.Char.{code}
use Prim.Native.String.{[], ◌∷◌}
use yaagents_gateway.Prelude.{
  String, Bool, true, false, not, ◌&&◌, ◌||◌, List, ◌++◌, ◌≡◌, refl, arith, eqb, ◌==◌, eq_iff,
  eq_refl, if◌then◌else◌,
}
use yaagents_gateway.Prelude.Text.{of_code, is_upper, is_lower, is_digit}

abbrev pub Header : Type 0
Header = List (String × String)

-- The characters of an HTTP token that are neither letters nor digits.
is_token_mark : ℕ → Bool
is_token_mark c =
    eqb c b'!'
    || eqb c b'#'
    || eqb c b'$'
    || eqb c b'%'
    || eqb c b'&'
    || eqb c 39
    || eqb c b'*'
    || eqb c b'+'
    || eqb c b'-'
    || eqb c b'.'
    || eqb c b'^'
    || eqb c b'_'
    || eqb c 96
    || eqb c 124
    || eqb c b'~'

is_token : String → Bool
unfolding is_token_mark
is_token [] = true
is_token (c ∷ s) =
    (is_upper (code c) || is_lower (code c) || is_digit (code c) || is_token_mark (code c))
    && is_token s

canonical_from : Bool → String → String
unfolding of_code
canonical_from up [] = ""
canonical_from up (c ∷ s) =
    (if up && is_lower (code c)
      then of_code (code c - 32)
      else if not up && is_upper (code c)
      then of_code (code c + 32)
      else c)
    ∷ canonical_from (eqb (code c) b'-') s

-- `http.CanonicalHeaderKey`
unfoldable pub canonical_key : String → String
unfolding is_token canonical_from
canonical_key s = if is_token s then canonical_from true s else s

-- `Get`: the first value, "" if there is none.
get_canonical : Header → String → String
get_canonical List.[] key = ""
get_canonical (List.◌∷◌ (k, v) h) key = if k == key then v else get_canonical h key

unfoldable pub get : Header → String → String
unfolding get_canonical
get h key = get_canonical h (canonical_key key)

del_canonical : Header → String → Header
del_canonical List.[] key = List.[]
del_canonical (List.◌∷◌ (k, v) h) key =
    let rest = del_canonical h key in if k == key then rest else List.◌∷◌ (k, v) rest

-- `Del`
unfoldable pub del : Header → String → Header
unfolding del_canonical
del h key = del_canonical h (canonical_key key)

-- `Set`: replaces all values of the key.
unfoldable pub set : Header → String → String → Header
unfolding del
set h key value = List.◌∷◌ (canonical_key key, value) (del h key)

-- `Add`: one more value, behind those that are there.
unfoldable pub add : Header → String → String → Header
add h key value = h ++ List.◌∷◌ (canonical_key key, value) List.[]

get_canonical-del :
    (h : Header) (j k : String)
    → get_canonical (del_canonical h k) j ≡ (if k == j then "" else get_canonical h j)
unfolding get_canonical del_canonical
get_canonical-del List.[] j k = ground arith
get_canonical-del (List.◌∷◌ (i, v) h) j k =
    ground (arith, get_canonical-del h j k, eq_iff k j, eq_iff i k, eq_iff i j)

pub get-del :
    (h : Header) (j k : String)
    → get (del h k) j ≡ (if canonical_key k == canonical_key j then "" else get h j)
unfolding get del
get-del h j k = get_canonical-del h (canonical_key j) (canonical_key k)

pub get-set :
    (h : Header) (j k v : String)
    → get (set h k v) j ≡ (if canonical_key k == canonical_key j then v else get h j)
unfolding get set del get_canonical
get-set h j k v = ground (arith, get_canonical-del h (canonical_key j) (canonical_key k))

pub get-set_self : (h : Header) (k v : String) → get (set h k v) k ≡ v
get-set_self h k v = ground (arith, get-set h k k v, eq_refl (canonical_key k))

pub get-del_self : (h : Header) (k : String) → get (del h k) k ≡ ""
get-del_self h k = ground (arith, get-del h k k, eq_refl (canonical_key k))

-- All values of a key, in order.
values_canonical : Header → String → List String
values_canonical List.[] key = List.[]
values_canonical (List.◌∷◌ (k, v) h) key =
    let rest = values_canonical h key in if k == key then List.◌∷◌ v rest else rest

unfoldable pub values : Header → String → List String
unfolding values_canonical
values h key = values_canonical h (canonical_key key)

values_canonical-del : (h : Header) (k : String) → values_canonical (del_canonical h k) k ≡ List.[]
unfolding values_canonical del_canonical
values_canonical-del List.[] k = refl
values_canonical-del (List.◌∷◌ (i, v) h) k = ground (arith, values_canonical-del h k)

-- After `Set` the key has one value, whatever was there.
pub values-set : (h : Header) (k v : String) → values (set h k v) k ≡ List.◌∷◌ v List.[]
unfolding values set del values_canonical
values-set h k v =
    ground (arith, values_canonical-del h (canonical_key k), eq_refl (canonical_key k))

values_canonical-del_other :
    (h : Header) (j k : String)
    → k == j ≡ false
    → values_canonical (del_canonical h k) j ≡ values_canonical h j
unfolding values_canonical del_canonical
values_canonical-del_other List.[] j k apart = refl
values_canonical-del_other (List.◌∷◌ (i, v) h) j k apart =
    ground (arith, values_canonical-del_other h j k apart, eq_iff k j, eq_iff i k, eq_iff i j)

-- The other keys keep their values.
pub values-set_other :
    (h : Header) (j k v : String)
    → canonical_key k == canonical_key j ≡ false
    → values (set h k v) j ≡ values h j
unfolding values set del values_canonical
values-set_other h j k v apart =
    ground (arith, values_canonical-del_other h (canonical_key j) (canonical_key k) apart)

pub values-del_other :
    (h : Header) (j k : String)
    → canonical_key k == canonical_key j ≡ false
    → values (del h k) j ≡ values h j
unfolding values del
values-del_other h j k apart =
    values_canonical-del_other h (canonical_key j) (canonical_key k) apart

del_canonical_idem :
    (h : Header) (k : String) → del_canonical (del_canonical h k) k ≡ del_canonical h k
unfolding del_canonical
del_canonical_idem List.[] k = refl
del_canonical_idem (List.◌∷◌ (i, v) h) k = ground (arith, del_canonical_idem h k)

del_canonical-snoc :
    (h : Header) (k v : String) → del_canonical (h ++ List.◌∷◌ (k, v) List.[]) k ≡ del_canonical h k
unfolding del_canonical
del_canonical-snoc List.[] k v = ground (arith, eq_refl k)
del_canonical-snoc (List.◌∷◌ (i, u) h) k v = ground (arith, del_canonical-snoc h k v)

-- What was set or added under a key is gone once the key is deleted.
pub del-set : (h : Header) (k v : String) → del (set h k v) k ≡ del h k
unfolding del set del_canonical
del-set h k v = ground (arith, eq_refl (canonical_key k), del_canonical_idem h (canonical_key k))

pub del-add : (h : Header) (k v : String) → del (add h k v) k ≡ del h k
unfolding del add
del-add h k v = del_canonical-snoc h (canonical_key k) v

canonical_tests : (canonical_key "x-tenant-ID" ≡ "X-Tenant-Id") × (canonical_key "a b" ≡ "a b")
unfolding canonical_key
canonical_tests = (refl, refl)
