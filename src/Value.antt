-- ===== src/Value.antt =====
-- Values of type `any` as the YAML and JSON decoders make them. A float64 is given by the integer
-- that `int(·)` truncates it to, which is all that the gateway reads of one.
use yaagents_gateway.Prelude.{String, Bool, List, [], ◌∷◌, Option, none, some, ◌≡◌, ◌≢◌, refl, ap}
use yaagents_gateway.Prelude.Int.{ℤ}
use yaagents_gateway.Prelude.Maps.{lookup}

mutual
  pub data Value : Type 0 where
    null : Value
    bool : Bool → Value
    int : ℤ → Value
    int64 : ℤ → Value
    float64 : ℤ → Value
    str : String → Value
    strs : List String → Value
    list : Items → Value
    object : Fields → Value

  pub data Items : Type 0 where
    nil : Items
    cons : Value → Items → Items

  pub data Fields : Type 0 where
    end : Fields
    field : String → Value → Fields → Fields

abbrev pub elems : Items → List Value
elems nil = []
elems (cons v vs) = v ∷ elems vs

abbrev pub entries : Fields → List (String × Value)
entries end = []
entries (field k v fs) = (k, v) ∷ entries fs

-- A `map[string]any`.
abbrev pub Object : Type 0
Object = List (String × Value)

-- `v.(string)`, `v.(bool)`, `v.(map[string]any)`: none if the type is another.
abbrev pub as_str : Option Value → Option String
as_str (some (str s)) = some s
as_str _ = none

abbrev pub as_bool : Option Value → Option Bool
as_bool (some (bool b)) = some b
as_bool _ = none

abbrev pub as_object : Option Value → Option Object
as_object (some (object fs)) = some (entries fs)
as_object _ = none

-- `s, _ := m[key].(string)`
unfoldable pub str_at : String → Object → String
str_at key m = elim (as_str (lookup key m)) [ some s ↦ s | none ↦ "" ]

-- The items that are texts; the others are dropped.
unfoldable pub texts_of : List Value → List String
texts_of [] = []
texts_of (str s ∷ vs) = s ∷ texts_of vs
texts_of (_ ∷ vs) = texts_of vs

-- All the items as texts; none if one is no text.
unfoldable pub all_texts : List Value → Option (List String)
all_texts [] = some []
all_texts (str s ∷ vs) = elim (all_texts vs) [ some ss ↦ some (s ∷ ss) | none ↦ none ]
all_texts (_ ∷ vs) = none

-- The texts in a list; none where there is no list.
abbrev pub list_texts : Option Value → List String
list_texts (some (list vs)) = texts_of (elems vs)
list_texts _ = []

-- The texts are those of the list, if there is one.
abbrev pub IsListTexts : Option Value → List String → Type 0
IsListTexts v texts =
    ((vs : Items) → v ≡ some (list vs) → texts ≡ texts_of (elems vs))
    × (((vs : Items) → v ≢ some (list vs)) → texts ≡ [])

pub list_texts-IsListTexts : (v : Option Value) → IsListTexts v (list_texts v)
list_texts-IsListTexts (some (list vs)) = (
  λ us same. (let is : list vs ≡ list us = cc same in ap (λ v. list_texts (some v)) is),
  λ other. absurd (other vs refl),
)
list_texts-IsListTexts none = (λ vs same. absurd (cc same), λ other. refl)
list_texts-IsListTexts (some null) = (λ vs same. absurd (cc same), λ other. refl)
list_texts-IsListTexts (some (bool b)) = (λ vs same. absurd (cc same), λ other. refl)
list_texts-IsListTexts (some (int n)) = (λ vs same. absurd (cc same), λ other. refl)
list_texts-IsListTexts (some (int64 n)) = (λ vs same. absurd (cc same), λ other. refl)
list_texts-IsListTexts (some (float64 n)) = (λ vs same. absurd (cc same), λ other. refl)
list_texts-IsListTexts (some (str s)) = (λ vs same. absurd (cc same), λ other. refl)
list_texts-IsListTexts (some (strs ss)) = (λ vs same. absurd (cc same), λ other. refl)
list_texts-IsListTexts (some (object fs)) = (λ vs same. absurd (cc same), λ other. refl)
