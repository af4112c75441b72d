-- ===== src/Jwt.antt =====
-- What the gateway uses of github.com/golang-jwt/jwt/v5, which is a parameter here: jwt.Parse reads a
-- token, asks the key function for a key, verifies the signature under it and validates the claims.
-- It makes MapClaims, so that the assertions on the type of the claims always hold.
pub mod Laws
use Prim.Native.Nat.{ℕ}
use yaagents_gateway.Prelude.{String, Bool, List, Option, none, some}
use yaagents_gateway.Prelude.Result.{Result, ok, err}
use yaagents_gateway.Value.{Object, str_at}

pub data ParserOption : Type 0 where
  with_valid_methods : List String → ParserOption
  with_expiration_required : ParserOption
  with_audience : String → ParserOption
  with_leeway : ℕ → ParserOption

-- The dynamic type of `t.Method`.
pub data Method : Type 0 where
  rsa hmac other : Method

-- The token as the key function gets it.
pub record Unverified : Type 0 where
  pub method : Method
  pub header : Object

-- `kid, _ := t.Header["kid"].(string)`
abbrev pub kid_of : Unverified → String
kid_of t = str_at "kid" t.header

-- What errors.Is says of an error of Parse: whether it is ErrTokenExpired, ErrTokenNotValidYet.
pub record Refused : Type 0 where
  pub is_expired : Bool
  pub is_not_valid_yet : Bool

-- Parse in two parts, for a type of keys: what it hands to the key function, none if the token is
-- malformed or its method is not a valid one, and what it makes of the key at a time.
pub record Parser (K : Type 0) : Type 0 where
  pub unverified : List ParserOption → String → Option Unverified
  pub verified : List ParserOption → ℕ → String → K → Result Refused Object

-- An error of Parse: its own, or the key function's.
pub data ParseError (E : Type 0) : Type 0 where
  refused : Refused → ParseError E
  malformed : ParseError E
  no_key : E → ParseError E

-- `jwt.Parse` with a key function over a state.
unfoldable pub parse :
    {K E S : Type 0}
    → Parser K
    → (S → ℕ)
    → List ParserOption
    → String
    → (Unverified → S → Result E K × S)
    → S
    → Result (ParseError E) Object × S
parse p now opts token key_func s = elim (p.unverified opts token) [
  | none ↦ (err malformed, s)
  | some t ↦
      (let (key, s') = key_func t s in
        (
          elim key [
            | err e ↦ err (no_key e)
            | ok k ↦ elim (p.verified opts (now s') token k) [
              | err e ↦ err (refused e)
              | ok claims ↦ ok claims
            ]
          ],
          s',
        ))
]
