-- ===== src/Plugins/TokenValidator/Validators.antt =====
-- internal/plugins/tokenvalidator: the validation of a token, under a shared secret or under the keys
-- of its issuer.
use Prim.Native.Nat.{ℕ}
use yaagents_gateway.Prelude.{
  String, Bool, true, false, not, List, [], ◌∷◌, ◌++◌, Option, none, some, ltb, eqb, if◌then◌else◌,
  ◌==◌,
}
use yaagents_gateway.Prelude.Text.{split_cuts}
use yaagents_gateway.Prelude.Result.{Result, ok, err}
use yaagents_gateway.Value.{Object, str_at}
use yaagents_gateway.Jwt.{
  Method, rsa, hmac, Unverified, kid_of, Parser, ParserOption, ParseError, parse,
  with_valid_methods, with_expiration_required, with_audience, with_leeway,
}
use yaagents_gateway.Jwks.{Jwks, KeyServer, KeyError, PublicKey, get_key}
use yaagents_gateway.Plugins.TokenValidator.Config.{Settings, IssuerEntry}

-- What the key function returns: the shared secret or an RSA key.
pub data Key : Type 0 where
  secret : String → Key
  public_key : PublicKey → Key

-- What the plugin asks of the outside besides its endpoints: golang-jwt, and encoding/json on the
-- bytes of a token's part.
pub record Provider (X : Type 0) : Type 0 where
  pub server : KeyServer X
  pub parser : Parser Key
  pub unmarshal : List ℕ → Option Object

-- The validators that the settings refer to, shared by all who hold a reference, and the outside.
pub record Store (X : Type 0) : Type 0 where
  pub validators : ℕ → Jwks
  pub outside : X

-- Why the key function failed: the method of the token, or its key.
pub data NoKey : Type 0 where
  unexpected_method : NoKey
  key_error : KeyError → NoKey

-- `findValidator`, with the last wildcard entry so far.
unfoldable pub find_from : List IssuerEntry → String → Option ℕ → Option ℕ
find_from [] iss wildcard = wildcard
find_from (e ∷ es) iss wildcard =
    let rest = find_from es iss (if e.issuer == "" then some e.validator else wildcard) in
    if e.issuer == iss then some e.validator else rest

unfoldable pub find_validator : List IssuerEntry → String → Option ℕ
unfolding find_from
find_validator pool iss = find_from pool iss none

abbrev pub parts_of : String → List String
parts_of token = split_cuts b'.' 2 "" token

abbrev pub append_if : Bool → ParserOption → List ParserOption → List ParserOption
append_if true o opts = opts ++ o ∷ []
append_if false o opts = opts

abbrev first_part : List String → Option String
first_part (a ∷ b ∷ c ∷ []) = some a
first_part _ = none

abbrev second_part : List String → Option String
second_part (a ∷ b ∷ c ∷ []) = some b
second_part _ = none

abbrev text_in : String → Option Object → String
text_in key none = ""
text_in key (some m) = str_at key m

-- A store of values with the one at a place replaced.
abbrev pub replaced {ℓ} : {A : Type ℓ} → ℕ → A → (ℕ → A) → ℕ → A
replaced i a f j = if eqb i j then a else f j

abbrev pub key_result : Result KeyError PublicKey → Result NoKey Key
key_result (ok k) = ok (public_key k)
key_result (err e) = err (key_error e)

abbrev pub with_skew : List String → ℕ → List ParserOption
with_skew methods skew =
    append_if (ltb 0 skew) (with_leeway skew)
      (with_valid_methods methods ∷ with_expiration_required ∷ [])

-- The key function of the HS256 validators.
unfoldable pub hs256_key : {X : Type 0} → String → Unverified → Store X → Result NoKey Key × Store X
hs256_key key t s = elim t.method [
  | rsa ↦ (err unexpected_method, s)
  | hmac ↦ (ok (secret key), s)
  | Method.other ↦ (err unexpected_method, s)
]

module _ {X : Type 0} (d : Provider X) where
  abbrev json_of : Option String → Option Object
  json_of none = none
  json_of (some part) = elim (d.server.decode_base64 part) [
    | none ↦ none
    | some bytes ↦ d.unmarshal bytes
  ]

  -- `peekAlgorithm`
  unfoldable pub peek_algorithm : String → String
  peek_algorithm token = text_in "alg" (json_of (first_part (parts_of token)))

  -- `peekIssuer`
  unfoldable pub peek_issuer : String → String
  peek_issuer token = text_in "iss" (json_of (second_part (parts_of token)))

  abbrev pub clock : Store X → ℕ
  clock s = d.server.now s.outside

  -- The key function of the JWKS validators.
  unfoldable pub rsa_key : ℕ → Unverified → Store X → Result NoKey Key × Store X
  rsa_key ref t s = elim t.method [
    | rsa ↦
        (let got = get_key d.server (kid_of t) (s.validators ref) s.outside in
          (
            key_result got.0,
            record { validators = replaced ref got.1 s.validators; outside = got.2 },
          ))
    | hmac ↦ (err unexpected_method, s)
    | Method.other ↦ (err unexpected_method, s)
  ]

  abbrev Validation : Type 0
  Validation = Store X → Result (ParseError NoKey) Object × Store X

  -- `jwksValidator.validate`
  unfoldable pub validate_jwks : ℕ → String → String → Validation
  unfolding rsa_key
  validate_jwks ref token audience s =
      parse d.parser clock
        (append_if (not (audience == "")) (with_audience audience)
          (with_valid_methods ("RS256" ∷ []) ∷ with_expiration_required ∷ []))
        token (rsa_key ref) s

  -- `validateHS256`
  unfoldable pub validate_hs256 : String → String → String → Validation
  unfolding hs256_key
  validate_hs256 token key audience s =
      parse d.parser clock
        (append_if (not (audience == "")) (with_audience audience)
          (with_valid_methods ("HS256" ∷ []) ∷ with_expiration_required ∷ []))
        token (hs256_key key) s

  -- `validateWith`
  unfoldable pub validate_with : ℕ → String → List String → ℕ → Validation
  unfolding rsa_key
  validate_with ref token methods skew s =
      parse d.parser clock (with_skew methods skew) token (rsa_key ref) s

  -- `validateHS256V2`
  unfoldable pub validate_hs256_v2 : String → String → ℕ → Validation
  unfolding hs256_key
  validate_hs256_v2 token key skew s =
      parse d.parser clock (with_skew ("HS256" ∷ []) skew) token (hs256_key key) s

  -- `validate`
  unfoldable pub validate : Settings → String → Validation
  unfolding validate_jwks validate_hs256
  validate c token s =
      if c.test_mode
      then validate_hs256 token c.hs256_key c.audience s
      else validate_jwks c.jwks_val token c.audience s
