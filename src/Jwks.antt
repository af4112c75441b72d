-- ===== src/Jwks.antt =====
-- internal/plugins/tokenvalidator/jwks.go: the public keys of an issuer, fetched from its JWKS
-- endpoint and kept for a time. `get_key` is one call that no other disturbs; the counter of fetches
-- does not reach the bounds of int64.
pub mod Laws
pub mod Genuine
pub mod Interleaving
use Prim.Native.Nat.{ℕ, ◌+◌, ◌*◌}
use yaagents_gateway.Prelude.{
  String, Bool, true, false, List, [], ◌∷◌, Option, none, some, ltb, if◌then◌else◌, ◌==◌,
}
use yaagents_gateway.Prelude.Int.{ℤ, moved}
use yaagents_gateway.Prelude.Maps.{lookup, insert}
use yaagents_gateway.Prelude.Result.{Result, ok, err, ◌>>=◌, ◌>>◌, fail_if}

-- One element of the `keys` of a JWKS document.
pub record Jwk : Type 0 where
  pub kty : String
  pub kid : String
  pub n : String
  pub e : String

-- `rsa.PublicKey`
pub record PublicKey : Type 0 where
  pub modulus : ℕ
  pub exponent : ℕ

-- The fields of a `jwksValidator`; `fetch_at` is none for the zero time. Times and `ttl` are in
-- nanoseconds.
pub record Jwks : Type 0 where
  pub url : String
  pub ttl : ℤ
  pub keys : List (String × PublicKey)
  pub fetch_at : Option ℕ
  pub fetch_count : ℕ

-- `newJWKSValidator`
abbrev pub new_jwks : String → ℤ → Jwks
new_jwks url ttl = record { url = url; ttl = ttl; keys = []; fetch_at = none; fetch_count = 0 }

-- The clock, a GET with what can be read of the answer's body (none if it fails), encoding/json and
-- encoding/base64, which gives bytes.
pub record KeyServer (X : Type 0) : Type 0 where
  pub now : X → ℕ
  pub get : String → X → Option String × X
  pub decode : String → Option (List Jwk)
  pub decode_base64 : String → Option (List ℕ)

pub data RefreshError : Type 0 where
  fetch_failed decode_failed : RefreshError
  bad_key : String → RefreshError

-- `KeyError`: errJWKSUnavailable, or another error.
pub data KeyError : Type 0 where
  unavailable not_in_stale_set no_such_key : KeyError

-- `big.Int.SetBytes`, from the number read so far.
unfoldable pub set_bytes : ℕ → List ℕ → ℕ
set_bytes n [] = n
set_bytes n (b ∷ bs) = set_bytes (n * 256 + b) bs

abbrev pub bytes_or {ℓ} : {E : Type ℓ} → E → Option (List ℕ) → Result E (List ℕ)
bytes_or e none = err e
bytes_or e (some bs) = ok bs

-- `IsInt64`, of a number that is not negative.
abbrev pub is_int64 : ℕ → Bool
is_int64 n = ltb n 9223372036854775808

module _ (decode_base64 : String → Option (List ℕ)) where
  -- `rsaFromJWK`, with the error that refresh makes of any of its errors.
  unfoldable pub rsa_from_jwk : Jwk → Result RefreshError PublicKey
  unfolding set_bytes
  rsa_from_jwk k = do
    n_bytes ← bytes_or (bad_key k.kid) (decode_base64 k.n)
    e_bytes ← bytes_or (bad_key k.kid) (decode_base64 k.e)
    fail_if (if is_int64 (set_bytes 0 e_bytes) then false else true) (bad_key k.kid)
    ok (record { modulus = set_bytes 0 n_bytes; exponent = set_bytes 0 e_bytes })

  -- The loop of refresh over the document, with the keys so far.
  unfoldable pub load_keys :
      List Jwk → List (String × PublicKey) → Result RefreshError (List (String × PublicKey))
  load_keys [] keys = ok keys
  load_keys (k ∷ ks) keys = elim (k.kty == "RSA") [
    | false ↦ load_keys ks keys
    | true ↦ elim (rsa_from_jwk k) [ err e ↦ err e | ok key ↦ load_keys ks (insert k.kid key keys) ]
  ]

-- What getKey gives when the refresh failed.
unfoldable pub stale_key : String → List (String × PublicKey) → Result KeyError PublicKey
stale_key kid keys = elim (lookup kid keys) [
  | some key ↦ ok key
  | none ↦ elim keys [ [] ↦ err unavailable | k ∷ ks ↦ err not_in_stale_set ]
]

-- What getKey gives after a refresh.
abbrev pub key_or_none : Option PublicKey → Result KeyError PublicKey
key_or_none none = err no_such_key
key_or_none (some key) = ok key

-- What getKey makes of the refresh's error, the store and the outside behind it.
unfoldable pub after_refresh :
    {X : Type 0}
    → String
    → Result RefreshError (Unit {0}) × Jwks × X
    → Result KeyError PublicKey × Jwks × X
unfolding stale_key
after_refresh kid (err e, v, x) = (stale_key kid v.keys, v, x)
after_refresh kid (ok _, v, x) = (key_or_none (lookup kid v.keys), v, x)

module _ {X : Type 0} (d : KeyServer X) where
  -- The keys in the answer to a GET.
  unfoldable pub published : Option String → Result RefreshError (List (String × PublicKey))
  published none = err fetch_failed
  published (some body) = elim (d.decode body) [
    | none ↦ err decode_failed
    | some ks ↦ load_keys d.decode_base64 ks []
  ]

  -- `refresh`: its error, and the store and the outside behind it.
  unfoldable pub refresh : Jwks → X → Result RefreshError (Unit {0}) × Jwks × X
  refresh v x =
      let counted : Jwks = record v { fetch_count = v.fetch_count + 1 } in
      let (answer, x') = d.get v.url x in
      elim (published answer) [
        | err e ↦ (err e, counted, x')
        | ok keys ↦ (ok tt, record counted { keys = keys; fetch_at = some (d.now x') }, x')
      ]

  -- `v.fetchAt.IsZero() || time.Now().After(v.fetchAt.Add(v.ttl))`
  abbrev pub is_expired : Jwks → X → Bool
  is_expired v x = elim v.fetch_at [ none ↦ true | some t ↦ ltb (moved t v.ttl) (d.now x) ]

  -- `getKey` behind the fast path.
  unfoldable pub get_key_slow : String → Jwks → X → Result KeyError PublicKey × Jwks × X
  unfolding refresh after_refresh
  get_key_slow kid v x = after_refresh kid (refresh v x)

  -- `getKey`
  unfoldable pub get_key : String → Jwks → X → Result KeyError PublicKey × Jwks × X
  unfolding get_key_slow
  get_key kid v x = elim (lookup kid v.keys) [
    | none ↦ get_key_slow kid v x
    | some key ↦ if is_expired v x then get_key_slow kid v x else (ok key, v, x)
  ]
