-- ===== src/Jwks/Genuine.antt =====
-- Where the keys that the key store serves come from.
use Prim.Native.Nat.{ℕ}
use mathlib.Core.List.{Memᴰ}
use yaagents_gateway.Prelude.{
  String, List, [], ◌∷◌, Option, none, some, ◌≡◌, refl, sym, ◌∙◌, ◌⊎◌, inl, inr, Bool-cases,
  Option-cases, String-cases, ◌==◌, eq_iff,
}
use yaagents_gateway.Prelude.Maps.{lookup, insert, lookup-insert}
use yaagents_gateway.Prelude.Result.{ok, Result-cases}
use yaagents_gateway.Jwks.{
  Jwk, Jwks, KeyServer, PublicKey, rsa_from_jwk, load_keys, published, stale_key, key_or_none,
  get_key,
}
use yaagents_gateway.Jwks.Laws.{needs_fetch, get_key-fast, get_key_failed, get_key_done}

-- An RSA key of the document goes under the id.
abbrev pub IsListed : (String → Option (List ℕ)) → List Jwk → String → PublicKey → Type 0
IsListed decode_base64 ks kid key =
    (k : Jwk) × Memᴰ k ks
    × (k.kty ≡ "RSA")
    × (k.kid ≡ kid)
    × (rsa_from_jwk decode_base64 k ≡ ok key)

IsListed-tail :
    (decode_base64 : String → Option (List ℕ)) (k : Jwk) (ks : List Jwk) (kid : String)
    (key : PublicKey)
    → IsListed decode_base64 ks kid key
    → IsListed decode_base64 (k ∷ ks) kid key
IsListed-tail decode_base64 k ks kid key (j, m, rsa, named, made) =
    (j, Memᴰ.tail m, rsa, named, made)

load_keys-IsListed :
    (decode_base64 : String → Option (List ℕ)) (ks : List Jwk)
    (keys out : List (String × PublicKey)) (kid : String) (key : PublicKey)
    → load_keys decode_base64 ks keys ≡ ok out
    → lookup kid out ≡ some key
    → (lookup kid keys ≡ some key) ⊎ IsListed decode_base64 ks kid key
unfolding load_keys
load_keys-IsListed decode_base64 [] keys out kid key loaded found = inl cc
load_keys-IsListed decode_base64 (k ∷ ks) keys out kid key loaded found =
    elim (Bool-cases (k.kty == "RSA")) [
      | inr skipped ↦
          (let rest = rw (skipped, load_keys) at loaded in
            elim (load_keys-IsListed decode_base64 ks keys out kid key rest found) [
              | inl old ↦ inl old
              | inr listed ↦ inr (IsListed-tail decode_base64 k ks kid key listed)
            ])
      | inl rsa ↦ elim (Result-cases (rsa_from_jwk decode_base64 k)) [
        | inr (e, bad) ↦ (let stopped = rw (rsa, bad, load_keys) at loaded in absurd (cc stopped))
        | inl (made, good) ↦
            (let rest = rw (rsa, good, load_keys) at loaded in
              elim (load_keys-IsListed decode_base64 ks (insert k.kid made keys) out kid key rest
                found) [
                  | inr listed ↦ inr (IsListed-tail decode_base64 k ks kid key listed)
                  | inl written ↦
                      (let here = sym (lookup-insert k.kid kid made keys) ∙ written in
                        elim (String-cases k.kid kid) [
                          | inr (differs, test) ↦ inl (rw test at here)
                          | inl (same, test) ↦
                              (let value = rw test at here in
                                inr (
                                  k,
                                  Memᴰ.head refl,
                                  (eq_iff k.kty "RSA").0 rsa,
                                  same,
                                  rw good (cc value),
                                ))
                        ])
                ])
      ]
    ]

pub stale_key-ok :
    (kid : String) (keys : List (String × PublicKey)) (key : PublicKey)
    → stale_key kid keys ≡ ok key
    → lookup kid keys ≡ some key
unfolding stale_key lookup
stale_key-ok kid [] key served = cc
stale_key-ok kid (k ∷ ks) key served = elim (Option-cases (lookup kid (k ∷ ks))) [
  | inl absent ↦ (let stopped = rw (absent, stale_key) at served in absurd (cc stopped))
  | inr (known, there) ↦ (let same = rw (there, stale_key) at served in there ∙ cc same)
]

pub key_or_none-ok :
    (found : Option PublicKey) (key : PublicKey) → key_or_none found ≡ ok key → found ≡ some key
key_or_none-ok none key served = cc
key_or_none-ok (some known) key served = cc

module _ {X : Type 0} (d : KeyServer X) where
  -- The endpoint at the address answered, in some state of the outside, with a document whose keys are
  -- all good and that has the RSA key under the id.
  abbrev pub IsServed : String → String → PublicKey → Type 0
  IsServed url kid key =
      (x : X) × (body : String) × (ks : List Jwk) × ((d.get url x).0 ≡ some body)
      × (d.decode body ≡ some ks)
      × IsListed d.decode_base64 ks kid key

  -- The keys of a store are keys that its endpoint served.
  abbrev pub IsGenuine : Jwks → Type 0
  IsGenuine v =
      (kid : String) (key : PublicKey) → lookup kid v.keys ≡ some key → IsServed v.url kid key

  pub published-IsServed :
      (url : String) (x : X) (keys : List (String × PublicKey)) (kid : String) (key : PublicKey)
      → published d (d.get url x).0 ≡ ok keys
      → lookup kid keys ≡ some key
      → IsServed url kid key
  unfolding published lookup
  published-IsServed url x keys kid key good found = elim (Option-cases (d.get url x).0) [
    | inl lost ↦ (let stopped = rw lost at good in absurd (cc stopped))
    | inr (body, answered) ↦
        (let read = rw answered at good in
          elim (Option-cases (d.decode body)) [
            | inl bad ↦ (let stopped = rw (bad, published) at read in absurd (cc stopped))
            | inr (ks, decoded) ↦
                (let loaded = rw (decoded, published) at read in
                  elim (load_keys-IsListed d.decode_base64 ks [] keys kid key loaded found) [
                    | inl old ↦ absurd (cc old)
                    | inr listed ↦ (x, body, ks, answered, decoded, listed)
                  ])
          ])
  ]

  -- A key that is served, from the cache, stale or just fetched, is an RSA key that stands under its
  -- id in a document of the store's endpoint, and the keys that the store then has are such keys again.
  get_key-IsGenuine :
      (kid : String) (v : Jwks) (x : X)
      → IsGenuine v
      → IsGenuine (get_key d kid v x).1
        × ((key : PublicKey) → (get_key d kid v x).0 ≡ ok key → IsServed v.url kid key)
  get_key-IsGenuine kid v x h = elim (Bool-cases (needs_fetch d kid v x)) [
    | inr fast ↦
        (let (key, there, same) = get_key-fast d kid v x fast in
          rw same (h, λ other served. h kid other (there ∙ cc served)))
    | inl slow ↦ elim (Result-cases (published d (d.get v.url x).0)) [
      | inr (e, bad) ↦
          rw (get_key_failed d kid v x e bad slow)
            (h, λ key served. h kid key (stale_key-ok kid v.keys key served))
      | inl (keys, good) ↦ rw (get_key_done d kid v x keys good slow) (
        λ other key found. published-IsServed v.url x keys other key good found,
        λ key served.
            published-IsServed v.url x keys kid key good
              (key_or_none-ok (lookup kid keys) key served),
      )
    ]
  ]
