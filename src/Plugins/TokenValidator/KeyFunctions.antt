-- ===== src/Plugins/TokenValidator/KeyFunctions.antt =====
-- Which key a token is verified under.
use Prim.Native.Nat.{ℕ}
use yaagents_gateway.Prelude.{String, ◌≡◌, refl, ap, sym, ◌↔◌, inl, inr}
use yaagents_gateway.Prelude.Result.{Result, ok, err}
use yaagents_gateway.Jwt.{rsa, hmac, Unverified, kid_of}
use yaagents_gateway.Jwt.Laws.{Method-cases}
use yaagents_gateway.Jwks.{PublicKey, KeyError, get_key}
use yaagents_gateway.Plugins.TokenValidator.Validators.{
  Provider, Store, Key, secret, public_key, key_result, clock, rsa_key, hs256_key,
}

-- The key function of the test mode: only a token with an HMAC method gets the secret.
pub hs256_key_iff :
    {X : Type 0} (key : String) (t : Unverified) (s : Store X) (k : Key)
    → ((hs256_key key t s).0 ≡ ok k) ↔ ((t.method ≡ hmac) × (k ≡ secret key))
unfolding hs256_key
hs256_key_iff key t s k = elim (Method-cases t.method) [
  | inl is_rsa ↦ rw (is_rsa, hs256_key) (λ h. cc h, λ h. cc (h.0))
  | inr (inl is_hmac) ↦ rw (is_hmac, hs256_key) (λ h. (refl, cc h), λ h. ap ok (sym h.1))
  | inr (inr is_other) ↦ rw (is_other, hs256_key) (λ h. cc h, λ h. cc (h.0))
]

pub hs256_key-store :
    {X : Type 0} (key : String) (t : Unverified) (s : Store X) → (hs256_key key t s).1 ≡ s
unfolding hs256_key
hs256_key-store key t s = elim (Method-cases t.method) [
  | inl is_rsa ↦ rw (is_rsa, hs256_key) refl
  | inr (inl is_hmac) ↦ rw (is_hmac, hs256_key) refl
  | inr (inr is_other) ↦ rw (is_other, hs256_key) refl
]

key_result_iff :
    (result : Result KeyError PublicKey) (k : Key)
    → (key_result result ≡ ok k) ↔ ((key : PublicKey) × (result ≡ ok key) × (k ≡ public_key key))
key_result_iff (ok found) k =
    (λ h. (found, refl, cc h), λ h. (let (key, e, same) = h in cc (e, same)))
key_result_iff (err e) k = (λ h. cc h, λ h. (let (key, f, same) = h in cc f))

module _ {X : Type 0} (d : Provider X) where
  -- The key function of the JWKS validators: only a token with an RSA method gets a key.
  pub rsa_key_iff :
      (ref : ℕ) (t : Unverified) (s : Store X) (k : Key)
      → ((rsa_key d ref t s).0 ≡ ok k) ↔ (
          (t.method ≡ rsa)
          × (key : PublicKey) × ((get_key d.server (kid_of t) (s.validators ref) s.outside).0
              ≡ ok key)
          × (k ≡ public_key key))
  unfolding rsa_key
  rsa_key_iff ref t s k =
      let (down, up) =
        key_result_iff (get_key d.server (kid_of t) (s.validators ref) s.outside).0 k in
      elim (Method-cases t.method) [
        | inl is_rsa ↦
            rw (is_rsa, rsa_key)
              (
                λ h. (let (key, found, same) = down h in (refl, key, found, same)),
                λ h. (let (is, key, found, same) = h in up (key, found, same)),
              )
        | inr (inl is_hmac) ↦ rw (is_hmac, rsa_key) (λ h. cc h, λ h. cc h.0)
        | inr (inr is_other) ↦ rw (is_other, rsa_key) (λ h. cc h, λ h. cc h.0)
      ]

  pub clock-rsa_key :
      (ref : ℕ) (t : Unverified) (s : Store X)
      → t.method ≡ rsa
      → clock d (rsa_key d ref t s).1
        ≡ d.server.now (get_key d.server (kid_of t) (s.validators ref) s.outside).2
  unfolding rsa_key
  clock-rsa_key ref t s is_rsa = rw (is_rsa, rsa_key) refl
