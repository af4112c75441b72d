-- ===== src/Jwks/Interleaving/Genuine.antt =====
-- What the calls of getKey serve, however they interleave.
use yaagents_gateway.Prelude.{
  String, List, [], ◌∷◌, ◌++◌, some, ◌≡◌, refl, sym, ◌∙◌, ◌≢◌, All, All-Memᴰ, Bool-cases,
  Option-cases, inl, inr,
}
use yaagents_gateway.Prelude.Maps.{lookup}
use yaagents_gateway.Prelude.Result.{Result, ok, err}
use mathlib.Core.List.{Memᴰ}
use yaagents_gateway.Prelude.Int.{ℤ}
use yaagents_gateway.Jwks.{new_jwks, Jwks, KeyServer, KeyError, PublicKey, is_expired}
use yaagents_gateway.Jwks.Genuine.{
  IsServed, IsGenuine, published-IsServed, stale_key-ok, key_or_none-ok,
}
use yaagents_gateway.Jwks.Interleaving.{
  Phase, Caller, Shared, entered, fetching, rereading, fetched, served, advance, Step, Reach, call,
  go, drift, here, next,
}

All-at :
    {A : Type 0} (P : A → Type 0) (before : List A) (a : A) (after : List A)
    → All P (before ++ a ∷ after)
    → P a
All-at P [] a after h = h.0
All-at P (b ∷ before) a after h = All-at P before a after h.1

All-replaced :
    {A : Type 0} (P : A → Type 0) (before : List A) (a b : A) (after : List A)
    → P b
    → All P (before ++ a ∷ after)
    → All P (before ++ b ∷ after)
All-replaced P [] a b after fine h = (fine, h.1)
All-replaced P (c ∷ before) a b after fine h = (h.0, All-replaced P before a b after fine h.1)

module _ {X : Type 0} (d : KeyServer X) where
  -- The keys that a call has are keys that the endpoint served.
  abbrev pub IsFine : String → Caller → Type 0
  IsFine url c =
      ((keys : List (String × PublicKey)) (kid : String) (key : PublicKey)
        → c.phase ≡ fetched (ok keys)
        → lookup kid keys ≡ some key
        → IsServed d url kid key)
      × ((key : PublicKey) → c.phase ≡ served (ok key) → IsServed d url c.kid key)

  abbrev IsKept : Jwks → String → Phase × Jwks × X → Type 0
  IsKept v kid (p, v', x) =
      (v'.url ≡ v.url) × IsGenuine d v' × IsFine v'.url (record { kid = kid; phase = p })

  -- A call without keys and without an answer.
  has_none :
      (url : String) (c : Caller) (p : Phase)
      → c.phase ≡ p
      → ((keys : List (String × PublicKey)) → p ≢ fetched (ok keys))
      → ((key : PublicKey) → p ≢ served (ok key))
      → IsFine url c
  has_none url c p at no_keys no_answer = (
    λ keys kid key is found. absurd (no_keys keys (sym at ∙ is)),
    λ key is. absurd (no_answer key (sym at ∙ is)),
  )

  has_answer :
      (url : String) (kid : String) (answer : Result KeyError PublicKey)
      → ((key : PublicKey) → answer ≡ ok key → IsServed d url kid key)
      → IsFine url (record { kid = kid; phase = served answer })
  has_answer url kid answer genuine =
      (λ keys k key is found. absurd (cc is), λ key is. genuine key (cc is))

  advance-IsKept :
      (kid : String) (p : Phase) (v : Jwks) (x : X)
      → IsGenuine d v
      → IsFine v.url (record { kid = kid; phase = p })
      → IsKept v kid (advance d kid p v x)
  unfolding advance
  advance-IsKept kid entered v x h fine = elim (Option-cases (lookup kid v.keys)) [
    | inl absent ↦
        rw (absent, advance)
          (refl, h, has_none v.url _ fetching refl (λ keys. λ e. cc) (λ key. λ e. cc))
    | inr (key, there) ↦ elim (Bool-cases (is_expired d v x)) [
      | inl old ↦
          rw (there, old, advance)
            (refl, h, has_none v.url _ fetching refl (λ keys. λ e. cc) (λ key. λ e. cc))
      | inr new ↦
          rw (there, new, advance)
            (refl, h, has_answer v.url kid (ok key) (λ other is. h kid other (there ∙ cc is)))
    ]
  ]
  advance-IsKept kid fetching v x h fine = (
    refl,
    h,
    (
      λ keys k key is found. published-IsServed d v.url x keys k key (cc is) found,
      λ key is. absurd (cc is),
    ),
  )
  advance-IsKept kid (fetched (err e)) v x h fine =
      (refl, h, has_answer v.url kid _ (λ key is. h kid key (stale_key-ok kid v.keys key is)))
  advance-IsKept kid (fetched (ok keys)) v x h fine = (
    refl,
    λ k key found. fine.0 keys k key refl found,
    has_none v.url _ rereading refl (λ keys. λ e. cc) (λ key. λ e. cc),
  )
  advance-IsKept kid rereading v x h fine = (
    refl,
    h,
    has_answer v.url kid _ (λ key is. h kid key (key_or_none-ok (lookup kid v.keys) key is)),
  )
  advance-IsKept kid (served answer) v x h fine = (refl, h, fine)

  -- The keys of the store, and those of every call, were served by the endpoint.
  abbrev pub IsTrue : Shared X → Type 0
  IsTrue s = IsGenuine d s.store × All (IsFine s.store.url) s.callers

  Step-IsTrue : {s u : Shared X} → Step d s u → IsTrue s → IsTrue u × (u.store.url ≡ s.store.url)
  Step-IsTrue {s} (call kid) (h, fine) =
      ((h, (has_none s.store.url _ entered refl (λ keys. λ e. cc) (λ key. λ e. cc), fine)), refl)
  Step-IsTrue {s} (go before c after among) (h, fine) =
      let all : All (IsFine s.store.url) (before ++ c ∷ after) = rw among at fine in
      let (same, genuine, moved) =
        advance-IsKept c.kid c.phase s.store s.outside h
          (All-at (IsFine s.store.url) before c after all) in
      (
        (
          genuine,
          rw same (All-replaced (IsFine s.store.url) before c _ after (rw same at moved) all),
        ),
        same,
      )
  Step-IsTrue (drift x) (h, fine) = ((h, fine), refl)

  Reach-IsTrue : {s u : Shared X} → Reach d s u → IsTrue s → IsTrue u × (u.store.url ≡ s.store.url)
  Reach-IsTrue here h = (h, refl)
  Reach-IsTrue (next reach step) h =
      let (mid, same) = Reach-IsTrue reach h in
      let (late, alike) = Step-IsTrue step mid in (late, alike ∙ same)

  -- However the calls of getKey interleave on a new store, with the endpoint and the clock going their
  -- own way, every key that a call serves is an RSA key that the endpoint served under the call's key
  -- id.
  pub served-IsServed :
      (url : String) (ttl : ℤ) (x : X) (s : Shared X) (c : Caller) (key : PublicKey)
      → Reach d (record { store = new_jwks url ttl; outside = x; callers = [] }) s
      → Memᴰ c s.callers
      → c.phase ≡ served (ok key)
      → IsServed d url c.kid key
  unfolding lookup
  served-IsServed url ttl x s c key reach among done =
      let ((genuine, fine), same) = Reach-IsTrue reach ((λ kid k found. absurd (cc found)), tt) in
      rw same at ((All-Memᴰ (IsFine s.store.url) s.callers fine among).1 key done)
