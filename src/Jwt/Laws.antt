-- ===== src/Jwt/Laws.antt =====
-- When a token is accepted: the shape of every use of jwt.Parse.
use Prim.Native.Nat.{ℕ}
use yaagents_gateway.Prelude.{
  String, List, some, ◌≡◌, refl, ◌∙◌, ◌↔◌, ◌⊎◌, inl, inr, Option-cases, none,
}
use yaagents_gateway.Prelude.Result.{Result, ok, Result-cases, err}
use yaagents_gateway.Value.{Object}
use yaagents_gateway.Jwt.{
  Parser, ParserOption, Unverified, Method, rsa, hmac, parse, ParseError, malformed, no_key,
  refused,
}

pub Method-cases : (m : Method) → (m ≡ rsa) ⊎ (m ≡ hmac) ⊎ (m ≡ Method.other)
Method-cases rsa = inl refl
Method-cases hmac = inr (inl refl)
Method-cases Method.other = inr (inr refl)

module _ {K E S : Type 0} (p : Parser K) (now : S → ℕ) (opts : List ParserOption) (token : String)
    (key_func : Unverified → S → Result E K × S) where
  -- The key function gets the token, gives a key, and the token verifies under that key.
  abbrev pub IsAccepted : S → Object → Type 0
  IsAccepted s mc =
      (t : Unverified) × (k : K) × (p.unverified opts token ≡ some t)
      × ((key_func t s).0 ≡ ok k)
      × (p.verified opts (now (key_func t s).1) token k ≡ ok mc)

  parse-IsAccepted :
      (s : S) (mc : Object) → (parse p now opts token key_func s).0 ≡ ok mc → IsAccepted s mc
  unfolding parse
  parse-IsAccepted s mc h = elim (Option-cases (p.unverified opts token)) [
    | inl bad ↦ (let stopped = rw (bad, parse) at h in absurd (cc stopped))
    | inr (t, read) ↦ elim (Result-cases (key_func t s).0) [
      | inr (e, failed) ↦ (let stopped = rw (read, failed, parse) at h in absurd (cc stopped))
      | inl (k, given) ↦ elim (Result-cases (p.verified opts (now (key_func t s).1) token k)) [
        | inr (e, bad) ↦ (let stopped = rw (read, given, bad, parse) at h in absurd (cc stopped))
        | inl (claims, good) ↦
            (let same = rw (read, given, good, parse) at h in (t, k, read, given, good ∙ cc same))
      ]
    ]
  ]

  pub parse_iff :
      (s : S) (mc : Object) → ((parse p now opts token key_func s).0 ≡ ok mc) ↔ IsAccepted s mc
  unfolding parse
  parse_iff s mc = (
    parse-IsAccepted s mc,
    λ h. (let (t, k, read, given, good) = h in rw (read, given, good, parse) refl),
  )

  -- Why a token is refused: before the key function, by it, or under its key.
  abbrev pub WhyRefused : S → ParseError E → Type 0
  WhyRefused s malformed = p.unverified opts token ≡ none
  WhyRefused s (no_key e) =
      (t : Unverified) × (p.unverified opts token ≡ some t) × ((key_func t s).0 ≡ err e)
  WhyRefused s (refused why) =
      (t : Unverified) × (k : K) × (p.unverified opts token ≡ some t)
      × ((key_func t s).0 ≡ ok k)
      × (p.verified opts (now (key_func t s).1) token k ≡ err why)

  pub parse-WhyRefused :
      (s : S) (e : ParseError E) → (parse p now opts token key_func s).0 ≡ err e → WhyRefused s e
  unfolding parse
  parse-WhyRefused s e h = elim (Option-cases (p.unverified opts token)) [
    | inl bad ↦ (let is : malformed ≡ e = cc (rw (bad, parse) at h) in rw (← is) bad)
    | inr (t, read) ↦ elim (Result-cases (key_func t s).0) [
      | inr (e', failed) ↦
          (let stopped = rw (read, failed, parse) at h in
            let is : no_key e' ≡ e = cc stopped in rw (← is) (t, read, failed))
      | inl (k, given) ↦ elim (Result-cases (p.verified opts (now (key_func t s).1) token k)) [
        | inr (why, bad) ↦
            (let stopped = rw (read, given, bad, parse) at h in
              let is : refused why ≡ e = cc stopped in rw (← is) (t, k, read, given, bad))
        | inl (claims, good) ↦ (let fine = rw (read, given, good, parse) at h in absurd (cc fine))
      ]
    ]
  ]
