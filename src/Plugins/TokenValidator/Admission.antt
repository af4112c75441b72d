-- ===== src/Plugins/TokenValidator/Admission.antt =====
-- Which tokens handleV2 goes on to parse.
use Prim.Native.Nat.{ℕ, ◌<◌, ◌≤◌}
use yaagents_gateway.Prelude.{
  String, false, some, ◌≡◌, ◌≢◌, refl, ap, ◌↔◌, inl, inr, arith, Contains, contains, contains_iff,
  Bool-cases, Option-cases, String-cases, ◌&&◌, ltb,
}
use yaagents_gateway.Prelude.Int.{ℤ, pos, negsuc, to_ℕ, exceeds}
use yaagents_gateway.Prelude.Text.{byte_size}
use yaagents_gateway.Prelude.Result.{ok, Result-cases}
use yaagents_gateway.Http.Request.{Request}
use yaagents_gateway.Plugins.TokenValidator.Config.{Settings}
use yaagents_gateway.Plugins.TokenValidator.Validators.{Provider, peek_algorithm}
use yaagents_gateway.Plugins.TokenValidator.Verify.{extract_token_v2, check_algorithm, pre_check}

size_iff :
    (max : ℤ) (size : ℕ)
    → ((exceeds max 0 && ltb (to_ℕ max) size) ≡ false) ↔ (0 < to_ℕ max → size ≤ to_ℕ max)
size_iff (pos n) size = ground arith
size_iff (negsuc n) size = (λ h k. omega arith, λ h. refl)

module _ {X : Type 0} (d : Provider X) (c : Settings) where
  -- A token that handleV2 goes on to parse: it is not larger than the cap, if there is one, and outside
  -- the test mode its header names an algorithm of the allowlist.
  abbrev pub IsAdmissible : String → Type 0
  IsAdmissible token =
      ((0 < to_ℕ c.max_token_bytes) → byte_size token ≤ to_ℕ c.max_token_bytes)
      × (c.test_mode ≡ false
          → (peek_algorithm d token ≢ "") × Contains c.algorithms (peek_algorithm d token))

  check_algorithm_iff :
      (token : String)
      → (check_algorithm d c token ≡ ok tt) ↔ (
          c.test_mode ≡ false
          → (peek_algorithm d token ≢ "") × Contains c.algorithms (peek_algorithm d token))
  unfolding check_algorithm
  check_algorithm_iff token =
      let (out, into) = contains_iff c.algorithms (peek_algorithm d token) in
      elim (Bool-cases c.test_mode) [
        | inl on ↦ rw (on, check_algorithm) (λ h off. cc, λ h. refl)
        | inr off ↦
            rw (off, check_algorithm)
              (elim (String-cases (peek_algorithm d token) "") [
                | inl (empty, test) ↦ rw test (λ h. cc, λ h. absurd ((h refl).0 empty))
                | inr (ne, test) ↦
                    rw test (elim (Bool-cases (contains c.algorithms (peek_algorithm d token))) [
                      | inl there ↦ rw there (λ h e. (ne, out there), λ h. refl)
                      | inr gone ↦ rw gone (λ h. cc, λ h. absurd (cc (into (h refl).1)))
                    ])
              ])
      ]

  pre_check-some :
      (r : Request) (given token : String)
      → extract_token_v2 c r ≡ some given
      → (pre_check d c r ≡ ok token) ↔ ((given ≡ token) × IsAdmissible given)
  unfolding pre_check
  pre_check-some r given token found =
      let (small, fits) = size_iff c.max_token_bytes (byte_size given) in
      let (checked, passes) = check_algorithm_iff given in
      elim (Bool-cases
        (exceeds c.max_token_bytes 0 && ltb (to_ℕ c.max_token_bytes) (byte_size given))) [
          | inl large ↦ (
            λ h. (let stopped = rw (found, large, pre_check) at h in absurd (cc stopped)),
            λ h. absurd (cc (fits h.1.0)),
          )
          | inr ok_size ↦ elim (Result-cases (check_algorithm d c given)) [
            | inr (e, bad) ↦ (
              λ h. (let stopped = rw (found, ok_size, bad, pre_check) at h in absurd (cc stopped)),
              λ h. absurd (cc (passes h.1.1)),
            )
            | inl (u, good) ↦ (
              λ h.
                  (let same = rw (found, ok_size, good, pre_check) at h in
                    (cc same, (small ok_size, checked good))),
              λ h. rw (found, ok_size, good, pre_check) (ap ok h.0),
            )
          ]
        ]

  pub pre_check_iff :
      (r : Request) (token : String)
      → (pre_check d c r ≡ ok token) ↔ ((extract_token_v2 c r ≡ some token) × IsAdmissible token)
  unfolding pre_check
  pre_check_iff r token = elim (Option-cases (extract_token_v2 c r)) [
    | inl lacks ↦ (
      λ h. (let stopped = rw (lacks, pre_check) at h in absurd (cc stopped)),
      λ h. absurd (cc h.0),
    )
    | inr (given, found) ↦
        (let (down, up) = pre_check-some r given token found in
          (
            λ h. (let (same, fine) = down h in rw (← same) (found, fine)),
            λ h. (let same : given ≡ token = cc (found, h.0) in up (same, rw same h.1)),
          ))
  ]
