-- ===== src/Plugins/LicenseCheck/Laws.antt =====
-- Who passes the license check, how often the server is asked, and what is remembered.
use Prim.Native.Nat.{ℕ, zero, suc, ◌+◌, ◌≤◌, ◌<◌}
use yaagents_gateway.Prelude.{
  String, Bool, true, false, Option, none, some, ◌||◌, ◌≡◌, ap, ◌⊎◌, ◌↔◌, refl, ◌∙◌, inl, inr,
  arith, ltb, Bool-cases, Option-cases, ◌==◌,
}
use yaagents_gateway.Http.Header
use yaagents_gateway.Http.Writer.{Writer, status_of}
use yaagents_gateway.Http.Request.{Request, Handler}
use yaagents_gateway.Http.Laws.{write_error_lem}
use yaagents_gateway.Prelude.Int.{moved}
use yaagents_gateway.Lru.{CacheEntry, cache_get, cache_set}
use yaagents_gateway.Lru.Sound.{IsSound}
use yaagents_gateway.Lru.Laws.{cache_get-cache_set}
use yaagents_gateway.Plugins.{Part}
use yaagents_gateway.Plugins.LicenseCheck.{
  Settings, Server, Store, Outcome, cached, is_licensed, attempts, verify, keep_answer, decide,
  handler, license_request, is_2xx,
}

-- The server with a count of the requests that it got.
abbrev pub counted : {X : Type 0} → Server X → Server (X × ℕ)
counted d = record {
  now = λ p. d.now p.0;
  is_valid_url = d.is_valid_url;
  send = λ q p. ((d.send q p.0).0, ((d.send q p.0).1, p.1 + 1));
}

module _ {X : Type 0} (d : Server X) (c : Settings) where
  attempts-le :
      (n : ℕ) (token : String) (timeout : Option ℕ) (x : X) (k : ℕ)
      → (attempts (counted d) c n token timeout (x, k)).1.1 ≤ k + n
  unfolding attempts
  attempts-le zero token timeout x k = omega arith
  attempts-le (suc n) token timeout x k =
      let q = license_request d c token timeout in
      let more = attempts-le n token timeout (d.send q x).1 (k + 1) in
      elim (Option-cases (d.send q x).0) [
        | inl lost ↦ rw (lost, attempts) (omega (arith, more))
        | inr (code, answered) ↦ rw (answered, attempts) (omega arith)
      ]

  -- A verification asks the license server at most twice.
  verify-le :
      (token : String) (timeout : Option ℕ) (x : X) (k : ℕ)
      → (verify (counted d) c token timeout (x, k)).1.1 ≤ k + 2
  unfolding verify
  verify-le token timeout x k = elim (Bool-cases (d.is_valid_url c.license_url)) [
    | inl valid ↦ rw valid (attempts-le 2 token timeout x k)
    | inr bad ↦ rw bad (omega arith)
  ]

  -- What the server answered about a token, yes or no, holds up to the expiry of the cache entry:
  -- a later request with the token is decided the same way without asking the server. After a network
  -- failure nothing is remembered.
  decide-keep_answer :
      (token : String) (timeout : Option ℕ) (valid : Bool) (dependency : String) (s : Store X)
      (x : X)
      → IsSound s.cache
      → 0 < s.cache.max_size
      → d.now x ≤ moved (d.now s.outside) c.cache_ttl
      → ((valid || dependency == "") ≡ true
          → ((decide d c token timeout
                (record (keep_answer d c token (valid, dependency) s) { outside = x })).0
              ≡ cached valid)
            × ((decide d c token timeout
                  (record (keep_answer d c token (valid, dependency) s) { outside = x })).1.outside
                ≡ x))
        × ((valid || dependency == "") ≡ false → keep_answer d c token (valid, dependency) s ≡ s)
  unfolding decide keep_answer
  decide-keep_answer token timeout valid dependency s x h k live =
      let e : CacheEntry Bool = record {
        key = token;
        value = valid;
        expires_at = moved (d.now s.outside) c.cache_ttl;
      } in
      let early : ltb (moved (d.now s.outside) c.cache_ttl) (d.now x) ≡ false =
        ground (arith, live) in
      let hit : (cache_get token (d.now x) (cache_set e s.cache)).0 ≡ some valid =
        cache_get-cache_set e (d.now x) s.cache h k ∙ rw early refl in
      (λ answered. rw (answered, hit, decide) (refl, refl), λ failed. rw failed refl)

module _ {X : Type 0} (d : Server X) (c : Settings) (token : String) (timeout : Option ℕ) where
  -- The first answer of the server, to a request or to its only repetition.
  abbrev pub FirstAnswer : X → ℕ → Type 0
  FirstAnswer x status =
      ((d.send (license_request d c token timeout) x).0 ≡ some status)
      ⊎ (((d.send (license_request d c token timeout) x).0 ≡ none)
          × ((d.send (license_request d c token timeout)
                (d.send (license_request d c token timeout) x).1).0
              ≡ some status))

  -- The server can be asked, and its first answer has a status from 200 to 299.
  abbrev pub IsGranted : X → Type 0
  IsGranted x =
      (d.is_valid_url c.license_url ≡ true)
      × (status : ℕ) × FirstAnswer x status
      × (200 ≤ status)
      × (status < 300)

  -- The cache says yes, or it knows nothing and the server says yes.
  abbrev pub IsLicensed : Store X → Type 0
  IsLicensed s =
      ((cache_get token (d.now s.outside) s.cache).0 ≡ some true)
      ⊎ (((cache_get token (d.now s.outside) s.cache).0 ≡ none) × IsGranted s.outside)

  is_2xx_iff : (status : ℕ) → (is_2xx status ≡ true) ↔ ((200 ≤ status) × (status < 300))
  is_2xx_iff status = (λ h. (ground arith, ground arith), λ h. ground (arith, h.0, h.1))

  verify_iff : (x : X) → ((verify d c token timeout x).0.0 ≡ true) ↔ IsGranted x
  unfolding verify attempts
  verify_iff x =
      let q = license_request d c token timeout in
      elim (Bool-cases (d.is_valid_url c.license_url)) [
        | inr bad ↦ rw (bad, verify) (λ h. cc h, λ h. cc (h.0))
        | inl valid ↦ elim (Option-cases (d.send q x).0) [
          | inr (status, answered) ↦
              rw (valid, answered, verify, attempts)
                (
                  λ h.
                      (let (low, high) = (is_2xx_iff status).0 h in
                        (refl, status, inl refl, low, high)),
                  λ h.
                      (let (_, code, first, low, high) = h in
                        elim first [
                          | inl same ↦
                              (let is : status ≡ code = cc same in
                                (is_2xx_iff status).1 (rw is (low, high)))
                          | inr (lost, _) ↦ absurd (cc lost)
                        ]),
                )
          | inl lost ↦ elim (Option-cases (d.send q (d.send q x).1).0) [
            | inr (status, answered) ↦
                rw (valid, lost, answered, verify, attempts)
                  (
                    λ h.
                        (let (low, high) = (is_2xx_iff status).0 h in
                          (refl, status, inr (refl, refl), low, high)),
                    λ h.
                        (let (_, code, first, low, high) = h in
                          elim first [
                            | inl same ↦ absurd (cc same)
                            | inr (_, same) ↦
                                (let is : status ≡ code = cc same in
                                  (is_2xx_iff status).1 (rw is (low, high)))
                          ]),
                  )
            | inl gone ↦
                rw (valid, lost, gone, verify, attempts)
                  (
                    λ h. absurd (cc h),
                    λ h.
                        (let (_, code, first, low, high) = h in
                          elim first [
                            | inl same ↦ absurd (cc same)
                            | inr (_, same) ↦ absurd (cc same)
                          ]),
                  )
          ]
        ]
      ]

  decide_iff : (s : Store X) → (is_licensed (decide d c token timeout s).0 ≡ true) ↔ IsLicensed s
  unfolding decide
  decide_iff s = elim (Option-cases (cache_get token (d.now s.outside) s.cache).0) [
    | inl miss ↦
        rw (miss, decide)
          (
            λ h. inr (refl, (verify_iff s.outside).0 h),
            λ h. elim h [
              | inl hit ↦ absurd (cc hit)
              | inr (_, granted) ↦ (verify_iff s.outside).1 granted
            ],
          )
    | inr (valid, hit) ↦
        rw (hit, decide)
          (
            λ h. inl (ap some h),
            λ h. elim h [ inl known ↦ cc known | inr (none_known, _) ↦ absurd (cc none_known) ],
          )
  ]

module _ {W X : Type 0} (d : Server X) (c : Settings) (at : Part W (Store X)) where
  abbrev pub decided : Request → W → Outcome × Store X
  decided r s = decide d c (Header.get r.header c.header) r.context.timeout (at.part s)

  abbrev pub HasLicense : Request → W → Type 0
  HasLicense r s = IsLicensed d c (Header.get r.header c.header) r.context.timeout (at.part s)

  -- A request whose token is licensed, by what the cache knows or else by the status of the server's
  -- first answer to at most two requests, goes on unchanged. Any other is answered without the next
  -- handler, whatever that is, leaves the state as the check left it, and is answered 403 where nothing
  -- was sent yet.
  pub license_handler_lem :
      (next : Handler W) (r : Request) (w : Writer) (s : W)
      → (HasLicense r s → handler d c at next r w s ≡ next r w (at.with_part (decided r s).1 s))
        × (¬ HasLicense r s
            → ((other : Handler W) → handler d c at next r w s ≡ handler d c at other r w s)
              × ((handler d c at next r w s).1 ≡ at.with_part (decided r s).1 s)
              × (w.sent ≡ none → status_of (handler d c at next r w s).0 ≡ some 403))
  unfolding handler
  license_handler_lem next r w s =
      let (down, up) =
        decide_iff d c (Header.get r.header c.header) r.context.timeout (at.part s) in
      (
        λ licensed. rw (up licensed) refl,
        λ barred. elim (Bool-cases (is_licensed (decided r s).0)) [
          | inl good ↦ absurd (barred (down good))
          | inr bad ↦ rw bad (λ other. refl, refl, λ unsent. (write_error_lem 403 _ w unsent).0)
        ],
      )
