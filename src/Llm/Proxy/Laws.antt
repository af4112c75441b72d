-- ===== src/Llm/Proxy/Laws.antt =====
-- Which streams are admitted, and what the limiter and the gauge count once a stream is over.
use Prim.Native.Nat.{ℕ, ◌<◌, ◌≤◌}
use yaagents_gateway.Prelude.{
  String, Bool, true, false, Option, none, some, ◌≡◌, refl, ap, ◌∙◌, inl, inr, arith,
}
use mathlib.Core.Option
use yaagents_gateway.Prelude.Int.{pos}
use yaagents_gateway.Prelude.Result.{Result-cases}
use yaagents_gateway.Http.Context.{tenant_id}
use yaagents_gateway.Http.Writer.{Writer, write_error, status_of}
use yaagents_gateway.Http.Request.{Request, Handler}
use yaagents_gateway.Http.Laws.{write_error_lem}
use yaagents_gateway.World.{
  Url, Outside, World, TransportError, deadline_exceeded, canceled, unreachable,
}
use yaagents_gateway.Llm.Limiter.{Limiter, count, try_acquire, release}
use yaagents_gateway.Llm.Limiter.Laws.{try_acquire_lem, count-release-try_acquire}
use yaagents_gateway.Llm.SseMetrics.{SseMetrics, ActiveKey, ErrorKey, active_count, inc, dec, error}
use yaagents_gateway.Llm.SseMetrics.Laws.{counts_lem, same_active_iff}
use yaagents_gateway.Llm.Sse.{note_error, fail, sse_proxy, outbound}
use yaagents_gateway.Llm.Proxy.{slot, stream, llm_proxy, limit_exceeded}

-- What the gauge shows for a key; nothing where it is switched off.
abbrev pub gauge : Option SseMetrics → ActiveKey → ℕ
gauge none k = 0
gauge (some m) k = active_count m k

abbrev pub KeepsSlots : {X : Type 0} → Handler (World X) → Type 0
KeepsSlots {X} h =
    (r : Request) (w : Writer) (s : World X)
    → ((h r w s).1.limiter ≡ s.limiter)
      × ((k : ActiveKey) → gauge (h r w s).1.sse k ≡ gauge s.sse k)

gauge-error :
    (e : ErrorKey) (m : Option SseMetrics) (k : ActiveKey)
    → gauge (Option.map (error e) m) k ≡ gauge m k
gauge-error e none k = refl
gauge-error e (some m) k = (counts_lem k k e e m).5

abbrev no_error : ErrorKey
no_error = ("", "", "")

gauge-dec-inc :
    (j : ActiveKey) (m n : Option SseMetrics) (k : ActiveKey)
    → ((i : ActiveKey) → gauge n i ≡ gauge (Option.map (inc j) m) i)
    → gauge (Option.map (dec j) n) k ≡ gauge m k
gauge-dec-inc j none none k h = refl
gauge-dec-inc j none (some n) k h =
    ground (arith, h k, h j, counts_lem j k no_error no_error n, same_active_iff j k)
gauge-dec-inc j (some m) none k h =
    ground (arith, h k, counts_lem j k no_error no_error m, same_active_iff j k)
gauge-dec-inc j (some m) (some n) k h = ground (
  arith,
  h k,
  h j,
  counts_lem j k no_error no_error m,
  counts_lem j j no_error no_error m,
  counts_lem j k no_error no_error n,
  same_active_iff j k,
  same_active_iff j j,
)

slot_eq :
    (t : String) {m : Option Limiter} {b : Bool} (l : Limiter)
    → m ≡ some l
    → (try_acquire t l).0 ≡ b
    → slot t m ≡ (b, some (try_acquire t l).1)
slot_eq t l on held = ap (slot t) on ∙ ap (λ c. (c, some (try_acquire t l).1)) held

slot_held :
    (t : String) {m : Option Limiter} (l : Limiter) (n : ℕ)
    → m ≡ some l
    → count l t ≡ pos n
    → n < l.max_per_tenant
    → slot t m ≡ (true, some (try_acquire t l).1)
slot_held t l n on h below = slot_eq t l on (ground (arith, try_acquire_lem t t l n h))

slot_full :
    (t : String) {m : Option Limiter} (l : Limiter) (n : ℕ)
    → m ≡ some l
    → count l t ≡ pos n
    → l.max_per_tenant ≤ n
    → slot t m ≡ (false, some (try_acquire t l).1)
slot_full t l n on h full = slot_eq t l on (ground (arith, try_acquire_lem t t l n h))

module _ {X : Type 0} where
  fail-KeepsSlots :
      (route : String) (e : TransportError) (r : Request) (w : Writer) (s : World X)
      → ((fail route e r w s).1.limiter ≡ s.limiter)
        × ((k : ActiveKey) → gauge (fail route e r w s).1.sse k ≡ gauge s.sse k)
  unfolding fail
  fail-KeepsSlots route deadline_exceeded r w s = (refl, gauge-error _ s.sse)
  fail-KeepsSlots route canceled r w s = (refl, gauge-error _ s.sse)
  fail-KeepsSlots route unreachable r w s = (refl, gauge-error _ s.sse)

  sse_proxy-KeepsSlots :
      (o : Outside X) (target : Url) (route : String) → KeepsSlots (sse_proxy o target route)
  unfolding sse_proxy
  sse_proxy-KeepsSlots o target route r w s =
      elim (Result-cases (o.round_trip (outbound target r) s.outside).0) [
        | inl (resp, e) ↦ rw (e, sse_proxy) (refl, λ k. refl)
        | inr (x, e) ↦ rw (e, sse_proxy) (fail-KeepsSlots route x r w _)
      ]

  llm_proxy-held :
      (raw_sse : Handler (World X)) (route : String) (r : Request) (w : Writer) (s : World X)
      {l : Option Limiter}
      → slot (tenant_id r.context) s.limiter ≡ (true, l)
      → llm_proxy raw_sse route r w s ≡ stream raw_sse route r w (record s { limiter = l })
  unfolding llm_proxy
  llm_proxy-held raw_sse route r w s e = rw (ap (λ p. p.0) e, ap (λ p. p.1) e, llm_proxy) refl

  llm_proxy-full :
      (raw_sse : Handler (World X)) (route : String) (r : Request) (w : Writer) (s : World X)
      {l : Option Limiter}
      → slot (tenant_id r.context) s.limiter ≡ (false, l)
      → llm_proxy raw_sse route r w s ≡ (
        write_error 429 (limit_exceeded r) w,
        note_error (tenant_id r.context) route "limit_exceeded" (record s { limiter = l }),
      )
  unfolding llm_proxy
  llm_proxy-full raw_sse route r w s e = rw (ap (λ p. p.0) e, ap (λ p. p.1) e, llm_proxy) refl

  -- A tenant below its limit gets a stream; a tenant at its limit is answered 429 where nothing was
  -- sent yet, and neither any count of open streams nor the outside is touched.
  pub llm_proxy_lem :
      (raw_sse : Handler (World X)) (route : String) (r : Request) (w : Writer) (s : World X)
      (l : Limiter) (n : ℕ)
      → s.limiter ≡ some l
      → count l (tenant_id r.context) ≡ pos n
      → w.sent ≡ none
      → (n < l.max_per_tenant
          → llm_proxy raw_sse route r w s
            ≡ stream raw_sse route r w
                (record s { limiter = some (try_acquire (tenant_id r.context) l).1 }))
        × (l.max_per_tenant ≤ n
            → (status_of (llm_proxy raw_sse route r w s).0 ≡ some 429)
              × ((llm_proxy raw_sse route r w s).1.outside ≡ s.outside)
              × ((k : ActiveKey) → gauge (llm_proxy raw_sse route r w s).1.sse k ≡ gauge s.sse k)
              × ((l' : Limiter) × ((llm_proxy raw_sse route r w s).1.limiter ≡ some l')
                  × ((u : String) → count l' u ≡ count l u)))
  llm_proxy_lem raw_sse route r w s l n on h unsent =
      let t = tenant_id r.context in
      (
        λ below. llm_proxy-held raw_sse route r w s (slot_held t l n on h below),
        λ full. rw (llm_proxy-full raw_sse route r w s (slot_full t l n on h full)) (
          (write_error_lem 429 _ w unsent).0,
          refl,
          gauge-error _ s.sse,
          ((try_acquire t l).1, refl, λ u. ground (arith, try_acquire_lem t u l n h)),
        ),
      )

  -- Once an admitted stream is over, in whatever way the round trip and the pipe ended, every
  -- tenant's count of open streams and every gauge reads as before the request.
  pub stream-restores :
      (o : Outside X) (target : Url) (route : String) (r : Request) (w : Writer) (s : World X)
      (l : Limiter) (n : ℕ)
      → s.limiter ≡ some l
      → count l (tenant_id r.context) ≡ pos n
      → n < l.max_per_tenant
      → (l' : Limiter) × ((llm_proxy (sse_proxy o target route) route r w s).1.limiter ≡ some l')
        × ((u : String) → count l' u ≡ count l u)
        × ((k : ActiveKey)
            → gauge (llm_proxy (sse_proxy o target route) route r w s).1.sse k ≡ gauge s.sse k)
  unfolding stream
  stream-restores o target route r w s l n on h below =
      let t = tenant_id r.context in
      let l₁ = (try_acquire t l).1 in
      let s₁ = record s { limiter = some l₁; sse = Option.map (inc (t, route)) s.sse } in
      let kept = sse_proxy-KeepsSlots o target route r w s₁ in
      let run =
        llm_proxy-held (sse_proxy o target route) route r w s (slot_held t l n on h below) in
      (
        release t l₁,
        ap (λ p. p.1.limiter) run ∙ ap (Option.map (release t)) kept.0,
        λ u. count-release-try_acquire t u l n h below,
        λ k. ap (λ p. gauge p.1.sse k) run ∙ gauge-dec-inc (t, route) s.sse _ k kept.1,
      )
