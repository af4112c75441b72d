-- ===== src/Proxy/Forward/Streamed.antt =====
-- What a request for a stream asks of the outside.
use yaagents_gateway.Prelude.{
  String, false, none, some, ◌≡◌, refl, ◌⊎◌, inl, inr, Bool-cases, Option-cases,
}
use yaagents_gateway.Prelude.Result.{Result-cases}
use yaagents_gateway.Http.Context.{tenant_id}
use yaagents_gateway.Http.Writer.{Writer, status_of}
use yaagents_gateway.Http.Request.{Request}
use yaagents_gateway.Http.Laws.{write_error_lem}
use yaagents_gateway.Llm.Limiter.{Limiter, try_acquire}
use yaagents_gateway.Llm.Sse.{sse_proxy, outbound, fail}
use yaagents_gateway.Llm.Proxy.{llm_proxy, slot, stream}
use yaagents_gateway.World.{
  Url, Outside, World, TransportError, deadline_exceeded, canceled, unreachable,
}

fail-outside :
    {X : Type 0} (route : String) (e : TransportError) (r : Request) (w : Writer) (s : World X)
    → (fail route e r w s).1.outside ≡ s.outside
unfolding fail
fail-outside route deadline_exceeded r w s = refl
fail-outside route canceled r w s = refl
fail-outside route unreachable r w s = refl

-- The limiter has no slot left for the tenant of the request.
abbrev pub IsFull : {X : Type 0} → Request → World X → Type 0
IsFull r s =
    (l : Limiter) × (s.limiter ≡ some l) × ((try_acquire (tenant_id r.context) l).0 ≡ false)

slot-IsFull :
    {X : Type 0} (r : Request) (s : World X)
    → (slot (tenant_id r.context) s.limiter).0 ≡ false
    → IsFull r s
slot-IsFull r s full = elim (Option-cases s.limiter) [
  | inl off ↦ absurd (cc (rw off at full))
  | inr (l, on) ↦ (l, on, rw on at full)
]

module _ {X : Type 0} (o : Outside X) (target : Url) (route : String) where
  sse_proxy-outside :
      (r : Request) (w : Writer) (s : World X)
      → (sse_proxy o target route r w s).1.outside ≡ (o.round_trip (outbound target r) s.outside).1
  unfolding sse_proxy
  sse_proxy-outside r w s = elim (Result-cases (o.round_trip (outbound target r) s.outside).0) [
    | inl (resp, e) ↦ rw (e, sse_proxy) refl
    | inr (x, e) ↦ rw (e, sse_proxy) (fail-outside route x r w _)
  ]

  -- A stream is one round trip; without a slot there is none, and the answer is 429.
  pub llm_proxy-round_trip :
      (r : Request) (w : Writer) (s : World X)
      → w.sent ≡ none
      → ((llm_proxy (sse_proxy o target route) route r w s).1.outside
          ≡ (o.round_trip (outbound target r) s.outside).1)
        ⊎ (IsFull r s
            × (status_of (llm_proxy (sse_proxy o target route) route r w s).0 ≡ some 429)
            × ((llm_proxy (sse_proxy o target route) route r w s).1.outside ≡ s.outside))
  unfolding llm_proxy stream
  llm_proxy-round_trip r w s unsent = elim (Bool-cases (slot (tenant_id r.context) s.limiter).0) [
    | inl held ↦ rw (held, llm_proxy) (inl (sse_proxy-outside r w _))
    | inr full ↦
        rw (full, llm_proxy) (inr (slot-IsFull r s full, (write_error_lem 429 _ w unsent).0, refl))
  ]
