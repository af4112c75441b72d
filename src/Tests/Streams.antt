-- ===== src/Tests/Streams.antt =====
-- Streams, their limiter and the counters.
use Prim.Native.Nat.{◌≤◌}
use yaagents_gateway.Prelude.{String, ◌&&◌, [], ◌∷◌, ◌++◌, some, ◌≡◌, refl, arith, if◌then◌else◌}
use yaagents_gateway.Prelude.Int.{pos}
use yaagents_gateway.Prelude.Maps.{lookup, insert}
use yaagents_gateway.Http.Writer.{fresh, status_of}
use yaagents_gateway.Llm.Limiter.{Limiter, new_limiter, count, add_one}
use yaagents_gateway.Llm.Limiter.Interleaving.{
  World, arrive, acquire, Reach, here, next, holders, start, stream, idle, holding,
  holders-le-limit,
}
use yaagents_gateway.Llm.Sse.{respond, is_event_stream, sse_proxy}
use yaagents_gateway.Llm.Sse.Laws.{respond-body, piped, copied, delivered}
use yaagents_gateway.Llm.Proxy.{llm_proxy}
use yaagents_gateway.Llm.Proxy.Laws.{llm_proxy_lem, stream-restores, gauge}
use yaagents_gateway.Tests.Fixtures.{origin, reply, online, visit, quiet, two_slots}

respond_example :
    (respond reply fresh).body
    ≡ fresh.body
      ++ (if is_event_stream reply && fresh.flusher
          then piped (delivered reply.reads)
          else copied (delivered reply.reads))
respond_example = respond-body reply fresh

-- A limiter of one slot that the tenant holds.
abbrev one_held : Limiter
one_held = record { max_per_tenant = 1; counts = ("t1", pos 1) ∷ [] }

two_slots-free : count two_slots "t1" ≡ pos 0
unfolding count lookup
two_slots-free = refl

one_held-full : count one_held "t1" ≡ pos 1
unfolding count lookup
one_held-full = refl

llm_proxy_example :
    status_of
      (llm_proxy
        (sse_proxy online origin "chat")
        "chat"
        visit
        fresh
        (record quiet { limiter = some one_held })).0
    ≡ some 429
llm_proxy_example =
    ((llm_proxy_lem (sse_proxy online origin "chat") "chat" visit fresh
        (record quiet { limiter = some one_held }) one_held 1 refl one_held-full refl).1
      (omega arith)).0

stream_example :
    (l : Limiter) × ((llm_proxy (sse_proxy online origin "chat") "chat" visit fresh quiet).1.limiter
      ≡ some l)
    × ((u : String) → count l u ≡ count two_slots u)
    × ((k : String × String)
        → gauge (llm_proxy (sse_proxy online origin "chat") "chat" visit fresh quiet).1.sse k
          ≡ gauge quiet.sse k)
stream_example =
    stream-restores online origin "chat" visit fresh quiet two_slots 0 refl two_slots-free
      (omega arith)

-- One stream that arrives and takes the only slot, and another that arrives.
abbrev one_idle : World
one_idle = record { limiter = new_limiter (pos 1); streams = stream "t1" idle ∷ [] }

abbrev one_holding : World
one_holding = record {
  limiter = (add_one "t1" (new_limiter (pos 1))).1;
  streams = stream "t1" holding ∷ [];
}

abbrev next_idle : World
next_idle = record one_holding { streams = stream "t1" idle ∷ stream "t1" holding ∷ [] }

one_holding-Reach : Reach (start (pos 1)) one_holding
unfolding new_limiter add_one count lookup insert
one_holding-Reach = next (next here (arrive "t1" refl)) (acquire "t1" [] [] refl refl)

next_idle-Reach : Reach (start (pos 1)) next_idle
next_idle-Reach = next one_holding-Reach (arrive "t1" refl)

holders_example : holders "t1" one_holding.streams ≤ (new_limiter (pos 1)).max_per_tenant
holders_example = (holders-le-limit (pos 1) one_holding one_holding-Reach "t1").0
