-- ===== src/Gateway/Shutdown.antt =====
-- cmd/gateway/main.go: the end of the process. After a signal a goroutine sets the flag of the
-- shutdown gate, shuts the server down within the timeout, and then the plugins, while requests come
-- in and are answered; main returns as soon as the server does not listen any more. srv.Shutdown of
-- net/http closes the listeners, and returns when no request is in flight or the time is over. The
-- steps of all these interleave freely. An error of ListenAndServe, which ends the process at once, is
-- left out.
pub mod Gate
pub mod Order
use Prim.Native.Nat.{ℕ, suc, ◌+◌}
use yaagents_gateway.Prelude.{
  String, Bool, true, false, List, [], ◌∷◌, ◌++◌, reverse, Option, none, ◌≡◌, if◌then◌else◌,
}
use yaagents_gateway.Http.Writer.{fresh}
use yaagents_gateway.Http.Request.{Request}
use yaagents_gateway.Plugin.Contract.{Plugin}
use yaagents_gateway.Gateway.{with_shutdown_gate}

-- Where the goroutine of the shutdown is: it waits for a signal, has set the flag, waits for
-- srv.Shutdown, has seen it return and shuts the plugins down one by one, is done.
pub data Drain : Type 0 where
  waiting gated draining drained finished : Drain

-- The requests that are accepted and before the gate, behind it, answered by the chain, and turned
-- away; the plugins that ldr.Shutdown has before it and what it logged of those behind it; whether
-- the time for the drain was over; whether main has returned.
pub record Server (W : Type 0) : Type 0 where
  pub shutting_down : Bool
  pub drain : Drain
  pub at_gate : ℕ
  pub inside : ℕ
  pub answered : ℕ
  pub turned_away : ℕ
  pub is_late : Bool
  pub has_exited : Bool
  pub state : W
  pub remaining : List (Plugin W)
  pub logged : List (String × Option String)

-- The server when it starts to listen.
abbrev pub listening : {W : Type 0} → W → Server W
listening state = record {
  shutting_down = false;
  drain = waiting;
  at_gate = 0;
  inside = 0;
  answered = 0;
  turned_away = 0;
  is_late = false;
  has_exited = false;
  state = state;
  remaining = [];
  logged = [];
}

-- Whether srv.Shutdown has been called, so that the listeners are closed.
abbrev pub has_closed : Drain → Bool
has_closed waiting = false
has_closed gated = false
has_closed draining = true
has_closed drained = true
has_closed finished = true

-- Whether the gate calls the handler behind it.
unfoldable pub lets_in : Bool → Request → Bool
unfolding with_shutdown_gate
lets_in shutting r = (with_shutdown_gate shutting (λ r w called. (w, true)) r fresh false).1

-- The server when one of n + 1 requests passed the gate or was turned away.
unfoldable pub pass_gate : {W : Type 0} → Request → ℕ → Server W → Server W
unfolding lets_in
pass_gate r n s =
    if lets_in s.shutting_down r
    then record s { at_gate = n; inside = s.inside + 1 }
    else record s { at_gate = n; turned_away = s.turned_away + 1 }

-- srv.Shutdown has returned, late or not, and `ldr.Shutdown(ctx)` starts with the last plugin.
unfoldable pub start_shutdown : {W : Type 0} → List (Plugin W) → Bool → Server W → Server W
start_shutdown plugins late s = record s {
  drain = drained;
  is_late = late;
  remaining = reverse plugins;
}

-- One round of the loop of `Shutdown`; an error is logged and stops nothing.
unfoldable pub shut_plugin_down : {W : Type 0} → Plugin W → List (Plugin W) → Server W → Server W
shut_plugin_down p rest s =
    let (state, failure) = p.shutdown s.state in
    record s { state = state; remaining = rest; logged = s.logged ++ (p.name, failure) ∷ [] }

-- One step of a process that has not exited.
pub data Move {W : Type 0} (plugins : List (Plugin W)) (s : Server W) : Server W → Type 0 where
  -- A connection brings a request.
  arrive : s.has_exited ≡ false → Move plugins s (record s { at_gate = s.at_gate + 1 })
  -- A request is at the gate.
  pass :
      (r : Request) (n : ℕ)
      → s.has_exited ≡ false
      → s.at_gate ≡ suc n
      → Move plugins s (pass_gate r n s)
  -- The chain answers a request, and may change the state.
  answer :
      (n : ℕ) (state : W)
      → s.has_exited ≡ false
      → s.inside ≡ suc n
      → Move plugins s (record s { inside = n; answered = s.answered + 1; state = state })
  -- `<-stopCh` and `shuttingDown.Store(true)`
  signal :
      s.has_exited ≡ false
      → s.drain ≡ waiting
      → Move plugins s (record s { shutting_down = true; drain = gated })
  -- srv.Shutdown closes the listeners.
  close : s.has_exited ≡ false → s.drain ≡ gated → Move plugins s (record s { drain = draining })
  -- srv.Shutdown returns with no request in flight.
  complete :
      s.has_exited ≡ false
      → s.drain ≡ draining
      → s.inside ≡ 0
      → Move plugins s (start_shutdown plugins s.is_late s)
  -- srv.Shutdown returns at the end of its time.
  time_out :
      s.has_exited ≡ false → s.drain ≡ draining → Move plugins s (start_shutdown plugins true s)
  stop_plugin :
      (p : Plugin W) (rest : List (Plugin W))
      → s.has_exited ≡ false
      → s.drain ≡ drained
      → s.remaining ≡ p ∷ rest
      → Move plugins s (shut_plugin_down p rest s)
  -- The loop is over.
  finish :
      s.has_exited ≡ false
      → s.drain ≡ drained
      → s.remaining ≡ []
      → Move plugins s (record s { drain = finished })
  -- ListenAndServe has returned ErrServerClosed, and main returns.
  exit :
      s.has_exited ≡ false
      → has_closed s.drain ≡ true
      → Move plugins s (record s { has_exited = true })

pub data Run {W : Type 0} (plugins : List (Plugin W)) (s : Server W) : Server W → Type 0 where
  here : Run plugins s s
  next : {u v : Server W} → Run plugins s u → Move plugins u v → Run plugins s v
