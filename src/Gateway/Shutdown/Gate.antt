-- ===== src/Gateway/Shutdown/Gate.antt =====
-- The gate of a gateway that is shutting down, and what its exit cuts off.
use Prim.Native.Nat.{ℕ, ◌+◌}
use yaagents_gateway.Prelude.{true, false, List, [], ◌≡◌, refl, ◌∙◌, arith}
use yaagents_gateway.Http.Request.{Request}
use yaagents_gateway.Plugin.Contract.{Plugin}
use yaagents_gateway.Gateway.Shutdown.{
  Server, listening, lets_in, pass_gate, start_shutdown, shut_plugin_down, Move, Run, arrive, pass,
  answer, signal, close, complete, time_out, stop_plugin, finish, exit, here, next,
}

-- The requests that passed the gate.
abbrev pub admitted : {W : Type 0} → Server W → ℕ
admitted s = s.inside + s.answered

pub pass_gate-shut :
    {W : Type 0} (r : Request) (n : ℕ) (s : Server W)
    → s.shutting_down ≡ true
    → pass_gate r n s ≡ record s { at_gate = n; turned_away = s.turned_away + 1 }
unfolding lets_in pass_gate
pass_gate-shut r n s down = rw (down, pass_gate) refl

pub pass_gate-open :
    {W : Type 0} (r : Request) (n : ℕ) (s : Server W)
    → s.shutting_down ≡ false
    → pass_gate r n s ≡ record s { at_gate = n; inside = s.inside + 1 }
unfolding lets_in pass_gate
pass_gate-open r n s up = rw (up, pass_gate) refl

module _ {W : Type 0} (plugins : List (Plugin W)) where
  Move-alive : {s u : Server W} → Move plugins s u → s.has_exited ≡ false
  Move-alive (arrive alive) = alive
  Move-alive (pass r n alive some_at) = alive
  Move-alive (answer n state alive some_in) = alive
  Move-alive (signal alive at) = alive
  Move-alive (close alive at) = alive
  Move-alive (complete alive at empty) = alive
  Move-alive (time_out alive at) = alive
  Move-alive (stop_plugin p rest alive at left) = alive
  Move-alive (finish alive at done) = alive
  Move-alive (exit alive closed) = alive

  Move-turned :
      {s u : Server W}
      → Move plugins s u
      → s.shutting_down ≡ true
      → (u.shutting_down ≡ true) × (admitted u ≡ admitted s)
  unfolding start_shutdown shut_plugin_down
  Move-turned (arrive alive) down = (down, refl)
  Move-turned {s} (pass r n alive some_at) down = rw (pass_gate-shut r n s down) (down, refl)
  Move-turned (answer n state alive some_in) down = (down, omega (arith, some_in))
  Move-turned (signal alive at) down = (refl, refl)
  Move-turned (close alive at) down = (down, refl)
  Move-turned (complete alive at empty) down = (down, refl)
  Move-turned (time_out alive at) down = (down, refl)
  Move-turned (stop_plugin p rest alive at left) down = (down, refl)
  Move-turned (finish alive at done) down = (down, refl)
  Move-turned (exit alive closed) down = (down, refl)

  -- Once the flag of the gate is set it stays, and no request passes the gate any more, however the
  -- steps interleave.
  pub gate_stays :
      {s u : Server W}
      → Run plugins s u
      → s.shutting_down ≡ true
      → (u.shutting_down ≡ true) × (admitted u ≡ admitted s)
  gate_stays here down = (down, refl)
  gate_stays (next run move) down =
      let (still, same) = gate_stays run down in
      let (later, alike) = Move-turned move still in (later, alike ∙ same)

  -- The process may exit while a request is behind the gate, with no plugin shut down and time left for
  -- the drain.
  pub exit_cuts_off :
      (w : W) (r : Request)
      → (s : Server W) × Run plugins (listening w) s
        × (s.has_exited ≡ true)
        × (s.inside ≡ 1)
        × (s.is_late ≡ false)
        × (s.logged ≡ [])
        × ((u : Server W) → ¬ Move plugins s u)
  unfolding lets_in pass_gate
  exit_cuts_off w r = (
    _,
    next
        (next (next (next (next here (arrive refl)) (pass r 0 refl refl)) (signal refl refl))
          (close refl refl))
        (exit refl refl),
    refl,
    refl,
    refl,
    refl,
    λ u move. absurd (cc (Move-alive move)),
  )
