-- ===== src/Gateway/Shutdown/Order.antt =====
-- The order of the steps by which a gateway shuts down.
use Prim.Native.Nat.{ℕ}
use yaagents_gateway.Prelude.{
  String, Bool, true, false, List, [], map, reverse, ◌≡◌, refl, sym, ap, ◌∙◌, arith, ◌≢◌, ◌∷◌, ◌++◌,
  Option, Bool-cases, inl, inr,
}
use yaagents_gateway.Http.Request.{Request}
use yaagents_gateway.Plugin.Contract.{Plugin}
use mathlib.Core.List.{append-nil}
use yaagents_gateway.Prelude.{map-reverse}
use yaagents_gateway.Gateway.Shutdown.{
  Drain, Server, waiting, gated, draining, drained, finished, listening, pass_gate, start_shutdown,
  shut_plugin_down, Move, Run, arrive, pass, answer, signal, close, complete, time_out, stop_plugin,
  finish, exit, here, next,
}
use yaagents_gateway.Gateway.Shutdown.Gate.{pass_gate-shut, pass_gate-open}

-- Whether the goroutine has set the flag, and whether srv.Shutdown has returned to it.
abbrev pub has_started : Drain → Bool
has_started waiting = false
has_started _ = true

abbrev pub is_over : Drain → Bool
is_over drained = true
is_over finished = true
is_over _ = false

over-started : (d : Drain) → is_over d ≡ true → has_started d ≡ true
over-started waiting over = absurd (cc over)
over-started gated over = refl
over-started draining over = refl
over-started drained over = refl
over-started finished over = refl

-- The names in the order in which the loop of ldr.Shutdown takes the plugins, once it has them.
abbrev pub names_due : {W : Type 0} → List (Plugin W) → Bool → List String
names_due plugins true = reverse (map (λ p. p.name) plugins)
names_due plugins false = []

abbrev pub names_down : {W : Type 0} → Server W → List String
names_down s = map (λ l. l.0) s.logged

abbrev pub names_left : {W : Type 0} → Server W → List String
names_left s = map (λ p. p.name) s.remaining

-- The flag is set with the first step of the goroutine; without a time-out no request is inside when
-- srv.Shutdown has returned; from then on the plugins that are down and those that are left make up
-- the reverse order, and before nothing is down; none is left at the end.
pub record IsOrderly {W : Type 0} (plugins : List (Plugin W)) (s : Server W) : Type 0 where
  pub flagged : s.shutting_down ≡ has_started s.drain
  pub emptied : is_over s.drain ≡ true → s.is_late ≡ false → s.inside ≡ 0
  pub downed : names_down s ++ names_left s ≡ names_due plugins (is_over s.drain)
  pub completed : s.drain ≡ finished → s.remaining ≡ []

nil-left : (xs ys : List String) → xs ++ ys ≡ [] → xs ≡ []
nil-left [] ys e = refl
nil-left (x ∷ xs) ys e = absurd (cc e)

-- A round of the loop moves one name from those that are left to those that are down.
moved :
    {W : Type 0} (done : List (String × Option String)) (name : String) (failure : Option String)
    (rest : List (Plugin W))
    → map (λ l. l.0) (done ++ (name, failure) ∷ []) ++ map (λ p. p.name) rest
      ≡ map (λ l. l.0) done ++ name ∷ map (λ p. p.name) rest
moved [] name failure rest = refl
moved (d ∷ ds) name failure rest = ap (λ l. d.0 ∷ l) (moved ds name failure rest)

module _ {W : Type 0} (plugins : List (Plugin W)) where
  pass_gate-IsOrderly :
      (r : Request) (n : ℕ) (s : Server W)
      → IsOrderly plugins s
      → IsOrderly plugins (pass_gate r n s)
  pass_gate-IsOrderly r n s h = elim (Bool-cases s.shutting_down) [
    | inl down ↦ rw (pass_gate-shut r n s down) (record {
      flagged = h.flagged;
      emptied = h.emptied;
      completed = h.completed;
      downed = h.downed;
    })
    | inr up ↦ rw (pass_gate-open r n s up) (record {
      flagged = h.flagged;
      emptied = λ over on_time. absurd (cc (over-started s.drain over, h.flagged, up));
      completed = h.completed;
      downed = h.downed;
    })
  ]

  -- Where srv.Shutdown has not returned, nothing is down.
  nothing_down : (s : Server W) → IsOrderly plugins s → is_over s.drain ≡ false → names_down s ≡ []
  nothing_down s h going =
      nil-left (names_down s) (names_left s) (h.downed ∙ ap (names_due plugins) going)

  start_shutdown-IsOrderly :
      (late : Bool) (s : Server W)
      → IsOrderly plugins s
      → s.drain ≡ draining
      → (late ≡ false → s.inside ≡ 0)
      → IsOrderly plugins (start_shutdown plugins late s)
  unfolding start_shutdown
  start_shutdown-IsOrderly late s h at empty = record {
    flagged = h.flagged ∙ ap has_started at;
    emptied = λ over on_time. empty on_time;
    downed =
        ap (λ l. l ++ map (λ p. p.name) (reverse plugins)) (nothing_down s h (ap is_over at))
        ∙ map-reverse (λ p. p.name) plugins;
    completed = λ done. absurd (cc done);
  }

  Move-IsOrderly : {s u : Server W} → Move plugins s u → IsOrderly plugins s → IsOrderly plugins u
  unfolding shut_plugin_down
  Move-IsOrderly (arrive alive) h = record {
    flagged = h.flagged;
    emptied = h.emptied;
    downed = h.downed;
    completed = h.completed;
  }
  Move-IsOrderly {s} (pass r n alive some_at) h = pass_gate-IsOrderly r n s h
  Move-IsOrderly (answer n state alive some_in) h = record {
    flagged = h.flagged;
    emptied = λ over on_time. ground (arith, h.emptied over on_time, some_in);
    downed = h.downed;
    completed = h.completed;
  }
  Move-IsOrderly (signal alive at) h = record {
    flagged = refl;
    emptied = λ over on_time. absurd (cc over);
    downed = h.downed ∙ ap (λ d. names_due plugins (is_over d)) at;
    completed = λ done. absurd (cc done);
  }
  Move-IsOrderly (close alive at) h = record {
    flagged = h.flagged ∙ ap has_started at;
    emptied = λ over on_time. absurd (cc over);
    downed = h.downed ∙ ap (λ d. names_due plugins (is_over d)) at;
    completed = λ done. absurd (cc done);
  }
  Move-IsOrderly {s} (complete alive at empty) h =
      start_shutdown-IsOrderly s.is_late s h at (λ on_time. empty)
  Move-IsOrderly {s} (time_out alive at) h =
      start_shutdown-IsOrderly true s h at (λ on_time. absurd (cc on_time))
  Move-IsOrderly {s} (stop_plugin p rest alive at left) h = record {
    flagged = h.flagged;
    emptied = h.emptied;
    downed =
        moved s.logged (p.name) (p.shutdown s.state).1 rest
        ∙ ap (λ l. names_down s ++ map (λ p. p.name) l) (sym left)
        ∙ h.downed;
    completed = λ done. absurd (cc (done, at));
  }
  Move-IsOrderly (finish alive at done) h = record {
    flagged = h.flagged ∙ ap has_started at;
    emptied = λ over on_time. h.emptied (ap is_over at) on_time;
    downed = h.downed ∙ ap (λ d. names_due plugins (is_over d)) at;
    completed = λ end. done;
  }
  Move-IsOrderly (exit alive closed) h = record {
    flagged = h.flagged;
    emptied = h.emptied;
    downed = h.downed;
    completed = h.completed;
  }

  Run-IsOrderly : {s u : Server W} → IsOrderly plugins s → Run plugins s u → IsOrderly plugins u
  Run-IsOrderly h here = h
  Run-IsOrderly h (next run move) = Move-IsOrderly move (Run-IsOrderly h run)

  listening-IsOrderly : (w : W) (s : Server W) → Run plugins (listening w) s → IsOrderly plugins s
  listening-IsOrderly w s run =
      Run-IsOrderly
        (record {
          flagged = refl;
          emptied = λ over on_time. refl;
          downed = refl;
          completed = λ done. absurd (cc done);
        })
        run

  -- However the steps interleave from the start of the server: the plugins that are shut down are
  -- the first ones of the reverse declaration order; while any is, the gate is closed and, unless
  -- the time for the drain was over, no request is behind it; and when the goroutine is done, all
  -- are shut down, with the same of the gate and the requests.
  pub shutdown_sequence :
      (w : W) (s : Server W)
      → Run plugins (listening w) s
      → ((rest : List String) × (names_down s ++ rest ≡ names_due plugins true))
        × (names_down s ≢ [] → (s.shutting_down ≡ true) × (s.is_late ≡ false → s.inside ≡ 0))
        × (s.drain ≡ finished
            → (names_down s ≡ reverse (map (λ p. p.name) plugins))
              × (s.shutting_down ≡ true)
              × (s.is_late ≡ false → s.inside ≡ 0))
  shutdown_sequence w s run =
      let h = listening-IsOrderly w s run in
      elim (Bool-cases (is_over s.drain)) [
        | inl over ↦ (
          (names_left s, h.downed ∙ ap (names_due plugins) over),
          λ some_down. (h.flagged ∙ over-started s.drain over, h.emptied over),
          λ done. (
            sym (append-nil (names_down s))
                ∙ ap (λ l. names_down s ++ map (λ p. p.name) l) (sym (h.completed done))
                ∙ h.downed
                ∙ ap (names_due plugins) over,
            h.flagged ∙ over-started s.drain over,
            h.emptied over,
          ),
        )
        | inr going ↦ (
          (names_due plugins true, ap (λ l. l ++ names_due plugins true) (nothing_down s h going)),
          λ some_down. absurd (some_down (nothing_down s h going)),
          λ done. absurd (cc (ap is_over done, going)),
        )
      ]
