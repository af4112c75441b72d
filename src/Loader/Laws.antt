-- ===== src/Loader/Laws.antt =====
-- What the chains are: declaration order, overrides and shutdown order.
use yaagents_gateway.Prelude.{
  String, false, not, List, [], ◌∷◌, ◌++◌, ◌≡◌, refl, ap, ◌∙◌, map, reverse, keep, arith, none,
  Bool-cases, inl, inr, All, All-Memᴰ, keep-Memᴰ, map-reverse,
}
use mathlib.Core.List.{Memᴰ, reverse-cons}
use yaagents_gateway.Value.{Object}
use yaagents_gateway.Http.Request.{Handler}
use yaagents_gateway.Routes.{Route}
use yaagents_gateway.Plugin.Contract.{Plugin}
use yaagents_gateway.Loader.{token_validator_name}
use yaagents_gateway.Loader.Chain.{
  wrap_all, chain, wrap_enabled, chain_for, overridden_off, validate_route_overrides, shutdown_each,
  shutdown,
}

overrides-All :
    (rs : List Route)
    → validate_route_overrides rs ≡ none
    → All (λ r. overridden_off r.plugins token_validator_name ≡ false) rs
unfolding validate_route_overrides
overrides-All [] h = tt
overrides-All (r ∷ rs) h = ground (arith, overrides-All rs)

module _ {W : Type 0} where
  wrap_all-append :
      (ps qs : List (Plugin W)) (h : Handler W)
      → wrap_all (ps ++ qs) h ≡ wrap_all qs (wrap_all ps h)
  unfolding wrap_all
  wrap_all-append [] qs h = refl
  wrap_all-append (p ∷ ps) qs h = wrap_all-append ps qs (p.handler h)

  -- The chain as a recursion on the declaration order: the first plugin is the outermost.
  abbrev pub nested : List (Plugin W) → Handler W → Handler W
  nested [] next = next
  nested (p ∷ ps) next = p.handler (nested ps next)

  -- The plugins of a route: the initialised ones that its overrides do not switch off.
  abbrev pub enabled_for : List (String × Object) → List (Plugin W) → List (Plugin W)
  enabled_for overrides = keep (λ p. not (overridden_off overrides p.name))

  wrap_enabled-append :
      (o : List (String × Object)) (ps qs : List (Plugin W)) (h : Handler W)
      → wrap_enabled o (ps ++ qs) h ≡ wrap_enabled o qs (wrap_enabled o ps h)
  unfolding wrap_enabled
  wrap_enabled-append o [] qs h = refl
  wrap_enabled-append o (p ∷ ps) qs h = wrap_enabled-append o ps qs _

  -- A request meets the plugins in declaration order, whatever the handler they wrap.
  pub chain-nested :
      (ordered : List (Plugin W)) (next : Handler W) → chain ordered next ≡ nested ordered next
  unfolding chain wrap_all
  chain-nested [] next = refl
  chain-nested (p ∷ ps) next =
      ap (λ l. wrap_all l next) (reverse-cons p ps)
      ∙ (wrap_all-append (reverse ps) (p ∷ []) next ∙ ap p.handler (chain-nested ps next))

  nested-enabled :
      (o : List (String × Object)) (p : Plugin W) (ps : List (Plugin W)) (next h : Handler W)
      → h ≡ nested (enabled_for o ps) next
      → wrap_enabled o (p ∷ []) h ≡ nested (enabled_for o (p ∷ ps)) next
  unfolding wrap_enabled
  nested-enabled o p ps next h e = elim (Bool-cases (overridden_off o p.name)) [
    | inl off ↦ rw (off, keep) e
    | inr on ↦ rw (on, keep) (ap p.handler e)
  ]

  -- A route's chain holds, in declaration order, just the plugins that it does not switch off.
  chain_for-nested :
      (o : List (String × Object)) (ordered : List (Plugin W)) (next : Handler W)
      → chain_for o ordered next ≡ nested (enabled_for o ordered) next
  unfolding chain_for
  chain_for-nested o [] next = refl
  chain_for-nested o (p ∷ ps) next =
      ap (λ l. wrap_enabled o l next) (reverse-cons p ps)
      ∙ (wrap_enabled-append o (reverse ps) (p ∷ []) next
          ∙ nested-enabled o p ps next _ (chain_for-nested o ps next))

  -- Once the overrides are validated, a token-validator that was loaded is in every route's chain.
  token_validator_stays :
      (rs : List Route) (ordered : List (Plugin W)) {r : Route} {p : Plugin W}
      → validate_route_overrides rs ≡ none
      → Memᴰ r rs
      → Memᴰ p ordered
      → p.name ≡ token_validator_name
      → Memᴰ p (enabled_for r.plugins ordered)
  token_validator_stays rs ordered {r} {p} h mr mp e =
      keep-Memᴰ _ ordered mp (rw e (ap not (All-Memᴰ _ rs (overrides-All rs h) mr)))

  shutdown_each-names :
      (ps : List (Plugin W)) (w : W) → map (λ d. d.0) (shutdown_each ps w).1 ≡ map (λ p. p.name) ps
  unfolding shutdown_each
  shutdown_each-names [] w = refl
  shutdown_each-names (p ∷ ps) w = ap (λ l. p.name ∷ l) (shutdown_each-names ps (p.shutdown w).0)

  -- Every plugin is shut down once, in reverse declaration order, whether or not others fail.
  pub shutdown_order :
      (ordered : List (Plugin W)) (w : W)
      → map (λ d. d.0) (shutdown ordered w).1 ≡ reverse (map (λ p. p.name) ordered)
  unfolding shutdown
  shutdown_order ordered w = shutdown_each-names (reverse ordered) w ∙ map-reverse _ ordered
