-- ===== src/Plugin/Registry/FirstWins.antt =====
-- Which plugin the registry holds for a name after the init functions have run.
use yaagents_gateway.Prelude.{
  String, Bool, true, List, [], ◌∷◌, ◌++◌, ◌≡◌, refl, sym, ap, arith, contains, any, if◌then◌else◌,
  Option, none, some, Bool-cases, ◌==◌, eq_iff, inl, inr, ◌∙◌, ◌||◌,
}
use mathlib.Core.List.{append_assoc, append-nil}
use yaagents_gateway.Plugin.Contract.{Plugin}
use yaagents_gateway.Plugin.Registry.{
  Registry, register, register_all, registered, empty_registry, IsConsistent, DistinctNames,
  register-IsConsistent,
}

module _ {W : Type 0} where
  -- The first plugin of the list that has the name.
  abbrev pub find_plugin : String → List (Plugin W) → Option (Plugin W)
  find_plugin n [] = none
  find_plugin n (p ∷ ps) = if p.name == n then some p else find_plugin n ps

  abbrev has_name : List (Plugin W) → String → Bool
  has_name ps n = any (λ p. p.name == n) ps

  has_name-snoc :
      (ps : List (Plugin W)) (p : Plugin W) (n : String)
      → has_name (ps ++ p ∷ []) n ≡ (p.name == n || has_name ps n)
  has_name-snoc [] p n = refl
  has_name-snoc (q ∷ ps) p n = ground (arith, has_name-snoc ps p n)

  find_plugin-append :
      (n : String) (ps qs : List (Plugin W))
      → find_plugin n (ps ++ qs) ≡ (if has_name ps n then find_plugin n ps else find_plugin n qs)
  find_plugin-append n [] qs = refl
  find_plugin-append n (p ∷ ps) qs = ground (arith, find_plugin-append n ps qs)

  -- The index answers as a search of the list would.
  abbrev IsIndex : Registry W → Type 0
  IsIndex r = (n : String) → contains r.by_name n ≡ has_name r.registered_plugins n

  register-IsIndex : (p : Plugin W) (r : Registry W) → IsIndex r → IsIndex (register p r)
  unfolding register
  register-IsIndex p r h n = ground (arith, h n, has_name-snoc r.registered_plugins p n)

  -- A plugin that is registered under a known name changes no search.
  find_plugin-dup :
      (n : String) (qs ps : List (Plugin W)) (p : Plugin W)
      → has_name qs p.name ≡ true
      → find_plugin n (qs ++ p ∷ ps) ≡ find_plugin n (qs ++ ps)
  find_plugin-dup n qs ps p h =
      ground (arith, find_plugin-append n qs (p ∷ ps), find_plugin-append n qs ps, eq_iff p.name n)

  register-find :
      (n : String) (ps : List (Plugin W)) (p : Plugin W) (r : Registry W)
      → IsIndex r
      → find_plugin n ((register p r).registered_plugins ++ ps)
        ≡ find_plugin n (r.registered_plugins ++ p ∷ ps)
  unfolding register
  register-find n ps p r h = elim (Bool-cases (contains r.by_name p.name)) [
    | inl dup ↦ rw dup (sym (find_plugin-dup n r.registered_plugins ps p (sym (h p.name) ∙ dup)))
    | inr new ↦ rw new (ap (find_plugin n) (append_assoc r.registered_plugins (p ∷ []) ps))
  ]

  register_all-find :
      (n : String) (ps : List (Plugin W)) (r : Registry W)
      → IsIndex r
      → find_plugin n (registered (register_all ps r)) ≡ find_plugin n (r.registered_plugins ++ ps)
  unfolding register_all
  register_all-find n [] r h = rw append-nil
  register_all-find n (p ∷ ps) r h =
      register_all-find n ps (register p r) (register-IsIndex p r h) ∙ register-find n ps p r h

  register_all-IsConsistent :
      (ps : List (Plugin W)) (r : Registry W) → IsConsistent r → IsConsistent (register_all ps r)
  unfolding register_all
  register_all-IsConsistent [] r c = c
  register_all-IsConsistent (p ∷ ps) r c =
      register_all-IsConsistent ps (register p r) (register-IsConsistent p r c)

  -- After any registrations, duplicates among them, each name is held by at most one plugin, and a
  -- search by name finds the plugin that was registered first under it.
  registered-first_wins :
      (ps : List (Plugin W))
      → DistinctNames (registered (register_all ps empty_registry))
        × ((n : String)
            → find_plugin n (registered (register_all ps empty_registry)) ≡ find_plugin n ps)
  registered-first_wins ps = (
    (register_all-IsConsistent ps empty_registry (record { distinct = tt; indexed = tt })).distinct,
    λ n. register_all-find n ps empty_registry (λ m. refl),
  )
