-- ===== src/Plugin/Registry.antt =====
-- plugin/registry.go: the global registry, filled by the plugins' init functions.
pub mod FirstWins
use yaagents_gateway.Prelude.{
  String, Bool, true, false, List, [], ◌∷◌, ◌++◌, ◌≡◌, refl, sym, ap, arith, contains,
  if◌then◌else◌, All, map, inl, inr, Bool-cases, ◌==◌, ◌≢◌, ◌⊎◌, eq_iff, Contains, contains_iff,
}
use yaagents_gateway.Plugin.Contract.{Plugin}

pub record Registry (W : Type 0) : Type 0 where
  pub registered_plugins : List (Plugin W)
  pub by_name : List String

module _ {W : Type 0} where
  abbrev pub empty_registry : Registry W
  empty_registry = record { registered_plugins = []; by_name = [] }

  -- `Register`
  unfoldable pub register : Plugin W → Registry W → Registry W
  register p r = if contains r.by_name p.name then r else record {
    registered_plugins = r.registered_plugins ++ p ∷ [];
    by_name = p.name ∷ r.by_name;
  }

  -- `Registered`
  abbrev pub registered : Registry W → List (Plugin W)
  registered r = r.registered_plugins

  unfoldable pub register_all : List (Plugin W) → Registry W → Registry W
  register_all [] r = r
  register_all (p ∷ ps) r = register_all ps (register p r)

  -- No two plugins of the list have one name.
  abbrev pub DistinctNames : List (Plugin W) → Type 0
  DistinctNames [] = Unit
  DistinctNames (p ∷ ps) = All (λ q. q.name ≢ p.name) ps × DistinctNames ps

  -- The name index lists the names of the registered plugins, and these are distinct.
  pub record IsConsistent (r : Registry W) : Type 0 where
    pub distinct : DistinctNames r.registered_plugins
    pub indexed : All (λ q. Contains r.by_name q.name) r.registered_plugins

  All-ne-snoc :
      (n : String) (ps : List (Plugin W)) (p : Plugin W)
      → All (λ q. q.name ≢ n) ps
      → p.name ≢ n
      → All (λ q. q.name ≢ n) (ps ++ p ∷ [])
  All-ne-snoc n [] p h k = (k, tt)
  All-ne-snoc n (q ∷ ps) p (d, h) k = (d, All-ne-snoc n ps p h k)

  DistinctNames-snoc :
      (ps : List (Plugin W)) (p : Plugin W) (names : List String)
      → DistinctNames ps
      → All (λ q. Contains names q.name) ps
      → (Contains names p.name → ⊥)
      → DistinctNames (ps ++ p ∷ [])
  DistinctNames-snoc [] p names d h new = (tt, tt)
  DistinctNames-snoc (q ∷ ps) p names (d, ds) (h, hs) new =
      (All-ne-snoc q.name ps p d (λ e. new (rw e h)), DistinctNames-snoc ps p names ds hs new)

  indexed-snoc :
      (ps : List (Plugin W)) (p : Plugin W) (names : List String)
      → All (λ q. Contains names q.name) ps
      → All (λ q. Contains (p.name ∷ names) q.name) (ps ++ p ∷ [])
  indexed-snoc [] p names h = (inl refl, tt)
  indexed-snoc (q ∷ ps) p names (h, hs) = (inr h, indexed-snoc ps p names hs)

  register-IsConsistent :
      (p : Plugin W) (r : Registry W) → IsConsistent r → IsConsistent (register p r)
  unfolding register
  register-IsConsistent p r c = elim (Bool-cases (contains r.by_name p.name)) [
    | inl dup ↦ rw dup c
    | inr new ↦ rw new (record {
      distinct =
          DistinctNames-snoc r.registered_plugins p r.by_name c.distinct c.indexed
            (λ k. let same = (contains_iff r.by_name p.name).1 k in cc);
      indexed = indexed-snoc r.registered_plugins p r.by_name c.indexed;
    })
  ]
