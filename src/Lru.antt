-- ===== src/Lru.antt =====
-- The cache that internal/plugins/tenantinjector/plugin.go and internal/plugins/licensecheck/plugin.go
-- both write out: a container/list of entries, most recently used first, and a map from keys to list
-- elements. A list element is the number under which PushFront made it and its entry; the map holds
-- these numbers, so that the two structures can disagree. Each operation runs under the mutex. Times
-- are numbers; `now` is what time.Now() returns in the call.
pub mod Sound
pub mod Preserved
pub mod Spec
pub mod Laws
use Prim.Native.Nat.{ℕ, ◌+◌}
use yaagents_gateway.Prelude.{
  String, Bool, not, List, [], ◌∷◌, Option, none, some, length, keep, leb, ltb, eqb, if◌then◌else◌,
}
use yaagents_gateway.Prelude.Maps.{lookup, insert, delete}

-- `cacheEntry`; the value is (tenantID, negative) in one plugin and valid in the other.
pub record CacheEntry (V : Type 0) : Type 0 where
  pub key : String
  pub value : V
  pub expires_at : ℕ

abbrev pub Element : Type 0 → Type 0
Element V = ℕ × CacheEntry V

pub record Lru (V : Type 0) : Type 0 where
  pub max_size : ℕ
  pub list : List (Element V)
  pub index : List (String × ℕ)
  pub next : ℕ

abbrev pub new_lru : {V : Type 0} → ℕ → Lru V
new_lru max_size = record { max_size = max_size; list = []; index = []; next = 0 }

module _ {V : Type 0} where
  -- `el.Value`
  unfoldable pub value_of : ℕ → List (Element V) → Option (CacheEntry V)
  value_of id [] = none
  value_of id ((i, e) ∷ es) = if eqb i id then some e else value_of id es

  -- `Back`
  unfoldable pub back : List (Element V) → Option (Element V)
  back [] = none
  back (e ∷ []) = some e
  back (e ∷ f ∷ es) = back (f ∷ es)

  abbrev pub is_other : ℕ → Element V → Bool
  is_other id e = not (eqb e.0 id)

  -- `lruList.Remove(el)`
  abbrev pub unlink : ℕ → List (Element V) → List (Element V)
  unlink id es = keep (is_other id) es

  -- `lruList.Remove(el)` with `delete(lruMap, key)`
  abbrev pub remove : ℕ → String → Lru V → Lru V
  remove id key c = record c { list = unlink id c.list; index = delete key c.index }

  -- `lruList.MoveToFront(el)`, where el now holds the entry e
  abbrev pub move_to_front : ℕ → CacheEntry V → Lru V → Lru V
  move_to_front id e c = record c { list = (id, e) ∷ unlink id c.list }

  -- `cacheGet`
  unfoldable pub cache_get : String → ℕ → Lru V → Option V × Lru V
  cache_get key now c = elim (lookup key c.index) [
    | none ↦ (none, c)
    | some id ↦ elim (value_of id c.list) [
      | none ↦ (none, c)
      | some e ↦
          if ltb e.expires_at now
          then (none, remove id key c)
          else (some e.value, move_to_front id e c)
    ]
  ]

  -- The eviction of the last element when the list is full.
  unfoldable pub evict : Lru V → Lru V
  evict c =
      if leb c.max_size (length c.list)
      then (elim (back c.list) [ none ↦ c | some (id, e) ↦ remove id e.key c ])
      else c

  -- `lruMap[key] = lruList.PushFront(entry)`
  unfoldable pub push_front : CacheEntry V → Lru V → Lru V
  push_front e c = record c {
    list = (c.next, e) ∷ c.list;
    index = insert e.key c.next c.index;
    next = c.next + 1;
  }

  -- `cacheSet`
  unfoldable pub cache_set : CacheEntry V → Lru V → Lru V
  cache_set e c = elim (lookup e.key c.index) [
    | some id ↦ move_to_front id e c
    | none ↦ push_front e (evict c)
  ]
