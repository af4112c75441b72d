-- ===== src/Llm/SseMetrics/Laws.antt =====
-- The gauge and the counters under their updates.
use Prim.Native.Nat.{◌+◌, ◌-◌}
use yaagents_gateway.Prelude.{
  ◌≡◌, refl, ◌↔◌, true, arith, eq_iff, if◌then◌else◌, leb, Bool-cases, inl, inr,
}
use yaagents_gateway.Prelude.KeyMaps.{read-write, read-drop}
use yaagents_gateway.Llm.SseMetrics.{
  ActiveKey, ErrorKey, SseMetrics, same_active, same_error, active_count, error_count, inc, dec,
  error,
}

pub same_active_iff : (a b : ActiveKey) → (same_active a b ≡ true) ↔ (a ≡ b)
same_active_iff a b = ground (arith, eq_iff a.0 b.0, eq_iff a.1 b.1)

pub same_error_iff : (a b : ErrorKey) → (same_error a b ≡ true) ↔ (a ≡ b)
same_error_iff a b = ground (arith, eq_iff a.0 b.0, eq_iff a.1 b.1, eq_iff a.2 b.2)

active_count-dec :
    (k j : ActiveKey) (m : SseMetrics)
    → active_count (dec k m) j
      ≡ (if same_active k j then active_count m k - 1 else active_count m j)
unfolding dec active_count
active_count-dec k j m = elim (Bool-cases (leb (active_count m k) 1)) [
  | inl last ↦ rw last (ground (arith, read-drop same_active same_active_iff k j m.active))
  | inr more ↦ rw more (read-write same_active same_active_iff k j _ m.active)
]

error_count-dec :
    (k : ActiveKey) (f : ErrorKey) (m : SseMetrics) → error_count (dec k m) f ≡ error_count m f
unfolding dec error_count
error_count-dec k f m = elim (Bool-cases (leb (active_count m k) 1)) [
  | inl last ↦ rw last refl
  | inr more ↦ rw more refl
]

-- Inc counts one more stream under its key, Dec one fewer but not below 0, and Error one more error;
-- no other key's count changes, nor the other map.
pub counts_lem :
    (k j : ActiveKey) (e f : ErrorKey) (m : SseMetrics)
    → (active_count (inc k m) j
        ≡ (if same_active k j then active_count m k + 1 else active_count m j))
      × (active_count (dec k m) j
          ≡ (if same_active k j then active_count m k - 1 else active_count m j))
      × (error_count (error e m) f
          ≡ (if same_error e f then error_count m e + 1 else error_count m f))
      × (error_count (inc k m) f ≡ error_count m f)
      × (error_count (dec k m) f ≡ error_count m f)
      × (active_count (error e m) j ≡ active_count m j)
unfolding inc error active_count error_count
counts_lem k j e f m = (
  read-write same_active same_active_iff k j _ m.active,
  active_count-dec k j m,
  read-write same_error same_error_iff e f _ m.errors,
  refl,
  error_count-dec k f m,
  refl,
)
