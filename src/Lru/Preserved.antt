-- ===== src/Lru/Preserved.antt =====
-- Every operation of the cache keeps the list and the map in agreement.
use Prim.Native.Nat.{◌<◌}
use yaagents_gateway.Prelude.{
  String, Bool, true, List, [], ◌∷◌, none, some, length, keep, length-keep-le, All, All-keep,
  All-map, ◌≡◌, ◌≢◌, sym, arith, eq_iff,
}
use yaagents_gateway.Prelude.Maps.{lookup-delete, lookup-insert}
use yaagents_gateway.Lru.{
  CacheEntry, Element, Lru, unlink, is_other, remove, move_to_front, push_front,
}
use yaagents_gateway.Lru.Sound.{
  IsSound, key_of, has_other_key, find, find-unlinked, All-find, AllApart-keep, unlink-find,
  length-keep_found,
}

All-kept : {A : Type 0} (p : A → Bool) (xs : List A) → All (λ x. p x ≡ true) (keep p xs)
All-kept p [] = tt
All-kept p (x ∷ xs) = ground (arith, All-kept p xs)

All-both :
    {A : Type 0} {P Q R : A → Type 0} (f : (x : A) → P x → Q x → R x) (xs : List A)
    → All P xs
    → All Q xs
    → All R xs
All-both f [] h k = tt
All-both f (x ∷ xs) (p, h) (q, k) = (f x p q, All-both f xs h k)

module _ {V : Type 0} where
  find-none : (k : String) (es : List (Element V)) → find k es ≡ none → All (λ f. key_of f ≢ k) es
  find-none k [] h = tt
  find-none k (e ∷ es) h = ground (arith, eq_iff (key_of e) k, find-none k es)

  pub remove-IsSound :
      (k : String) (c : Lru V) {g : Element V}
      → IsSound c
      → find k c.list ≡ some g
      → IsSound (remove g.0 k c)
  remove-IsSound k c {g} s f = record {
    apart = AllApart-keep (is_other g.0) c.list s.apart;
    agree = λ j.
        let e = find-unlinked k j c.list in
        rw (unlink-find k c.list s.apart f)
          (ground (arith, e, s.agree j, lookup-delete k j c.index));
    used = All-keep (λ e. e.0 < c.next) (is_other g.0) c.list s.used;
    bounded = omega (arith, s.bounded, length-keep-le (is_other g.0) c.list);
  }

  pub move_to_front-IsSound :
      (e : CacheEntry V) (c : Lru V) {g : Element V}
      → IsSound c
      → find e.key c.list ≡ some g
      → IsSound (move_to_front g.0 e c)
  move_to_front-IsSound e c {g} s f =
      let same = unlink-find e.key c.list s.apart f in
      let others : All (λ f. has_other_key e.key f ≡ true) (unlink g.0 c.list) =
        rw same (All-kept (has_other_key e.key) c.list) in
      record {
        apart = (
          All-both (λ f i k. ground (arith, eq_iff (key_of f) e.key)) (unlink g.0 c.list)
              (All-kept (is_other g.0) c.list) others,
          AllApart-keep (is_other g.0) c.list s.apart,
        );
        agree = λ j.
            let u = find-unlinked e.key j c.list in
            rw same (ground (arith, u, s.agree j, s.agree e.key, eq_iff e.key j, f));
        used = (
          All-find (λ e. e.0 < c.next) e.key c.list s.used f,
          All-keep (λ e. e.0 < c.next) (is_other g.0) c.list s.used,
        );
        bounded =
            let shorter = length-keep_found e.key c.list f in
            rw same (omega (arith, s.bounded, shorter));
      }

  pub push_front-IsSound :
      (e : CacheEntry V) (c : Lru V)
      → IsSound c
      → find e.key c.list ≡ none
      → length c.list < c.max_size
      → IsSound (push_front e c)
  unfolding push_front
  push_front-IsSound e c s f room = record {
    apart = (
      All-both (λ f i k. (ground arith, λ q. k (sym q))) c.list s.used (find-none e.key c.list f),
      s.apart,
    );
    agree = λ j. ground (arith, lookup-insert e.key j c.next c.index, s.agree j, eq_iff e.key j);
    used = (omega arith, All-map (λ f i. omega (arith, i)) c.list s.used);
    bounded = omega (arith, room);
  }
