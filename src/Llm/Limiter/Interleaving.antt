-- ===== src/Llm/Limiter/Interleaving.antt =====
-- Any number of concurrent streams, whose atomic operations on the limiter interleave freely. A
-- stream that was let through holds a slot until it releases it; one that found the limit passed
-- has its own increment still to undo.
use Prim.Native.Nat.{ℕ, ◌+◌, ◌≤◌}
use yaagents_gateway.Prelude.{
  String, List, [], ◌∷◌, ◌++◌, ◌≡◌, refl, ap, ◌∙◌, arith, if◌then◌else◌, ◌==◌, eq_iff, Bool-cases,
  inl, inr,
}
use yaagents_gateway.Prelude.Int.{ℤ, pos, exceeds}
use yaagents_gateway.Prelude.Maps.{lookup}
use yaagents_gateway.Llm.Limiter.{Limiter, count, add_one, sub_one, new_limiter}
use yaagents_gateway.Llm.Limiter.Laws.{count-add_one, count-sub_one}

pub data Phase : Type 0 where
  idle over holding : Phase

pub record Stream : Type 0 where
  pub tenant : String
  pub phase : Phase

pub record World : Type 0 where
  pub limiter : Limiter
  pub streams : List Stream

abbrev pub stream : String → Phase → Stream
stream t p = record { tenant = t; phase = p }

-- The phase behind the first half of TryAcquire, by the counter's new value.
abbrev pub admitted : Limiter → ℤ → Phase
admitted l n = if exceeds n l.max_per_tenant then over else holding

pub data Step (s : World) (u : World) : Type 0 where
  -- A request for the tenant arrives.
  arrive : (t : String) → u ≡ record s { streams = stream t idle ∷ s.streams } → Step s u
  -- The first half of TryAcquire: `c.Add(1) > l.maxPerTenant`.
  acquire :
      (t : String) (before after : List Stream)
      → s.streams ≡ before ++ stream t idle ∷ after
      → u ≡ record {
        limiter = (add_one t s.limiter).1;
        streams = before ++ stream t (admitted s.limiter (add_one t s.limiter).0) ∷ after;
      }
      → Step s u
  -- Its second half on the failing branch: `c.Add(-1)`.
  undo :
      (t : String) (before after : List Stream)
      → s.streams ≡ before ++ stream t over ∷ after
      → u ≡ record { limiter = (sub_one t s.limiter).1; streams = before ++ stream t idle ∷ after }
      → Step s u
  -- `Release`
  leave :
      (t : String) (before after : List Stream)
      → s.streams ≡ before ++ stream t holding ∷ after
      → u ≡ record { limiter = (sub_one t s.limiter).1; streams = before ++ stream t idle ∷ after }
      → Step s u

pub data Reach (s : World) : World → Type 0 where
  here : Reach s s
  next : {u v : World} → Reach s u → Step u v → Reach s v

abbrev held : Phase → ℕ
held holding = 1
held _ = 0

abbrev counted : Phase → ℕ
counted idle = 0
counted _ = 1

abbrev pub between : Phase → ℕ
between over = 1
between _ = 0

abbrev pub tally : (Phase → ℕ) → String → List Stream → ℕ
tally f t [] = 0
tally f t (c ∷ cs) = (if c.tenant == t then f c.phase else 0) + tally f t cs

-- How many streams of the tenant hold a slot, and how many have incremented its counter.
abbrev pub holders : String → List Stream → ℕ
holders = tally held

abbrev pub occupants : String → List Stream → ℕ
occupants = tally counted

tally-append :
    (f : Phase → ℕ) (t : String) (xs : List Stream) (c : Stream) (ys : List Stream)
    → tally f t (xs ++ c ∷ ys)
      ≡ tally f t xs + (if c.tenant == t then f c.phase else 0) + tally f t ys
tally-append f t [] c ys = ground arith
tally-append f t (x ∷ xs) c ys = ground (arith, tally-append f t xs c ys)

counted-split : (p : Phase) → counted p ≡ held p + between p
counted-split idle = omega arith
counted-split over = omega arith
counted-split holding = omega arith

tally-split : (t : String) (xs : List Stream) → occupants t xs ≡ holders t xs + tally between t xs
tally-split t [] = omega arith
tally-split t (c ∷ cs) = elim (Bool-cases (c.tenant == t)) [
  | inl same ↦ rw same (omega (arith, counted-split c.phase, tally-split t cs))
  | inr other ↦ rw other (omega (arith, tally-split t cs))
]

tally-le : (t : String) (xs : List Stream) → holders t xs ≤ occupants t xs
tally-le t [] = omega arith
tally-le t (c ∷ cs) = ground (arith, tally-le t cs)

-- Each counter is the number of streams that have incremented it, and no tenant holds more slots
-- than the limit.
pub record IsSound (max : ℕ) (s : World) : Type 0 where
  pub limit : s.limiter.max_per_tenant ≡ max
  pub counter_exact : (t : String) → count s.limiter t ≡ pos (occupants t s.streams)
  pub holders_bounded : (t : String) → holders t s.streams ≤ max

drop-IsSound :
    {max : ℕ} {s u : World} (t : String) (p : Phase) (xs ys : List Stream)
    → counted p ≡ 1
    → s.streams ≡ xs ++ stream t p ∷ ys
    → u ≡ record { limiter = (sub_one t s.limiter).1; streams = xs ++ stream t idle ∷ ys }
    → IsSound max s
    → IsSound max u
drop-IsSound {max} {s} {u} t p xs ys one se e h = rw e (record {
  limit = (count-sub_one t t s.limiter).1 ∙ h.limit;
  counter_exact = λ v. ground (
    arith,
    count-sub_one t v s.limiter,
    h.counter_exact v,
    h.counter_exact t,
    ap (occupants v) se,
    tally-append counted v xs (stream t p) ys,
    tally-append counted v xs (stream t idle) ys,
    eq_iff t v,
  );
  holders_bounded = λ v. ground (
    arith,
    h.holders_bounded v,
    ap (holders v) se,
    tally-append held v xs (stream t p) ys,
    tally-append held v xs (stream t idle) ys,
  );
})

Step-IsSound : {max : ℕ} {s u : World} → Step s u → IsSound max s → IsSound max u
Step-IsSound {max} {s} {u} (arrive t e) h = rw e (record {
  limit = h.limit;
  counter_exact = λ v. ground (arith, h.counter_exact v);
  holders_bounded = λ v. ground (arith, h.holders_bounded v);
})
Step-IsSound {max} {s} {u} (acquire t xs ys se e) h = rw e (record {
  limit = (count-add_one t t s.limiter).2 ∙ h.limit;
  counter_exact = λ v. ground (
    arith,
    count-add_one t v s.limiter,
    h.counter_exact v,
    h.counter_exact t,
    ap (occupants v) se,
    tally-append counted v xs (stream t idle) ys,
    tally-append counted v xs (stream t (admitted s.limiter (add_one t s.limiter).0)) ys,
    eq_iff t v,
  );
  holders_bounded = λ v. ground (
    arith,
    count-add_one t t s.limiter,
    h.limit,
    h.counter_exact t,
    h.holders_bounded v,
    ap (holders v) se,
    ap (occupants v) se,
    tally-le v xs,
    tally-le v ys,
    tally-append counted v xs (stream t idle) ys,
    tally-append held v xs (stream t idle) ys,
    tally-append held v xs (stream t (admitted s.limiter (add_one t s.limiter).0)) ys,
    eq_iff t v,
  );
})
Step-IsSound (undo t xs ys se e) h = drop-IsSound t over xs ys refl se e h
Step-IsSound (leave t xs ys se e) h = drop-IsSound t holding xs ys refl se e h

pub Reach-IsSound : {max : ℕ} {s u : World} → IsSound max s → Reach s u → IsSound max u
Reach-IsSound h here = h
Reach-IsSound h (next r st) = Step-IsSound st (Reach-IsSound h r)

-- A gateway with no stream yet.
abbrev pub start : ℤ → World
start max = record { limiter = new_limiter max; streams = [] }

start-IsSound : (max : ℤ) → IsSound (new_limiter max).max_per_tenant (start max)
unfolding new_limiter count lookup
start-IsSound max = record {
  limit = refl;
  counter_exact = λ t. refl;
  holders_bounded = λ t. omega arith;
}

-- However the streams interleave, no tenant ever holds more slots than the limit, and where no
-- stream is between the two halves of TryAcquire, Count is the number of slots held.
pub holders-le-limit :
    (max : ℤ) (s : World)
    → Reach (start max) s
    → (t : String)
    → (holders t s.streams ≤ (new_limiter max).max_per_tenant)
      × (tally between t s.streams ≡ 0 → count s.limiter t ≡ pos (holders t s.streams))
holders-le-limit max s r t =
    let h = Reach-IsSound (start-IsSound max) r in
    (
      h.holders_bounded t,
      λ none_between. h.counter_exact t ∙ ap pos (omega (arith, tally-split t s.streams)),
    )

-- A stream that is turned away found the limit reached: by others that hold a slot, or by others
-- that were themselves about to be turned away.
pub turned_away :
    (max : ℤ) (s : World) (t : String)
    → Reach (start max) s
    → admitted s.limiter (add_one t s.limiter).0 ≡ over
    → (new_limiter max).max_per_tenant ≤ holders t s.streams + tally between t s.streams
turned_away max s t r e =
    let h = Reach-IsSound (start-IsSound max) r in
    ground (arith, h.limit, h.counter_exact t, count-add_one t t s.limiter, tally-split t s.streams)
