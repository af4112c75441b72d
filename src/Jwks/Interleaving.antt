-- ===== src/Jwks/Interleaving.antt =====
-- Any number of goroutines in getKey of one key store. Each holds the lock for a moment only, so that
-- its steps interleave with those of the others: the look at the cache, the fetch of the document
-- outside the lock, the exchange of the keys, and the second look at them.
pub mod Genuine
use Prim.Native.Nat.{ℕ, ◌+◌}
use yaagents_gateway.Prelude.{
  String, List, [], ◌∷◌, ◌++◌, Option, none, some, ◌≡◌, refl, if◌then◌else◌, Bool-cases, inl, inr,
}
use yaagents_gateway.Prelude.Maps.{lookup}
use yaagents_gateway.Prelude.Result.{Result, ok, err, Result-cases}
use yaagents_gateway.Jwks.{
  Jwks, KeyServer, KeyError, RefreshError, PublicKey, published, is_expired, stale_key, key_or_none,
  get_key,
}
use yaagents_gateway.Jwks.Laws.{needs_fetch, get_key-fast, get_key_failed, get_key_done}

-- Where a call of getKey for a key id is: at its start, behind the look at the cache, with the keys
-- that it fetched or the error, behind the exchange of the keys, and done with an answer.
pub data Phase : Type 0 where
  entered fetching rereading : Phase
  fetched : Result RefreshError (List (String × PublicKey)) → Phase
  served : Result KeyError PublicKey → Phase

pub record Caller : Type 0 where
  pub kid : String
  pub phase : Phase

pub record Shared (X : Type 0) : Type 0 where
  pub store : Jwks
  pub outside : X
  pub callers : List Caller

module _ {X : Type 0} (d : KeyServer X) where
  -- The next step of a call.
  unfoldable pub advance : String → Phase → Jwks → X → Phase × Jwks × X
  unfolding published stale_key
  advance kid entered v x = elim (lookup kid v.keys) [
    | none ↦ (fetching, v, x)
    | some key ↦ if is_expired d v x then (fetching, v, x) else (served (ok key), v, x)
  ]
  advance kid fetching v x =
      let (answer, x') = d.get v.url x in
      (fetched (published d answer), record v { fetch_count = v.fetch_count + 1 }, x')
  advance kid (fetched (err e)) v x = (served (stale_key kid v.keys), v, x)
  advance kid (fetched (ok keys)) v x =
      (rereading, record v { keys = keys; fetch_at = some (d.now x) }, x)
  advance kid rereading v x = (served (key_or_none (lookup kid v.keys)), v, x)
  advance kid (served answer) v x = (served answer, v, x)

  abbrev pub moved_on : List Caller → Caller → List Caller → Shared X → Shared X
  moved_on before c after s =
      let (p, v, x) = advance c.kid c.phase s.store s.outside in
      record { store = v; outside = x; callers = before ++ record c { phase = p } ∷ after }

  pub data Step (s : Shared X) : Shared X → Type 0 where
    -- A call begins.
    call :
        (kid : String)
        → Step s (record s { callers = record { kid = kid; phase = entered } ∷ s.callers })
    -- One of the calls makes its next step.
    go :
        (before : List Caller) (c : Caller) (after : List Caller)
        → s.callers ≡ before ++ c ∷ after
        → Step s (moved_on before c after s)
    -- The outside changes by itself.
    drift : (x : X) → Step s (record s { outside = x })

  pub data Reach (s : Shared X) : Shared X → Type 0 where
    here : Reach s s
    next : {u v : Shared X} → Reach s u → Step u v → Reach s v
