-- ===== src/Carts/Guard/Waiting.antt =====
-- `waitForCache`: a caller that waits for another process to fill the cache.
use nyro.Base.{◌≡◌, refl, ap, subst, arith, ◌⊎◌, inl, inr, false, List, [], ◌∷◌, Option, some}
use nyro.Base.Duration.{Duration}
use nyro.Base.Text.{Text}
use nyro.Errors.{Error, sentinel, as_not_found, deadline_exceeded, canceled, Result, ok, err}
use nyro.Carts.Contract.{Sees}
use nyro.Carts.Guard.{
  Backend, Retry, Attempt, success, retryable, permanent, operation, attempt, wait_for_cache,
  mapped, map_wait_error,
}
use nyro.Carts.Guard.Filling.{Holds}

-- The documented behaviour of `backoff.Retry`, with the worlds in which it calls the operation: it
-- calls it until that succeeds or fails permanently, or the policy stops or the context ends, and
-- returns the value, the permanent error, the last error, or the context's. While it sleeps the world
-- may change in any way.
pub data Retries {W V : Type 0} (op : W → Attempt V × W)
    : List W → W → Result (Option V) × W → Type 0 where
  succeeds : (v : Option V) (w w' : W) → op w ≡ (success v, w') → Retries op (w ∷ []) w (ok v, w')
  fails : (e : Error) (w w' : W) → op w ≡ (permanent e, w') → Retries op (w ∷ []) w (err e, w')
  stops : (e : Error) (w w' w'' : W) → op w ≡ (retryable e, w') → Retries op (w ∷ []) w (err e, w'')
  context_ends :
      (e c : Error) (w w' w'' : W)
      → op w ≡ (retryable e, w')
      → (c ≡ sentinel canceled) ⊎ (c ≡ sentinel deadline_exceeded)
      → Retries op (w ∷ []) w (err c, w'')
  sleeps :
      (e : Error) (w w' w'' : W) (moments : List W) (r : Result (Option V) × W)
      → op w ≡ (retryable e, w')
      → Retries op moments w'' r
      → Retries op (w ∷ moments) w r

-- One of the worlds.
abbrev pub Among : {W : Type 0} → W → List W → Type 0
Among m [] = ⊥
Among m (n ∷ moments) = (m ≡ n) ⊎ Among m moments

module _ {W V : Type 0} (b : Backend W V) (content : W → Text → Option (Option V))
    (denotes : Option V → Option V) (holds : Holds b content denotes) (key : Text)
    (max_wait : Duration) where
  -- What a look-up that is not a miss ends the wait with.
  abbrev pub Answered : W → Option V → Result (Option V) → Type 0
  Answered m x r =
      (r ≡ ok x)
      ⊎ ((e : Error) × ((b.get key m).0 ≡ err e)
          × (as_not_found e ≡ false)
          × (r ≡ err (map_wait_error b.wait_failed max_wait e)))

  attempt_success : (r : Result (Option V)) (v : Option V) → attempt b r ≡ success v → r ≡ ok v
  unfolding attempt
  attempt_success (ok u) v h = ground arith
  attempt_success (err e) v h = ground arith

  found :
      {moments : List W} {w : W} {r : Result (Option V) × W}
      → Retries (operation b key) moments w r
      → (v : Option V) → mapped b max_wait r.0 ≡ ok v
      → (m : W) × Among m moments × (content m key ≡ some v)
  unfolding mapped operation
  found (succeeds u w w' at) v h =
      let hit = attempt_success (b.get key w).0 u (ap (λ p. p.0) at) in
      let seen : content w key ≡ some u =
        subst (λ r. Sees r (content w key)) hit (holds.get_sees key w) in
      (w, inl refl, ground arith)
  found (fails e w w' at) v h = absurd (cc)
  found (stops e w w' w'' at) v h = absurd (cc)
  found (context_ends e c w w' w'' at _) v h = absurd (cc)
  found (sleeps e w w' w'' moments r at rest) v h =
      let (m, among, there) = found rest v h in (m, inr among, there)

  -- A value that the wait returns is one that the key held in one of the worlds in which it looked.
  pub wait_for_cache-held :
      (retry : Retry W V) (moments : List W) (w : W) (v : Option V)
      → Retries (operation b key) moments w (retry (operation b key) w)
      → (wait_for_cache b max_wait retry key w).0 ≡ ok v
      → (m : W) × Among m moments × (content m key ≡ some v)
  unfolding wait_for_cache
  wait_for_cache-held retry moments w v h = found h v
