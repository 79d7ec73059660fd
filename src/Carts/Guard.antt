-- ===== src/Carts/Guard.antt =====
-- `GetOrSetWithLock` of the carts, over the cart operations that it calls. The text is that of
-- carts/redis/redis.go; carts/memcached and carts/surrealdb repeat it over their own operations.
--
-- `W` is the world: the backend, and whatever loaders touch. What other processes do to it between
-- two calls is not a step of its own. Parameters stand for the code outside the repository:
-- singleflight's `DoChan` (`flight`), `backoff.Retry` (`retry`), and the random lock value.
pub mod Release
pub mod Waiting
pub mod Backoff
pub mod Processes
pub mod Exclusion
pub mod Runs
pub mod Filling
use nyro.Base.{
  ℕ, zero, suc, ◌/◌, ◌≡◌, Bool, true, false, List, [], ◌∷◌, ◌++◌, Option, none, some, if◌then◌else◌,
  arith,
}
use nyro.Base.Duration.{ℤ, pos, negsuc, Duration, is_zero, is_positive}
use nyro.Base.Text.{Text, bytes}
use nyro.Keys.Format.{duration_string}
use nyro.Errors.{
  Error, sentinel, fresh, wrap, is, as_not_found, deadline_exceeded, canceled, Result, ok, err,
}

-- The operations of a cart with locking (carts.CartWithLocking) that the guarded load calls.
-- `acquire key ttl value` is `AcquireLock` with the value that `generateLockValue` made, and
-- `wait_failed` is the text that the cart's `mapWaitError` wraps an error in.
pub record Backend (W V : Type 0) : Type 0 where
  pub get : Text → W → Result (Option V) × W
  pub set : Text → Option V → Duration → W → Result (Unit {0}) × W
  pub acquire : Text → Duration → Text → W → Result (Text × Bool) × W
  pub release : Text → Text → W → Result (Unit {0}) × W
  pub extend : Text → Text → Duration → W → Result Bool × W
  pub wait_failed : Text

-- The part of the cart's configuration that is read here.
pub record LockConfig : Type 0 where
  pub lock_ttl : Duration
  pub lock_max_wait : Duration
  pub lock_renewal_interval : Duration

-- What `operation` hands to `backoff.Retry`: success, an error to retry on, or a permanent one.
pub data Attempt (V : Type 0) : Type 0 where
  success : Option V → Attempt V
  retryable permanent : Error → Attempt V

-- What the heartbeat's `select` receives.
pub data Beat : Type 0 where
  done tick : Beat

-- What the caller's `select` receives first: the result of the flight, or the end of its context.
pub data Selected : Type 0 where
  received : Selected
  ctx_done : Error → Selected

abbrev pub Action : Type 0 → Type 0 → Type 0
Action W V = W → Result (Option V) × W

abbrev pub Retry : Type 0 → Type 0 → Type 0
Retry W V = (W → Attempt V × W) → Action W V

-- `time.Duration` division truncates toward zero.
third : Duration → Duration
third (pos n) = pos (n / 3)
third (negsuc n) = third_negative (suc n / 3)
  where
    third_negative : ℕ → Duration
    third_negative zero = pos 0
    third_negative (suc q) = negsuc q

unfoldable pub effective_lock_ttl : LockConfig → Duration → Duration
effective_lock_ttl cfg lock_ttl = if is_zero lock_ttl then cfg.lock_ttl else lock_ttl

unfoldable pub renewal_interval : LockConfig → Duration → Duration
unfolding third
renewal_interval cfg lock_ttl =
    if is_positive cfg.lock_renewal_interval then cfg.lock_renewal_interval else third lock_ttl

unfoldable pub map_wait_error : Text → Duration → Error → Error
map_wait_error wait_failed max_wait e =
    if is e deadline_exceeded
    then fresh (bytes "timeout waiting for cache population after " ++ duration_string max_wait)
    else if is e canceled
    then e
    else wrap wait_failed e

module _ {W V : Type 0} (b : Backend W V) where
  attempt : Result (Option V) → Attempt V
  attempt (ok v) = success v
  attempt (err e) = if as_not_found e then retryable e else permanent e

  -- The closure `operation` of `waitForCache`.
  unfoldable pub operation : Text → W → Attempt V × W
  unfolding attempt
  operation key w = let (r, w') = b.get key w in (attempt r, w')

  mapped : Duration → Result (Option V) → Result (Option V)
  mapped max_wait (ok v) = ok v
  mapped max_wait (err e) = err (map_wait_error b.wait_failed max_wait e)

  -- `max_wait` is `LockMaxWait` of the configuration.
  unfoldable pub wait_for_cache : Duration → Retry W V → Text → Action W V
  unfolding mapped
  wait_for_cache max_wait retry key w =
      let (r, w') = retry (operation key) w in (mapped max_wait r, w')

  -- `startLockHeartbeat` over what its `select` receives, and whether it still runs afterwards. The
  -- cancellation of its context is no entry of the list: `done` is the receipt of it, and until then
  -- the `select` may go on to take ticks, those after the cancellation included.
  unfoldable pub heartbeat : Text → Text → Duration → List Beat → W → Bool × W
  heartbeat key lock_value lock_ttl [] w = (true, w)
  heartbeat key lock_value lock_ttl (done ∷ beats) w = (false, w)
  heartbeat key lock_value lock_ttl (tick ∷ beats) w =
      let (r, w') = b.extend key lock_value lock_ttl w in
      let rest = heartbeat key lock_value lock_ttl beats w' in
      elim r [ ok extended ↦ if extended then rest else (false, w') | err e ↦ (false, w') ]

  -- The loader, with the heartbeat's rounds before and after its effect. Those after it include the
  -- rounds between the cancellation, which follows the loader, and the receipt of it.
  unfoldable pub load_under_heartbeat :
      Text → Text → Duration → List Beat → List Beat → Action W V → Action W V
  load_under_heartbeat key lock_value lock_ttl before after loader w =
      let (alive, w₁) = heartbeat key lock_value lock_ttl before w in
      let (r, w₂) = loader w₁ in
      let (_, w₃) = heartbeat key lock_value lock_ttl after w₂ in (r, if alive then w₃ else w₂)

  -- What follows the loader.
  unfoldable pub store : Text → Duration → Result (Option V) × W → Result (Option V) × W
  store key expiration (err e, w) = (err (wrap (bytes "loader failed") e), w)
  store key expiration (ok none, w) = (err (fresh (bytes "loader returned nil result")), w)
  store key expiration (ok (some v), w) = (ok (some v), (b.set key (some v) expiration w).1)

  -- From the acquired lock up to the deferred release.
  unfoldable pub while_held :
      Text → Text → Duration → Duration → List Beat → List Beat → Action W V → Action W V
  while_held key lock_value expiration lock_ttl before after loader w =
      let (r, w₁) = b.get key w in
      let miss =
        store key expiration
          (load_under_heartbeat key lock_value lock_ttl before after loader w₁) in
      elim r [ ok v ↦ (ok v, w₁) | err _ ↦ miss ]

  -- The deferred function releases the lock, and its error is only logged.
  unfoldable pub with_release : Text → Text → Action W V → Action W V
  with_release key lock_value body w = let (r, w') = body w in (r, (b.release key lock_value w').1)

  unfoldable pub get_or_set_locked :
      LockConfig
      → Retry W V
      → Text
      → Text
      → Action W V
      → Duration
      → Duration
      → List Beat
      → List Beat
      → Action W V
  get_or_set_locked cfg retry value key loader expiration lock_ttl before after w =
      let ttl = effective_lock_ttl cfg lock_ttl in
      let (r, w₁) = b.acquire key ttl value w in
      elim r [
        | err e ↦ (err (wrap (bytes "lock acquisition failed") e), w₁)
        | ok (lock_value, acquired) ↦
            if acquired
            then with_release key lock_value
                (while_held key lock_value expiration ttl before after loader) w₁
            else wait_for_cache cfg.lock_max_wait retry key w₁
      ]

  -- `ctx_done` leaves the flight to end on its own: the world is the one that it leaves then.
  select : Selected → Result (Option V) × W → Result (Option V) × W
  select received (r, w) = (r, w)
  select (ctx_done e) (r, w) = (err e, w)

  unfoldable pub get_or_set_with_lock :
      LockConfig
      → Retry W V
      → (Text → Action W V → Action W V)
      → Selected
      → Text
      → Text
      → Action W V
      → Duration
      → Duration
      → List Beat
      → List Beat
      → Action W V
  unfolding select
  get_or_set_with_lock cfg retry flight selected value key loader expiration lock_ttl before after
        w =
      let (r, w₁) = b.get key w in
      let body = get_or_set_locked cfg retry value key loader expiration lock_ttl before after in
      elim r [
        | ok v ↦ (ok v, w₁)
        | err e ↦
            if as_not_found e
            then select selected (flight key body w₁)
            else (err (wrap (bytes "cache get error") e), w₁)
      ]
