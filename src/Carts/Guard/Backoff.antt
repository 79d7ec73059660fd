-- ===== src/Carts/Guard/Backoff.antt =====
-- The parameters of the wait in carts/redis/redis.go and carts/valkey/valkey.go: the part of the
-- configuration that `waitForCache` hands to `backoff.Retry`. `F` is float64, which nothing here
-- computes with.
use nyro.Base.{◌*◌}
use nyro.Base.Duration.{Duration, pos, millisecond}
use nyro.Base.Text.{Text}
use nyro.Carts.Guard.{Backend, LockConfig, Retry, Action, wait_for_cache}

-- The whole configuration of a cart.
pub record CartConfig (F : Type 0) : Type 0 where
  pub lock : LockConfig
  pub lock_initial_backoff : Duration
  pub lock_max_backoff : Duration
  pub lock_multiplier : F

-- `backoff.ExponentialBackOff`, as far as it is set.
pub record ExponentialBackOff (F : Type 0) : Type 0 where
  pub initial_interval : Duration
  pub max_interval : Duration
  pub max_elapsed_time : Duration
  pub multiplier : F
  pub randomization_factor : F

module _ {F : Type 0} where
  -- The defaults, at the numbers 2.0 and the configuration that the lock has by default.
  unfoldable pub default_cart_config : F → LockConfig → CartConfig F
  default_cart_config two lock = record {
    lock = lock;
    lock_initial_backoff = pos (50 * millisecond);
    lock_max_backoff = pos (500 * millisecond);
    lock_multiplier = two;
  }

  unfoldable pub with_lock_backoff : Duration → Duration → CartConfig F → CartConfig F
  with_lock_backoff initial max c = record c {
    lock_initial_backoff = initial;
    lock_max_backoff = max;
  }

  unfoldable pub with_lock_multiplier : F → CartConfig F → CartConfig F
  with_lock_multiplier multiplier c = record c { lock_multiplier = multiplier }

  -- `expBackoff` of `waitForCache`, at the number 0.5.
  unfoldable pub exp_backoff : F → CartConfig F → ExponentialBackOff F
  exp_backoff half c = record {
    initial_interval = c.lock_initial_backoff;
    max_interval = c.lock_max_backoff;
    max_elapsed_time = c.lock.lock_max_wait;
    multiplier = c.lock_multiplier;
    randomization_factor = half;
  }

  -- `waitForCache` at a configuration; `retry` is `backoff.Retry` under a policy.
  unfoldable pub wait_with_backoff :
      {W V : Type 0}
      → Backend W V
      → F
      → CartConfig F
      → (ExponentialBackOff F → Retry W V)
      → Text
      → Action W V
  unfolding exp_backoff
  wait_with_backoff b half c retry =
      wait_for_cache b c.lock.lock_max_wait (retry (exp_backoff half c))
