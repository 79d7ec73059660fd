-- ===== src/Carts/Redis/Locks.antt =====
-- The distributed lock of `RedisCart`, and the guarded load over it.
use nyro.Base.{foldl, ℕ, Bool, false, List, [], ◌∷◌, Option, none, some, ◌==◌, ◌*◌, ◌/◌, ◌%◌}
use nyro.Base.Duration.{ℤ, pos, int_eq, Duration, to_seconds, second}
use nyro.Base.Text.{Text, bytes}
use nyro.Errors.{wrap, Result, ok, err, mapping}
use nyro.Keys.Decimal.{format_uint}
use nyro.Keys.Format.{hex_digit}
use nyro.Carts.Json.{Json}
use nyro.Carts.Guard.{Backend, LockConfig}
use nyro.Carts.Redis.{
  Client, release_lock_script, extend_lock_script, text, number, lock_key, get, set, done_or,
}

-- `hex.EncodeToString`
hex_encode : List ℕ → Text
unfolding hex_digit
hex_encode [] = []
hex_encode (b ∷ bs) = hex_digit (b / 16) ∷ hex_digit (b % 16) ∷ hex_encode bs

-- `generateLockValue`, from the 16 random bytes or, where reading them fails, the clock.
unfoldable pub generate_lock_value : Option (List ℕ) → ℕ → Text
unfolding hex_encode
generate_lock_value (some random) unix_nano = hex_encode random
generate_lock_value none unix_nano = format_uint unix_nano

unfoldable pub acquired : Text → Result Bool → Result (Text × Bool)
acquired lock_value (ok got) = ok (lock_value, got)
acquired lock_value (err e) = err (wrap (bytes "failed to acquire lock") e)

unfoldable pub extended : Result (Option ℤ) → Result Bool
extended (ok none) = ok false
extended (ok (some n)) = ok (n == pos 1)
extended (err e) = err (wrap (bytes "failed to extend lock") e)

module _ {W : Type 0} (c : Client W) where
  -- `lock_value` is what `generateLockValue` returned.
  unfoldable pub acquire_lock : Text → Duration → Text → W → Result (Text × Bool) × W
  unfolding acquired
  acquire_lock key ttl lock_value w =
      mapping (acquired lock_value) (c.set_nx (lock_key key) lock_value ttl w)

  unfoldable pub release_lock : Text → Text → W → Result (Unit {0}) × W
  unfolding done_or
  release_lock key lock_value w =
      mapping (done_or (bytes "failed to release lock"))
        (c.eval release_lock_script (lock_key key ∷ []) (text lock_value ∷ []) w)

  unfoldable pub extend_lock : Text → Text → Duration → W → Result Bool × W
  unfolding extended
  extend_lock key lock_value ttl w = mapping extended (
      c.eval extend_lock_script (lock_key key ∷ []) (text lock_value ∷ number (to_seconds ttl) ∷ [])
        w)

-- The operations of `RedisCart` that the guarded load calls.
abbrev pub redis_backend : {W V : Type 0} → Client W → Json V → Backend W V
redis_backend c json = record {
  get = get c json;
  set = set c json;
  acquire = acquire_lock c;
  release = release_lock c;
  extend = extend_lock c;
  wait_failed = bytes "waiting for cache population failed";
}

-- `DefaultRedisCartConfig`, as far as the guarded load reads it.
abbrev pub default_redis_cart_config : LockConfig
default_redis_cart_config = record {
  lock_ttl = pos (10 * second);
  lock_max_wait = pos (3 * second);
  lock_renewal_interval = pos 0;
}

-- The options of `NewRedis`, as far as they set what the guarded load reads.
abbrev pub RedisCartOption : Type 0
RedisCartOption = LockConfig → LockConfig

unfoldable pub with_lock_ttl : Duration → RedisCartOption
with_lock_ttl ttl c = record c { lock_ttl = ttl }

unfoldable pub with_lock_max_wait : Duration → RedisCartOption
with_lock_max_wait d c = record c { lock_max_wait = d }

-- The configuration of the cart that `NewRedis` returns.
unfoldable pub new_redis : List RedisCartOption → LockConfig
new_redis opts = foldl (λ cfg opt. opt cfg) default_redis_cart_config opts
