-- ===== src/Carts/Memcached/Load.antt =====
-- carts/memcached/memcached.go: the configuration and the guarded load of `MemcachedCart`. The load
-- repeats the text of `RedisCart`, so it is the one of Carts/Guard over the operations of this cart.
use nyro.Base.{foldl, ◌*◌, Bool, List}
use nyro.Base.Duration.{pos, second, Duration}
use nyro.Base.Text.{Text}
use nyro.Carts.Json.{Json}
use nyro.Carts.Cart.{Cart}
use nyro.Carts.Guard
use nyro.Carts.Guard.{LockConfig, Retry, Action, Beat, Selected}
use nyro.Carts.Memcached.{
  Client, memcached_backend, get, set, delete, exists, get_multi, set_multi, delete_multi, clear,
  health_check, close,
}

-- `DefaultMemcachedCartConfig`, as far as the guarded load reads it.
abbrev pub default_memcached_cart_config : LockConfig
default_memcached_cart_config = record {
  lock_ttl = pos (10 * second);
  lock_max_wait = pos (3 * second);
  lock_renewal_interval = pos 0;
}

abbrev pub MemcachedCartOption : Type 0
MemcachedCartOption = LockConfig → LockConfig

unfoldable pub with_lock_ttl : Duration → MemcachedCartOption
with_lock_ttl ttl c = record c { lock_ttl = ttl }

unfoldable pub with_lock_max_wait : Duration → MemcachedCartOption
with_lock_max_wait d c = record c { lock_max_wait = d }

-- The configuration of the cart that `NewMemcached` returns.
unfoldable pub new_memcached : List MemcachedCartOption → LockConfig
new_memcached opts = foldl (λ cfg opt. opt cfg) default_memcached_cart_config opts

module _ {W V : Type 0} (c : Client W) (json : Json V) where
  -- `startLockHeartbeat`, over what its `select` receives.
  unfoldable pub heartbeat : Text → Text → Duration → List Beat → W → Bool × W
  heartbeat = Guard.heartbeat (memcached_backend c json)

  unfoldable pub wait_for_cache : Duration → Retry W V → Text → Action W V
  wait_for_cache = Guard.wait_for_cache (memcached_backend c json)

  module _ (cfg : LockConfig) (retry : Retry W V) where
    unfoldable pub get_or_set_locked :
        Text → Text → Action W V → Duration → Duration → List Beat → List Beat → Action W V
    get_or_set_locked = Guard.get_or_set_locked (memcached_backend c json) cfg retry

    unfoldable pub get_or_set_with_lock :
        (Text → Action W V → Action W V)
        → Selected
        → Text
        → Text
        → Action W V
        → Duration
        → Duration
        → List Beat
        → List Beat
        → Action W V
    get_or_set_with_lock = Guard.get_or_set_with_lock (memcached_backend c json) cfg retry

    -- `MemcachedCart` as a `carts.Cart`, under one run of its guarded load.
    abbrev pub memcached_cart :
        (Text → Action W V → Action W V) → Selected → Text → List Beat → List Beat → Cart W V
    memcached_cart flight selected value before after = record {
      get = get c json;
      set = set c json;
      delete = delete c;
      exists = exists c;
      get_multi = get_multi c json;
      set_multi = set_multi c json;
      delete_multi = delete_multi c;
      clear = clear c;
      health_check = health_check c;
      close = close c;
      get_or_set_with_lock = λ key loader expiration lock_ttl.
          get_or_set_with_lock flight selected value key loader expiration lock_ttl before after;
    }
