-- ===== src/Adapters/Memcached.antt =====
-- adapters/memcached/adapter.go: the cache over `MemcachedCart`.
use nyro.Base.{◌≡◌, refl, List, [], ◌∷◌}
use nyro.Base.Duration.{Duration}
use nyro.Base.Text.{Text, bytes}
use nyro.Keys.{Key}
use nyro.Options.{Option as CacheOption}
use nyro.Cache.{Cache}
use nyro.Carts.Json.{Json}
use nyro.Carts.Guard
use nyro.Carts.Guard.{
  LockConfig, Retry, Action, Beat, Selected, effective_lock_ttl, get_or_set_locked,
}
use nyro.Carts.Memcached.{Client}
use nyro.Carts.Memcached.Load.{
  MemcachedCartOption, new_memcached, memcached_cart, get_or_set_with_lock, with_lock_ttl,
}
use nyro.Adapters.Keyed.{configured_ttl, keyed_cache, get_or_set}

-- The configuration of the cart, and the adapter's TTL.
pub record Adapter : Type 0 where
  pub cart_config : LockConfig
  pub ttl : Duration

-- `New`, after it has made the client.
unfoldable pub new : Duration → List MemcachedCartOption → Adapter
unfolding configured_ttl new_memcached
new default_ttl opts = record { cart_config = new_memcached opts; ttl = configured_ttl default_ttl }

module _ {W V : Type 0} (c : Client W) (json : Json V) (retry : Retry W V)
    (flight : Text → Action W V → Action W V) (selected : Selected) (value : Text)
    (before after : List Beat) where
  -- The adapter's methods. The parameters are those of the one run of the guarded load in `GetOrSet`.
  unfoldable pub memcached_cache : Adapter → Cache W V
  memcached_cache a =
      keyed_cache (memcached_cart c json a.cart_config retry flight selected value before after)
        a.ttl (bytes "memcached")

  -- `New` takes the options of the cart, but `WithLockTTL` has no effect: `GetOrSet` always asks for
  -- a lock of `DefaultLockTTL`, and the cart's own lock TTL is only read where none is asked for.
  pub get_or_set-with_lock_ttl :
      (default_ttl ttl ttl' : Duration) (key : Key) (loader : Action W V)
      (options : List CacheOption) (w : W)
      → (memcached_cache (new default_ttl (with_lock_ttl ttl ∷ []))).get_or_set key loader options w
        ≡ (memcached_cache (new default_ttl (with_lock_ttl ttl' ∷ []))).get_or_set key loader
            options w
  unfolding memcached_cache new get_or_set get_or_set_with_lock with_lock_ttl
      Guard.get_or_set_with_lock get_or_set_locked effective_lock_ttl
  get_or_set-with_lock_ttl default_ttl ttl ttl' key loader options w = refl
