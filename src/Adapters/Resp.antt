-- ===== src/Adapters/Resp.antt =====
-- adapters/redis/adapter.go: the cache over `RedisCart`, method by method. Adapters/OverRedis has its
-- methods as a `cache.Cache`, with those of Dragonfly and KeyDB.
pub mod Ttl
pub mod Multi
use nyro.Base.{
  ◌≡◌, ◌*◌, Bool, true, false, List, [], ◌∷◌, ◌++◌, map, Option, none, some, if◌then◌else◌, arith,
}
use nyro.Base.Duration.{ℤ, pos, negsuc, Duration, is_zero, is_positive, second, hour}
use nyro.Base.Text.{Text, bytes, text_eq}
use nyro.Base.Dict.{Dict, lookup, insert}
use nyro.Errors.{Error, fresh, wrap, Result, ok, err, mapping}
use nyro.Keys.{Key, other, to_string, key_eq}
use nyro.Options.{Option as CacheOption, apply_options}
use nyro.Memory.{Stats}
use nyro.Carts.Json.{Json}
use nyro.Carts.Guard.{LockConfig, Retry, Action, Beat, Selected, get_or_set_with_lock}
use nyro.Carts.Redis
use nyro.Carts.Redis.{Client}
use nyro.Carts.Redis.Locks.{
  redis_backend, RedisCartOption, with_lock_ttl, with_lock_max_wait, new_redis,
}

-- The fields of config.RedisConfig, DragonflyConfig and KeyDBConfig that the adapter reads after it
-- has dialled.
pub record RespConfig : Type 0 where
  pub default_ttl : Duration
  pub lock_ttl : Duration
  pub lock_max_wait : Duration

-- `Adapter`: the configuration of the cart, which the store holds, and the adapter's own.
pub record Adapter : Type 0 where
  pub cart_config : LockConfig
  pub config : RespConfig

abbrev pub default_ttl : Duration
default_ttl = pos (24 * hour)

abbrev pub default_lock_ttl : Duration
default_lock_ttl = pos (10 * second)

unfoldable pub effective_ttl : Duration → Duration → Duration
effective_ttl requested configured =
    if is_positive requested
    then requested
    else if is_positive configured
    then configured
    else default_ttl

-- The options that `New` passes to `NewRedis`, and the configuration that they make.
unfoldable pub store_opts : RespConfig → List RedisCartOption
store_opts cfg =
    (if is_positive cfg.lock_ttl then with_lock_ttl cfg.lock_ttl ∷ [] else [])
    ++ (if is_positive cfg.lock_max_wait then with_lock_max_wait cfg.lock_max_wait ∷ [] else [])

unfoldable pub cart_config_of : RespConfig → LockConfig
unfolding store_opts new_redis
cart_config_of cfg = new_redis (store_opts cfg)

-- `keyMap[sk]`, where a missing string gives the nil interface.
abbrev nil_key : Key
nil_key = other 0 (bytes "<nil>")

key_for : Option Key → Key
key_for none = nil_key
key_for (some k) = k

-- `keyMap`: the key that was given last under each string.
unfoldable pub key_map : List Key → Dict Text Key → Dict Text Key
key_map [] m = m
key_map (k ∷ keys) m = key_map keys (insert (to_string k) k m)

module _ {V : Type 0} where
  -- The loop over the results of the cart.
  unfoldable pub relabel :
      Dict Text Key → Dict Text (Option V) → Dict Key (Option V) → Dict Key (Option V)
  unfolding key_for
  relabel m [] out = out
  relabel m ((sk, v) ∷ res) out = relabel m res (insert (key_for (lookup sk m)) v out)

  unfoldable pub relabelled :
      List Key → Result (Dict Text (Option V)) → Result (Dict Key (Option V))
  unfolding relabel key_map
  relabelled keys (ok res) = ok (relabel (key_map keys []) res [])
  relabelled keys (err e) = err e

  -- The loop that builds `storeItems`.
  unfoldable pub store_items : Dict Key (Option V) → Dict Text (Option V) → Dict Text (Option V)
  store_items [] out = out
  store_items ((k, v) ∷ items) out = store_items items (insert (to_string k) v out)

expiration_of : List CacheOption → RespConfig → Duration
unfolding effective_ttl
expiration_of options config = effective_ttl (apply_options options).expiration config.default_ttl

module _ {W V : Type 0} (c : Client W) (json : Json V) (a : Adapter) where
  unfoldable pub get : Key → W → Result (Option V) × W
  get key = Redis.get c json (to_string key)

  unfoldable pub set : Key → Option V → List CacheOption → W → Result (Unit {0}) × W
  unfolding expiration_of
  set key v options = Redis.set c json (to_string key) v (expiration_of options a.config)

  unfoldable pub delete : Key → W → Result (Unit {0}) × W
  delete key = Redis.delete c json (to_string key)

  unfoldable pub clear : W → Result (Unit {0}) × W
  clear = Redis.clear c json

  unfoldable pub exists : Key → W → Result Bool × W
  exists key = Redis.exists c json (to_string key)

  unfoldable pub get_or_set :
      Retry W V
      → (Text → Action W V → Action W V)
      → Selected
      → Text
      → Key
      → Action W V
      → List CacheOption
      → List Beat
      → List Beat
      → Action W V
  unfolding expiration_of
  get_or_set retry flight selected value key loader options before after =
      let lock_ttl = if is_zero a.config.lock_ttl then default_lock_ttl else a.config.lock_ttl in
      get_or_set_with_lock (redis_backend c json) a.cart_config retry flight selected value
        (to_string key) loader (expiration_of options a.config) lock_ttl before after

  unfoldable pub get_multi : List Key → W → Result (Dict Key (Option V)) × W
  unfolding relabelled
  get_multi [] w = (ok [], w)
  get_multi (key ∷ keys) w =
      mapping (relabelled (key ∷ keys)) (Redis.get_multi c json (map to_string (key ∷ keys)) w)

  -- `again` is the order of the cart's second iteration over the items.
  unfoldable pub set_multi :
      Dict Key (Option V) → List Text → List CacheOption → W → Result (Unit {0}) × W
  unfolding store_items expiration_of
  set_multi [] again options w = (ok tt, w)
  set_multi (item ∷ items) again options w =
      Redis.set_multi c json (store_items (item ∷ items) []) again (expiration_of options a.config)
        w

  unfoldable pub delete_multi : List Key → W → Result (Unit {0}) × W
  delete_multi [] w = (ok tt, w)
  delete_multi (key ∷ keys) w = Redis.delete_multi c json (map to_string (key ∷ keys)) w

  unfoldable pub health_check : W → Result (Unit {0}) × W
  health_check = Redis.health_check c json

  connected : Result (Unit {0}) → Result Stats
  connected (ok u) = ok (record { type = bytes "redis"; connected = true; info = [] })
  connected (err e) = ok (record { type = bytes "redis"; connected = false; info = [] })

  unfoldable pub get_stats : W → Result Stats × W
  unfolding connected
  get_stats w = mapping connected (Redis.health_check c json w)

  unfoldable pub close : W → Result (Unit {0}) × W
  close = Redis.close c json

-- `New` on the client that it dialled.
unfoldable pub new : {W : Type 0} → Client W → RespConfig → W → Result Adapter × W
new c cfg w = mapping (made cfg) (c.ping w)
  where
    made : RespConfig → Result (Unit {0}) → Result Adapter
    made cfg (ok u) = ok (record { cart_config = cart_config_of cfg; config = cfg })
    made cfg (err e) = err (wrap (bytes "redis: ping failed") e)
