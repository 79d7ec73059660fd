-- ===== src/Adapters/OverRedis.antt =====
-- adapters/redis/adapter.go, adapters/dragonfly/adapter.go and adapters/keydb/adapter.go: the caches
-- over `RedisCart`.
use nyro.Base.{List, [], ◌++◌, ◌==◌, if◌then◌else◌, Option}
use nyro.Base.Text.{Text, bytes, text_eq}
use nyro.Base.Dict.{Dict}
use nyro.Errors.{Result, ok, err, wrap}
use nyro.Cache.{Cache}
use nyro.Carts.Json.{Json}
use nyro.Carts.Cart.{Cart}
use nyro.Carts.Guard.{LockConfig, Retry, Action, Beat, Selected, get_or_set_with_lock}
use nyro.Carts.Redis
use nyro.Carts.Redis.{Client}
use nyro.Carts.Redis.Locks.{redis_backend}
use nyro.Config.Backends.{
  DialConfig, RedisConfig, DragonflyConfig, KeyDbConfig, RedisOptions, redis_options,
}
use nyro.Adapters.Resp.{RespConfig, Adapter, cart_config_of}
use nyro.Adapters.RespCache.{resp_cache}

-- What is fixed for one run of `GetOrSetWithLock`, and the order of the second iteration of `SetMulti`.
pub record Run (W V : Type 0) : Type 0 where
  pub retry : Retry W V
  pub flight : Text → Action W V → Action W V
  pub selected : Selected
  pub value : Text
  pub before : List Beat
  pub after : List Beat
  pub again : Dict Text (Option V) → List Text

-- `if cfg.Addr == "" { cfg.Addr = DefaultAddr }`
unfoldable pub with_addr : DialConfig → DialConfig
with_addr cfg = record cfg { addr = if cfg.addr == [] then bytes "localhost:6379" else cfg.addr }

module _ {W : Type 0} (type : Text) where
  -- The rest of `New` on the client that was dialled.
  unfoldable pub pinged : Client W → RespConfig → W → Result Adapter × W
  unfolding cart_config_of
  pinged c cfg w =
      let (r, w') = c.ping w in
      elim r [
        | ok _ ↦ (ok (record { cart_config = cart_config_of cfg; config = cfg }), w')
        | err e ↦ (err (wrap (type ++ bytes ": ping failed") e), w')
      ]

  -- `New` with the address by default; `dial` is `goredis.NewClient`.
  unfoldable pub new : (RedisOptions → Client W) → DialConfig → W → Result Adapter × W
  unfolding pinged redis_options with_addr
  new dial cfg = pinged (dial (redis_options (with_addr cfg))) cfg.resp

module _ {W : Type 0} where
  -- `New` of the three adapters. That of Redis leaves an empty address to the client.
  unfoldable pub new_redis_adapter :
      (RedisOptions → Client W) → RedisConfig → W → Result Adapter × W
  unfolding pinged redis_options
  new_redis_adapter dial cfg = pinged (bytes "redis") (dial (redis_options cfg)) cfg.resp

  unfoldable pub new_dragonfly :
      (RedisOptions → Client W) → DragonflyConfig → W → Result Adapter × W
  unfolding new
  new_dragonfly = new (bytes "dragonfly")

  unfoldable pub new_keydb : (RedisOptions → Client W) → KeyDbConfig → W → Result Adapter × W
  unfolding new
  new_keydb = new (bytes "keydb")

module _ {W V : Type 0} (c : Client W) (json : Json V) (run : Run W V) where
  -- `RedisCart` as a `carts.Cart`.
  abbrev pub redis_cart : LockConfig → Cart W V
  redis_cart cfg = record {
    get = Redis.get c json;
    set = Redis.set c json;
    delete = Redis.delete c json;
    exists = Redis.exists c json;
    get_multi = Redis.get_multi c json;
    set_multi = λ items. Redis.set_multi c json items (run.again items);
    delete_multi = Redis.delete_multi c json;
    clear = Redis.clear c json;
    health_check = Redis.health_check c json;
    close = Redis.close c json;
    get_or_set_with_lock = λ key loader expiration lock_ttl.
        get_or_set_with_lock (redis_backend c json) cfg run.retry run.flight run.selected run.value
          key loader expiration lock_ttl run.before run.after;
  }

  -- The methods of the adapters.
  unfoldable pub redis_cache : Adapter → Cache W V
  redis_cache a =
      resp_cache (redis_cart a.cart_config) a.config (bytes "redis") (bytes "redis: store is nil")

  unfoldable pub dragonfly_cache : Adapter → Cache W V
  dragonfly_cache a =
      resp_cache (redis_cart a.cart_config) a.config (bytes "dragonfly")
        (bytes "dragonfly: cart is nil")

  unfoldable pub keydb_cache : Adapter → Cache W V
  keydb_cache a =
      resp_cache (redis_cart a.cart_config) a.config (bytes "keydb") (bytes "keydb: cart is nil")
