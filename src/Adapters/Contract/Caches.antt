-- ===== src/Adapters/Contract/Caches.antt =====
-- The caches that keep the contract: those over `RedisCart` and `OlricCart`.
use nyro.Base.{Option}
use nyro.Base.Text.{Text}
use nyro.Base.Duration.{Duration}
use nyro.Carts.Contract.{Values}
use nyro.Carts.Olric
use nyro.Carts.Olric.{OlricCartConfig}
use nyro.Carts.Olric.Reads
use nyro.Carts.Olric.Keeps.{OlricCart-Keeps}
use nyro.Adapters.Olric.{olric_cache}
use nyro.Carts.Json.{Json}
use nyro.Carts.Redis.{Client}
use nyro.Carts.Redis.Server.{Contents, Serves}
use nyro.Carts.Redis.Keeps.{values, denotes, RedisCart-Keeps}
use nyro.Adapters.Resp.{Adapter}
use nyro.Adapters.OverRedis.{Run, redis_cache, dragonfly_cache, keydb_cache}
use nyro.Adapters.Contract.{KeepsKeys, resp_cache-KeepsKeys, keyed_cache-KeepsKeys}

module _ {W V : Type 0} (c : Client W) (json : Json V) (run : Run W V) (a : Adapter)
    (view : W → Contents) (serves : Serves c view) where
  -- Over a Redis server, the caches of Redis, Dragonfly and KeyDB do what the interface of a cache
  -- promises of its keys, which stand for their strings: reads report what is there, and writes that
  -- succeed do what they say. Where several keys of one call have one string, a write stores the item
  -- that comes last, and `GetMulti` returns the value under the key that comes last only.
  pub redis_caches-KeepsKeys :
      KeepsKeys (redis_cache c json run a) (λ w. values c json (view w)) (denotes c json)
      × KeepsKeys (dragonfly_cache c json run a) (λ w. values c json (view w)) (denotes c json)
      × KeepsKeys (keydb_cache c json run a) (λ w. values c json (view w)) (denotes c json)
  unfolding redis_cache dragonfly_cache keydb_cache
  redis_caches-KeepsKeys =
      let keeps = RedisCart-Keeps c json view serves run a.cart_config in
      (
        resp_cache-KeepsKeys keeps a.config _ _,
        resp_cache-KeepsKeys keeps a.config _ _,
        resp_cache-KeepsKeys keeps a.config _ _,
      )

-- Over an Olric grid, the cache of Olric does what the interface of a cache promises of its keys, as
-- those above do.
pub olric_cache-KeepsKeys :
    {W D L V : Type 0} (c : Olric.Client W D L V) (view : D → W → Values V)
    (denotes : Option V → Option V)
    → Reads.Serves c view denotes
    → (cfg : OlricCartConfig) (flight : Text → Olric.Action W D L V → Olric.Action W D L V)
      (sleep : W → W) (value : Text) (ttl : Duration)
    → KeepsKeys (olric_cache c cfg flight sleep value ttl) (λ s. view s.dmap s.world) denotes
unfolding olric_cache
olric_cache-KeepsKeys c view denotes serves cfg flight sleep value ttl =
    keyed_cache-KeepsKeys (OlricCart-Keeps c view denotes serves cfg flight sleep value) ttl _
