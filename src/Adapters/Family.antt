-- ===== src/Adapters/Family.antt =====
-- `GetMulti` of the caches of Redis, Dragonfly and KeyDB, which delegate to one cart.
use nyro.Base.{◌≡◌, refl, ◌⊎◌, List, [], ◌∷◌, Option, none, some, if◌then◌else◌, ◌==◌}
use nyro.Base.Dict.{Dict, lookup}
use nyro.Errors.{Error, wrap, ok, err}
use nyro.Base.Text.{Text, bytes}
use nyro.Keys.{Key, key_eq, to_string}
use nyro.Carts.Json.{Json}
use nyro.Carts.Redis.{Client}
use nyro.Carts.Redis.Server.{Contents, Serves}
use nyro.Carts.Redis.Contents.{found_at}
use nyro.Adapters.Resp
use nyro.Adapters.Resp.{Adapter}
use nyro.Adapters.Resp.Multi.{last_named, lookup-get_multi_adapter}
use nyro.Adapters.RespCache.{get_multi}
use nyro.Adapters.OverRedis.{Run, redis_cart, dragonfly_cache}

module _ {W V : Type 0} (c : Client W) (json : Json V) (run : Run W V) (a : Adapter) where
  -- The shared text is that of the adapter of Redis.
  pub get_multi-Resp :
      (type : Text) (keys : List Key) (w : W)
      → get_multi (redis_cart c json run a.cart_config) a.config type keys w
        ≡ Resp.get_multi c json a keys w
  unfolding get_multi Resp.get_multi
  get_multi-Resp type [] w = refl
  get_multi-Resp type (key ∷ keys) w = refl

  -- What `Resp.Multi` shows of the adapter of Redis holds of those of Dragonfly and KeyDB: where several
  -- of the keys have one string, only the key given last is in the result.
  pub lookup-get_multi_dragonfly :
      (view : W → Contents) (serves : Serves c view) (keys : List Key) (w : W)
      → ((d : Dict Key (Option V)) × (((dragonfly_cache c json run a).get_multi keys w).0 ≡ ok d)
          × ((j : Key)
              → lookup j d ≡ elim (last_named (to_string j) keys) [
                | none ↦ none
                | some k ↦ if k == j then found_at c json (view w) (to_string j) none else none
              ]))
        ⊎ ((e : Error) × (((dragonfly_cache c json run a).get_multi keys w).0
              ≡ err (wrap (bytes "redis mget failed") e)))
  unfolding dragonfly_cache
  lookup-get_multi_dragonfly view serves keys w =
      rw (get_multi-Resp (bytes "dragonfly") keys w)
        (lookup-get_multi_adapter c json a view serves keys w)
