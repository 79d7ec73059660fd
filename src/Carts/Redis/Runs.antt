-- ===== src/Carts/Redis/Runs.antt =====
-- What a client of `RedisCart` reads after any sequence of calls.
use nyro.Base.{List}
use nyro.Base.Text.{Text}
use nyro.Carts.Json.{Json}
use nyro.Carts.Guard.{LockConfig}
use nyro.Carts.Contract.{Sees, SeesFlag}
use nyro.Carts.Contract.Runs.{Call, Lands, run, replay, reads_replayed, AllCounted-Always}
use nyro.Carts.Redis.{Client, get, exists}
use nyro.Carts.Redis.Server.{Contents, Serves}
use nyro.Carts.Redis.Keeps.{values, denotes, RedisCart-Keeps}
use nyro.Adapters.OverRedis.{Run, redis_cart}

module _ {W V : Type 0} (c : Client W) (json : Json V) (one_run : Run W V) (cfg : LockConfig)
    (view : W → Contents) (serves : Serves c view) where
  -- After any sequence of `Get`, `Set`, `Delete`, `Exists`, `GetMulti`, `SetMulti`, `DeleteMulti` and
  -- `Clear` on `RedisCart`, of which those that write a key succeed while others may fail, the reads of
  -- the key see what the same calls make of a function from keys to values, on which each acts as its
  -- name says: `Get` returns that value or fails, and reports a miss only if there is none; `Exists`
  -- answers whether there is one, or fails. Values are stored as what their JSON denotes.
  pub reads_replayed_redis :
      (calls : List (Call V)) (key : Text) (w : W)
      → Lands (redis_cart c json one_run cfg) calls key w
      → let w' = run (redis_cart c json one_run cfg) calls w in
        Sees (get c json key w').0 (replay (denotes c json) calls (values c json (view w)) key)
        × SeesFlag
            (exists c json key w').0
            (replay (denotes c json) calls (values c json (view w)) key)
  reads_replayed_redis calls key w =
      reads_replayed (RedisCart-Keeps c json view serves one_run cfg) calls key w
        (AllCounted-Always calls key)
