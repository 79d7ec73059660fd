-- ===== src/Carts/Memcached/Runs.antt =====
-- What a client of `MemcachedCart` reads after any sequence of calls.
use nyro.Base.{List, ◌≡◌, false}
use nyro.Base.Text.{Text}
use nyro.Errors.{Error, err, as_not_found}
use nyro.Carts.Json.{Json}
use nyro.Carts.Guard.{LockConfig, Retry, Action, Beat, Selected}
use nyro.Carts.Redis.Server.{Contents}
use nyro.Carts.Contract.{Sees, SeesFlag}
use nyro.Carts.Contract.Runs.{Call, AllCounted, Lands, run, replay, reads_replayed}
use nyro.Carts.Memcached.{Client, get, exists}
use nyro.Carts.Memcached.Load.{memcached_cart}
use nyro.Carts.Memcached.Ownership.{Serves, Counts}
use nyro.Carts.Memcached.Values.{values, denotes}
use nyro.Carts.Memcached.Keeps.{MemcachedCart-Keeps}

module _ {W V : Type 0} (c : Client W) (json : Json V) (view : W → Contents)
    (serves : Serves c view) where
  -- After any sequence of calls on `MemcachedCart`, of which those that write a key succeed, with
  -- expirations that Memcached counts, which are none and those up to thirty days, while others may
  -- fail, the reads of the key see what the same calls make of a function from keys to values:
  -- `Get` returns that value or fails, and reports a miss only if there is none; `Exists` answers
  -- whether there is one, or fails. Values are stored as what their JSON denotes, whose errors are not
  -- those of package carts.
  pub reads_replayed_memcached :
      (foreign : (s : Text) (e : Error) → json.unmarshal s ≡ err e → as_not_found e ≡ false)
      (cfg : LockConfig) (retry : Retry W V) (flight : Text → Action W V → Action W V)
      (selected : Selected) (value : Text) (before after : List Beat) (calls : List (Call V))
      (key : Text) (w : W)
      → AllCounted (Counts c) calls key
      → Lands (memcached_cart c json cfg retry flight selected value before after) calls key w
      → let w' = run (memcached_cart c json cfg retry flight selected value before after) calls w in
        Sees (get c json key w').0 (replay (denotes json) calls (values json (view w)) key)
        × SeesFlag (exists c key w').0 (replay (denotes json) calls (values json (view w)) key)
  reads_replayed_memcached foreign cfg retry flight selected value before after =
      reads_replayed (
        MemcachedCart-Keeps c json view serves foreign cfg retry flight selected value before after)
