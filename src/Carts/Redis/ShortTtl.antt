-- ===== src/Carts/Redis/ShortTtl.antt =====
-- The lock of `RedisCart` under a TTL below a second.
use nyro.Base.{◌≡◌, true, false, [], ◌∷◌, Option, none, some, arith, eq_iff, eq_self, inl, inr}
use nyro.Base.Duration.{ℤ, pos, Duration, to_seconds, is_positive, int_eq}
use nyro.Base.Text.{Text, text_eq}
use nyro.Errors.{Result, ok, err, Result-cases}
use nyro.Carts.Json.{Json}
use nyro.Carts.Guard.{heartbeat, tick}
use nyro.Carts.Redis.{Client, extend_lock_script, text, number, lock_key}
use nyro.Carts.Redis.Locks.{redis_backend, extend_lock, extended}
use nyro.Carts.Redis.Server.{Contents, Serves, holder_of}

extended_one : (r : Result (Option ℤ)) → extended r ≡ ok true → r ≡ ok (some (pos 1))
unfolding extended
extended_one (err e) h = cc
extended_one (ok none) h = cc
extended_one (ok (some n)) h = ground (arith, eq_iff n (pos 1))

module _ {W V : Type 0} (c : Client W) (json : Json V) (view : W → Contents)
    (serves : Serves c view) where
  extend_lock-below_second :
      (k v : Text) (d : Duration) (w : W)
      → is_positive (to_seconds d) ≡ false
      → (extend_lock c k v d w).0 ≡ ok true
      → holder_of view (extend_lock c k v d w).1 k ≡ none
  unfolding extend_lock extended
  extend_lock-below_second k v d w short said =
      rw
        (serves.extend_expires (lock_key k) v (to_seconds d) w short (
          extended_one
            (c.eval extend_lock_script (lock_key k ∷ []) (text v ∷ number (to_seconds d) ∷ []) w).0
            said))
        (rw (eq_self (lock_key k)))

  -- `ExtendLock` sends the TTL in whole seconds, rounded down, so for a lock TTL below a second the
  -- script runs `EXPIRE` with 0, which deletes the lock: a heartbeat that has taken a tick, and
  -- believes that the lock is extended since it goes on, has left the lock free for any other process,
  -- while its loader still runs.
  pub heartbeat-below_second :
      (k v : Text) (d : Duration) (w : W)
      → is_positive (to_seconds d) ≡ false
      → (heartbeat (redis_backend c json) k v d (tick ∷ []) w).0 ≡ true
      → holder_of view (heartbeat (redis_backend c json) k v d (tick ∷ []) w).1 k ≡ none
  unfolding heartbeat
  heartbeat-below_second k v d w short alive = elim (Result-cases (extend_lock c k v d w).0) [
    | inr (e, failed) ↦ let ended = rw (failed, heartbeat) at alive in absurd (cc)
    | inl (true, answered) ↦
        rw (answered, heartbeat) (extend_lock-below_second k v d w short answered)
    | inl (false, answered) ↦ let ended = rw (answered, heartbeat) at alive in absurd (cc)
  ]
