-- ===== src/Tests/Exclusion.antt =====
-- Two processes at the lock of a Redis server.
use nyro.Base.{◌*◌, ℕ, zero, suc, arith, ◌≢◌, ◌≡◌, refl, [], ◌∷◌, none, some, nat_eq}
use nyro.Base.Duration.{pos, second}
use nyro.Base.Text.{Text, bytes, text_eq, text_beq}
use nyro.Base.Dict.{lookup, insert}
use nyro.Errors.{sentinel, deadline_exceeded, ok, err}
use nyro.Carts.Json.{Json}
use nyro.Carts.Guard.{Backend, Action, Retry, tick, get_or_set_locked, effective_lock_ttl}
use nyro.Carts.Guard.Processes.{
  outside, holding, expired, lapse, entered, update, System, looks_up, acquires, loads, expires,
  Steps, here, later, Inv,
}
use nyro.Carts.Guard.Exclusion.{one_loader_at_a_time, release-of_expired, Step-Inv, Reach-Inv}
use nyro.Carts.Guard.Runs.{get_or_set_locked-Steps}
use nyro.Carts.Redis.{lock_key, get}
use nyro.Carts.Redis.Locks.{redis_backend, default_redis_cart_config, acquire_lock, acquired}
use nyro.Carts.Redis.Server.{holder_of, RedisCart-Owned, InSeconds}
use nyro.Carts.Redis.Reference.{Store, contents, reference, reference-Serves}

abbrev codec : Json ℕ
codec = record { marshal = λ v. ok (7 ∷ []); unmarshal = λ t. ok none; raw = λ t. 0 }

abbrev backend : Backend Store ℕ
backend = redis_backend reference codec

-- Both processes miss; process 0 acquires the lock, process 1 does not, and 0 loads.
contended :
    (s : System Store) × Steps backend
      (holder_of contents)
      InSeconds
      (bytes "a")
      (record { world = []; pc = λ i. outside })
      s
unfolding entered acquire_lock acquired reference lookup insert text_beq lock_key get
contended = (
  _,
  later
      (later
        (later (later here (looks_up 0))
          (acquires 0 (pos (9 * second)) (bytes "mine") refl refl (λ j v h. cc)))
        (acquires 1 (pos (9 * second)) (bytes "yours") refl refl (λ j v h. λ e. cc)))
      (loads 0 (bytes "mine") (λ w. (ok (some 3), w)) refl (λ w. refl)),
)

one_loader_at_a_time_example :
    (◌≡◌ {A = ℕ} 0 0) × (holder_of contents contended.0.world (bytes "a") ≡ some (bytes "mine"))
unfolding contended entered acquire_lock acquired reference lookup insert text_beq lock_key get
one_loader_at_a_time_example =
    one_loader_at_a_time backend (holder_of contents) (bytes "a")
      (RedisCart-Owned reference codec contents reference-Serves) contended.1 0 0 (bytes "mine")
      (bytes "mine") refl refl

abbrev loader : Action Store ℕ
loader w = (ok (some 3), w)

abbrev impatient : Retry Store ℕ
impatient op w = (err (sentinel deadline_exceeded), w)

abbrev start : System Store
start = record { world = []; pc = λ i. outside }

get_or_set_locked-Steps_example :
    Steps backend (holder_of contents) InSeconds (bytes "a") start (record {
      world =
          (get_or_set_locked backend default_redis_cart_config impatient
            (bytes "mine")
            (bytes "a")
            loader
            (pos 60)
            (pos 0)
            (tick ∷ [])
            []
            []).1;
      pc = update (update (λ i. outside) 0 (holding (bytes "mine"))) 0 outside;
    })
unfolding acquire_lock acquired reference lookup insert text_beq lock_key effective_lock_ttl
get_or_set_locked-Steps_example =
    get_or_set_locked-Steps backend (holder_of contents) InSeconds (bytes "a")
      default_redis_cart_config impatient (bytes "mine") (bytes "mine") loader (pos 60) (pos 0)
      (tick ∷ []) [] start 0 refl (λ w. refl) refl refl (λ j v h. cc)

-- Process 0 acquires the lock.
abbrev won : System Store
won = record {
  world = (backend.acquire (bytes "a") (pos (9 * second)) (bytes "mine") start.world).1;
  pc =
      update start.pc 0
        (entered (backend.acquire (bytes "a") (pos (9 * second)) (bytes "mine") start.world).0);
}

Step-Inv_example : Inv backend (holder_of contents) InSeconds (bytes "a") won
Step-Inv_example =
    Step-Inv backend (holder_of contents) (bytes "a")
      (RedisCart-Owned reference codec contents reference-Serves)
      (acquires 0 (pos (9 * second)) (bytes "mine") refl refl (λ j v h. cc))
      (Reach-Inv backend (holder_of contents) (bytes "a")
        (RedisCart-Owned reference codec contents reference-Serves) here)

-- The second lock value is not that of process 0, whose lock has expired.
differs :
    (j : ℕ) (v : Text)
    → lapse (update (λ i. outside) 0 (holding (bytes "mine")) j) ≡ expired v
    → holding (bytes "yours") ≢ holding v
differs zero v h e = ground arith
differs (suc j) v h e = ground arith

-- Process 0 acquires the lock and starts its loader; the lock expires, and process 1 acquires it.
overlapping :
    (s : System Store) × Steps backend
      (holder_of contents)
      InSeconds
      (bytes "a")
      (record { world = []; pc = λ i. outside })
      s
unfolding entered acquire_lock acquired reference lookup insert text_beq lock_key
overlapping = (
  _,
  later
      (later (later here (acquires 0 (pos (9 * second)) (bytes "mine") refl refl (λ j v h. cc)))
        (expires [] refl))
      (acquires 1 (pos (9 * second)) (bytes "yours") refl refl (λ j v h e. differs j v h e)),
)

release-of_expired_example :
    holder_of contents
      (backend.release (bytes "a") (bytes "mine") overlapping.0.world).1
      (bytes "a")
    ≡ some (bytes "yours")
unfolding overlapping entered acquire_lock acquired reference lookup insert text_beq lock_key
release-of_expired_example =
    release-of_expired backend (holder_of contents) (bytes "a")
      (RedisCart-Owned reference codec contents reference-Serves) overlapping.1 1 0 (bytes "yours")
      (bytes "mine") refl refl
