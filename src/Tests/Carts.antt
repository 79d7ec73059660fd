-- ===== src/Tests/Carts.antt =====
-- The Redis cart and the guarded load over the server in memory.
use nyro.Base.{ℕ, ◌≡◌, ◌≢◌, refl, ◌⊎◌, List, [], ◌∷◌, Option, none, some, ◌*◌}
use nyro.Base.Duration.{pos, second, millisecond}
use nyro.Base.Text.{Text, bytes, text_eq, text_beq}
use nyro.Base.Dict.{Dict, lookup, insert, delete}
use nyro.Errors.{
  Error, sentinel, deadline_exceeded, fresh, is, as_not_found, not_found_with_cause, Result, ok,
  err, wrap,
}
use nyro.Carts.Json.{Json}
use nyro.Carts.Guard.{
  Action, Retry, operation, tick, get_or_set_locked, wait_for_cache, effective_lock_ttl, heartbeat,
}
use nyro.Carts.Guard.Release.{Owned, lock_released, no_load_while_held, at_release}
use nyro.Carts.Redis
use nyro.Carts.Redis.{lock_key, decode, done_or}
use nyro.Carts.Redis.Locks.{
  redis_backend, default_redis_cart_config, acquire_lock, release_lock, acquired, extend_lock,
}
use nyro.Carts.Redis.Server.{write_all, RedisCart-Owned, InSeconds, holder_of}
use nyro.Carts.Redis.ShortTtl.{heartbeat-below_second}
use nyro.Carts.Redis.Contents.{set_multi_all_or_none, Spells}
use nyro.Carts.Redis.Reference.{Store, contents, reference, reference-Serves}

encode : Option ℕ → Result Text
encode none = ok []
encode (some n) = ok (n ∷ [])

parse : Text → Result (Option ℕ)
parse [] = ok none
parse (n ∷ []) = ok (some n)
parse t = err (fresh (bytes "invalid character"))

-- Values are numbers, and the encoding of `n` is one byte.
abbrev codec : Json ℕ
unfolding encode parse
codec = record { marshal = encode; unmarshal = parse; raw = λ t. 0 }

abbrev store : Store
store = (bytes "a", 7 ∷ []) ∷ (bytes "b:lock", bytes "other") ∷ []

program : Unit {0}
unfolding encode parse Redis.get Redis.set decode done_or lookup insert delete text_beq lock_key
    acquire_lock acquired release_lock effective_lock_ttl reference operation is as_not_found
    not_found_with_cause
program = tt

abbrev items : Dict Text (Option ℕ)
items = (bytes "x", some 1) ∷ (bytes "y", some 2) ∷ []

set_multi_all_or_none_example :
    let (r, w') =
      Redis.set_multi reference codec items (bytes "y" ∷ bytes "x" ∷ []) (pos 5) store in
    ((contents w' ≡ contents store) × ((items ≡ []) ⊎ (r ≢ ok tt)))
    ⊎ ((args : List (Text × Text)) × Spells codec items args
        × (contents w' ≡ write_all args (contents store)))
set_multi_all_or_none_example =
    set_multi_all_or_none reference codec contents reference-Serves items
      (bytes "y" ∷ bytes "x" ∷ []) (pos 5) store

backend-Owned : Owned (redis_backend reference codec) (holder_of contents) InSeconds
backend-Owned = RedisCart-Owned reference codec contents reference-Serves

RedisCart-Owned_example : Owned (redis_backend reference codec) (holder_of contents) InSeconds
RedisCart-Owned_example = RedisCart-Owned reference codec contents reference-Serves

abbrev loader : Action Store ℕ
loader w = (ok (some 3), w)

-- A policy that waits no longer than its context.
abbrev impatient : Retry Store ℕ
impatient op w = (err (sentinel deadline_exceeded), w)

-- The world of the release.
abbrev ended : Store
ended =
    at_release (redis_backend reference codec) (holder_of contents) backend-Owned
      default_redis_cart_config impatient (bytes "mine") (bytes "c") loader (pos 60) (pos 0)
      (tick ∷ []) (tick ∷ []) store (bytes "mine")

lock_released_example :
    let run =
      get_or_set_locked
        (redis_backend reference codec)
        default_redis_cart_config
        impatient
        (bytes "mine")
        (bytes "c")
        loader
        (pos 60)
        (pos 0)
        (tick ∷ [])
        (tick ∷ [])
        store in
    (run.1 ≡ ((redis_backend reference codec).release (bytes "c") (bytes "mine") ended).1)
    × (holder_of contents ended (bytes "c") ≡ some (bytes "mine"))
    × ((holder_of contents run.1 (bytes "c") ≡ none)
        ⊎ ((e : Error) × (((redis_backend reference codec).release
                (bytes "c")
                (bytes "mine")
                ended).0
              ≡ err e)))
unfolding program
lock_released_example =
    lock_released (redis_backend reference codec) (holder_of contents) backend-Owned
      default_redis_cart_config impatient (bytes "mine") (bytes "c") loader (pos 60) (pos 0)
      (tick ∷ []) (tick ∷ []) store refl (λ w. refl) refl

no_load_while_held_example :
    let w₁ =
      ((redis_backend reference codec).acquire
        (bytes "b")
        (pos (10 * second))
        (bytes "mine")
        store).1 in
    let call =
      get_or_set_locked
        (redis_backend reference codec)
        default_redis_cart_config
        impatient
        (bytes "mine")
        (bytes "b")
        loader
        (pos 60)
        (pos 0)
        []
        []
        store in
    (holder_of contents w₁ (bytes "b") ≡ some (bytes "other"))
    × (((e : Error) × (call ≡ (err (wrap (bytes "lock acquisition failed") e), w₁)))
        ⊎ (call
            ≡ wait_for_cache
                (redis_backend reference codec)
                (pos (3 * second))
                impatient
                (bytes "b")
                w₁))
unfolding program
no_load_while_held_example =
    no_load_while_held (redis_backend reference codec) (holder_of contents) backend-Owned
      default_redis_cart_config impatient (bytes "mine") (bytes "b") loader (pos 60) (pos 0) [] []
      store refl refl

-- A lock of 200 milliseconds that its heartbeat extends.
abbrev short : ℕ
short = 200 * millisecond

abbrev locked : Store
locked = (lock_key (bytes "d"), bytes "mine") ∷ []

heartbeat-below_second_example :
    holder_of contents
      (heartbeat
        (redis_backend reference codec)
        (bytes "d")
        (bytes "mine")
        (pos short)
        (tick ∷ [])
        locked).1
      (bytes "d")
    ≡ none
unfolding program heartbeat extend_lock
heartbeat-below_second_example =
    heartbeat-below_second reference codec contents reference-Serves (bytes "d") (bytes "mine")
      (pos short) locked refl refl
