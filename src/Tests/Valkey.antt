-- ===== src/Tests/Valkey.antt =====
-- The Valkey store over the server in memory.
use nyro.Base.{ℕ, ◌≡◌, refl, [], ◌∷◌, ◌⊎◌, Option, none, some}
use nyro.Base.Duration.{pos}
use nyro.Base.Text.{Text, bytes, text_eq, text_beq}
use nyro.Base.Dict.{lookup}
use nyro.Errors.{Error, wrap, not_found_with_cause, as_not_found, Result, ok, err, fresh}
use nyro.Carts.Json.{Json}
use nyro.Carts.Guard.{Action, Retry, tick, effective_lock_ttl}
use nyro.Carts.Guard.Release.{Owned}
use nyro.Carts.Redis.{lock_key}
use nyro.Carts.Redis.Server.{holder_of, InSeconds}
use nyro.Carts.Redis.Locks.{default_redis_cart_config}
use nyro.Carts.Redis.Reference.{Store, contents}
use nyro.Carts.Valkey.{acquire_lock, release_lock, get, set, unless_error}
use nyro.Carts.Valkey.Ownership.{ValkeyStore-Owned}
use nyro.Carts.Valkey.Release.{lock_released_valkey, at_release}
use nyro.Carts.Valkey.Load.{valkey_backend, get_or_set_locked, get_or_set_with_lock}
use nyro.Carts.Valkey.Laws.{get_or_set_with_lock-held}
use nyro.Carts.Valkey.Reference.{reference, reference-Serves_valkey, reference-Locks}

encode : Option ℕ → Result Text
encode none = ok []
encode (some n) = ok (n ∷ [])

parse : Text → Result (Option ℕ)
parse [] = ok none
parse (n ∷ []) = ok (some n)
parse t = err (fresh (bytes "invalid character"))

abbrev codec : Json ℕ
unfolding encode parse
codec = record { marshal = encode; unmarshal = parse; raw = λ t. 0 }

-- Another process holds the lock of `b`.
abbrev store : Store
store = (bytes "b:lock", bytes "other") ∷ []

abbrev loader : Action Store ℕ
loader w = (ok (some 3), w)

abbrev patient : Retry Store ℕ
patient op w = (ok (some 4), w)

program : Unit {0}
unfolding encode parse get set lookup text_beq lock_key not_found_with_cause as_not_found reference
    unless_error
program = tt

get_or_set_with_lock-held_example :
    (e : Error) × ((get_or_set_with_lock reference codec default_redis_cart_config patient
        (bytes "mine")
        (bytes "b")
        loader
        (pos 60)
        (pos 0)
        []
        []
        store).0
      ≡ err (wrap (bytes "lock acquisition failed") (wrap (bytes "failed to acquire lock") e)))
unfolding program
get_or_set_with_lock-held_example =
    get_or_set_with_lock-held reference codec contents reference-Serves_valkey
      default_redis_cart_config patient (bytes "mine") (bytes "b") (bytes "other") loader (pos 60)
      (pos 0) [] [] store refl refl refl

backend-Owned_valkey : Owned (valkey_backend reference codec) (holder_of contents) InSeconds
backend-Owned_valkey =
    ValkeyStore-Owned reference codec contents reference-Serves_valkey reference-Locks

ValkeyStore-Owned_example : Owned (valkey_backend reference codec) (holder_of contents) InSeconds
ValkeyStore-Owned_example =
    ValkeyStore-Owned reference codec contents reference-Serves_valkey reference-Locks

-- The world of the release.
abbrev ended : Store
ended =
    at_release reference codec (holder_of contents) backend-Owned_valkey default_redis_cart_config
      patient (bytes "mine") (bytes "c") loader (pos 60) (pos 0) (tick ∷ []) [] store (bytes "mine")

lock_released_valkey_example :
    let run =
      get_or_set_locked reference codec default_redis_cart_config patient
        (bytes "mine")
        (bytes "c")
        loader
        (pos 60)
        (pos 0)
        (tick ∷ [])
        []
        store in
    (run.1 ≡ (release_lock reference (bytes "c") (bytes "mine") ended).1)
    × (holder_of contents ended (bytes "c") ≡ some (bytes "mine"))
    × ((holder_of contents run.1 (bytes "c") ≡ none)
        ⊎ ((e : Error) × ((release_lock reference (bytes "c") (bytes "mine") ended).0 ≡ err e)))
unfolding program acquire_lock effective_lock_ttl
lock_released_valkey_example =
    lock_released_valkey reference codec (holder_of contents) backend-Owned_valkey
      default_redis_cart_config patient (bytes "mine") (bytes "c") loader (pos 60) (pos 0)
      (tick ∷ []) [] store refl (λ w. refl) refl
