-- ===== src/Tests/Memcached.antt =====
-- The Memcached cart over the server in memory.
use nyro.Base.{◌*◌, arith, some, ℕ, ◌≡◌, refl, [], ◌∷◌, none}
use nyro.Base.Text.{bytes, text_eq, text_beq}
use nyro.Base.Dict.{lookup, insert, delete}
use nyro.Errors.{Error, ok, err}
use nyro.Carts.Json.{Json}
use nyro.Carts.Guard.Release.{Owned}
use nyro.Carts.Redis.{lock_key}
use nyro.Carts.Redis.Server.{holder_of}
use nyro.Carts.Redis.Reference.{Store, contents}
use nyro.Base.Duration.{pos, second}
use nyro.Carts.Memcached.Expiry.{set_above_month-lost}
use nyro.Carts.Memcached.{get, set, done_or, release_lock, memcached_backend, unless_miss}
use nyro.Carts.Memcached.Ownership.{MemcachedCart-Owned, Counts, release_lock-frees_other}
use nyro.Carts.Memcached.Reference.{reference, reference-Serves_memcached}
use nyro.Carts.Memcached.Timed.{Timed, timed_contents, timed_reference, timed_reference-Expires}

abbrev codec : Json ℕ
codec = record { marshal = λ v. ok (7 ∷ []); unmarshal = λ t. ok none; raw = λ t. 0 }

MemcachedCart-Owned_example :
    Owned (memcached_backend reference codec) (holder_of contents) (Counts reference)
MemcachedCart-Owned_example =
    MemcachedCart-Owned reference codec contents reference-Serves_memcached

abbrev store : Store
store = (bytes "a:lock", bytes "mine") ∷ []

-- The lock of `a` expires, and another process acquires it.
abbrev between : Store → Store
between w = (bytes "a:lock", bytes "other") ∷ []

release_lock-frees_other_example :
    holder_of contents
      (release_lock reference between (bytes "a") (bytes "mine") store).1
      (bytes "a")
    ≡ none
unfolding release_lock unless_miss reference lookup insert delete lock_key text_beq
release_lock-frees_other_example =
    release_lock-frees_other reference contents reference-Serves_memcached between (bytes "a")
      (bytes "mine") (bytes "other") store refl refl refl

-- A server in the year 2023.
abbrev timed_store : Timed
timed_store = record { clock = 1700000000; store = (bytes "k", bytes "old") ∷ [] }

-- An expiration of thirty-one days.
set_above_month-lost_example :
    let w' =
      (set timed_reference codec (bytes "k") (some 1) (pos (2678400 * second)) timed_store).1 in
    (timed_contents w' (bytes "k") ≡ none)
    × ((e : Error) × ((get timed_reference codec (bytes "k") w').0 ≡ err e))
unfolding set timed_reference done_or
set_above_month-lost_example =
    set_above_month-lost timed_reference codec timed_contents (λ t. t.clock) timed_reference-Expires
      (bytes "k") (some 1) (2678400 * second) timed_store (omega arith) (omega arith) (omega arith)
      refl
