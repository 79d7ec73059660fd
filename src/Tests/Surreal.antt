-- ===== src/Tests/Surreal.antt =====
-- The SurrealDB cart over the database in memory.
use nyro.Base.{ℕ, ◌≡◌, refl, [], ◌∷◌, some}
use nyro.Base.Duration.{pos}
use nyro.Base.Text.{Text, bytes, text_eq, text_beq}
use nyro.Base.Dict.{lookup, insert}
use nyro.Errors.{fresh, ok, err}
use nyro.Carts.Guard.{Action, Retry}
use nyro.Carts.Redis.{lock_key}
use nyro.Carts.Surreal.{LockEntry, lock_id, get, set}
use nyro.Carts.Surreal.Load.{default_surreal_db_cart_config, get_or_set_locked, wait_for_cache}
use nyro.Carts.Surreal.Stuck.{expired_lock-never_taken}
use nyro.Carts.Surreal.Reference.{Db, reference, entry_at, lock_at, reference-Keeps}

abbrev key : Text
key = bytes "a"

-- A lock that expired at 10, of a holder that never released it.
abbrev dead : LockEntry
dead = record { key = bytes "a:lock"; value = bytes "gone"; expiration = 10 }

abbrev db : Db
db = record { entries = []; locks = (bytes "a:lock", dead) ∷ []; clock = 50 }

abbrev loader : Action Db ℕ
loader w = (ok (some 3), w)

abbrev patient : Retry Db ℕ
patient op w = (err (fresh (bytes "gave up")), w)

program : Unit {0}
unfolding lookup text_beq lock_key reference insert get set
program = tt

expired_lock-never_taken_example :
    (w₁ : Db) × (get_or_set_locked reference default_surreal_db_cart_config patient
        (bytes "mine")
        key
        loader
        (pos 60)
        (pos 0)
        []
        []
        db
      ≡ wait_for_cache reference default_surreal_db_cart_config patient key w₁)
    × (lock_at w₁ (lock_id key) ≡ some dead)
unfolding program
expired_lock-never_taken_example =
    expired_lock-never_taken reference entry_at lock_at reference-Keeps
      default_surreal_db_cart_config patient (bytes "mine") key loader (pos 60) (pos 0) [] [] dead
      db refl refl
