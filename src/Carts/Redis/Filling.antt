-- ===== src/Carts/Redis/Filling.antt =====
-- `RedisCart` stores what a guarded load gives it.
use nyro.Base.{◌≡◌, ◌∙◌, refl, ap, ◌⊎◌, inl, inr, Option, some, arith, eq_iff, eq_self, Bool-cases}
use nyro.Base.Duration.{Duration}
use nyro.Base.Text.{Text, text_eq}
use nyro.Errors.{Error, err, Result-cases}
use nyro.Carts.Json.{Json}
use nyro.Carts.Guard.Filling.{Holds}
use nyro.Carts.Contract.{Values}
use nyro.Carts.Redis.{Client, set, get, lock_key}
use nyro.Carts.Redis.Locks.{redis_backend, release_lock}
use nyro.Carts.Redis.Server.{Contents, Serves, run_release_lock_script, holds, lock_key-ne}
use nyro.Carts.Redis.Keeps.{values, denotes, reading, set-Effect, get-Sees}

module _ {W V : Type 0} (c : Client W) (json : Json V) (view : W → Contents)
    (serves : Serves c view) where
  script_keeps : (k v : Text) (m : Contents) → run_release_lock_script (lock_key k) v m k ≡ m k
  unfolding run_release_lock_script
  script_keeps k v m = elim (Bool-cases (holds (m (lock_key k)) v)) [
    | inl mine ↦ rw mine (ground (arith, eq_iff (lock_key k) k, lock_key-ne k))
    | inr other ↦ rw other refl
  ]

  release_keeps : (k v : Text) (w : W) → view (release_lock c k v w).1 k ≡ view w k
  unfolding release_lock
  release_keeps k v w = elim (serves.release_any (lock_key k) v w) [
    | inl same ↦ ap (λ (m : Contents). m k) same
    | inr ran ↦ ap (λ (m : Contents). m k) ran ∙ script_keeps k v (view w)
  ]

  set_stores :
      (k : Text) (v : Option V) (d : Duration) (w : W)
      → (values c json (view (set c json k v d w).1) k ≡ some (denotes c json v))
        ⊎ ((e : Error) × ((set c json k v d w).0 ≡ err e))
  set_stores k v d w = elim (set-Effect c json view serves k v d w) [
    | inr done ↦ inl (ap (λ (f : Values V). f k) done ∙ rw (eq_self k) refl)
    | inl (same, failed) ↦ elim (Result-cases (set c json k v d w).0) [
      | inl (u, done) ↦ absurd (failed done)
      | inr failure ↦ inr failure
    ]
  ]

  -- A guarded load of `RedisCart` works on the values that the server holds, decoded.
  pub RedisCart-Holds : Holds (redis_backend c json) (λ w. values c json (view w)) (denotes c json)
  unfolding get
  RedisCart-Holds = record {
    get_keeps = λ k w. ap (λ (m : Contents). values c json m k) (serves.get_keeps k w);
    get_sees = get-Sees c json view serves;
    set_stores = set_stores;
    release_keeps = λ k v w. ap (reading c json) (release_keeps k v w);
  }
