-- ===== src/Carts/Valkey/Ownership.antt =====
-- The lock of `ValkeyStore` around its guarded load.
use nyro.Base.{
  ◌≡◌, ◌≢◌, refl, ap, inl, inr, true, [], ◌∷◌, Option, none, some, arith, eq_iff, eq_self,
  Option-cases,
}
use nyro.Base.Duration.{ℤ, Duration, to_seconds, is_positive}
use nyro.Keys.Decimal.{format_int}
use nyro.Base.Text.{Text, bytes, text_eq}
use nyro.Errors.{ok, Result-cases}
use nyro.Carts.Json.{Json}
use nyro.Carts.Guard.Release.{Owned}
use nyro.Carts.Redis.{lock_key, release_lock_script, extend_lock_script}
use nyro.Carts.Redis.Server.{
  Contents, write, Maybe, run_release_lock_script, holder_of, lock_key-ne, checks, InSeconds,
}
use nyro.Carts.Valkey.{
  Client, set_nx_command, eval_command, get, set, acquire_lock, acquired_by, release_lock,
  extend_lock, unless_error,
}
use nyro.Carts.Valkey.Laws.{Serves, set_effect}
use nyro.Carts.Valkey.Load.{valkey_backend}

-- The documented behaviour of the commands of the lock: `SET NX` answers OK where it has set a key
-- that did not exist, a script runs in one step, and `EXPIRE` deletes the key unless its number of
-- seconds is positive.
pub record Locks {W R : Type 0} (c : Client W R) (view : W → Contents) : Type 0 where
  pub set_nx_done :
      (k s : Text) (n : ℤ) (w : W)
      → c.error (c.do_ (set_nx_command k s n) w).0 ≡ none
      → c.to_string (c.do_ (set_nx_command k s n) w).0 ≡ ok (bytes "OK")
      → (view w k ≡ none) × (view (c.do_ (set_nx_command k s n) w).1 ≡ write k s (view w))
  pub set_nx_kept :
      (k s : Text) (n : ℤ) (w : W) (u : Text)
      → view w k ≡ some u
      → view (c.do_ (set_nx_command k s n) w).1 ≡ view w
  pub release_done :
      (k v : Text) (w : W)
      → c.error (c.do_ (eval_command release_lock_script k (v ∷ [])) w).0 ≡ none
      → view (c.do_ (eval_command release_lock_script k (v ∷ [])) w).1
        ≡ run_release_lock_script k v (view w)
  pub release_any :
      (k v : Text) (w : W)
      → Maybe
          (view w)
          (run_release_lock_script k v (view w))
          (view (c.do_ (eval_command release_lock_script k (v ∷ [])) w).1)
  pub extend_keeps :
      (k v : Text) (n : ℤ) (w : W)
      → is_positive n ≡ true
      → view (c.do_ (eval_command extend_lock_script k (v ∷ format_int n ∷ [])) w).1 ≡ view w

module _ {W R V : Type 0} (c : Client W R) (json : Json V) (view : W → Contents)
    (serves : Serves c view) (locks : Locks c view) where
  set_keeps_lock :
      (k : Text) (v : Option V) (d : Duration) (w : W)
      → holder_of view (set c json k v d w).1 k ≡ holder_of view w k
  set_keeps_lock k v d w = elim (set_effect c json view serves k v d w) [
    | inl (same, _) ↦ rw same
    | inr (s, encoded, wrote) ↦ rw wrote (ground (arith, eq_iff k (lock_key k), lock_key-ne k))
  ]

  acquire_takes :
      (k : Text) (d : Duration) (v v' : Text) (w : W)
      → InSeconds d
      → (acquire_lock c k d v w).0 ≡ ok (v', true)
      → (holder_of view w k ≡ none) × (holder_of view (acquire_lock c k d v w).1 k ≡ some v')
  unfolding acquire_lock unless_error acquired_by
  acquire_takes k d v v' w l h =
      let r = (c.do_ (set_nx_command (lock_key k) v (to_seconds d)) w).0 in
      elim (Option-cases (c.error r)) [
        | inr (e, failed) ↦ absurd (ground arith)
        | inl clean ↦ elim (Result-cases (c.to_string r)) [
          | inr (e, odd) ↦ absurd (ground arith)
          | inl (str, said) ↦
              let same : (str ≡ bytes "OK") × (v ≡ v') = ground (arith, eq_iff str (bytes "OK")) in
              let (free, written) =
                locks.set_nx_done (lock_key k) v (to_seconds d) w clean (rw same.0 at said) in
              (free, rw written (rw (eq_self (lock_key k)) (ap some same.1)))
        ]
      ]

  acquire_keeps :
      (k : Text) (d : Duration) (v u : Text) (w : W)
      → holder_of view w k ≡ some u
      → holder_of view (acquire_lock c k d v w).1 k ≡ some u
  unfolding acquire_lock
  acquire_keeps k d v u w held = rw (locks.set_nx_kept (lock_key k) v (to_seconds d) w u held) held

  release_frees :
      (k v : Text) (w : W)
      → (release_lock c k v w).0 ≡ ok tt
      → holder_of view w k ≡ some v
      → holder_of view (release_lock c k v w).1 k ≡ none
  unfolding release_lock run_release_lock_script unless_error
  release_frees k v w h held =
      let r = (c.do_ (eval_command release_lock_script (lock_key k) (v ∷ [])) w).0 in
      elim (Option-cases (c.error r)) [
        | inr (e, failed) ↦ absurd (ground arith)
        | inl clean ↦
            rw (locks.release_done (lock_key k) v w clean)
              (rw (held, eq_self v, eq_self (lock_key k)) refl)
      ]

  release_checks :
      (k v : Text) (w : W)
      → holder_of view w k ≢ some v
      → holder_of view (release_lock c k v w).1 k ≡ holder_of view w k
  unfolding release_lock
  release_checks k v w h = elim (locks.release_any (lock_key k) v w) [
    | inl same ↦ rw same
    | inr ran ↦ rw ran (checks (view w) (lock_key k) v h)
  ]

  -- Over a Valkey server the lock of `ValkeyStore` keeps the promises of the guarded load for TTLs of
  -- at least a second: it is taken only when free, freed only for its holder, and untouched by reads
  -- and writes of the key and by its extensions.
  pub ValkeyStore-Owned : Owned (valkey_backend c json) (holder_of view) InSeconds
  unfolding get extend_lock
  ValkeyStore-Owned = record {
    get_keeps = λ k w. rw (serves.get_keeps k w);
    set_keeps = set_keeps_lock;
    extend_keeps = λ k v d w l. rw (locks.extend_keeps (lock_key k) v (to_seconds d) w l);
    acquire_takes = acquire_takes;
    acquire_keeps = acquire_keeps;
    release_frees = release_frees;
    release_checks = release_checks;
  }
