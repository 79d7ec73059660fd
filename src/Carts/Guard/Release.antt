-- ===== src/Carts/Guard/Release.antt =====
-- The lock around a guarded load, over any backend whose operations respect ownership.
use nyro.Base.{
  ◌≡◌, ◌≢◌, refl, ◌⊎◌, inl, inr, true, List, [], ◌∷◌, Option, none, some, arith, Bool-cases,
}
use nyro.Base.Duration.{Duration}
use nyro.Base.Text.{Text, bytes}
use nyro.Errors.{Error, wrap, Result, ok, err, Result-cases}
use nyro.Carts.Guard.{
  Backend, LockConfig, Retry, Action, Beat, done, tick, heartbeat, load_under_heartbeat, store,
  while_held, with_release, get_or_set_locked, effective_lock_ttl, wait_for_cache,
}

-- What the locking operations of a cart promise: `holder w key` is the lock value under which the
-- lock of the key is held. Of the operations on a key nothing but `acquire` and `release` changes its
-- holder, `acquire` takes only a free lock and leaves a held one with its holder, and `release` frees
-- it only for the value that holds it. `Lasts` are the TTLs that the backend can count: of an
-- acquisition or an extension with another TTL, which may lose the lock, nothing is said but that an
-- acquisition leaves a held lock alone.
pub record Owned {W V : Type 0} (b : Backend W V) (holder : W → Text → Option Text)
    (Lasts : Duration → Type 0) : Type 0 where
  pub get_keeps : (k : Text) (w : W) → holder (b.get k w).1 k ≡ holder w k
  pub set_keeps :
      (k : Text) (v : Option V) (d : Duration) (w : W) → holder (b.set k v d w).1 k ≡ holder w k
  pub extend_keeps :
      (k v : Text) (d : Duration) (w : W) → Lasts d → holder (b.extend k v d w).1 k ≡ holder w k
  pub acquire_takes :
      (k : Text) (d : Duration) (v v' : Text) (w : W)
      → Lasts d
      → (b.acquire k d v w).0 ≡ ok (v', true)
      → (holder w k ≡ none) × (holder (b.acquire k d v w).1 k ≡ some v')
  pub acquire_keeps :
      (k : Text) (d : Duration) (v u : Text) (w : W)
      → holder w k ≡ some u
      → holder (b.acquire k d v w).1 k ≡ some u
  pub release_frees :
      (k v : Text) (w : W)
      → (b.release k v w).0 ≡ ok tt
      → holder w k ≡ some v
      → holder (b.release k v w).1 k ≡ none
  pub release_checks :
      (k v : Text) (w : W) → holder w k ≢ some v → holder (b.release k v w).1 k ≡ holder w k

-- A loader that leaves the lock of the key alone.
abbrev pub Respects : {W V : Type 0} → (W → Text → Option Text) → Text → Action W V → Type 0
Respects {W} holder key loader = (w : W) → holder (loader w).1 key ≡ holder w key

module _ {W V : Type 0} (b : Backend W V) (holder : W → Text → Option Text)
    {Lasts : Duration → Type 0} (owned : Owned b holder Lasts) where
  open owned use {get_keeps, set_keeps, extend_keeps, acquire_takes, release_frees}

  heartbeat_keeps :
      (key value : Text) (ttl : Duration) (beats : List Beat) (w : W)
      → Lasts ttl
      → holder (heartbeat b key value ttl beats w).1 key ≡ holder w key
  unfolding heartbeat
  heartbeat_keeps key value ttl [] w l = refl
  heartbeat_keeps key value ttl (done ∷ beats) w l = refl
  heartbeat_keeps key value ttl (tick ∷ beats) w l =
      let w' = (b.extend key value ttl w).1 in
      ground (arith, extend_keeps key value ttl w l, heartbeat_keeps key value ttl beats w' l)

  pub load_keeps :
      (key value : Text) (ttl : Duration) (before after : List Beat) (loader : Action W V) (w : W)
      → Lasts ttl
      → Respects holder key loader
      → holder (load_under_heartbeat b key value ttl before after loader w).1 key ≡ holder w key
  unfolding load_under_heartbeat
  load_keeps key value ttl before after loader w l r =
      let w₁ = (heartbeat b key value ttl before w).1 in
      ground (
        arith,
        heartbeat_keeps key value ttl before w l,
        r w₁,
        heartbeat_keeps key value ttl after (loader w₁).1 l,
      )

  pub store_keeps :
      (key : Text) (d : Duration) (r : Result (Option V)) (w : W)
      → holder (store b key d (r, w)).1 key ≡ holder w key
  unfolding store
  store_keeps key d (err e) w = refl
  store_keeps key d (ok none) w = refl
  store_keeps key d (ok (some v)) w = set_keeps key (some v) d w

  while_held_keeps :
      (key value : Text) (expiration ttl : Duration) (before after : List Beat)
      (loader : Action W V) (w : W)
      → Lasts ttl
      → Respects holder key loader
      → holder (while_held b key value expiration ttl before after loader w).1 key ≡ holder w key
  unfolding while_held
  while_held_keeps key value expiration ttl before after loader w lasts r =
      let w₁ = (b.get key w).1 in
      let l = load_under_heartbeat b key value ttl before after loader w₁ in
      ground (
        arith,
        get_keeps key w,
        store_keeps key expiration l.0 l.1,
        load_keeps key value ttl before after loader w₁ lasts r,
      )

  module _ (cfg : LockConfig) (retry : Retry W V) (value key : Text) (loader : Action W V)
      (expiration lock_ttl : Duration) (before after : List Beat) (w : W) where
    abbrev ttl : Duration
    ttl = effective_lock_ttl cfg lock_ttl

    abbrev run : Result (Option V) × W
    run = get_or_set_locked b cfg retry value key loader expiration lock_ttl before after w

    -- The world in which the run calls the deferred release: what the load under the lock left.
    abbrev pub at_release : Text → W
    at_release held =
        (while_held b key held expiration ttl before after loader (b.acquire key ttl value w).1).1

    -- A load that acquired the lock, with a TTL that lasts and a loader that leaves the lock alone,
    -- ends with the deferred release on every path: after a hit of the second look-up, an error of
    -- the loader, a nil result, a failed write and a success alike. It still holds the lock when it
    -- calls that release, and leaves it free, unless this very release returns an error.
    pub lock_released :
        {held : Text}
        → Lasts (effective_lock_ttl cfg lock_ttl)
        → Respects holder key loader
        → (b.acquire key (effective_lock_ttl cfg lock_ttl) value w).0 ≡ ok (held, true)
        → (run.1 ≡ (b.release key held (at_release held)).1)
          × (holder (at_release held) key ≡ some held)
          × ((holder run.1 key ≡ none)
              ⊎ ((e : Error) × ((b.release key held (at_release held)).0 ≡ err e)))
    unfolding get_or_set_locked with_release
    lock_released {held} lasts r acquired = (
      ends,
      kept,
      elim (Result-cases (b.release key held (at_release held)).0) [
        | inl (u, freed) ↦ inl (rw ends (release_frees key held (at_release held) freed kept))
        | inr failed ↦ inr failed
      ],
    )
      where
        ends : run.1 ≡ (b.release key held (at_release held)).1
        ends = rw (acquired, get_or_set_locked) refl

        w₁ : W
        w₁ = (b.acquire key ttl value w).1

        taken : (holder w key ≡ none) × (holder w₁ key ≡ some held)
        taken = acquire_takes key ttl value held w lasts acquired

        kept : holder (at_release held) key ≡ some held
        kept = rw (while_held_keeps key held expiration ttl before after loader w₁ lasts r) taken.1

    -- While another holds the lock of the key, a call with a TTL that lasts does not call its loader:
    -- it ends at once in the error of the acquisition, wrapped, or goes on to wait for the cache with
    -- the maximal wait of the configuration. The acquisition leaves the lock with its holder.
    pub no_load_while_held :
        {other : Text}
        → Lasts (effective_lock_ttl cfg lock_ttl)
        → holder w key ≡ some other
        → let w₁ = (b.acquire key (effective_lock_ttl cfg lock_ttl) value w).1 in
          let call =
            get_or_set_locked b cfg retry value key loader expiration lock_ttl before after w in
          (holder w₁ key ≡ some other)
          × (((e : Error) × (call ≡ (err (wrap (bytes "lock acquisition failed") e), w₁)))
              ⊎ (call ≡ wait_for_cache b cfg.lock_max_wait retry key w₁))
    unfolding get_or_set_locked
    no_load_while_held {other} lasts held = (
      owned.acquire_keeps key ttl value other w held,
      elim (Result-cases (b.acquire key ttl value w).0) [
        | inr (e, failed) ↦ inl (e, rw (failed, get_or_set_locked) refl)
        | inl (got, replied) ↦ elim (Bool-cases got.1) [
          | inl acquired ↦ absurd (ground (arith, acquire_takes key ttl value got.0 w lasts))
          | inr busy ↦ inr (rw (replied, get_or_set_locked, busy) refl)
        ]
      ],
    )
