-- ===== src/Carts/Valkey/Release.antt =====
-- The deferred release of `ValkeyStore.GetOrSetWithLock`.
use nyro.Base.{◌≡◌, refl, ◌⊎◌, inl, inr, true, List, Option, none, some, arith}
use nyro.Base.Duration.{Duration}
use nyro.Base.Text.{Text}
use nyro.Errors.{Error, Result, ok, err, Result-cases}
use nyro.Carts.Json.{Json}
use nyro.Carts.Guard.{
  LockConfig, Retry, Action, Beat, effective_lock_ttl, load_under_heartbeat, with_release,
}
use nyro.Carts.Guard.Release.{Owned, Respects, load_keeps, store_keeps}
use nyro.Carts.Valkey.{Client, get, acquire_lock, release_lock}
use nyro.Carts.Valkey.Load.{valkey_backend, while_held, get_or_set_locked}

module _ {W R V : Type 0} (c : Client W R) (json : Json V) (holder : W → Text → Option Text)
    {Lasts : Duration → Type 0} (owned : Owned (valkey_backend c json) holder Lasts) where
  held_through :
      (key value : Text) (expiration ttl : Duration) (before after : List Beat)
      (loader : Action W V) (w : W)
      → Lasts ttl
      → Respects holder key loader
      → holder (while_held c json key value expiration ttl before after loader w).1 key
        ≡ holder w key
  unfolding while_held
  held_through key value expiration ttl before after loader w lasts r =
      let w₁ = (get c json key w).1 in
      let l = load_under_heartbeat (valkey_backend c json) key value ttl before after loader w₁ in
      ground (
        arith,
        owned.get_keeps key w,
        store_keeps (valkey_backend c json) holder owned key expiration l.0 l.1,
        load_keeps (valkey_backend c json) holder owned key value ttl before after loader w₁ lasts
            r,
      )

  module _ (cfg : LockConfig) (retry : Retry W V) (value key : Text) (loader : Action W V)
      (expiration lock_ttl : Duration) (before after : List Beat) (w : W) where
    abbrev ttl : Duration
    ttl = effective_lock_ttl cfg lock_ttl

    abbrev run : Result (Option V) × W
    run = get_or_set_locked c json cfg retry value key loader expiration lock_ttl before after w

    -- The world in which the run calls the deferred release: what the load under the lock left.
    abbrev pub at_release : Text → W
    at_release held =
        (while_held c json key held expiration ttl before after loader
          (acquire_lock c key ttl value w).1).1

    -- A load that acquired the lock, with a TTL that lasts and a loader that leaves the lock alone,
    -- ends with the deferred release on every path: after a hit of the second look-up, an error of it,
    -- an error of the loader, a nil result, a failed write and a success alike. It still holds the
    -- lock when it calls that release, and leaves it free, unless this very release returns an error.
    pub lock_released_valkey :
        {held : Text}
        → Lasts (effective_lock_ttl cfg lock_ttl)
        → Respects holder key loader
        → (acquire_lock c key (effective_lock_ttl cfg lock_ttl) value w).0 ≡ ok (held, true)
        → (run.1 ≡ (release_lock c key held (at_release held)).1)
          × (holder (at_release held) key ≡ some held)
          × ((holder run.1 key ≡ none)
              ⊎ ((e : Error) × ((release_lock c key held (at_release held)).0 ≡ err e)))
    unfolding get_or_set_locked with_release
    lock_released_valkey {held} lasts r acquired = (
      ends,
      kept,
      elim (Result-cases (release_lock c key held (at_release held)).0) [
        | inl (u, freed) ↦ inl (rw ends (owned.release_frees key held (at_release held) freed kept))
        | inr failed ↦ inr failed
      ],
    )
      where
        ends : run.1 ≡ (release_lock c key held (at_release held)).1
        ends = rw (acquired, get_or_set_locked) refl

        w₁ : W
        w₁ = (acquire_lock c key ttl value w).1

        kept : holder (at_release held) key ≡ some held
        kept =
            rw (held_through key held expiration ttl before after loader w₁ lasts r)
              (owned.acquire_takes key ttl value held w lasts acquired).1
