-- ===== src/Carts/Olric/Locks.antt =====
-- carts/olric/olric.go: the locks of `OlricCart` and its guarded load.
use nyro.Base.{Bool, true, false, [], ◌∷◌, Option, none, some, if◌then◌else◌}
use nyro.Base.Duration.{Duration}
use nyro.Base.Text.{Text, bytes, text_eq}
use nyro.Base.Dict.{Dict, lookup, insert, delete as remove}
use nyro.Errors.{wrap, as_not_found, Result, ok, err}
use nyro.Carts.Olric.{Client, OlricCart, OlricCartConfig, Action, in_world, get, set}

module _ {W D L V : Type 0} (c : Client W D L V) where
  -- The loop of `Close` over the registered locks.
  unfoldable pub unlock_all : Dict Text L → W → W
  unlock_all [] w = w
  unlock_all ((key, l) ∷ locks) w = unlock_all locks (c.unlock l w)

  unfoldable pub close : OlricCart W D L → Result (Unit {0}) × OlricCart W D L
  unfolding unlock_all in_world
  close s = in_world (c.close s.dmap) (record s { locks = []; world = unlock_all s.locks s.world })

  -- `lock_value` is what `generateLockValue` returned.
  unfoldable pub acquire_lock :
      OlricCartConfig
      → Text
      → Duration
      → Text
      → OlricCart W D L
      → Result (Text × Bool) × OlricCart W D L
  unfolding in_world
  acquire_lock cfg key ttl lock_value s =
      let (r, s₁) = in_world (c.lock_with_timeout s.dmap key ttl cfg.lock_max_wait) s in
      elim r [
        | ok l ↦ (ok (lock_value, true), record s₁ { locks = insert key l s₁.locks })
        | err e ↦ (
          if c.is_lock_not_acquired e
              then ok ([], false)
              else err (wrap (bytes "failed to acquire lock") e),
          s₁,
        )
      ]

  unfoldable pub release_lock : Text → Text → OlricCart W D L → Result (Unit {0}) × OlricCart W D L
  release_lock key lock_value s = elim (lookup key s.locks) [
    | none ↦ (ok tt, s)
    | some l ↦ (ok tt, record s { locks = remove key s.locks; world = c.unlock l s.world })
  ]

  extended : Result (Text × Bool) → Result Bool
  extended (ok (new_lock_value, acquired)) = ok acquired
  extended (err e) = err e

  -- `new_lock_value` is what `generateLockValue` returned in the `AcquireLock` that is called.
  unfoldable pub extend_lock :
      OlricCartConfig
      → Text
      → Text
      → Duration
      → Text
      → OlricCart W D L
      → Result Bool × OlricCart W D L
  unfolding extended
  extend_lock cfg key lock_value ttl new_lock_value s =
      let (_, s₁) = release_lock key lock_value s in
      let (r, s₂) = acquire_lock cfg key ttl new_lock_value s₁ in (extended r, s₂)

  unfoldable pub store :
      Text → Duration → Result (Option V) × OlricCart W D L → Result (Option V) × OlricCart W D L
  store key ttl (err e, s) = (err e, s)
  store key ttl (ok v, s) =
      let (r, s') = set c key v ttl s in elim r [ ok _ ↦ (ok v, s') | err e ↦ (err e, s') ]

  -- What `GetOrSetWithLock` does at each of its three look-ups.
  unfoldable pub unless_cached : Text → Action W D L V → Action W D L V
  unless_cached key otherwise s =
      let (r, s₁) = get c key s in
      elim r [ ok v ↦ (ok v, s₁) | err e ↦ if as_not_found e then otherwise s₁ else (err e, s₁) ]

  unfoldable pub while_held : Text → Action W D L V → Duration → Text → Action W D L V
  unfolding store unless_cached
  while_held key loader ttl lock_value s =
      let (r, s₁) = unless_cached key (λ t. store key ttl (loader t)) s in
      (r, (release_lock key lock_value s₁).1)

  -- The closure that `GetOrSetWithLock` passes to singleflight. `sleep` is what other processes do
  -- during the `time.Sleep`.
  unfoldable pub load_once :
      OlricCartConfig
      → (W → W)
      → Text
      → Text
      → Action W D L V
      → Duration
      → Duration
      → Action W D L V
  unfolding while_held unless_cached
  load_once cfg sleep lock_value key loader ttl lock_ttl = unless_cached key (λ s.
      let (r, s₁) = acquire_lock cfg key lock_ttl lock_value s in
      elim r [
        | err e ↦ (err e, s₁)
        | ok (held, acquired) ↦
            if acquired
            then while_held key loader ttl held s₁
            else get c key (record s₁ { world = sleep s₁.world })
      ])

  -- `flight` is singleflight's `Do`.
  unfoldable pub get_or_set_with_lock :
      OlricCartConfig
      → (Text → Action W D L V → Action W D L V)
      → (W → W)
      → Text
      → Text
      → Action W D L V
      → Duration
      → Duration
      → Action W D L V
  unfolding load_once unless_cached
  get_or_set_with_lock cfg flight sleep lock_value key loader ttl lock_ttl =
      unless_cached key (flight key (load_once cfg sleep lock_value key loader ttl lock_ttl))
