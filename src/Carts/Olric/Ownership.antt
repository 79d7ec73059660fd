-- ===== src/Carts/Olric/Ownership.antt =====
-- What carts/olric/olric.go does with the locks that it acquired.
use nyro.Base.{
  arith, ◌≡◌, ◌≢◌, refl, eq_iff, Bool-cases, true, inl, inr, Option, none, some, Option-cases,
}
use nyro.Base.Duration.{Duration}
use nyro.Base.Text.{Text, text_eq}
use nyro.Base.Dict.{lookup, lookup-insert, lookup-delete}
use nyro.Errors.{Error, as_not_found, Result, ok, err, Result-cases}
use nyro.Carts.Olric.{Client, OlricCart, OlricCartConfig, Action, in_world, get, set}
use nyro.Carts.Olric.Locks.{
  acquire_lock, release_lock, extend_lock, store, unless_cached, while_held, load_once,
}

-- A loader that leaves the registered lock of the key alone.
abbrev pub Respects : {W D L V : Type 0} → Text → Action W D L V → Type 0
Respects {W} {D} {L} key loader =
    (s : OlricCart W D L) → lookup key (loader s).1.locks ≡ lookup key s.locks

module _ {W D L V : Type 0} (c : Client W D L V) where
  -- What a release does to a registered lock: the context is unlocked and forgotten.
  abbrev pub Released : Text → L → OlricCart W D L → Type 0
  Released key l s = (w : W) × (s.world ≡ c.unlock l w) × (lookup key s.locks ≡ none)

  release_lock-Released :
      (key value : Text) (l : L) (s : OlricCart W D L)
      → lookup key s.locks ≡ some l
      → Released key l (release_lock c key value s).1
  unfolding release_lock
  release_lock-Released key value l s held =
      rw (held, release_lock)
        (s.world, refl, ground (arith, lookup-delete key key s.locks, eq_iff key key))

  release_lock-forgets :
      (key value : Text) (s : OlricCart W D L)
      → lookup key (release_lock c key value s).1.locks ≡ none
  unfolding release_lock
  release_lock-forgets key value s = elim (Option-cases (lookup key s.locks)) [
    | inl gone ↦ rw (gone, release_lock) gone
    | inr (l, held) ↦ (release_lock-Released key value l s held).2
  ]

  store_keeps :
      (key : Text) (ttl : Duration) (r : Result (Option V)) (s : OlricCart W D L)
      → (store c key ttl (r, s)).1.locks ≡ s.locks
  unfolding store set in_world
  store_keeps key ttl (err e) s = refl
  store_keeps key ttl (ok v) s = elim (Result-cases (set c key v ttl s).0) [
    | inl (u, done) ↦ rw (done, store) refl
    | inr (e, failed) ↦ rw (failed, store) refl
  ]

  acquire_lock-registers :
      (cfg : OlricCartConfig) (key : Text) (ttl : Duration) (value : Text) (l : L)
      (s : OlricCart W D L)
      → (c.lock_with_timeout s.dmap key ttl cfg.lock_max_wait s.world).0 ≡ ok l
      → ((acquire_lock c cfg key ttl value s).0 ≡ ok (value, true))
        × (lookup key (acquire_lock c cfg key ttl value s).1.locks ≡ some l)
  unfolding acquire_lock in_world
  acquire_lock-registers cfg key ttl value l s got =
      rw (got, acquire_lock) (refl, ground (arith, lookup-insert key key l s.locks, eq_iff key key))

  module _ (key : Text) (loader : Action W D L V) (ttl : Duration)
      (respects : Respects key loader) where
    under_look_up :
        (s : OlricCart W D L)
        → lookup key (unless_cached c key (λ t. store c key ttl (loader t)) s).1.locks
          ≡ lookup key s.locks
    unfolding unless_cached get in_world
    under_look_up s =
        let s₁ = (get c key s).1 in
        elim (Result-cases (get c key s).0) [
          | inl (v, hit) ↦ rw (hit, unless_cached) refl
          | inr (e, missed) ↦ elim (Bool-cases (as_not_found e)) [
            | inl miss ↦
                rw (missed, unless_cached, miss)
                  (rw (store_keeps key ttl (loader s₁).0 (loader s₁).1) (respects s₁))
            | inr other ↦ rw (missed, unless_cached, other) refl
          ]
        ]

    while_held-Released :
        (value : Text) (l : L) (s : OlricCart W D L)
        → lookup key s.locks ≡ some l
        → Released key l (while_held c key loader ttl value s).1
    unfolding while_held
    while_held-Released value l s held =
        release_lock-Released key value l
          (unless_cached c key (λ t. store c key ttl (loader t)) s).1 (rw (under_look_up s) held)

    -- A load that acquired the lock ends with the context of that lock unlocked and forgotten, on
    -- every path: after a hit of the third look-up, a failed look-up, an error of the loader, a failed
    -- write and a success alike.
    pub load_once-Released :
        (cfg : OlricCartConfig) (sleep : W → W) (value : Text) (lock_ttl : Duration) (e : Error)
        (l : L) (s : OlricCart W D L)
        → (get c key s).0 ≡ err e
        → as_not_found e ≡ true
        → (c.lock_with_timeout s.dmap key lock_ttl cfg.lock_max_wait (get c key s).1.world).0 ≡ ok l
        → Released key l (load_once c cfg sleep value key loader ttl lock_ttl s).1
    unfolding load_once get
    load_once-Released cfg sleep value lock_ttl e l s missed miss got =
        let s₁ = (get c key s).1 in
        let taken = acquire_lock-registers cfg key lock_ttl value l s₁ got in
        rw (missed, unless_cached, miss, taken.0)
          (while_held-Released value l (acquire_lock c cfg key lock_ttl value s₁).1 taken.1)

  -- `ReleaseLock` does not look at the lock value: when a lock expires and another caller of the same
  -- cart acquires it, the first holder's release, with its own value, unlocks the second holder's
  -- context. `between` is what happens in the world until the second acquisition.
  pub release_lock-frees_later_holder :
      (cfg : OlricCartConfig) (key first second : Text) (ttl : Duration) (l l' : L)
      (between : W → W) (s : OlricCart W D L)
      → let s₁ = (acquire_lock c cfg key ttl first s).1 in
        let s₂ = acquire_lock c cfg key ttl second (record s₁ { world = between s₁.world }) in
        (c.lock_with_timeout s.dmap key ttl cfg.lock_max_wait s.world).0 ≡ ok l
        → (c.lock_with_timeout s₁.dmap key ttl cfg.lock_max_wait (between s₁.world)).0 ≡ ok l'
        → (s₂.0 ≡ ok (second, true)) × Released key l' (release_lock c key first s₂.1).1
  release_lock-frees_later_holder cfg key first second ttl l l' between s got got' =
      let s₁ = (acquire_lock c cfg key ttl first s).1 in
      let taken =
        acquire_lock-registers cfg key ttl second l' (record s₁ { world = between s₁.world })
          got' in
      (taken.0, release_lock-Released key first l' _ taken.1)

  -- `ExtendLock` gives the lock up before it asks for it again: when that fails or another takes the
  -- lock in between, the caller has lost the lock that it held, and nothing of it is registered.
  pub extend_lock-loses :
      (cfg : OlricCartConfig) (key value new_value : Text) (ttl : Duration) (s : OlricCart W D L)
      → (extend_lock c cfg key value ttl new_value s).0 ≢ ok true
      → lookup key (extend_lock c cfg key value ttl new_value s).1.locks ≡ none
  unfolding extend_lock acquire_lock
  extend_lock-loses cfg key value new_value ttl s lost =
      let s₁ = (release_lock c key value s).1 in
      elim (Result-cases (c.lock_with_timeout s₁.dmap key ttl cfg.lock_max_wait s₁.world).0) [
        | inl (l, got) ↦ absurd (
            lost (rw ((acquire_lock-registers cfg key ttl new_value l s₁ got).0, extend_lock) refl))
        | inr (e, failed) ↦ rw (failed, acquire_lock) (release_lock-forgets key value s)
      ]
