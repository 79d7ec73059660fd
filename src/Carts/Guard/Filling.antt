-- ===== src/Carts/Guard/Filling.antt =====
-- What a guarded load leaves in the cache, over any backend that stores what it is given.
use nyro.Base.{subst, ◌≡◌, ◌∙◌, refl, ◌⊎◌, inl, inr, true, List, Option, none, some, arith}
use nyro.Base.Duration.{Duration}
use nyro.Base.Text.{Text, bytes}
use nyro.Errors.{Error, wrap, Result, ok, err, Result-cases}
use nyro.Carts.Contract.{Sees}
use nyro.Carts.Guard.{
  Backend, LockConfig, Retry, Action, Beat, Selected, heartbeat, load_under_heartbeat, store,
  while_held, with_release, get_or_set_locked, get_or_set_with_lock, effective_lock_ttl,
}

-- A backend whose keys hold the values `content`: the lock is no value, a look-up sees what is there,
-- and a write that succeeds stores what the value denotes.
pub record Holds {W V : Type 0} (b : Backend W V) (content : W → Text → Option (Option V))
    (denotes : Option V → Option V) : Type 0 where
  pub get_keeps : (k : Text) (w : W) → content (b.get k w).1 k ≡ content w k
  pub get_sees : (k : Text) (w : W) → Sees (b.get k w).0 (content w k)
  pub set_stores :
      (k : Text) (v : Option V) (d : Duration) (w : W)
      → (content (b.set k v d w).1 k ≡ some (denotes v))
        ⊎ ((e : Error) × ((b.set k v d w).0 ≡ err e))
  pub release_keeps : (k v : Text) (w : W) → content (b.release k v w).1 k ≡ content w k

module _ {W V : Type 0} (b : Backend W V) (content : W → Text → Option (Option V))
    (denotes : Option V → Option V) (holds : Holds b content denotes) (cfg : LockConfig)
    (retry : Retry W V) (key : Text) (expiration lock_ttl : Duration) where
  -- A call in the world `w`, with any loader: it returns `x` or fails in its look-up, and either way it
  -- ends with that.
  abbrev pub Answers : Option V → W → Type 0
  Answers x w =
      (flight : Text → Action W V → Action W V) (selected : Selected) (value : Text)
      (loader : Action W V) (before after : List Beat)
      → let call =
          get_or_set_with_lock b cfg retry flight selected value key loader expiration lock_ttl
            before after w in
        (call ≡ (ok x, (b.get key w).1))
        ⊎ ((e : Error) × (call ≡ (err (wrap (bytes "cache get error") e), (b.get key w).1)))

  answers : (x : Option V) (w : W) → content w key ≡ some x → Answers x w
  unfolding get_or_set_with_lock
  answers x w there flight selected value loader before after =
      elim (Result-cases (b.get key w).0) [
        | inl (v, hit) ↦
            let seen : some x ≡ some v = subst (λ r. Sees r (some x)) hit see in
            inl (rw (hit, get_or_set_with_lock) (ground arith))
        | inr (e, failed) ↦ elim (subst (λ r. Sees r (some x)) failed see) [
          | inl gone ↦ absurd (cc)
          | inr other ↦ inr (e, rw (failed, get_or_set_with_lock, other) refl)
        ]
      ]
    where
      see : Sees (b.get key w).0 (some x)
      see = subst (Sees (b.get key w).0) there (holds.get_sees key w)

  module _ (value held : Text) (loader : Action W V) (before after : List Beat) (w : W) where
    abbrev ttl : Duration
    ttl = effective_lock_ttl cfg lock_ttl

    -- The worlds of the run that acquires the lock as `held` in the world `w`: at its second look-up,
    -- when it starts the loader, and when it stores what the loader returned.
    abbrev pub at_look_up : W
    at_look_up = (b.acquire key ttl value w).1

    abbrev pub at_load : W
    at_load = (heartbeat b key held ttl before (b.get key at_look_up).1).1

    abbrev pub at_store : W
    at_store = (load_under_heartbeat b key held ttl before after loader (b.get key at_look_up).1).1

    -- What the run has done when it returns `x` in the world `w'`: its look-up found `x`, and the key
    -- holds it; or its look-up failed, its loader returned `x`, and the key holds what `x` denotes
    -- unless its write failed.
    abbrev pub Filled : Result (Option V) → W → Type 0
    Filled (err e) w' = Unit
    Filled (ok x) w' =
        (((b.get key at_look_up).0 ≡ ok x) × Answers x w')
        ⊎ (((e : Error) × ((b.get key at_look_up).0 ≡ err e))
            × ((loader at_load).0 ≡ ok x)
            × (Answers (denotes x) w'
                ⊎ ((e : Error) × ((b.set key x expiration at_store).0 ≡ err e))))

    stored :
        (r : Result (Option V))
        → ((e : Error) × ((b.get key at_look_up).0 ≡ err e))
        → (loader at_load).0 ≡ r
        → let (r', w') = store b key expiration (r, at_store) in Filled r' (b.release key held w').1
    unfolding store
    stored (err e) miss h = tt
    stored (ok none) miss h = tt
    stored (ok (some v)) miss h = inr (
      miss,
      h,
      elim (holds.set_stores key (some v) expiration at_store) [
        | inr failed ↦ inr failed
        | inl wrote ↦
            let w' = (b.set key (some v) expiration at_store).1 in
            inl (
              answers (denotes (some v)) (b.release key held w').1
                (holds.release_keeps key held w' ∙ wrote))
      ],
    )

    -- A guarded load that acquires the lock either fails, or returns a value: the one that its second
    -- look-up found, or, where that failed, the one that its loader returned. Afterwards the cache has
    -- it, in the second case as what it comes back as and unless the run's own write of it failed: any
    -- later call, whatever its loader, answers with it, or fails in its look-up, and ends with that
    -- look-up.
    pub get_or_set_fills :
        (b.acquire key (effective_lock_ttl cfg lock_ttl) value w).0 ≡ ok (held, true)
        → let (r, w') =
            get_or_set_locked b cfg retry value key loader expiration lock_ttl before after w in
          Filled r w'
    unfolding get_or_set_locked with_release while_held load_under_heartbeat
    get_or_set_fills acquired =
        rw (acquired, get_or_set_locked)
          (elim (Result-cases (b.get key at_look_up).0) [
            | inl (x, hit) ↦
                rw (hit, while_held)
                  (inl (
                    hit,
                    answers x _ (
                        holds.release_keeps key held (b.get key at_look_up).1
                        ∙ holds.get_keeps key at_look_up
                        ∙ subst (λ r. Sees r (content at_look_up key)) hit
                            (holds.get_sees key at_look_up)),
                  ))
            | inr (e, miss) ↦ rw (miss, while_held) (stored (loader at_load).0 (e, miss) refl)
          ])
