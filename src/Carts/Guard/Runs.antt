-- ===== src/Carts/Guard/Runs.antt =====
-- The code of the guarded load is a process of `Exclusion`: its calls are the steps there.
use nyro.Base.{
  ℕ, ◌≡◌, ◌≢◌, ap, subst, arith, inl, inr, true, false, List, [], ◌∷◌, Option, none, some, eq_self,
  Bool-cases, nat_eq,
}
use nyro.Base.Duration.{Duration}
use nyro.Base.Text.{Text}
use nyro.Errors.{Result, ok, err, Result-cases}
use nyro.Carts.Guard.{
  Backend, LockConfig, Action, Retry, Beat, done, tick, heartbeat, load_under_heartbeat, store,
  while_held, with_release, get_or_set_locked, effective_lock_ttl,
}
use nyro.Carts.Guard.Release.{Respects}
use nyro.Carts.Guard.Processes.{
  Pc, outside, holding, expired, lock_value_of, entered, update, System, Step, looks_up, acquires,
  beats, loads, stores, releases, Steps, here, later,
}

module _ {W V : Type 0} (b : Backend W V) (holder : W → Text → Option Text)
    (Lasts : Duration → Type 0) (key : Text) where
  abbrev at : W → (ℕ → Pc) → System W
  at w p = record { world = w; pc = p }

  joined :
      {s t u : System W}
      → Steps b holder Lasts key s t
      → Steps b holder Lasts key t u
      → Steps b holder Lasts key s u
  joined p here = p
  joined p (later q st) = later (joined p q) st

  one : {s t : System W} → Step b holder Lasts key s t → Steps b holder Lasts key s t
  one st = later here st

  module _ (p : ℕ → Pc) (i : ℕ) (value : Text) where
    beating :
        (ttl : Duration) (bs : List Beat) (w : W)
        → Lasts ttl
        → Steps b holder Lasts key (at w p) (at (heartbeat b key value ttl bs w).1 p)
    unfolding heartbeat
    beating ttl [] w l = here
    beating ttl (done ∷ bs) w l = here
    beating ttl (tick ∷ bs) w l =
        let first : Steps b holder Lasts key (at w p) (at (b.extend key value ttl w).1 p) =
          one (beats i value ttl l) in
        elim (Result-cases (b.extend key value ttl w).0) [
          | inr (e, failed) ↦ rw (failed, heartbeat) first
          | inl (true, extended) ↦
              rw (extended, heartbeat)
                (joined first (beating ttl bs (b.extend key value ttl w).1 l))
          | inl (false, lost) ↦ rw (lost, heartbeat) first
        ]

    module _ (held : lock_value_of (p i) ≡ some value) (loader : Action W V)
        (r : Respects holder key loader) where
      loading :
          (ttl : Duration) (before after : List Beat) (w : W)
          → Lasts ttl
          → Steps b holder Lasts key
              (at w p)
              (at (load_under_heartbeat b key value ttl before after loader w).1 p)
      unfolding load_under_heartbeat
      loading ttl before after w l =
          let w₁ = (heartbeat b key value ttl before w).1 in
          let loaded : Steps b holder Lasts key (at w p) (at (loader w₁).1 p) =
            joined (beating ttl before w l) (one (loads i value loader held r)) in
          elim (Bool-cases (heartbeat b key value ttl before w).0) [
            | inl alive ↦ rw alive (joined loaded (beating ttl after (loader w₁).1 l))
            | inr ended ↦ rw ended loaded
          ]

      storing :
          (d : Duration) (c : Result (Option V)) (w : W)
          → Steps b holder Lasts key (at w p) (at (store b key d (c, w)).1 p)
      unfolding store
      storing d (err e) w = here
      storing d (ok none) w = here
      storing d (ok (some v)) w = one (stores i value (some v) d held)

      staying :
          (d ttl : Duration) (before after : List Beat) (w : W)
          → Lasts ttl
          → Steps b holder Lasts key
              (at w p)
              (at (while_held b key value d ttl before after loader w).1 p)
      unfolding while_held
      staying d ttl before after w lasts =
          let w₁ = (b.get key w).1 in
          let l = load_under_heartbeat b key value ttl before after loader w₁ in
          let seen : Steps b holder Lasts key (at w p) (at w₁ p) = one (looks_up i) in
          elim (Result-cases (b.get key w).0) [
            | inl (v, hit) ↦ rw (hit, while_held) seen
            | inr (e, miss) ↦
                rw (miss, while_held)
                  (joined seen (joined (loading ttl before after w₁ lasts) (storing d l.0 l.1)))
          ]

  -- A guarded load that acquires the lock, its heartbeat included, is a run of one process in the
  -- interleavings above, from outside to outside, if its TTL lasts, its loader leaves the lock
  -- alone, and its lock value is not that of a process whose lock has expired.
  pub get_or_set_locked-Steps :
      (cfg : LockConfig) (retry : Retry W V) (value held : Text) (loader : Action W V)
      (expiration lock_ttl : Duration) (before after : List Beat) (s : System W) (i : ℕ)
      → Lasts (effective_lock_ttl cfg lock_ttl)
      → Respects holder key loader
      → s.pc i ≡ outside
      → (b.acquire key (effective_lock_ttl cfg lock_ttl) value s.world).0 ≡ ok (held, true)
      → ((j : ℕ) (v : Text) → s.pc j ≡ expired v → held ≢ v)
      → Steps b holder Lasts key s (record {
        world =
            (get_or_set_locked b cfg retry value key loader expiration lock_ttl before after
              s.world).1;
        pc = update (update s.pc i (holding held)) i outside;
      })
  unfolding get_or_set_locked with_release entered
  get_or_set_locked-Steps cfg retry value held loader expiration lock_ttl before after s i lasts r
        idle acquired fresh =
      rw (acquired, get_or_set_locked)
        (later
          (joined entering (
            staying p i held (ap lock_value_of inside) loader r expiration ttl before after w₁
              lasts))
          (releases i held (ap lock_value_of inside)))
    where
      ttl : Duration
      ttl = effective_lock_ttl cfg lock_ttl

      w₁ : W
      w₁ = (b.acquire key ttl value s.world).1

      p : ℕ → Pc
      p = update s.pc i (holding held)

      inside : p i ≡ holding held
      inside = rw (eq_self i)

      drawn :
          (j : ℕ) (v : Text)
          → s.pc j ≡ expired v
          → entered (b.acquire key ttl value s.world).0 ≢ holding v
      drawn j v late = rw acquired (λ e. fresh j v late (ground arith))

      entering : Steps b holder Lasts key s (at w₁ p)
      entering =
          subst (λ r. Steps b holder Lasts key s (at w₁ (update s.pc i (entered r)))) acquired
            (one (acquires i ttl value lasts idle drawn))
