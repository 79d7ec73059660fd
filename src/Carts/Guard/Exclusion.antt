-- ===== src/Carts/Guard/Exclusion.antt =====
-- Mutual exclusion by the lock of a key, over any backend whose operations respect ownership.
use nyro.Base.{
  ℕ, ◌≡◌, ◌≢◌, ap, sym, ◌∙◌, ◌⊎◌, inl, inr, Bool, true, false, Option, none, some, arith, ◌==◌,
  eq_iff, Bool-cases, nat_eq,
}
use nyro.Base.Duration.{Duration}
use nyro.Base.Text.{Text}
use nyro.Errors.{Result, ok, err}
use nyro.Carts.Guard.{Backend}
use nyro.Carts.Guard.Release.{Owned}
use nyro.Carts.Guard.Processes.{
  Pc, outside, holding, expired, lock_value_of, lapse, entered, update, System, Step, looks_up,
  acquires, beats, loads, stores, releases, expires, here, later, Reach, Inv,
}

module _ {W V : Type 0} (b : Backend W V) (holder : W → Text → Option Text)
    {Lasts : Duration → Type 0} (key : Text) where
  module _ (owned : Owned b holder Lasts) where
    some-injective : {x y : Text} → some x ≡ some y → x ≡ y
    some-injective h = ground arith

    Pc-cases : (p : Pc) (v : Text) → lock_value_of p ≡ some v → (p ≡ holding v) ⊎ (p ≡ expired v)
    Pc-cases outside v h = cc
    Pc-cases (holding u) v h = inl (ground arith)
    Pc-cases (expired u) v h = inr (ground arith)

    lapse-ne-holding : (p : Pc) (v : Text) → lapse p ≢ holding v
    lapse-ne-holding outside v h = cc
    lapse-ne-holding (holding u) v h = cc
    lapse-ne-holding (expired u) v h = cc

    -- A call that leaves the holder alone.
    kept :
        (s : System W) (w' : W)
        → holder w' key ≡ holder s.world key
        → Inv b holder Lasts key s
        → Inv b holder Lasts key (record { world = w'; pc = s.pc })
    kept s w' e inv = record {
      owns = λ i value h. ground (arith, inv.owns i value h);
      alone = inv.alone;
      apart = inv.apart;
    }

    entered-holding :
        (r : Result (Text × Bool)) (v : Text) → entered r ≡ holding v → r ≡ ok (v, true)
    unfolding entered
    entered-holding (err e) v h = cc
    entered-holding (ok (u, true)) v h = ground arith
    entered-holding (ok (u, false)) v h = cc

    -- Where a call of process `i` leaves a process: `i` itself is moved, and no other.
    was :
        (f : ℕ → Pc) (i j : ℕ) (p q : Pc)
        → update f i p j ≡ q
        → ((i ≡ j) × (p ≡ q)) ⊎ ((i ≡ j → ⊥) × (f j ≡ q))
    was f i j p q h = elim (Bool-cases (i == j)) [
      | inl same ↦ inl ((eq_iff i j).0 same, ground arith)
      | inr other ↦ inr (λ e. ground (arith, eq_iff i j), ground arith)
    ]

    module _ (s : System W) (inv : Inv b holder Lasts key s) (i : ℕ) where
      module _ (ttl : Duration) (lasts : Lasts ttl) (value : Text) where
        abbrev call : Result (Text × Bool) × W
        call = b.acquire key ttl value s.world

        takes :
            (x : Text)
            → entered call.0 ≡ holding x
            → (holder s.world key ≡ none) × (holder call.1 key ≡ some x)
        takes x h = owned.acquire_takes key ttl value x s.world lasts (entered-holding call.0 x h)

        -- Whoever held before, the lock was not free.
        not_both : (j k : ℕ) (u v : Text) → entered call.0 ≡ holding u → s.pc k ≡ holding v → j ≡ k
        not_both j k u v h held = absurd (ground (arith, takes u h, inv.owns k v held))

        entered-ne-expired : (r : Result (Text × Bool)) (v : Text) → entered r ≢ expired v
        unfolding entered
        entered-ne-expired (err e) v h = cc
        entered-ne-expired (ok (u, true)) v h = cc
        entered-ne-expired (ok (u, false)) v h = cc

        acquires-Inv :
            ((j : ℕ) (v : Text) → s.pc j ≡ expired v → entered call.0 ≢ holding v)
            → Inv b holder Lasts key
                (record { world = call.1; pc = update s.pc i (entered call.0) })
        acquires-Inv fresh = record {
          owns = λ j x h. elim (was s.pc i j (entered call.0) (holding x) h) [
            | inl (same, won) ↦ (takes x won).1
            | inr (other, held) ↦ owned.acquire_keeps key ttl value x s.world (inv.owns j x held)
          ];
          alone = λ j k u v h h'. elim (was s.pc i j (entered call.0) (holding u) h) [
            | inl (e, won) ↦ elim (was s.pc i k (entered call.0) (holding v) h') [
              | inl (e', _) ↦ sym e ∙ e'
              | inr (_, held) ↦ not_both j k u v won held
            ]
            | inr (_, held) ↦ elim (was s.pc i k (entered call.0) (holding v) h') [
              | inl (_, won) ↦ sym (not_both k j v u won held)
              | inr (_, held') ↦ inv.alone j k u v held held'
            ]
          ];
          apart = λ j k u v h h'. elim (was s.pc i k (entered call.0) (expired v) h') [
            | inl (_, lapsed) ↦ absurd (entered-ne-expired call.0 v lapsed)
            | inr (_, late) ↦ elim (was s.pc i j (entered call.0) (holding u) h) [
              | inl (_, won) ↦ λ same. fresh k v late (won ∙ ap holding same)
              | inr (_, held) ↦ inv.apart j k u v held late
            ]
          ];
        }

      -- After a release by process `i`, from whichever of the two places.
      released :
          (value : Text)
          → lock_value_of (s.pc i) ≡ some value
          → (j : ℕ) (x : Text) → update s.pc i outside j ≡ holding x
          → holder (b.release key value s.world).1 key ≡ some x
      released value h j x h' = elim (was s.pc i j outside (holding x) h') [
        | inl (_, e) ↦ cc
        | inr (other, held) ↦ elim (Pc-cases (s.pc i) value h) [
          | inl mine ↦ absurd (other (inv.alone i j value x mine held))
          | inr late ↦
              owned.release_checks key value s.world (λ e.
                inv.apart j i x value held late (some-injective (sym (inv.owns j x held) ∙ e)))
              ∙ inv.owns j x held
        ]
      ]

      -- Whoever is inside elsewhere was so before.
      elsewhere : (j : ℕ) (q : Pc) → q ≢ outside → update s.pc i outside j ≡ q → s.pc j ≡ q
      elsewhere j q inside h = elim (was s.pc i j outside q h) [
        | inl (_, e) ↦ absurd (inside (sym e))
        | inr (other, held) ↦ held
      ]

    -- Every call of a process, the failed and the refused ones included, and every expiry of the lock
    -- preserves the invariant that a process which holds a value is the holder of the lock, is alone,
    -- and has not the value of a process whose lock has expired. Locks are acquired and extended with
    -- TTLs that the backend counts, loaders leave the lock alone, and no value is drawn that a process
    -- with an expired lock has.
    pub Step-Inv :
        {s t : System W}
        → Step b holder Lasts key s t
        → Inv b holder Lasts key s
        → Inv b holder Lasts key t
    Step-Inv {s} (looks_up i) inv = kept s _ (owned.get_keeps key s.world) inv
    Step-Inv {s} (beats i value ttl lasts) inv =
        kept s _ (owned.extend_keeps key value ttl s.world lasts) inv
    Step-Inv {s} (loads i value loader h r) inv = kept s _ (r s.world) inv
    Step-Inv {s} (stores i value v d h) inv = kept s _ (owned.set_keeps key v d s.world) inv
    Step-Inv {s} (acquires i ttl value lasts idle fresh) inv =
        acquires-Inv s inv i ttl lasts value fresh
    Step-Inv {s} (releases i value h) inv = record {
      owns = λ j x h'. released s inv i value h j x h';
      alone = λ j k u v h₁ h₂.
          inv.alone j k u v (elsewhere s inv i j (holding u) (λ e. cc) h₁)
            (elsewhere s inv i k (holding v) (λ e. cc) h₂);
      apart = λ j k u v h₁ h₂.
          inv.apart j k u v (elsewhere s inv i j (holding u) (λ e. cc) h₁)
            (elsewhere s inv i k (expired v) (λ e. cc) h₂);
    }
    Step-Inv {s} (expires w' free) inv = record {
      owns = λ j x h. absurd (lapse-ne-holding (s.pc j) x h);
      alone = λ j k u v h h'. absurd (lapse-ne-holding (s.pc j) u h);
      apart = λ j k u v h h'. absurd (lapse-ne-holding (s.pc j) u h);
    }

    pub Reach-Inv : {w : W} {s : System W} → Reach b holder Lasts key w s → Inv b holder Lasts key s
    Reach-Inv here = record {
      owns = λ i v h. cc;
      alone = λ i j u v h h'. cc;
      apart = λ i j u v h h'. cc;
    }
    Reach-Inv (later r st) = Step-Inv st (Reach-Inv r)

    -- However the calls of any number of processes and the expiries of the lock interleave, a process
    -- between its acquisition and its release whose lock has not expired is the holder of the lock,
    -- and no two are there at once: of the processes that run the loader of a key at a time, all but
    -- one have lost their lock to its TTL. Locks are acquired and extended with TTLs that the
    -- backend counts, loaders leave the lock alone, and no value is drawn that a process with an
    -- expired lock has.
    pub one_loader_at_a_time :
        {w : W} {s : System W}
        → Reach b holder Lasts key w s
        → (i j : ℕ) (u v : Text) → s.pc i ≡ holding u
        → s.pc j ≡ holding v
        → (i ≡ j) × (holder s.world key ≡ some u)
    one_loader_at_a_time r i j u v h h' =
        ((Reach-Inv r).alone i j u v h h', (Reach-Inv r).owns i u h)

    -- A process whose lock has expired does not free the lock of the process that holds it by now: its
    -- release, whatever it returns, leaves the holder. Locks are acquired and extended with TTLs that
    -- the backend counts, loaders leave the lock alone, and no value is drawn that a process with an
    -- expired lock has.
    pub release-of_expired :
        {w : W} {s : System W}
        → Reach b holder Lasts key w s
        → (i j : ℕ) (u v : Text) → s.pc i ≡ holding u
        → s.pc j ≡ expired v
        → holder (b.release key v s.world).1 key ≡ some u
    release-of_expired {s = s} r i j u v h h' =
        owned.release_checks key v s.world (λ e.
          (Reach-Inv r).apart i j u v h h' (some-injective (sym ((Reach-Inv r).owns i u h) ∙ e)))
        ∙ (Reach-Inv r).owns i u h
