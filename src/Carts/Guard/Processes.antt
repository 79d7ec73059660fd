-- ===== src/Carts/Guard/Processes.antt =====
-- The guarded loads of several processes over one backend: their calls on one key interleave in any
-- order, one call of the cart at a time, and the lock may expire at any time.
use nyro.Base.{ℕ, ◌≡◌, ◌≢◌, Bool, Option, none, some, if◌then◌else◌, ◌==◌, nat_eq}
use nyro.Base.Duration.{Duration}
use nyro.Base.Text.{Text}
use nyro.Errors.{Result, ok, err}
use nyro.Carts.Guard.{Backend, Action}
use nyro.Carts.Guard.Release.{Respects}

-- Where a process stands: between the acquisition that returned a lock value and the deferred
-- release, or outside. Where its lock has expired the process goes on, and does not know.
pub data Pc : Type 0 where
  outside : Pc
  holding expired : Text → Pc

-- The lock value of a process that is inside.
abbrev pub lock_value_of : Pc → Option Text
lock_value_of outside = none
lock_value_of (holding v) = some v
lock_value_of (expired v) = some v

abbrev pub lapse : Pc → Pc
lapse outside = outside
lapse (holding v) = expired v
lapse (expired v) = expired v

-- What follows `AcquireLock`.
unfoldable pub entered : Result (Text × Bool) → Pc
entered (ok (lock_value, acquired)) = if acquired then holding lock_value else outside
entered (err e) = outside

abbrev pub update : (ℕ → Pc) → ℕ → Pc → ℕ → Pc
update f i p j = if i == j then p else f j

pub record System (W : Type 0) : Type 0 where
  pub world : W
  pub pc : ℕ → Pc

module _ {W V : Type 0} (b : Backend W V) (holder : W → Text → Option Text)
    (Lasts : Duration → Type 0) (key : Text) where
  -- One call of a process, or the expiry of the lock. A lock value that is drawn is not that of a
  -- process whose lock has expired, loaders leave the lock alone, and the lock is acquired and
  -- extended with TTLs that last.
  pub data Step (s : System W) : System W → Type 0 where
    looks_up : (i : ℕ) → Step s (record { world = (b.get key s.world).1; pc = s.pc })
    acquires :
        (i : ℕ) (ttl : Duration) (value : Text)
        → Lasts ttl
        → s.pc i ≡ outside
        → ((j : ℕ) (v : Text)
            → s.pc j ≡ expired v
            → entered (b.acquire key ttl value s.world).0 ≢ holding v)
        → Step s (record {
          world = (b.acquire key ttl value s.world).1;
          pc = update s.pc i (entered (b.acquire key ttl value s.world).0);
        })
    beats :
        (i : ℕ) (value : Text) (ttl : Duration)
        → Lasts ttl
        → Step s (record { world = (b.extend key value ttl s.world).1; pc = s.pc })
    loads :
        (i : ℕ) (value : Text) (loader : Action W V)
        → lock_value_of (s.pc i) ≡ some value
        → Respects holder key loader
        → Step s (record { world = (loader s.world).1; pc = s.pc })
    stores :
        (i : ℕ) (value : Text) (v : Option V) (expiration : Duration)
        → lock_value_of (s.pc i) ≡ some value
        → Step s (record { world = (b.set key v expiration s.world).1; pc = s.pc })
    releases :
        (i : ℕ) (value : Text)
        → lock_value_of (s.pc i) ≡ some value
        → Step s (record { world = (b.release key value s.world).1; pc = update s.pc i outside })
    expires :
        (w' : W) → holder w' key ≡ none → Step s (record { world = w'; pc = λ i. lapse (s.pc i) })

  pub data Steps (s : System W) : System W → Type 0 where
    here : Steps s s
    later : {t u : System W} → Steps s t → Step t u → Steps s u

  -- What is reached from a world in which the processes are outside.
  abbrev pub Reach : W → System W → Type 0
  Reach w = Steps (record { world = w; pc = λ i. outside })

  -- A process that holds a value is the holder of the lock, is alone, and has not the value of a
  -- process whose lock has expired.
  pub record Inv (s : System W) : Type 0 where
    pub owns : (i : ℕ) (value : Text) → s.pc i ≡ holding value → holder s.world key ≡ some value
    pub alone : (i j : ℕ) (u v : Text) → s.pc i ≡ holding u → s.pc j ≡ holding v → i ≡ j
    pub apart : (i j : ℕ) (u v : Text) → s.pc i ≡ holding u → s.pc j ≡ expired v → u ≢ v
