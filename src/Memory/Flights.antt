-- ===== src/Memory/Flights.antt =====
-- `GetOrSet` of the in-memory adapter with any number of callers of one key, whose steps interleave
-- in any order with each other and with the collector. Each step is what runs under the mutex, or a
-- step of `singleflight.Group.Do`: at most one flight is under way for a key, a caller that finds
-- one waits for it, and all of its callers get its result.
pub mod Once
pub mod Progress
pub mod Alone
use nyro.Base.{
  ℕ, ◌+◌, ◌≤◌, ◌<◌, ◌≡◌, ◌≢◌, Bool, true, false, List, Option, none, some, if◌then◌else◌, ◌==◌,
  nat_eq,
}
use nyro.Base.Duration.{Time}
use nyro.Errors.{Error, Result, ok, err}
use nyro.Keys.{Key}
use nyro.Options.{Option as CacheOption}
use nyro.Memory.{Adapter, get, evict_expired}
use nyro.Memory.Loading.{store}

-- Where the flight of the key stands: before its second look-up, in the loader, or with what the
-- loader returned.
pub data Flight (V : Type 0) : Type 0 where
  landed checking loading : Flight V
  returned : Result (Option V) → Flight V

-- Where a caller stands.
pub data Pc (V : Type 0) : Type 0 where
  idle missed waiting : Pc V
  finished : Result (Option V) → Pc V

-- `successes` counts the calls of the loader that have returned a value.
pub record System (V : Type 0) : Type 0 where
  pub cache : Adapter V
  pub flight : Flight V
  pub pc : ℕ → Pc V
  pub successes : ℕ

module _ {V : Type 0} where
  abbrev pub update : (ℕ → Pc V) → ℕ → Pc V → ℕ → Pc V
  update f i p j = if i == j then p else f j

  -- `if v, err := a.Get(ctx, key); err == nil { return v, nil }`
  unfoldable pub looked_up : Result (Option V) → Pc V
  looked_up (ok v) = finished (ok v)
  looked_up (err e) = missed

  -- The flight's result goes to all of its callers.
  abbrev pub received : Result (Option V) → Pc V → Pc V
  received r waiting = finished r
  received r p = p

  abbrev pub deliver : Result (Option V) → (ℕ → Pc V) → ℕ → Pc V
  deliver r f j = received r (f j)

  -- The double-check inside the flight.
  unfoldable pub double_check : Result (Option V) → System V → System V
  double_check (ok v) s = record s { flight = landed; pc = deliver (ok v) s.pc }
  double_check (err e) s = record s { flight = loading }

  abbrev pub succeeded : Result (Option V) → ℕ
  succeeded (ok v) = 1
  succeeded (err e) = 0

  -- What follows the loader, up to the flight's end.
  unfoldable pub land : Time → Key → List CacheOption → Result (Option V) → System V → System V
  land now key options r s =
      let (result, cache') = store now key options (r, s.cache) in
      record s { cache = cache'; flight = landed; pc = deliver result s.pc }

abbrev pub IsWithin : Time → Time → Time → Type 0
IsWithin from until now = (from ≤ now) × (now ≤ until)

-- The calls fall into the time from `from` to `until`.
module _ {V : Type 0} (key : Key) (options : List CacheOption) (from until : Time) where
  pub data Step (s : System V) : System V → Type 0 where
    looks_up :
        (i : ℕ) (now : Time)
        → IsWithin from until now
        → s.pc i ≡ idle
        → Step s (record s { pc = update s.pc i (looked_up (get now key s.cache)) })
    leads :
        (i : ℕ)
        → s.pc i ≡ missed
        → s.flight ≡ landed
        → Step s (record s { flight = checking; pc = update s.pc i waiting })
    joins :
        (i : ℕ)
        → s.pc i ≡ missed
        → s.flight ≢ landed
        → Step s (record s { pc = update s.pc i waiting })
    checks :
        (now : Time)
        → IsWithin from until now
        → s.flight ≡ checking
        → Step s (double_check (get now key s.cache) s)
    loads :
        (r : Result (Option V))
        → s.flight ≡ loading
        → Step s (record s { flight = returned r; successes = s.successes + succeeded r })
    lands :
        (now : Time) (r : Result (Option V))
        → IsWithin from until now
        → s.flight ≡ returned r
        → Step s (land now key options r s)
    collects :
        (now : Time)
        → IsWithin from until now
        → Step s (record s { cache = evict_expired now s.cache })

  pub data Steps (s : System V) : System V → Type 0 where
    here : Steps s s
    later : {t u : System V} → Steps s t → Step t u → Steps s u

  -- What is reached from a cache before any call.
  abbrev pub Reach : Adapter V → System V → Type 0
  Reach a = Steps (record { cache = a; flight = landed; pc = λ i. idle; successes = 0 })
