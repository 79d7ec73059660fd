-- ===== src/Memory/Loading.antt =====
-- `GetOrSet` of the in-memory adapter, seen from one caller. `singleflight.Group.Do` is a
-- parameter; the loader may use the cache while it runs. The three times are the readings of the
-- clock by the first `Get`, the one inside the flight, and the `Set`.
use nyro.Base.{◌≤◌, ◌<◌, ◌≡◌, refl, true, List, Option, arith, eq_self}
use nyro.Base.Duration.{Time, add_time, is_positive}
use nyro.Base.Text.{Text, bytes, text_eq}
use nyro.Errors.{Error, wrap, Sentinel, Result, ok, err, is}
use nyro.Keys.{Key}
use nyro.Options.{Option as CacheOption}
use nyro.Memory.{Adapter, get, set, to_key, ttl_of}
use nyro.Memory.Expiry.{get-set}

-- A computation on the cache: its result, and the cache that it leaves.
abbrev pub Action : Type 0 → Type 0
Action V = Adapter V → Result (Option V) × Adapter V

-- The documented behaviour of `Do` where no other call for the key is in flight: the function is
-- run, and its results are returned.
abbrev pub Leads : {V : Type 0} → (Text → Action V → Action V) → Type 0
Leads {V} flight = (k : Text) (f : Action V) (a : Adapter V) → flight k f a ≡ f a

module _ {V : Type 0} where
  -- What follows the call of the loader.
  unfoldable pub store :
      Time → Key → List CacheOption → Result (Option V) × Adapter V → Result (Option V) × Adapter V
  store t key options (ok v, a) = (ok v, (set t key v options a).1)
  store t key options (err e, a) = (err (wrap (bytes "memory: loader failed") e), a)

  -- The function that `Do` is given.
  unfoldable pub load : Time → Time → Key → Action V → List CacheOption → Action V
  unfolding store
  load t₂ t₃ key loader options a = elim (get t₂ key a) [
    | ok v ↦ (ok v, a)
    | err _ ↦ store t₃ key options (loader a)
  ]

  unfoldable pub get_or_set :
      (Text → Action V → Action V)
      → Time
      → Time
      → Time
      → Key
      → Action V
      → List CacheOption
      → Action V
  unfolding load
  get_or_set flight t₁ t₂ t₃ key loader options a = elim (get t₁ key a) [
    | ok v ↦ (ok v, a)
    | err _ ↦ flight (to_key key) (load t₂ t₃ key loader options) a
  ]

module _ {V : Type 0} (flight : Text → Action V → Action V) (t₁ t₂ t₃ : Time) (key : Key) where
  -- On a hit the cached value is returned and nothing changes, whatever the loader and the flights.
  pub get_or_set_hit :
      (loader : Action V) (options : List CacheOption) (a : Adapter V) {v : Option V}
      → get t₁ key a ≡ ok v
      → get_or_set flight t₁ t₂ t₃ key loader options a ≡ (ok v, a)
  unfolding get_or_set
  get_or_set_hit loader options a h = rw (h, get_or_set)

  -- Where both reads miss, a loader's error is returned wrapped, and the cache is what the loader
  -- left: nothing is stored. `errors.Is` sees the loader's error through the wrapping.
  pub get_or_set_fails :
      (loader : Action V) (options : List CacheOption) (a a' : Adapter V) {e₁ e₂ : Error}
      (e : Error)
      → Leads flight
      → get t₁ key a ≡ err e₁
      → get t₂ key a ≡ err e₂
      → loader a ≡ (err e, a')
      → (r : Error) × (get_or_set flight t₁ t₂ t₃ key loader options a ≡ (err r, a'))
        × ((s : Sentinel) → is r s ≡ is e s)
  unfolding get_or_set is
  get_or_set_fails loader options a a' e leads h₁ h₂ l =
      (wrap (bytes "memory: loader failed") e, rw (h₁, get_or_set, leads, h₂, load, l), λ s. refl)

  -- Where both reads miss and the loader succeeds, its value is returned and stored: until the
  -- deadline of the applied TTL any later `GetOrSet` of a key with the same string returns that
  -- value and leaves the cache as it is, without its own loader.
  pub get_or_set_loads_once :
      (loader loader' : Action V) (options options' : List CacheOption) (a a' : Adapter V) (j : Key)
      (s₁ s₂ s₃ : Time) {e₁ e₂ : Error} {v : Option V}
      → Leads flight
      → get t₁ key a ≡ err e₁
      → get t₂ key a ≡ err e₂
      → loader a ≡ (ok v, a')
      → 0 < t₃
      → to_key j ≡ to_key key
      → (is_positive (ttl_of options a'.config) ≡ true
          → s₁ ≤ add_time t₃ (ttl_of options a'.config))
      → (b : Adapter V) × (get_or_set flight t₁ t₂ t₃ key loader options a ≡ (ok v, b))
        × (get_or_set flight s₁ s₂ s₃ j loader' options' b ≡ (ok v, b))
  unfolding get_or_set
  get_or_set_loads_once loader loader' options options' a a' j s₁ s₂ s₃ {v} leads h₁ h₂ l past same
        early =
      (
        (set t₃ key v options a').1,
        rw (h₁, get_or_set, leads, h₂, load, l, store),
        rw (hit, get_or_set),
      )
    where
      hit : get s₁ j (set t₃ key v options a').1 ≡ ok v
      hit = rw (get-set a' key j t₃ s₁ v options past, same, eq_self (to_key key)) (ground arith)
