-- ===== src/Carts/Memcached.antt =====
-- carts/memcached/memcached.go: `MemcachedCart` over its client, which is a parameter.
pub mod Ownership
pub mod Expiry
pub mod Load
pub mod Reference
pub mod Timed
pub mod Values
pub mod Keeps
pub mod Runs
use nyro.Base.{◌≡◌, Bool, true, false, List, [], ◌∷◌, ◌++◌, Option, none, some, if◌then◌else◌, ◌==◌}
use nyro.Base.Duration.{ℤ, Duration, to_seconds}
use nyro.Base.Text.{Text, bytes, text_eq}
use nyro.Base.Dict.{Dict, insert}
use nyro.Errors.{Error, wrap, not_found_with_cause, Result, ok, err, mapping}
use nyro.Carts.Json.{Json}
use nyro.Carts.Guard.{Backend}
use nyro.Carts.Redis.{lock_key}

-- MemcachedClientInterface. An item is its key, its value and its expiration in seconds, of which
-- reads return the value; `is_cache_miss` and `is_not_stored` are `errors.Is` at `memcache.ErrCacheMiss` and at
-- `memcache.ErrNotStored`, and `int32` is Go's conversion, whose value for a number of seconds out of range is left to the implementation.
pub record Client (W : Type 0) : Type 0 where
  pub get : Text → W → Result Text × W
  pub set : Text → Text → ℤ → W → Result (Unit {0}) × W
  pub add : Text → Text → ℤ → W → Result (Unit {0}) × W
  pub delete : Text → W → Result (Unit {0}) × W
  pub get_multi : List Text → W → Result (Dict Text Text) × W
  pub flush_all : W → Result (Unit {0}) × W
  pub ping : W → Result (Unit {0}) × W
  pub is_cache_miss : Error → Bool
  pub is_not_stored : Error → Bool
  pub int32 : ℤ → ℤ

unfoldable pub done_or : Text → Result (Unit {0}) → Result (Unit {0})
done_or m (ok u) = ok u
done_or m (err e) = err (wrap m e)

module _ {W : Type 0} (c : Client W) where
  -- `if err := …; err != nil && !errors.Is(err, memcache.ErrCacheMiss) { return fmt.Errorf(…) }`
  unfoldable pub unless_miss : Text → Result (Unit {0}) → Result (Unit {0})
  unless_miss m (ok u) = ok tt
  unless_miss m (err e) = if c.is_cache_miss e then ok tt else err (wrap m e)

  unfoldable pub delete : Text → W → Result (Unit {0}) × W
  unfolding unless_miss
  delete key w = mapping (unless_miss (bytes "memcached: delete failed")) (c.delete key w)

  exists_read : Result Text → Result Bool
  exists_read (ok s) = ok true
  exists_read (err e) =
      if c.is_cache_miss e then ok false else err (wrap (bytes "memcached: exists check failed") e)

  unfoldable pub exists : Text → W → Result Bool × W
  unfolding exists_read
  exists key w = mapping exists_read (c.get key w)

  -- The loop of `Delete` calls; the first that fails ends it.
  unfoldable pub delete_multi : List Text → W → Result (Unit {0}) × W
  delete_multi [] w = (ok tt, w)
  delete_multi (key ∷ keys) w =
      let (r, w') = delete key w in
      let rest = delete_multi keys w' in elim r [ err e ↦ (err e, w') | ok _ ↦ rest ]

  unfoldable pub clear : W → Result (Unit {0}) × W
  unfolding done_or
  clear w = mapping (done_or (bytes "memcached: flush all failed")) (c.flush_all w)

  unfoldable pub health_check : W → Result (Unit {0}) × W
  unfolding done_or
  health_check w = mapping (done_or (bytes "memcached: health check failed")) (c.ping w)

  unfoldable pub acquired : Text → Result (Unit {0}) → Result (Text × Bool)
  acquired lock_value (ok u) = ok (lock_value, true)
  acquired lock_value (err e) =
      if c.is_not_stored e then ok ([], false) else err (wrap (bytes "failed to acquire lock") e)

  -- `lock_value` is what `generateLockValue` returned.
  unfoldable pub acquire_lock : Text → Duration → Text → W → Result (Text × Bool) × W
  unfolding acquired
  acquire_lock key ttl lock_value w =
      mapping (acquired lock_value) (c.add (lock_key key) lock_value (c.int32 (to_seconds ttl)) w)

  -- `between` is what other processes do between the look-up and the command that follows it.
  unfoldable pub release_lock : (W → W) → Text → Text → W → Result (Unit {0}) × W
  unfolding unless_miss
  release_lock between key lock_value w =
      let (r, w₁) = c.get (lock_key key) w in
      elim r [
        | err e ↦ (
          if c.is_cache_miss e
              then ok tt
              else err (wrap (bytes "failed to get lock for release") e),
          w₁,
        )
        | ok value ↦
            if value == lock_value
            then mapping (unless_miss (bytes "failed to release lock"))
                (c.delete (lock_key key) (between w₁))
            else (ok tt, w₁)
      ]

  unfoldable pub extended : Result (Unit {0}) → Result Bool
  extended (ok u) = ok true
  extended (err e) = err (wrap (bytes "failed to extend lock") e)

  unfoldable pub extend_lock : (W → W) → Text → Text → Duration → W → Result Bool × W
  unfolding extended
  extend_lock between key lock_value ttl w =
      let (r, w₁) = c.get (lock_key key) w in
      elim r [
        | err e ↦ (
          if c.is_cache_miss e
              then ok false
              else err (wrap (bytes "failed to get lock for extension") e),
          w₁,
        )
        | ok value ↦
            if value == lock_value
            then mapping extended
                (c.set (lock_key key) value (c.int32 (to_seconds ttl)) (between w₁))
            else (ok false, w₁)
      ]

  unfoldable pub close : W → Result (Unit {0}) × W
  close w = (ok tt, w)

module _ {W V : Type 0} (c : Client W) (json : Json V) where
  decoded : Result (Option V) → Result (Option V)
  decoded (ok v) = ok v
  decoded (err e) = err (wrap (bytes "memcached: unmarshal failed") e)

  got : Result Text → Result (Option V)
  unfolding decoded not_found_with_cause
  got (ok s) = decoded (json.unmarshal s)
  got (err e) =
      if c.is_cache_miss e
      then err (not_found_with_cause e)
      else err (wrap (bytes "memcached: get failed") e)

  unfoldable pub get : Text → W → Result (Option V) × W
  unfolding got
  get key w = mapping got (c.get key w)

  unfoldable pub set : Text → Option V → Duration → W → Result (Unit {0}) × W
  unfolding done_or
  set key v expiration w = elim (json.marshal v) [
    | err e ↦ (err (wrap (bytes "memcached: marshal failed") e), w)
    | ok data_ ↦
        mapping (done_or (bytes "memcached: set failed"))
          (c.set key data_ (c.int32 (to_seconds expiration)) w)
  ]

  -- The loop over the items that were found; the first that does not decode ends it.
  pub decode_all : Dict Text Text → Dict Text (Option V) → Result (Dict Text (Option V))
  decode_all [] result = ok result
  decode_all ((key, s) ∷ items) result = elim (json.unmarshal s) [
    | err e ↦ err (wrap (bytes "memcached: unmarshal failed for key " ++ key) e)
    | ok v ↦ decode_all items (insert key v result)
  ]

  collected : Result (Dict Text Text) → Result (Dict Text (Option V))
  unfolding decode_all
  collected (ok items) = decode_all items []
  collected (err e) = err (wrap (bytes "memcached: get multi failed") e)

  unfoldable pub get_multi : List Text → W → Result (Dict Text (Option V)) × W
  unfolding collected
  get_multi keys w = mapping collected (c.get_multi keys w)

  -- The loop of `Set` calls, in the order of the iteration; the first that fails ends it.
  unfoldable pub set_multi : Dict Text (Option V) → Duration → W → Result (Unit {0}) × W
  set_multi [] expiration w = (ok tt, w)
  set_multi ((key, v) ∷ items) expiration w =
      let (r, w') = set key v expiration w in
      let rest = set_multi items expiration w' in elim r [ err e ↦ (err e, w') | ok _ ↦ rest ]

  -- The operations that the guarded load calls, with no other process between their commands.
  abbrev pub memcached_backend : Backend W V
  memcached_backend = record {
    get = get;
    set = set;
    acquire = acquire_lock c;
    release = release_lock c (λ w. w);
    extend = extend_lock c (λ w. w);
    wait_failed = bytes "failed to wait for cache";
  }
