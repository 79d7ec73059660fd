-- ===== src/Carts/Valkey/Load.antt =====
-- `GetOrSetWithLock` of `ValkeyStore`. The waiting, the heartbeat, what follows the loader and the
-- deferred release repeat the text of the Redis cart; there is no flight, and an error of the second
-- look-up other than a miss is returned.
use nyro.Base.{foldl, ◌*◌, Bool, List, if◌then◌else◌}
use nyro.Base.Duration.{pos, second, Duration}
use nyro.Base.Text.{Text, bytes}
use nyro.Errors.{wrap, as_not_found, ok, err}
use nyro.Carts.Json.{Json}
use nyro.Carts.Guard
use nyro.Carts.Guard.{
  Backend, LockConfig, Action, Retry, Beat, effective_lock_ttl, load_under_heartbeat, store,
  with_release,
}
use nyro.Carts.Valkey.{Client, get, set, acquire_lock, release_lock, extend_lock}

-- The operations of `ValkeyStore` that the guarded load calls.
abbrev pub valkey_backend : {W R V : Type 0} → Client W R → Json V → Backend W V
valkey_backend c json = record {
  get = get c json;
  set = set c json;
  acquire = acquire_lock c;
  release = release_lock c;
  extend = extend_lock c;
  wait_failed = bytes "waiting for cache population failed";
}

-- `DefaultValkeyStoreConfig`, as far as the guarded load reads it.
abbrev pub default_valkey_store_config : LockConfig
default_valkey_store_config = record {
  lock_ttl = pos (10 * second);
  lock_max_wait = pos (3 * second);
  lock_renewal_interval = pos 0;
}

abbrev pub ValkeyStoreOption : Type 0
ValkeyStoreOption = LockConfig → LockConfig

unfoldable pub with_lock_ttl : Duration → ValkeyStoreOption
with_lock_ttl ttl c = record c { lock_ttl = ttl }

unfoldable pub with_lock_max_wait : Duration → ValkeyStoreOption
with_lock_max_wait d c = record c { lock_max_wait = d }

-- The configuration of the store that `NewValkey` returns.
unfoldable pub new_valkey : List ValkeyStoreOption → LockConfig
new_valkey opts = foldl (λ cfg opt. opt cfg) default_valkey_store_config opts

module _ {W R V : Type 0} (c : Client W R) (json : Json V) where
  abbrev backend : Backend W V
  backend = valkey_backend c json

  unfoldable pub wait_for_cache : Duration → Retry W V → Text → Action W V
  wait_for_cache = Guard.wait_for_cache backend

  -- `startLockHeartbeat`, over what its `select` receives.
  unfoldable pub heartbeat : Text → Text → Duration → List Beat → W → Bool × W
  heartbeat = Guard.heartbeat backend

  -- From the acquired lock up to the deferred release.
  unfoldable pub while_held :
      Text → Text → Duration → Duration → List Beat → List Beat → Action W V → Action W V
  while_held key lock_value expiration lock_ttl before after loader w =
      let (r, w₁) = get c json key w in
      let miss =
        store backend key expiration
          (load_under_heartbeat backend key lock_value lock_ttl before after loader w₁) in
      elim r [
        | ok v ↦ (ok v, w₁)
        | err e ↦
            if as_not_found e
            then miss
            else (err (wrap (bytes "cache get error during double-check") e), w₁)
      ]

  -- What follows the first look-up.
  unfoldable pub get_or_set_locked :
      LockConfig
      → Retry W V
      → Text
      → Text
      → Action W V
      → Duration
      → Duration
      → List Beat
      → List Beat
      → Action W V
  unfolding while_held
  get_or_set_locked cfg retry value key loader expiration lock_ttl before after w =
      let ttl = effective_lock_ttl cfg lock_ttl in
      let (r, w₁) = acquire_lock c key ttl value w in
      elim r [
        | err e ↦ (err (wrap (bytes "lock acquisition failed") e), w₁)
        | ok (lock_value, acquired) ↦
            if acquired
            then with_release backend key lock_value
                (while_held key lock_value expiration ttl before after loader) w₁
            else wait_for_cache cfg.lock_max_wait retry key w₁
      ]

  unfoldable pub get_or_set_with_lock :
      LockConfig
      → Retry W V
      → Text
      → Text
      → Action W V
      → Duration
      → Duration
      → List Beat
      → List Beat
      → Action W V
  unfolding get_or_set_locked
  get_or_set_with_lock cfg retry value key loader expiration lock_ttl before after w =
      let (r, w₁) = get c json key w in
      let miss = get_or_set_locked cfg retry value key loader expiration lock_ttl before after w₁ in
      elim r [
        | ok v ↦ (ok v, w₁)
        | err e ↦ if as_not_found e then miss else (err (wrap (bytes "cache get error") e), w₁)
      ]
