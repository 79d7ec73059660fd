-- ===== src/Carts/Surreal/Load.antt =====
-- carts/surrealdb/surrealdb.go: the configuration and the guarded load of `SurrealDBCart`. The load
-- repeats the text of `RedisCart`, so it is the one of Carts/Guard over the operations of this cart.
use nyro.Base.{foldl, ◌*◌, Bool, List}
use nyro.Base.Duration.{pos, second, Duration}
use nyro.Base.Text.{Text, bytes}
use nyro.Errors.{Result, wrap, ok, err}
use nyro.Carts.Guard
use nyro.Carts.Guard.{Backend, LockConfig, Retry, Action, Beat, Selected}
use nyro.Carts.Surreal.{Client, get, set, acquire_lock, release_lock, extend_lock}

-- The part of `SurrealDBCartConfig` that is read outside of the backoff.
pub record SurrealDbCartConfig : Type 0 where
  pub lock : LockConfig
  pub namespace : Text
  pub database : Text
  pub table : Text

abbrev pub default_surreal_db_cart_config : SurrealDbCartConfig
default_surreal_db_cart_config = record {
  lock = record {
    lock_ttl = pos (10 * second);
    lock_max_wait = pos (3 * second);
    lock_renewal_interval = pos 0;
  };
  namespace = bytes "cache";
  database = bytes "nyro";
  table = bytes "cache_entries";
}

abbrev pub SurrealDbCartOption : Type 0
SurrealDbCartOption = SurrealDbCartConfig → SurrealDbCartConfig

unfoldable pub with_lock_ttl : Duration → SurrealDbCartOption
with_lock_ttl ttl c = record c { lock = record (c.lock) { lock_ttl = ttl } }

unfoldable pub with_lock_max_wait : Duration → SurrealDbCartOption
with_lock_max_wait d c = record c { lock = record (c.lock) { lock_max_wait = d } }

unfoldable pub with_namespace : Text → SurrealDbCartOption
with_namespace ns c = record c { namespace = ns }

unfoldable pub with_database : Text → SurrealDbCartOption
with_database db c = record c { database = db }

unfoldable pub with_table : Text → SurrealDbCartOption
with_table table c = record c { table = table }

unfoldable pub configured : List SurrealDbCartOption → SurrealDbCartConfig
configured opts = foldl (λ cfg opt. opt cfg) default_surreal_db_cart_config opts

module _ {W V : Type 0} (c : Client W V) where
  -- The configuration of the cart that is returned.
  unfoldable pub new_surreal_db : List SurrealDbCartOption → W → Result SurrealDbCartConfig × W
  unfolding configured
  new_surreal_db opts w =
      let cfg = configured opts in
      let (r, w') = c.use_ cfg.namespace cfg.database w in
      elim r [
        | ok _ ↦ (ok cfg, w')
        | err e ↦ (err (wrap (bytes "failed to use namespace/database") e), w')
      ]

  module _ (cfg : SurrealDbCartConfig) where
    abbrev pub surreal_backend : Backend W V
    surreal_backend = record {
      get = get c cfg.table;
      set = set c cfg.table;
      acquire = acquire_lock c;
      release = release_lock c;
      extend = extend_lock c;
      wait_failed = bytes "failed to wait for cache";
    }

    unfoldable pub heartbeat : Text → Text → Duration → List Beat → W → Bool × W
    heartbeat = Guard.heartbeat surreal_backend

    unfoldable pub wait_for_cache : Retry W V → Text → Action W V
    wait_for_cache = Guard.wait_for_cache surreal_backend cfg.lock.lock_max_wait

    unfoldable pub get_or_set_locked :
        Retry W V
        → Text
        → Text
        → Action W V
        → Duration
        → Duration
        → List Beat
        → List Beat
        → Action W V
    get_or_set_locked = Guard.get_or_set_locked surreal_backend cfg.lock

    unfoldable pub get_or_set_with_lock :
        Retry W V
        → (Text → Action W V → Action W V)
        → Selected
        → Text
        → Text
        → Action W V
        → Duration
        → Duration
        → List Beat
        → List Beat
        → Action W V
    get_or_set_with_lock = Guard.get_or_set_with_lock surreal_backend cfg.lock
