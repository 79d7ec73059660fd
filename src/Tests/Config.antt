-- ===== src/Tests/Config.antt =====
-- The registry and the entity configurations.
use nyro.Base.{ℕ, ◌≡◌, refl, ◌==◌, ◌⊎◌, true, false, [], ◌∷◌, if◌then◌else◌}
use nyro.Base.Duration.{pos}
use nyro.Base.Text.{Text, bytes, text_eq, text_beq}
use nyro.Base.Dict.{Dict, lookup, insert}
use nyro.Errors.{Error, fresh, Result, ok, err}
use nyro.Config.Backends.{DialConfig}
use nyro.Config.{redis_config, cache_memory, load_from_env, new}
use nyro.Config.Registry.{Constructors, registered, construct, kind, new-registered}
use nyro.Config.Entities
use nyro.Config.Entities.{
  EntityCacheConfig, EntityConfigManager, load_entity_config_manager, load_from_yaml, get_config,
  merge_one, from_env, to_env_format, env_prefix,
}
use nyro.Config.Merging.{get_config-load_entity_config_manager, load_from_env-ignores_documented}

abbrev refusing : Constructors ℕ ℕ
refusing = record {
  redis = λ c w. (err (fresh (bytes "redis: ping failed")), w);
  valkey = λ c w. (err (fresh (bytes "valkey: ping failed")), w);
  dragonfly = λ c w. (err (fresh (bytes "dragonfly: ping failed")), w);
  key_db = λ c w. (err (fresh (bytes "keydb: ping failed")), w);
  memory = λ c w. (err (fresh (bytes "no memory")), w);
}

abbrev dial : DialConfig
dial = record {
  addr = [];
  password = [];
  db = pos 0;
  pool_size = pos 0;
  min_idle_conns = pos 0;
  max_retries = pos 0;
  dial_timeout = pos 0;
  read_timeout = pos 0;
  write_timeout = pos 0;
  resp = record { default_ttl = pos 0; lock_ttl = pos 0; lock_max_wait = pos 0 };
}

program : Unit {0}
unfolding text_beq lookup insert load_from_env
program = tt

-- The type of one adapter with the configuration of another.
new-registered_example :
    (((kind (redis_config dial) == cache_memory) ≡ true)
      × (new (registered refusing) (λ p c. ok c) cache_memory (redis_config dial) 0
          ≡ construct refusing (redis_config dial) 0))
    ⊎ (((kind (redis_config dial) == cache_memory) ≡ false)
        × ((e : Error) × (new (registered refusing) (λ p c. ok c) cache_memory (redis_config dial) 0
              ≡ (err e, 0))))
unfolding program
new-registered_example =
    new-registered refusing (λ p c. ok c) cache_memory (redis_config dial) (redis_config dial) 0
      refl

abbrev country : EntityCacheConfig
country = record { key_prefix = bytes "c"; ttl = pos 60; enabled = true }

abbrev partial : EntityCacheConfig
partial = record { key_prefix = []; ttl = pos 90; enabled = false }

abbrev unmarshal : Text → Result (Dict Text EntityCacheConfig)
unmarshal data_ = ok ((bytes "country", partial) ∷ [])

-- An environment that sets the TTL of every entity.
abbrev env : Entities.EnvParse
env p config = ok (record config { ttl = pos 30 })

get_config-load_entity_config_manager_example :
    get_config (bytes "country") (load_entity_config_manager unmarshal env (bytes "cache:"))
    ≡ ok (from_env env (bytes "country") partial)
unfolding program
get_config-load_entity_config_manager_example =
    get_config-load_entity_config_manager unmarshal env (bytes "cache:") (bytes "country")
      ((bytes "country", partial) ∷ []) refl refl (refl, tt)

-- An environment with `CACHE_COUNTRY_TTL`.
documented : Entities.EnvParse
documented p config =
    if p == bytes "CACHE_COUNTRY_" then ok (record config { ttl = pos 30 }) else ok config

documented_elsewhere :
    (p : Text) (config : EntityCacheConfig)
    → (p == bytes "CACHE_COUNTRY_") ≡ false
    → documented p config ≡ ok config
unfolding documented
documented_elsewhere p config other = rw other refl

load_from_env-ignores_documented_example :
    get_config
      (bytes "country")
      (Entities.load_from_env documented ((bytes "country", country) ∷ [])).1
    ≡ get_config (bytes "country") ((bytes "country", country) ∷ [])
unfolding program to_env_format env_prefix
load_from_env-ignores_documented_example =
    load_from_env-ignores_documented documented (bytes "country") ((bytes "country", country) ∷ [])
      documented_elsewhere refl
