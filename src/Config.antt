-- ===== src/Config.antt =====
-- config/config.go: the configurations of the backends and the registry of factories, with the
-- factories that the adapters register in their `init`. `env.Parse` is a parameter, at the variables
-- that the struct tags name.
pub mod Backends
pub mod Registry
pub mod Entities
pub mod Merging
use nyro.Base.{◌≡◌, refl, ◌==◌, Bool, List, [], ◌∷◌, ◌++◌, Option, none, some, if◌then◌else◌}
use nyro.Base.Text.{Text, bytes, text_eq}
use nyro.Base.Dict.{Dict, lookup, insert}
use nyro.Errors.{Error, fresh, wrap, Result, ok, err}
use nyro.Keys.Format.{quoted}
use nyro.Memory.{MemoryConfig}
use nyro.Cache.{Cache}
use nyro.Config.Backends.{
  DialConfig, RedisConfig, ValkeyConfig, DragonflyConfig, KeyDbConfig, redis_tags, valkey_tags,
  dragonfly_tags, key_db_tags,
}

abbrev pub CacheType : Type 0
CacheType = Text

abbrev pub cache_redis : CacheType
cache_redis = bytes "redis"

abbrev pub cache_valkey : CacheType
cache_valkey = bytes "valkey"

abbrev pub cache_memory : CacheType
cache_memory = bytes "memory"

abbrev pub cache_dragonfly : CacheType
cache_dragonfly = bytes "dragonfly"

abbrev pub cache_key_db : CacheType
cache_key_db = bytes "keydb"

-- The implementations of `Config`.
pub data Config : Type 0 where
  redis_config : RedisConfig → Config
  valkey_config : ValkeyConfig → Config
  dragonfly_config : DragonflyConfig → Config
  key_db_config : KeyDbConfig → Config
  memory_config : MemoryConfig → Config

-- `%T` of a configuration.
unfoldable pub type_of : Config → Text
type_of (redis_config c) = bytes "*config.RedisConfig"
type_of (valkey_config c) = bytes "*config.ValkeyConfig"
type_of (dragonfly_config c) = bytes "*config.DragonflyConfig"
type_of (key_db_config c) = bytes "*config.KeyDBConfig"
type_of (memory_config c) = bytes "*config.MemoryConfig"

abbrev pub EnvParse : Type 0
EnvParse = List Text → DialConfig → Result DialConfig

parsed : (DialConfig → Config) → Text → Result DialConfig → Result Config
parsed make name (ok c) = ok (make c)
parsed make name (err e) =
    err (wrap (bytes "failed to parse " ++ (name ++ bytes " config from env")) e)

-- `LoadFromEnv` of each struct.
unfoldable pub redis_from_env : EnvParse → RedisConfig → Result Config
unfolding parsed
redis_from_env parse c = parsed redis_config (bytes "Redis") (parse redis_tags c)

unfoldable pub valkey_from_env : EnvParse → ValkeyConfig → Result Config
unfolding parsed
valkey_from_env parse c = parsed valkey_config (bytes "Valkey") (parse valkey_tags c)

unfoldable pub dragonfly_from_env : EnvParse → DragonflyConfig → Result Config
unfolding parsed
dragonfly_from_env parse c = parsed dragonfly_config (bytes "Dragonfly") (parse dragonfly_tags c)

unfoldable pub key_db_from_env : EnvParse → KeyDbConfig → Result Config
unfolding parsed
key_db_from_env parse c = parsed key_db_config (bytes "KeyDB") (parse key_db_tags c)

unfoldable pub memory_from_env : MemoryConfig → Result Config
memory_from_env c = ok (memory_config c)

-- `cfg.LoadFromEnv()` at the interface.
unfoldable pub load_from_env : EnvParse → Config → Result Config
unfolding redis_from_env valkey_from_env dragonfly_from_env key_db_from_env memory_from_env
load_from_env parse (redis_config c) = redis_from_env parse c
load_from_env parse (valkey_config c) = valkey_from_env parse c
load_from_env parse (dragonfly_config c) = dragonfly_from_env parse c
load_from_env parse (key_db_config c) = key_db_from_env parse c
load_from_env parse (memory_config c) = memory_from_env c

abbrev pub CacheFactory : Type 0 → Type 0 → Type 0
CacheFactory W V = Config → W → Result (Cache W V) × W

-- The text, with its dash in UTF-8.
unsupported : CacheType → Text
unsupported cache_type =
    bytes "unsupported cache type "
    ++ (quoted cache_type
        ++ (bytes " " ++ (226 ∷ 128 ∷ 148 ∷ bytes " did you import the adapter package?")))

module _ {W V : Type 0} where
  unfoldable pub register :
      CacheType
      → CacheFactory W V
      → Dict CacheType (CacheFactory W V)
      → Dict CacheType (CacheFactory W V)
  register cache_type factory registry = insert cache_type factory registry

  unfoldable pub made : CacheType → Option (CacheFactory W V) → Config → W → Result (Cache W V) × W
  unfolding unsupported
  made cache_type none cfg w = (err (fresh (unsupported cache_type)), w)
  made cache_type (some factory) cfg w = factory cfg w

  unfoldable pub new :
      Dict CacheType (CacheFactory W V) → EnvParse → CacheType → Config → W → Result (Cache W V) × W
  unfolding made
  new registry parse cache_type cfg w = elim (load_from_env parse cfg) [
    | err e ↦ (err (wrap (bytes "failed to load config from env") e), w)
    | ok cfg' ↦ made cache_type (lookup cache_type registry) cfg' w
  ]
