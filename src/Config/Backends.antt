-- ===== src/Config/Backends.antt =====
-- config/config.go: the configurations of Redis, Valkey, Dragonfly and KeyDB, whose structs have the
-- same fields, the variables that their tags name, and what their `Client` methods hand to the clients.
use nyro.Base.{List, [], ◌∷◌, ◌++◌, map}
use nyro.Base.Duration.{ℤ, Duration}
use nyro.Base.Text.{Text, bytes}
use nyro.Adapters.Resp.{RespConfig}

-- `resp` has the last three fields, which the adapters read.
pub record DialConfig : Type 0 where
  pub addr : Text
  pub password : Text
  pub db : ℤ
  pub pool_size : ℤ
  pub min_idle_conns : ℤ
  pub max_retries : ℤ
  pub dial_timeout : Duration
  pub read_timeout : Duration
  pub write_timeout : Duration
  pub resp : RespConfig

abbrev pub RedisConfig : Type 0
RedisConfig = DialConfig

abbrev pub ValkeyConfig : Type 0
ValkeyConfig = DialConfig

abbrev pub DragonflyConfig : Type 0
DragonflyConfig = DialConfig

abbrev pub KeyDbConfig : Type 0
KeyDbConfig = DialConfig

-- The names of the variables, which differ in their prefix only, in the order of the fields.
abbrev suffixes : List Text
suffixes =
    bytes "ADDR"
    ∷ bytes "PASSWORD"
    ∷ bytes "DB"
    ∷ bytes "POOL_SIZE"
    ∷ bytes "MIN_IDLE_CONNS"
    ∷ bytes "MAX_RETRIES"
    ∷ bytes "DIAL_TIMEOUT"
    ∷ bytes "READ_TIMEOUT"
    ∷ bytes "WRITE_TIMEOUT"
    ∷ bytes "DEFAULT_TTL"
    ∷ bytes "LOCK_TTL"
    ∷ bytes "LOCK_MAX_WAIT"
    ∷ []

abbrev tags : Text → List Text
tags prefix = map (λ s. prefix ++ s) suffixes

unfoldable pub redis_tags : List Text
redis_tags = tags (bytes "REDIS_")

unfoldable pub valkey_tags : List Text
valkey_tags = tags (bytes "VALKEY_")

unfoldable pub dragonfly_tags : List Text
dragonfly_tags = tags (bytes "DRAGONFLY_")

unfoldable pub key_db_tags : List Text
key_db_tags = tags (bytes "KEYDB_")

-- The fields of goredis.Options that are set.
pub record RedisOptions : Type 0 where
  pub addr : Text
  pub password : Text
  pub db : ℤ
  pub pool_size : ℤ
  pub min_idle_conns : ℤ
  pub max_retries : ℤ
  pub dial_timeout : Duration
  pub read_timeout : Duration
  pub write_timeout : Duration

unfoldable pub redis_options : RedisConfig → RedisOptions
redis_options c = record {
  addr = c.addr;
  password = c.password;
  db = c.db;
  pool_size = c.pool_size;
  min_idle_conns = c.min_idle_conns;
  max_retries = c.max_retries;
  dial_timeout = c.dial_timeout;
  read_timeout = c.read_timeout;
  write_timeout = c.write_timeout;
}

-- The fields of valkeygo.ClientOption that are set.
pub record ValkeyOptions : Type 0 where
  pub init_address : List Text
  pub password : Text
  pub select_db : ℤ

unfoldable pub valkey_options : ValkeyConfig → ValkeyOptions
valkey_options c = record { init_address = c.addr ∷ []; password = c.password; select_db = c.db }
