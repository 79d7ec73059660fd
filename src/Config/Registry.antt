-- ===== src/Config/Registry.antt =====
-- The registry of config/config.go once the adapters have registered their factories.
use nyro.Base.{
  ◌≡◌, refl, ◌==◌, eq_iff, ◌⊎◌, inl, inr, Bool-cases, true, false, [], ◌++◌, Option, none, some,
  if◌then◌else◌,
}
use nyro.Base.Text.{Text, bytes, text_eq, text_beq}
use nyro.Base.Dict.{Dict, lookup, insert}
use nyro.Errors.{Error, fresh, Result, ok, err}
use nyro.Memory.{MemoryConfig}
use nyro.Cache.{Cache}
use nyro.Config.Backends.{RedisConfig, ValkeyConfig, DragonflyConfig, KeyDbConfig}
use nyro.Config.{
  Config, redis_config, valkey_config, dragonfly_config, key_db_config, memory_config, CacheType,
  cache_redis, cache_valkey, cache_memory, cache_dragonfly, cache_key_db, type_of, EnvParse,
  load_from_env, CacheFactory, register, made, new,
}

-- A factory of an adapter: its `New` where the type assertion on the configuration holds.
abbrev refused : {W V : Type 0} → Text → Text → Config → W → Result (Cache W V) × W
refused name expected cfg w = (
  err (
      fresh
        (name ++ (bytes " adapter: expected " ++ (expected ++ (bytes ", got " ++ type_of cfg))))),
  w,
)

-- The `New` of the five adapters that register.
pub record Constructors (W V : Type 0) : Type 0 where
  pub redis : RedisConfig → W → Result (Cache W V) × W
  pub valkey : ValkeyConfig → W → Result (Cache W V) × W
  pub dragonfly : DragonflyConfig → W → Result (Cache W V) × W
  pub key_db : KeyDbConfig → W → Result (Cache W V) × W
  pub memory : MemoryConfig → W → Result (Cache W V) × W

module _ {W V : Type 0} where
  unfoldable pub redis_factory : Constructors W V → CacheFactory W V
  redis_factory adapters (redis_config c) w = adapters.redis c w
  redis_factory adapters cfg w = refused (bytes "redis") (bytes "*config.RedisConfig") cfg w

  unfoldable pub valkey_factory : Constructors W V → CacheFactory W V
  valkey_factory adapters (valkey_config c) w = adapters.valkey c w
  valkey_factory adapters cfg w = refused (bytes "valkey") (bytes "*config.ValkeyConfig") cfg w

  unfoldable pub dragonfly_factory : Constructors W V → CacheFactory W V
  dragonfly_factory adapters (dragonfly_config c) w = adapters.dragonfly c w
  dragonfly_factory adapters cfg w =
      refused (bytes "dragonfly") (bytes "*config.DragonflyConfig") cfg w

  unfoldable pub key_db_factory : Constructors W V → CacheFactory W V
  key_db_factory adapters (key_db_config c) w = adapters.key_db c w
  key_db_factory adapters cfg w = refused (bytes "keydb") (bytes "*config.KeyDBConfig") cfg w

  unfoldable pub memory_factory : Constructors W V → CacheFactory W V
  memory_factory adapters (memory_config c) w = adapters.memory c w
  memory_factory adapters cfg w = refused (bytes "memory") (bytes "*config.MemoryConfig") cfg w

  -- The registry after the five `init` functions.
  unfoldable pub registered : Constructors W V → Dict CacheType (CacheFactory W V)
  unfolding register
  registered adapters = register cache_redis (redis_factory adapters) (
      register cache_valkey (valkey_factory adapters) (
        register cache_memory (memory_factory adapters) (
          register cache_dragonfly (dragonfly_factory adapters)
            (register cache_key_db (key_db_factory adapters) []))))

-- The type under which the adapter of a configuration registers.
unfoldable pub kind : Config → CacheType
kind (redis_config c) = cache_redis
kind (valkey_config c) = cache_valkey
kind (dragonfly_config c) = cache_dragonfly
kind (key_db_config c) = cache_key_db
kind (memory_config c) = cache_memory

module _ {W V : Type 0} (adapters : Constructors W V) where
  -- The `New` of the adapter to which a configuration belongs.
  unfoldable pub construct : CacheFactory W V
  construct (redis_config c) = adapters.redis c
  construct (valkey_config c) = adapters.valkey c
  construct (dragonfly_config c) = adapters.dragonfly c
  construct (key_db_config c) = adapters.key_db c
  construct (memory_config c) = adapters.memory c

  -- A factory that takes the configurations of its type only.
  abbrev Takes : CacheType → CacheFactory W V → Type 0
  Takes t f =
      (cfg : Config) (w : W)
      → (((kind cfg == t) ≡ true) × (f cfg w ≡ construct cfg w))
        ⊎ (((kind cfg == t) ≡ false) × ((e : Error) × (f cfg w ≡ (err e, w))))

  redis-Takes : Takes cache_redis (redis_factory adapters)
  unfolding kind text_beq construct redis_factory
  redis-Takes (redis_config c) w = inl (refl, refl)
  redis-Takes _ w = inr (refl, (_, refl))

  valkey-Takes : Takes cache_valkey (valkey_factory adapters)
  unfolding kind text_beq construct valkey_factory
  valkey-Takes (valkey_config c) w = inl (refl, refl)
  valkey-Takes _ w = inr (refl, (_, refl))

  dragonfly-Takes : Takes cache_dragonfly (dragonfly_factory adapters)
  unfolding kind text_beq construct dragonfly_factory
  dragonfly-Takes (dragonfly_config c) w = inl (refl, refl)
  dragonfly-Takes _ w = inr (refl, (_, refl))

  key_db-Takes : Takes cache_key_db (key_db_factory adapters)
  unfolding kind text_beq construct key_db_factory
  key_db-Takes (key_db_config c) w = inl (refl, refl)
  key_db-Takes _ w = inr (refl, (_, refl))

  memory-Takes : Takes cache_memory (memory_factory adapters)
  unfolding kind text_beq construct memory_factory
  memory-Takes (memory_config c) w = inl (refl, refl)
  memory-Takes _ w = inr (refl, (_, refl))

  -- What is registered under a type takes its configurations; other types have none.
  abbrev Served : CacheType → Option (CacheFactory W V) → Type 0
  Served t none = (cfg : Config) → (kind cfg == t) ≡ false
  Served t (some f) = Takes t f

  -- One entry of the registry.
  served :
      (k : CacheType) (f : CacheFactory W V) (t : CacheType) (rest : Option (CacheFactory W V))
      → Takes k f
      → ((k == t) ≡ false → Served t rest)
      → Served t (if k == t then some f else rest)
  served k f t rest takes others = elim (Bool-cases (k == t)) [
    | inl same ↦ rw (same, ← (eq_iff k t).0 same) takes
    | inr other ↦ rw other (others other)
  ]

  no_other :
      (t : CacheType)
      → (cache_redis == t) ≡ false
      → (cache_valkey == t) ≡ false
      → (cache_memory == t) ≡ false
      → (cache_dragonfly == t) ≡ false
      → (cache_key_db == t) ≡ false
      → Served t none
  unfolding kind
  no_other t r v m d k (redis_config c) = r
  no_other t r v m d k (valkey_config c) = v
  no_other t r v m d k (dragonfly_config c) = d
  no_other t r v m d k (key_db_config c) = k
  no_other t r v m d k (memory_config c) = m

  lookup-registered : (t : CacheType) → Served t (lookup t (registered adapters))
  unfolding registered register lookup insert text_beq
  lookup-registered t = served cache_key_db (key_db_factory adapters) t _ key_db-Takes (λ k.
      served cache_dragonfly (dragonfly_factory adapters) t _ dragonfly-Takes (λ d.
        served cache_memory (memory_factory adapters) t _ memory-Takes (λ m.
          served cache_valkey (valkey_factory adapters) t _ valkey-Takes (λ v.
            served cache_redis (redis_factory adapters) t _ redis-Takes
              (λ r. no_other t r v m d k)))))

  -- Once the five adapters have registered, `New` with a configuration that loads ends in one of two
  -- ways, whatever the type: in the `New` of the adapter to which the configuration belongs, where
  -- the type is that adapter's, and else in an error, with nothing done.
  pub new-registered :
      (parse : EnvParse) (t : CacheType) (cfg cfg' : Config) (w : W)
      → load_from_env parse cfg ≡ ok cfg'
      → (((kind cfg' == t) ≡ true) × (new (registered adapters) parse t cfg w ≡ construct cfg' w))
        ⊎ (((kind cfg' == t) ≡ false)
            × ((e : Error) × (new (registered adapters) parse t cfg w ≡ (err e, w))))
  unfolding new
  new-registered parse t cfg cfg' w loaded =
      rw (loaded, new) (go (lookup t (registered adapters)) (lookup-registered t))
    where
      go :
          (o : Option (CacheFactory W V))
          → Served t o
          → (((kind cfg' == t) ≡ true) × (made t o cfg' w ≡ construct cfg' w))
            ⊎ (((kind cfg' == t) ≡ false) × ((e : Error) × (made t o cfg' w ≡ (err e, w))))
      go none others = inr (others cfg', (_, refl))
      go (some f) takes = takes cfg' w
