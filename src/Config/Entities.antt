-- ===== src/Config/Entities.antt =====
-- config/entity_config.go: `EntityConfigManager`. Its mutex makes each operation one step. The YAML
-- decoder and `env.ParseWithOptions` are parameters; the latter at the prefix of the variables.
use nyro.Base.{
  ◌==◌, Bool, ◌&&◌, ℕ, ◌-◌, leb, map, List, [], ◌∷◌, ◌++◌, Option, none, some, if◌then◌else◌,
}
use nyro.Base.Duration.{Duration, is_zero}
use nyro.Base.Text.{Text, bytes, text_eq}
use nyro.Base.Dict.{Dict, lookup, insert}
use nyro.Errors.{fresh, wrap, Result, ok, err}

pub record EntityCacheConfig : Type 0 where
  pub key_prefix : Text
  pub ttl : Duration
  pub enabled : Bool

abbrev pub EntityConfigManager : Type 0
EntityConfigManager = Dict Text EntityCacheConfig

-- One ASCII letter in upper case.
upper : ℕ → ℕ
upper c = if leb b'a' c && leb c b'z' then c - 32 else c

underscored : ℕ → ℕ
underscored c = if leb b'-' c && leb c b'-' then b'_' else c

-- `toEnvFormat`, of ASCII names.
unfoldable pub to_env_format : Text → Text
unfolding upper underscored
to_env_format s = map upper (map underscored s)

-- The loop over the defaults.
set_all : Dict Text EntityCacheConfig → EntityConfigManager → EntityConfigManager
set_all [] m = m
set_all ((name, config) ∷ defaults) m = set_all defaults (insert name config m)

unfoldable pub new_entity_config_manager : List (Dict Text EntityCacheConfig) → EntityConfigManager
unfolding set_all
new_entity_config_manager [] = []
new_entity_config_manager (defaults ∷ rest) = set_all defaults []

-- What `LoadFromYAML` makes of an entity that is there already.
unfoldable pub merged : EntityCacheConfig → EntityCacheConfig → EntityCacheConfig
merged existing config = record {
  key_prefix = if config.key_prefix == [] then existing.key_prefix else config.key_prefix;
  ttl = if is_zero config.ttl then existing.ttl else config.ttl;
  enabled = config.enabled;
}

unfoldable pub merge_one : Option EntityCacheConfig → EntityCacheConfig → EntityCacheConfig
unfolding merged
merge_one none config = config
merge_one (some existing) config = merged existing config

-- Its loop over the entities of the document.
unfoldable pub merge_all : Dict Text EntityCacheConfig → EntityConfigManager → EntityConfigManager
unfolding merge_one
merge_all [] m = m
merge_all ((name, config) ∷ entities) m =
    merge_all entities (insert name (merge_one (lookup name m) config) m)

unfoldable pub load_from_yaml :
    (Text → Result (Dict Text EntityCacheConfig))
    → Text
    → EntityConfigManager
    → Result (Unit {0}) × EntityConfigManager
unfolding merge_all
load_from_yaml unmarshal data_ m = elim (unmarshal data_) [
  | err e ↦ (err (wrap (bytes "failed to unmarshal YAML config") e), m)
  | ok entities ↦ (ok tt, merge_all entities m)
]

abbrev pub EnvParse : Type 0
EnvParse = Text → EntityCacheConfig → Result EntityCacheConfig

unfoldable pub env_prefix : Text → Text
env_prefix name = bytes "CACHE_" ++ (name ++ bytes "_")

-- What the loop of `LoadFromEnv` leaves of one entity: a failed parse is passed over.
unfoldable pub from_env : EnvParse → Text → EntityCacheConfig → EntityCacheConfig
unfolding env_prefix
from_env parse name config = elim (parse (env_prefix name) config) [
  | ok config' ↦ config'
  | err e ↦ config
]

unfoldable pub each_from_env : EnvParse → EntityConfigManager → EntityConfigManager
each_from_env parse [] = []
each_from_env parse ((name, config) ∷ m) =
    (name, from_env parse name config) ∷ each_from_env parse m

unfoldable pub load_from_env :
    EnvParse → EntityConfigManager → Result (Unit {0}) × EntityConfigManager
unfolding each_from_env
load_from_env parse m = (ok tt, each_from_env parse m)

-- `LoadEntityConfigManager`, where a document is empty or fails to load as much as it does.
unfoldable pub load_entity_config_manager :
    (Text → Result (Dict Text EntityCacheConfig)) → EnvParse → Text → EntityConfigManager
unfolding load_from_yaml load_from_env
load_entity_config_manager unmarshal parse yaml_data =
    let m = if yaml_data == [] then [] else (load_from_yaml unmarshal yaml_data []).1 in
    (load_from_env parse m).1

unfoldable pub get_config : Text → EntityConfigManager → Result EntityCacheConfig
get_config name m = elim (lookup name m) [
  | none ↦ err (fresh (bytes "entity config not found: " ++ name))
  | some config ↦ ok config
]

unfoldable pub get_all_configs : EntityConfigManager → Dict Text EntityCacheConfig
unfolding set_all
get_all_configs m = set_all m []

unfoldable pub set_config : Text → EntityCacheConfig → EntityConfigManager → EntityConfigManager
set_config name config m = insert name config m

unfoldable pub register_entity :
    Text → EntityCacheConfig → EntityConfigManager → EntityConfigManager
unfolding set_config
register_entity name config m = set_config name config m
