-- ===== src/Client.antt =====
-- client/client.go: a cache with the configurations of the entities. Its other methods are those of
-- the cache or of the manager.
pub mod Wiring
pub mod Distributed
use nyro.Base.{[], Option, none, some}
use nyro.Base.Text.{Text}
use nyro.Base.Dict.{Dict}
use nyro.Errors.{panicked, message, Result, ok, err}
use nyro.Cache.{Cache}
use nyro.Config.{Config, CacheType, CacheFactory, EnvParse}
use nyro.Config
use nyro.Config.Entities.{
  EntityCacheConfig, EntityConfigManager, new_entity_config_manager, get_config, get_all_configs,
  set_config, register_entity,
}

-- `defaultClient`: the methods of `cache.Cache` are those of its field.
pub record Client (W V : Type 0) : Type 0 where
  pub cache : Cache W V
  pub config_mgr : EntityConfigManager

unfoldable pub or_new : Option EntityConfigManager → EntityConfigManager
unfolding new_entity_config_manager
or_new none = new_entity_config_manager []
or_new (some m) = m

-- `panic(err)` as the error that takes the result's place.
unfoldable pub must : Result EntityCacheConfig → Result EntityCacheConfig
must (ok config) = ok config
must (err e) = err (panicked (message e))

module _ {W V : Type 0} where
  unfoldable pub new_from_instance : Cache W V → Option EntityConfigManager → Client W V
  unfolding or_new
  new_from_instance c mgr = record { cache = c; config_mgr = or_new mgr }

  unfoldable pub new :
      Dict CacheType (CacheFactory W V)
      → EnvParse
      → CacheType
      → Config
      → Option EntityConfigManager
      → W
      → Result (Client W V) × W
  unfolding or_new
  new registry parse cache_type cfg mgr w =
      let (r, w') = Config.new registry parse cache_type cfg w in
      elim r [
        | err e ↦ (err e, w')
        | ok c ↦ (ok (record { cache = c; config_mgr = or_new mgr }), w')
      ]

  unfoldable pub get_entity_config : Text → Client W V → Result EntityCacheConfig
  get_entity_config name c = get_config name c.config_mgr

  unfoldable pub must_get_entity_config : Text → Client W V → Result EntityCacheConfig
  unfolding must
  must_get_entity_config name c = must (get_config name c.config_mgr)

  unfoldable pub get_all_entity_configs : Client W V → Dict Text EntityCacheConfig
  get_all_entity_configs c = get_all_configs c.config_mgr

  unfoldable pub set_entity_config : Text → EntityCacheConfig → Client W V → Client W V
  set_entity_config name config c = record c { config_mgr = set_config name config c.config_mgr }

  unfoldable pub register_entity_config : Text → EntityCacheConfig → Client W V → Client W V
  register_entity_config name config c = record c {
    config_mgr = register_entity name config c.config_mgr;
  }
