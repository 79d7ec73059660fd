-- ===== src/Config/Merging.antt =====
-- What `EntityConfigManager` answers after it has loaded a document and the environment.
use nyro.Base.{
  ◌≡◌, refl, ap, ◌==◌, arith, eq_iff, Bool-cases, false, inl, inr, [], ◌∷◌, ◌++◌, none, some,
  Option-cases,
}
use nyro.Base.Text.{Text, bytes, text_eq, append-cancel_right}
use nyro.Base.Dict.{Dict, lookup, insert, lookup-insert, Distinct}
use nyro.Errors.{fresh, Result, ok, err}
use nyro.Config.Entities.{
  EntityCacheConfig, EntityConfigManager, EnvParse, to_env_format, merge_one, merge_all,
  load_from_yaml, env_prefix, from_env, each_from_env, load_from_env, load_entity_config_manager,
  get_config,
}

lookup-merge_all :
    (name : Text) (entities : Dict Text EntityCacheConfig) (m : EntityConfigManager)
    → Distinct entities
    → lookup name (merge_all entities m) ≡ elim (lookup name entities) [
      | none ↦ lookup name m
      | some config ↦ some (merge_one (lookup name m) config)
    ]
unfolding merge_all lookup
lookup-merge_all name [] m d = refl
lookup-merge_all name ((other, config) ∷ entities) m d =
    let m' : EntityConfigManager = insert other (merge_one (lookup other m) config) m in
    ground (
      arith,
      lookup-merge_all name entities m' d.1,
      lookup-insert other name (merge_one (lookup other m) config) m,
      eq_iff other name,
      d.0,
    )

lookup-each_from_env :
    (parse : EnvParse) (name : Text) (m : EntityConfigManager)
    → lookup name (each_from_env parse m)
      ≡ elim (lookup name m) [ none ↦ none | some config ↦ some (from_env parse name config) ]
unfolding each_from_env lookup
lookup-each_from_env parse name [] = refl
lookup-each_from_env parse name ((other, config) ∷ m) =
    ground (arith, lookup-each_from_env parse name m, eq_iff other name)

module _ (unmarshal : Text → Result (Dict Text EntityCacheConfig)) where
  -- Loading a document leaves the entities that it does not name, adds those that are new as they
  -- stand there, and merges the others: the prefix and the TTL where the document gives them, the
  -- switch always. No entity is named twice in a document.
  pub lookup-load_from_yaml :
      (data_ name : Text) (entities : Dict Text EntityCacheConfig) (m : EntityConfigManager)
      → unmarshal data_ ≡ ok entities
      → Distinct entities
      → lookup name (load_from_yaml unmarshal data_ m).1 ≡ elim (lookup name entities) [
        | none ↦ lookup name m
        | some config ↦ some (merge_one (lookup name m) config)
      ]
  unfolding load_from_yaml
  lookup-load_from_yaml data_ name entities m loaded d =
      rw (loaded, load_from_yaml) (lookup-merge_all name entities m d)

  -- A manager that is loaded from a document answers for the entities of the document and for no
  -- other, with what the environment makes of each: the environment overrides the document, and
  -- where its variables do not parse, the document stands.
  pub get_config-load_entity_config_manager :
      (parse : EnvParse) (data_ name : Text) (entities : Dict Text EntityCacheConfig)
      → (data_ == []) ≡ false
      → unmarshal data_ ≡ ok entities
      → Distinct entities
      → get_config name (load_entity_config_manager unmarshal parse data_)
        ≡ elim (lookup name entities) [
          | none ↦ err (fresh (bytes "entity config not found: " ++ name))
          | some config ↦ ok (from_env parse name config)
        ]
  unfolding get_config load_entity_config_manager load_from_env lookup merge_one
  get_config-load_entity_config_manager parse data_ name entities given loaded d =
      rw
        (
          given,
          load_entity_config_manager,
          lookup-each_from_env parse name (load_from_yaml unmarshal data_ []).1,
          get_config,
          lookup-load_from_yaml data_ name entities [] loaded d,
        )
        (ground arith)

-- `drop` of what every prefix begins with.
after_cache : Text → Text
after_cache (c ∷ a ∷ c' ∷ h ∷ e ∷ u ∷ s) = s
after_cache s = s

env_prefix-apart :
    (name other : Text) → (other == name) ≡ false → (env_prefix name == env_prefix other) ≡ false
unfolding after_cache env_prefix
env_prefix-apart name other apart = elim (Bool-cases (env_prefix name == env_prefix other)) [
  | inr differ ↦ differ
  | inl same ↦
      let cut : name ++ bytes "_" ≡ other ++ bytes "_" =
        ap after_cache ((eq_iff (env_prefix name) (env_prefix other)).0 same) in
      absurd (ground (arith, append-cancel_right name other (bytes "_") cut, eq_iff other name))
]

-- The variables of an entity are looked up under its name as it stands, not under the name in upper
-- case: an environment that only sets the variables of the documented form changes nothing for an
-- entity whose name is not in that form already.
pub load_from_env-ignores_documented :
    (parse : EnvParse) (name : Text) (m : EntityConfigManager)
    → ((p : Text) (config : EntityCacheConfig)
        → (p == env_prefix (to_env_format name)) ≡ false
        → parse p config ≡ ok config)
    → (to_env_format name == name) ≡ false
    → get_config name (load_from_env parse m).1 ≡ get_config name m
unfolding get_config load_from_env env_prefix from_env
load_from_env-ignores_documented parse name m others form =
    rw (lookup-each_from_env parse name m, get_config)
      (elim (Option-cases (lookup name m)) [
        | inl gone ↦ rw (gone, get_config) refl
        | inr (config, there) ↦ rw (there, get_config) (ap ok (unchanged config))
      ])
  where
    apart : (env_prefix name == env_prefix (to_env_format name)) ≡ false
    apart = env_prefix-apart name (to_env_format name) form

    unchanged : (config : EntityCacheConfig) → from_env parse name config ≡ config
    unchanged config = rw (others (env_prefix name) config apart, from_env) refl
