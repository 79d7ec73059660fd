-- ===== src/Client/Distributed.antt =====
-- A client over the adapters of Redis, Dragonfly and KeyDB, from the configuration to the server.
use nyro.Base.{arith, subst, [], ◌≡◌, refl, ap, ◌⊎◌, inl, inr, ◌++◌, eq_self, Option, none, some}
use nyro.Base.Text.{Text, bytes, text_eq}
use nyro.Errors.{Error, wrap, Result, ok, err, Result-cases}
use nyro.Cache.{Cache}
use nyro.Carts.Json.{Json}
use nyro.Carts.Redis
use nyro.Carts.Redis.Server.{Contents, Serves}
use nyro.Carts.Redis.Keeps.{values, denotes}
use nyro.Adapters.Resp.{Adapter, RespConfig}
use nyro.Adapters.OverRedis.{
  Run, pinged, new_redis_adapter, new_dragonfly, new_keydb, redis_cache, dragonfly_cache,
  keydb_cache,
}
use nyro.Adapters.OverRedis
use nyro.Adapters.Contract.{KeepsKeys}
use nyro.Adapters.Contract.Caches.{redis_caches-KeepsKeys}
use nyro.Config.Backends.{RedisOptions, redis_options}
use nyro.Config.{
  Config, redis_config, valkey_config, dragonfly_config, key_db_config, memory_config, EnvParse,
  load_from_env,
}
use nyro.Config.Registry.{Constructors, registered, kind, construct, new-registered}
use nyro.Config.Entities.{EntityConfigManager}
use nyro.Client.{Client, or_new, new}

-- The options with which the adapter of a configuration dials, if that is one of the three.
unfoldable pub dialled : Config → Option RedisOptions
unfolding redis_options
dialled (redis_config c) = some (redis_options c)
dialled (dragonfly_config c) = some (redis_options (OverRedis.with_addr c))
dialled (key_db_config c) = some (redis_options (OverRedis.with_addr c))
dialled (valkey_config c) = none
dialled (memory_config c) = none

module _ {W V : Type 0} (adapters : Constructors W V) (dial : RedisOptions → Redis.Client W)
    (json : Json V) (run : Run W V) where
  -- The cache of the adapter that a `New` made.
  cached : (Adapter → Cache W V) → Result Adapter × W → Result (Cache W V) × W
  cached f (ok a, w) = (ok (f a), w)
  cached f (err e, w) = (err e, w)

  -- The adapters, of which these three are the `New` of their packages.
  unfoldable pub with_resp : Constructors W V
  unfolding cached
  with_resp = record adapters {
    redis = λ cfg w.
        cached (redis_cache (dial (redis_options cfg)) json run) (new_redis_adapter dial cfg w);
    dragonfly = λ cfg w.
        cached (dragonfly_cache (dial (redis_options (OverRedis.with_addr cfg))) json run)
          (new_dragonfly dial cfg w);
    key_db = λ cfg w.
        cached (keydb_cache (dial (redis_options (OverRedis.with_addr cfg))) json run)
          (new_keydb dial cfg w);
  }

  -- What is made by dialling with `o`: a cache that keeps the contract, or the error of a ping.
  abbrev pub Made : (W → Contents) → Text → RedisOptions → Result (Cache W V) → Type 0
  Made view type o (ok c) = KeepsKeys c (λ w. values (dial o) json (view w)) (denotes (dial o) json)
  Made view type o (err e) = (e' : Error) × (e ≡ wrap (type ++ bytes ": ping failed") e')

  module _ (view : W → Contents) (serves : (o : RedisOptions) → Serves (dial o) view) where
    keeps :
        (o : RedisOptions) (a : Adapter)
        → Made view [] o (ok (redis_cache (dial o) json run a))
          × Made view [] o (ok (dragonfly_cache (dial o) json run a))
          × Made view [] o (ok (keydb_cache (dial o) json run a))
    keeps o a = redis_caches-KeepsKeys (dial o) json run a view (serves o)

    after_ping :
        (type : Text) (o : RedisOptions) (f : Adapter → Cache W V) (resp : RespConfig) (w : W)
        → ((a : Adapter) → Made view type o (ok (f a)))
        → Made view type o (cached f (pinged type (dial o) resp w)).0
    unfolding pinged cached
    after_ping type o f resp w h = elim (Result-cases ((dial o).ping w).0) [
      | inl (u, up) ↦ rw (up, pinged, cached) (h _)
      | inr (e, down) ↦ rw (down, pinged, cached) (e, refl)
    ]

    made :
        (cfg : Config) (o : RedisOptions) (w : W)
        → dialled cfg ≡ some o
        → Made view (kind cfg) o (construct with_resp cfg w).0
    unfolding dialled construct with_resp kind new_redis_adapter new_dragonfly new_keydb
        OverRedis.new
    made (redis_config c) o w h =
        let used = redis_options c in
        let e : used ≡ o = ground arith in
        subst (λ o. Made view (bytes "redis") o (construct with_resp (redis_config c) w).0) e
          (after_ping (bytes "redis") used (redis_cache (dial used) json run) c.resp w
            (λ a. (keeps used a).0))
    made (dragonfly_config c) o w h =
        let used = redis_options (OverRedis.with_addr c) in
        let e : used ≡ o = ground arith in
        subst (λ o. Made view (bytes "dragonfly") o (construct with_resp (dragonfly_config c) w).0)
          e
          (after_ping (bytes "dragonfly") used (dragonfly_cache (dial used) json run) c.resp w
            (λ a. (keeps used a).1))
    made (key_db_config c) o w h =
        let used = redis_options (OverRedis.with_addr c) in
        let e : used ≡ o = ground arith in
        subst (λ o. Made view (bytes "keydb") o (construct with_resp (key_db_config c) w).0) e
          (after_ping (bytes "keydb") used (keydb_cache (dial used) json run) c.resp w
            (λ a. (keeps used a).2))
    made (valkey_config c) o w h = cc
    made (memory_config c) o w h = cc

    -- `client.New` with a configuration of Redis, Dragonfly or KeyDB that loads, under its own type, ends
    -- in one of two ways: in a client whose cache does what the interface of a cache promises, over
    -- the server that was dialled with the options of the configuration, or in the error of the ping.
    -- Whatever client is dialled, its server behaves as documented.
    pub client_over_redis :
        (parse : EnvParse) (cfg cfg' : Config) (o : RedisOptions) (mgr : Option EntityConfigManager)
        (w : W)
        → load_from_env parse cfg ≡ ok cfg'
        → dialled cfg' ≡ some o
        → ((c : Client W V) × ((new (registered with_resp) parse (kind cfg') cfg mgr w).0 ≡ ok c)
            × (c.config_mgr ≡ or_new mgr)
            × KeepsKeys c.cache (λ w. values (dial o) json (view w)) (denotes (dial o) json))
          ⊎ ((e : Error) × ((new (registered with_resp) parse (kind cfg') cfg mgr w).0
                ≡ err (wrap (kind cfg' ++ bytes ": ping failed") e)))
    unfolding new
    client_over_redis parse cfg cfg' o mgr w loaded at =
        elim (new-registered with_resp parse (kind cfg') cfg cfg' w loaded) [
          | inr (other, _) ↦ absurd (ground (arith, eq_self (kind cfg')))
          | inl (_, built) ↦ elim (Result-cases (construct with_resp cfg' w).0) [
            | inl (c, done) ↦ inl (
              record { cache = c; config_mgr = or_new mgr },
              rw (built, new, done) refl,
              refl,
              subst (Made view (kind cfg') o) done (made cfg' o w at),
            )
            | inr (e, failed) ↦
                let (e', same) = subst (Made view (kind cfg') o) failed (made cfg' o w at) in
                inr (e', rw (built, new, failed) (ap err same))
          ]
        ]
