-- ===== src/Client/Wiring.antt =====
-- A client over the in-memory adapter: what `client.New` makes of the registry, and what a typed cache
-- over it reads back.
use nyro.Base.{◌≡◌, refl, ◌<◌, arith, ◌&&◌, false, List, Option}
use nyro.Base.Duration.{Time, Duration, pos, negsuc, add_time, after, is_positive}
use nyro.Base.Text.{Text, text_beq}
use nyro.Base.Dict.{lookup, insert}
use nyro.Errors.{ok}
use nyro.Keys.{Key}
use nyro.Options.{Option as CacheOption}
use nyro.Memory
use nyro.Memory.{MemoryConfig, ttl_of}
use nyro.Memory.Loading
use nyro.Memory.Port.{memory_cache}
use nyro.Config
use nyro.Config.{Config, memory_config, cache_memory, EnvParse, load_from_env}
use nyro.Config.Registry.{Constructors, registered, memory_factory}
use nyro.Config.Entities.{EntityConfigManager}
use nyro.Client.{Client, or_new, new}
use nyro.Typed.{GoType, get, set}
use nyro.Typed.Reading.{Boxed, get-set_typed}

-- An entry has not run out at the time of its write.
not_yet : (t : Time) (ttl : Duration) → (is_positive ttl && after t (add_time t ttl)) ≡ false
not_yet t (pos n) = ground arith
not_yet t (negsuc n) = refl

module _ {T V : Type 0} (type : GoType T V) (adapters : Constructors (Memory.Adapter V) V)
    (flight : Text → Loading.Action V → Loading.Action V) (t : Time) where
  -- The adapters, of which the in-memory one is `memory.New`: its cache starts empty, and its calls are
  -- made at the time `t`.
  unfoldable pub with_memory : Constructors (Memory.Adapter V) V
  with_memory = record adapters {
    memory = λ cfg w. (ok (memory_cache flight t t t), Memory.new cfg);
  }

  -- `client.New` with the memory type and a memory configuration succeeds, whatever the environment
  -- and the other adapters. A value that is stored through a typed cache over the client's cache
  -- with any options is read back at the same time, also where its TTL is zero or negative.
  pub client_over_memory :
      (parse : EnvParse) (cfg : MemoryConfig) (mgr : Option EntityConfigManager) (key : Key) (x : T)
      (options : List CacheOption) (w : Memory.Adapter V)
      → 0 < t
      → Boxed type x
      → (c : Client (Memory.Adapter V) V) × (new
            (registered with_memory)
            parse
            cache_memory
            (memory_config cfg)
            mgr
            w
          ≡ (ok c, Memory.new cfg))
        × (c.config_mgr ≡ or_new mgr)
        × ((get type c.cache key (set type c.cache key x options (Memory.new cfg)).1).0 ≡ ok x)
  unfolding new with_memory Config.new Config.made load_from_env registered Config.register
      memory_factory lookup insert text_beq
  client_over_memory parse cfg mgr key x options w h boxed = (
    record { cache = memory_cache flight t t t; config_mgr = or_new mgr },
    refl,
    refl,
    rw
        (
          get-set_typed type flight t t key x options (Memory.new cfg) h boxed,
          not_yet t (ttl_of options (Memory.new {V = V} cfg).config),
        )
        refl,
  )
