-- ===== src/Tests/Contract.antt =====
-- The contract of the carts and of the adapters over the servers in memory.
use nyro.Base.{◌⊎◌, ℕ, ◌≡◌, refl, inl, inr, false, List, [], ◌∷◌, Option, none, some, arith, ◌*◌}
use nyro.Base.Duration.{pos, negsuc, second}
use nyro.Base.Text.{Text, bytes, text_eq, text_beq}
use nyro.Base.Dict
use nyro.Base.Dict.{lookup, insert}
use nyro.Errors.{wrap, Error, fresh, sentinel, canceled, as_not_found, Result, ok, err}
use nyro.Carts.Json.{Json}
use nyro.Carts.Guard.{
  Action, tick, get_or_set_locked, effective_lock_ttl, Retry, received, Attempt, success, retryable,
  permanent,
}
use nyro.Carts.Contract.{Sees, SeesFlag}
use nyro.Carts.Contract.Runs.{Call, get, set, set_multi, delete_multi, run, replay}
use nyro.Carts.Redis
use nyro.Carts.Redis.{lock_key}
use nyro.Carts.Redis.Locks.{default_redis_cart_config, redis_backend, acquire_lock, acquired}
use nyro.Carts.Redis.Filling.{RedisCart-Holds}
use nyro.Carts.Guard.Filling.{Filled, get_or_set_fills}
use nyro.Carts.Redis.Keeps as OfRedis
use nyro.Carts.Redis.Runs.{reads_replayed_redis}
use nyro.Carts.Redis.Reference.{Store, contents, reference, reference-Serves}
use nyro.Carts.Memcached
use nyro.Carts.Memcached.Values as OfMemcached
use nyro.Carts.Memcached.Load.{memcached_cart}
use nyro.Carts.Memcached.Runs.{reads_replayed_memcached}
use nyro.Carts.Memcached.Reference as ServerOfMemcached
use nyro.Adapters.Resp.{Adapter}
use nyro.Adapters.OverRedis.{Run, redis_cart, redis_cache, dragonfly_cache, keydb_cache}
use nyro.Adapters.OverRedis.{with_addr}
use nyro.Config.{dragonfly_config, load_from_env}
use nyro.Config.Backends.{DialConfig, redis_options}
use nyro.Config.Registry.{Constructors, registered, kind}
use nyro.Client as ClientModule
use nyro.Client.{Client, or_new}
use nyro.Client.Distributed.{with_resp, dialled, client_over_redis}
use nyro.Adapters.Contract.{KeepsKeys}
use nyro.Adapters.Contract.Caches.{redis_caches-KeepsKeys}

encode : Option ℕ → Result Text
encode none = ok []
encode (some n) = ok (n ∷ [])

parse : Text → Result (Option ℕ)
parse [] = ok none
parse (n ∷ []) = ok (some n)
parse t = err (fresh (bytes "invalid character"))

-- Values are numbers, and the encoding of `n` is one byte.
abbrev codec : Json ℕ
unfolding encode parse
codec = record { marshal = encode; unmarshal = parse; raw = λ t. 0 }

abbrev impatient : Retry Store ℕ
impatient op w = (err (sentinel canceled), w)

abbrev one_run : Run Store ℕ
one_run = record {
  retry = impatient;
  flight = λ key load. load;
  selected = received;
  value = bytes "mine";
  before = [];
  after = [];
  again = λ items. [];
}

-- A write, a read of another key, a write of both, and a deletion of the other.
abbrev calls : List (Call ℕ)
calls =
    set (bytes "a") (some 9) (pos (5 * second))
    ∷ get (bytes "b")
    ∷ set_multi ((bytes "a", some 8) ∷ (bytes "b", some 7) ∷ []) (pos (5 * second))
    ∷ delete_multi (bytes "b" ∷ [])
    ∷ []

abbrev store : Store
store = (bytes "b", 1 ∷ []) ∷ []

program : Unit {0}
unfolding encode parse Redis.set Redis.set_multi Redis.delete_multi Redis.done_or Memcached.set
    Memcached.set_multi Memcached.delete_multi Memcached.delete Memcached.done_or
    Memcached.unless_miss lookup insert Dict.delete text_beq reference ServerOfMemcached.reference
program = tt

reads_replayed_redis_example :
    let w' = run (redis_cart reference codec one_run default_redis_cart_config) calls store in
    Sees (Redis.get reference codec (bytes "a") w').0 (
      replay
        (OfRedis.denotes reference codec)
        calls
        (OfRedis.values reference codec (contents store))
        (bytes "a"))
    × SeesFlag (Redis.exists reference codec (bytes "a") w').0 (
        replay
          (OfRedis.denotes reference codec)
          calls
          (OfRedis.values reference codec (contents store))
          (bytes "a"))
unfolding program
reads_replayed_redis_example =
    reads_replayed_redis reference codec one_run default_redis_cart_config contents reference-Serves
      calls (bytes "a") store (inr refl, (inl refl, (inr refl, (inl refl, tt))))

parse_fails : (s : Text) (e : Error) → parse s ≡ err e → as_not_found e ≡ false
unfolding parse as_not_found
parse_fails [] e h = cc
parse_fails (n ∷ []) e h = cc
parse_fails (n ∷ (m ∷ s)) e h =
    let same : fresh (bytes "invalid character") ≡ e = ground arith in rw (← same) refl

reads_replayed_memcached_example :
    let w' =
      run
        (memcached_cart ServerOfMemcached.reference codec default_redis_cart_config impatient
          (λ key load. load)
          received
          (bytes "mine")
          []
          [])
        calls
        store in
    Sees (Memcached.get ServerOfMemcached.reference codec (bytes "a") w').0 (
      replay
        (OfMemcached.denotes codec)
        calls
        (OfMemcached.values codec (contents store))
        (bytes "a"))
    × SeesFlag (Memcached.exists ServerOfMemcached.reference (bytes "a") w').0 (
        replay
          (OfMemcached.denotes codec)
          calls
          (OfMemcached.values codec (contents store))
          (bytes "a"))
unfolding program
reads_replayed_memcached_example =
    reads_replayed_memcached ServerOfMemcached.reference codec contents
      ServerOfMemcached.reference-Serves_memcached parse_fails default_redis_cart_config impatient
      (λ key load. load) received (bytes "mine") [] [] calls (bytes "a") store
      (inr (omega arith), (inl refl, (inr (omega arith), (inl refl, tt))))
      (inr refl, (inl refl, (inr refl, (inl refl, tt))))

abbrev adapter : Adapter
adapter = record {
  cart_config = default_redis_cart_config;
  config = record { default_ttl = pos 0; lock_ttl = pos 0; lock_max_wait = negsuc 4 };
}

redis_caches-KeepsKeys_example :
    KeepsKeys
      (redis_cache reference codec one_run adapter)
      (λ w. OfRedis.values reference codec (contents w))
      (OfRedis.denotes reference codec)
    × KeepsKeys
        (dragonfly_cache reference codec one_run adapter)
        (λ w. OfRedis.values reference codec (contents w))
        (OfRedis.denotes reference codec)
    × KeepsKeys
        (keydb_cache reference codec one_run adapter)
        (λ w. OfRedis.values reference codec (contents w))
        (OfRedis.denotes reference codec)
redis_caches-KeepsKeys_example =
    redis_caches-KeepsKeys reference codec one_run adapter contents reference-Serves

-- Adapters that fail, in the place of those that the test does not reach.
abbrev refusing : Constructors Store ℕ
refusing = record {
  redis = λ c w. (err (fresh []), w);
  valkey = λ c w. (err (fresh []), w);
  dragonfly = λ c w. (err (fresh []), w);
  key_db = λ c w. (err (fresh []), w);
  memory = λ c w. (err (fresh []), w);
}

abbrev config : DialConfig
config = record {
  addr = [];
  password = [];
  db = pos 0;
  pool_size = pos 10;
  min_idle_conns = pos 0;
  max_retries = pos 3;
  dial_timeout = pos 0;
  read_timeout = pos 0;
  write_timeout = pos 0;
  resp = adapter.config;
}

-- An empty environment, in which the address of Dragonfly is that by default.
client_over_redis_example :
    let o = redis_options (with_addr config) in
    let made =
      ClientModule.new
        (registered (with_resp refusing (λ o. reference) codec one_run))
        (λ tags c. ok c)
        (bytes "dragonfly")
        (dragonfly_config config)
        none
        store in
    ((c : Client Store ℕ) × (made.0 ≡ ok c)
      × (c.config_mgr ≡ or_new none)
      × KeepsKeys c.cache
          (λ w. OfRedis.values reference codec (contents w))
          (OfRedis.denotes reference codec))
    ⊎ ((e : Error) × (made.0 ≡ err (wrap (bytes "dragonfly: ping failed") e)))
unfolding load_from_env dialled kind
client_over_redis_example =
    client_over_redis refusing (λ o. reference) codec one_run contents (λ o. reference-Serves)
      (λ tags c. ok c) (dragonfly_config config) (dragonfly_config config)
      (redis_options (with_addr config)) none store refl refl

-- A load of a key that is not there.
abbrev loader : Action Store ℕ
loader w = (ok (some 3), w)

get_or_set_fills_example :
    let (r, w') =
      get_or_set_locked
        (redis_backend reference codec)
        default_redis_cart_config
        impatient
        (bytes "mine")
        (bytes "a")
        loader
        (pos 60)
        (pos 0)
        (tick ∷ [])
        []
        store in
    Filled
      (redis_backend reference codec)
      (λ w. OfRedis.values reference codec (contents w))
      (OfRedis.denotes reference codec)
      (RedisCart-Holds reference codec contents reference-Serves)
      default_redis_cart_config
      impatient
      (bytes "a")
      (pos 60)
      (pos 0)
      (bytes "mine")
      (bytes "mine")
      loader
      (tick ∷ [])
      []
      store
      r
      w'
unfolding acquire_lock acquired reference lookup insert text_beq lock_key effective_lock_ttl
get_or_set_fills_example =
    get_or_set_fills (redis_backend reference codec)
      (λ w. OfRedis.values reference codec (contents w)) (OfRedis.denotes reference codec)
      (RedisCart-Holds reference codec contents reference-Serves) default_redis_cart_config
      impatient (bytes "a") (pos 60) (pos 0) (bytes "mine") (bytes "mine") loader (tick ∷ []) []
      store refl

-- The holder of the lock stores a value while a caller waits.
abbrev filled : Store
filled = (bytes "a", 9 ∷ []) ∷ []

abbrev returned : Attempt ℕ → Result (Option ℕ)
returned (success v) = ok v
returned (retryable e) = err e
returned (permanent e) = err e

abbrev patient : Retry Store ℕ
patient op w = let (attempt, w') = op filled in (returned attempt, w')
