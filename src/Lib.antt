-- ===== src/Lib.antt =====
-- nyro: a cache library over several backends.
--
-- A program uses the interface `cache.Cache` (cache.go). Behind it stands an adapter: the in-process
-- one (adapters/memory), which keeps its own map, or one of those that turn keys into strings and
-- options into a TTL and delegate to a cart (carts/), the wrapper of one backend. The carts guard a
-- load with a distributed lock: look up, acquire, look up again, load, store, release, or wait for the
-- holder to fill the cache. `TypedCache` gives the values their types back, config.New makes the
-- cache of a type whose adapter has registered, and client.Client bundles a cache with the
-- configurations of the entities.
--
-- Files and the code that they model:
--   Errors            errors.go, carts/errors.go: sentinels, `NotFound`, `errors.Is`, `errors.As`
--   Options           options.go: `Options`, the `With…` options, `ApplyOptions…`
--   Keys              internal/keyutil/keyutil.go, pkg/utils.go: `ToString`, `KeyToString`;
--                     Keys/Format is what package fmt makes of durations and strings
--   Memory            adapters/memory/adapter.go: `Adapter` and its methods. Memory/Expiry is about
--                     single calls, Collect about `evictExpired`, History about runs of calls, Bulk
--                     about the methods for several keys, Loading about one call of `GetOrSet`,
--                     Flights about any number of callers whose steps interleave
--   Cache, Carts/Cart the interfaces of cache.go and carts/cart.go
--   Carts/Json        encoding/json, a parameter
--   Carts/Guard       `GetOrSetWithLock`, `waitForCache` and `startLockHeartbeat` of
--                     carts/redis/redis.go, over an interface `Backend`; Guard/Release is about the
--                     lock, Guard/Filling about what is stored, Guard/Waiting about the wait,
--                     Guard/Backoff has the parameters of the wait,
--                     Guard/Processes has the calls of several processes that interleave with the
--                     expiry of the lock, Guard/Exclusion and Guard/Runs are about them
--   Carts/Contract    what carts/cart.go promises, as a function from keys to values, and
--                     Contract/Runs any sequence of calls; Contract/Decoding is the function of a
--                     server that holds texts; Keeps and Runs of Redis, Memcached and Olric are about
--                     the carts that keep it
--   Carts/Redis       the other methods of carts/redis/redis.go; Redis/Locks the lock and the options,
--                     Redis/Server what the server promises, Redis/ShortTtl is about TTLs below a
--                     second, Redis/Contents about what is read back, Redis/Reference a server in
--                     memory
--   Carts/Valkey      carts/valkey/valkey.go; Valkey/Load its `GetOrSetWithLock`, Valkey/Laws,
--                     Valkey/Ownership and Valkey/Release what holds of them over a server
--   Carts/Pebble      carts/pebble/pebble.go; Pebble/Server what the database promises
--   Carts/Memcached   carts/memcached/memcached.go; Memcached/Load its guarded load,
--                     Memcached/Ownership is about the lock, Memcached/Expiry about the expiration,
--                     Memcached/Values about what entries decode to, Memcached/Reference and
--                     Memcached/Timed are servers in memory
--   Carts/Surreal     carts/surrealdb/surrealdb.go; Surreal/Load its options and guarded load,
--                     Surreal/Stuck what follows from locks that are records
--   Carts/Olric       carts/olric/olric.go; Olric/Locks its locks and guarded load, Olric/Ownership
--                     what becomes of the locks, Olric/Reads and Olric/Keeps what the map holds
--   Adapters/Resp     adapters/redis/adapter.go
--   Adapters/Pebble   adapters/pebble/adapter.go
--   Adapters/Keyed    the text that the adapters of Memcached, Olric and SurrealDB share;
--                     Adapters/Memcached, Adapters/Olric and Adapters/Surreal are those
--   Adapters/RespCache  the text that the adapters of Redis, Dragonfly, KeyDB and Valkey share;
--                     Adapters/OverRedis and Adapters/Valkey are those, and
--                     Adapters/Family says what they share with Adapters/Resp
--   Adapters/Contract what the adapters promise of the keys of their callers, over a cart that keeps its
--                     contract, and Contract/Caches those that do
--   Config            config/config.go; Config/Backends the structs of the backends, Config/Registry
--                     the factories in the `init` of the adapters,
--                     Config/Entities config/entity_config.go, Config/Merging what is looked up in it
--   Client            client/client.go; Client/Wiring a client over the in-memory adapter,
--                     Client/Distributed one over the adapters of Redis, Dragonfly and KeyDB
--   Typed             typed_cache.go, pkg/decode.go, decode.go; Typed/Reading what is read back
--   Base              Boolean tests, lists, maps as association lists, strings as lists of bytes,
--                     durations and times in nanoseconds
--   Tests             the theorems at concrete inputs
--
-- How code is modelled. A method is a function of its arguments and of the state, and returns its
-- result and the new state. The state of a cart is a world `W` that its client, a parameter, acts on.
-- Each reading of the clock, the random lock value, the order of a map's iteration and what a
-- `select` receives are arguments. A value of type `any` is an `Option V`, with `none` for nil. A loop
-- is structural recursion over the list that it walks, or over the events that a `select` receives, so
-- there is no fuel. `backoff.Retry` and singleflight are parameters, but for Memory/Flights, where
-- the steps of a flight are steps of the model. Interleavings are step relations, and what holds of
-- them holds of every state that is reached.
--
-- What is assumed of code outside the repository: the records `Serves` (Carts/Redis/Server,
-- Carts/Valkey/Laws, Carts/Memcached/Ownership and Carts/Olric/Reads), `Locks`
-- (Carts/Valkey/Ownership), `Stores` (Carts/Pebble/Server) and `Keeps` (Carts/Surreal/Stuck)
-- state documented behaviour of the servers, their clients and the databases, on keys whose time does
-- not run out, and for expirations that the server counts; each is met by a reference in memory.
-- `Owned` (Carts/Guard/Release) and `Keeps` (Carts/Contract) name the durations that a backend counts
-- as `Lasts`: at least a second for the locks of Redis and Valkey, at most thirty days for Memcached.
-- `Expires` (Carts/Memcached/Expiry) states how Memcached reads an expiration.
-- `Keeps` (Carts/Contract) and `KeepsKeys` (Adapters/Contract) are contracts of this code, which are
-- proved. `Retries` (Carts/Guard/Waiting) states what `backoff.Retry` does.
--
-- What is not modelled: the int64 range of durations; dialling; what a method other than HealthCheck
-- and Close does on an adapter without a store; logging; how `backoff.Retry` follows its policy; in
-- the sequential model a heartbeat that goes on after the release, which is a step of the interleavings
-- of Guard/Processes; GetType and Unwrap, which return a constant and a field; the
-- generated mocks, the examples and the build targets, which hold no logic of the cache.
pub mod Base
pub mod Errors
pub mod Options
pub mod Keys
pub mod Memory
pub mod Cache
pub mod Carts
pub mod Adapters
pub mod Config
pub mod Client
pub mod Typed
pub mod Tests
