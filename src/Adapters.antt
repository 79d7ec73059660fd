-- ===== src/Adapters.antt =====
-- adapters/: the implementations of cache.Cache over the backends.
pub mod Resp
pub mod RespCache
pub mod Contract
pub mod OverRedis
pub mod Family
pub mod Valkey
pub mod Keyed
pub mod Memcached
pub mod Olric
pub mod Surreal
pub mod Pebble
