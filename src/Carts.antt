-- ===== src/Carts.antt =====
-- carts/: the backend wrappers.
pub mod Json
pub mod Guard
pub mod Redis
pub mod Pebble
pub mod Valkey
pub mod Memcached
pub mod Cart
pub mod Contract
pub mod Surreal
pub mod Olric
