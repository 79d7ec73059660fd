-- ===== src/Tests.antt =====
-- The theorems at concrete inputs.
mod Memory
mod Carts
mod Contract
mod Adapters
mod Shared
mod Pebble
mod Valkey
mod Memcached
mod Flights
mod Exclusion
mod Surreal
mod Olric
mod Config
mod Ports
