-- ===== src/Adapters/Resp/Ttl.antt =====
-- The durations that the adapters hand to the carts.
use nyro.Base.{ℕ, ◌≡◌, inl, inr, Bool-cases, true, false, arith, ◌≤◌}
use nyro.Base.Duration.{pos, Duration, is_positive}
use nyro.Carts.Guard.{renewal_interval}
use nyro.Adapters.Resp.{RespConfig, effective_ttl, default_ttl, cart_config_of, store_opts}
use nyro.Carts.Redis.Locks.{new_redis, with_lock_ttl, with_lock_max_wait}

-- Whatever is requested and configured, the TTL of an entry is positive: the requested one if it
-- is positive, else the configured one if it is, else a day. No entry is written without one.
pub effective_ttl-positive :
    (requested configured : Duration)
    → (is_positive (effective_ttl requested configured) ≡ true)
      × (is_positive requested ≡ true → effective_ttl requested configured ≡ requested)
      × (is_positive requested ≡ false
          → is_positive configured ≡ true
          → effective_ttl requested configured ≡ configured)
      × (is_positive requested ≡ false
          → is_positive configured ≡ false
          → effective_ttl requested configured ≡ default_ttl)
unfolding effective_ttl
effective_ttl-positive requested configured = ground arith

-- The cart that `New` makes has a positive lock TTL and a positive wait, and renews its locks at a
-- positive interval wherever the TTL of the lock is at least three nanoseconds.
pub cart_config_positive :
    (cfg : RespConfig) (ttl : ℕ)
    → 3 ≤ ttl
    → (is_positive (cart_config_of cfg).lock_ttl ≡ true)
      × (is_positive (cart_config_of cfg).lock_max_wait ≡ true)
      × (is_positive (renewal_interval (cart_config_of cfg) (pos ttl)) ≡ true)
unfolding cart_config_of store_opts new_redis with_lock_ttl with_lock_max_wait renewal_interval
cart_config_positive cfg ttl h = elim (Bool-cases (is_positive cfg.lock_ttl)) [
  | inl a ↦ elim (Bool-cases (is_positive cfg.lock_max_wait)) [
    | inl b ↦ rw (a, b) (ground arith)
    | inr b ↦ rw (a, b) (ground arith)
  ]
  | inr a ↦ elim (Bool-cases (is_positive cfg.lock_max_wait)) [
    | inl b ↦ rw (a, b) (ground arith)
    | inr b ↦ rw (a, b) (ground arith)
  ]
]
