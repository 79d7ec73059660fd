-- ===== src/Adapters/Valkey.antt =====
-- adapters/valkey/adapter.go: the cache over `ValkeyStore`.
use nyro.Base.{◌≡◌, refl, List, [], ◌∷◌, none, some, ◌++◌, if◌then◌else◌}
use nyro.Base.Duration.{ℤ, Duration, is_positive}
use nyro.Base.Text.{bytes}
use nyro.Errors.{Result, ok, err, wrap}
use nyro.Cache.{Cache}
use nyro.Carts.Json.{Json}
use nyro.Carts.Cart.{Cart}
use nyro.Carts.Guard.{LockConfig}
use nyro.Carts.Valkey
use nyro.Carts.Valkey.{Client, ping_command}
use nyro.Carts.Valkey.Load.{
  ValkeyStoreOption, with_lock_ttl, with_lock_max_wait, new_valkey, get_or_set_with_lock,
}
use nyro.Adapters.Resp.{Adapter, RespConfig}
use nyro.Adapters.RespCache.{resp_cache}
use nyro.Adapters.OverRedis.{Run}
use nyro.Config.Backends.{ValkeyConfig, ValkeyOptions, valkey_options}

unfoldable pub store_opts : RespConfig → List ValkeyStoreOption
store_opts cfg =
    (if is_positive cfg.lock_ttl then with_lock_ttl cfg.lock_ttl ∷ [] else [])
    ++ (if is_positive cfg.lock_max_wait then with_lock_max_wait cfg.lock_max_wait ∷ [] else [])

module _ {W R : Type 0} where
  -- `New`; `dial` is `valkeygo.NewClient`.
  unfoldable pub new : (ValkeyOptions → Result (Client W R)) → ValkeyConfig → W → Result Adapter × W
  unfolding store_opts new_valkey valkey_options
  new dial cfg w = elim (dial (valkey_options cfg)) [
    | err e ↦ (err (wrap (bytes "valkey: create client") e), w)
    | ok c ↦
        let (r, w') = c.do_ ping_command w in
        elim (c.error r) [
          | none ↦ (
            ok (record { cart_config = new_valkey (store_opts cfg.resp); config = cfg.resp }),
            w',
          )
          | some e ↦ (err (wrap (bytes "valkey: ping failed") e), c.close w')
        ]
  ]

module _ {W R V : Type 0} (c : Client W R) (json : Json V) (run : Run W V) where
  -- `ValkeyStore` as a `carts.Cart`. It has no flight, and its `SetMulti` iterates once.
  abbrev pub valkey_cart : LockConfig → Cart W V
  valkey_cart cfg = record {
    get = Valkey.get c json;
    set = Valkey.set c json;
    delete = Valkey.delete c;
    exists = Valkey.exists c;
    get_multi = Valkey.get_multi c json;
    set_multi = Valkey.set_multi c json;
    delete_multi = Valkey.delete_multi c;
    clear = Valkey.clear c;
    health_check = Valkey.health_check c;
    close = Valkey.close c;
    get_or_set_with_lock = λ key loader expiration lock_ttl.
        get_or_set_with_lock c json cfg run.retry run.value key loader expiration lock_ttl
          run.before run.after;
  }

  -- The methods of the adapter.
  unfoldable pub valkey_cache : Adapter → Cache W V
  valkey_cache a =
      resp_cache (valkey_cart a.cart_config) a.config (bytes "valkey")
        (bytes "valkey: store is nil")

module _ {W R : Type 0} (dial : ValkeyOptions → Result (Client W R)) (cfg : ValkeyConfig) where
  -- The size of the pool, the retries and the timeouts of the configuration have no effect.
  pub new-ignores_pool :
      (pool idle retries : ℤ) (dialling reading writing : Duration) (w : W)
      → new dial
          (record cfg {
            pool_size = pool;
            min_idle_conns = idle;
            max_retries = retries;
            dial_timeout = dialling;
            read_timeout = reading;
            write_timeout = writing;
          })
          w
        ≡ new dial cfg w
  unfolding new
  new-ignores_pool pool idle retries dialling reading writing w = refl
