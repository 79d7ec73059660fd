-- ===== src/Adapters/Olric.antt =====
-- adapters/olric/adapter.go: the cache over `OlricCart`.
use nyro.Base.{List}
use nyro.Base.Duration.{Duration}
use nyro.Base.Text.{Text, bytes}
use nyro.Errors.{Result, ok, err}
use nyro.Cache.{Cache}
use nyro.Carts.Cart.{Cart}
use nyro.Carts.Olric
use nyro.Carts.Olric.{Client, OlricCart, OlricCartConfig, OlricCartOption, Action, new_olric}
use nyro.Carts.Olric.Locks.{get_or_set_with_lock, close}
use nyro.Adapters.Keyed.{configured_ttl, keyed_cache}

-- The configuration of the cart, its state, and the adapter's TTL.
pub record Adapter (W D L : Type 0) : Type 0 where
  pub cart_config : OlricCartConfig
  pub cart : OlricCart W D L
  pub ttl : Duration

module _ {W D L V : Type 0} (c : Client W D L V) where
  unfoldable pub new : Duration → List OlricCartOption → W → Result (Adapter W D L) × W
  unfolding configured_ttl
  new default_ttl opts w =
      let (r, w') = new_olric c opts w in
      elim r [
        | err e ↦ (err e, w')
        | ok (cfg, cart) ↦
            (ok (record { cart_config = cfg; cart = cart; ttl = configured_ttl default_ttl }), w')
      ]

  module _ (cfg : OlricCartConfig) (flight : Text → Action W D L V → Action W D L V) (sleep : W → W)
      (value : Text) where
    -- `OlricCart` as a `carts.Cart`, under one run of its guarded load.
    abbrev pub olric_cart : Cart (OlricCart W D L) V
    olric_cart = record {
      get = Olric.get c;
      set = Olric.set c;
      delete = Olric.delete c;
      exists = Olric.exists c;
      get_multi = Olric.get_multi c;
      set_multi = Olric.set_multi c;
      delete_multi = Olric.delete_multi c;
      clear = Olric.clear c cfg;
      health_check = Olric.health_check c;
      close = close c;
      get_or_set_with_lock = get_or_set_with_lock c cfg flight sleep value;
    }

    -- The adapter's methods, with its TTL.
    unfoldable pub olric_cache : Duration → Cache (OlricCart W D L) V
    olric_cache ttl = keyed_cache olric_cart ttl (bytes "olric")
