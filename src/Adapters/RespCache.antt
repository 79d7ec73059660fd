-- ===== src/Adapters/RespCache.antt =====
-- The text that adapters/redis/adapter.go, adapters/dragonfly/adapter.go, adapters/keydb/adapter.go
-- and adapters/valkey/adapter.go share, over the cart that each delegates to.
use nyro.Base.{none, some, List, [], ◌∷◌, map, Option, if◌then◌else◌}
use nyro.Base.Duration.{Duration, is_zero}
use nyro.Base.Text.{Text}
use nyro.Base.Dict.{Dict}
use nyro.Errors.{fresh, err, Result, ok, mapping}
use nyro.Keys.{Key, to_string}
use nyro.Options.{Option as CacheOption, apply_options}
use nyro.Memory.{Stats}
use nyro.Cache.{Cache}
use nyro.Carts.Guard.{Action}
use nyro.Carts.Cart.{Cart}
use nyro.Adapters.Resp.{RespConfig, effective_ttl, default_lock_ttl, relabelled, store_items}
use nyro.Adapters.Keyed.{connected}

unfoldable pub expiration_of : List CacheOption → RespConfig → Duration
unfolding effective_ttl
expiration_of options config = effective_ttl (apply_options options).expiration config.default_ttl

-- `HealthCheck` and `Close`, which look whether there is a cart; `missing` is the error if not.
module _ {W V : Type 0} where
  unfoldable pub health_check : Text → Option (Cart W V) → W → Result (Unit {0}) × W
  health_check missing none w = (err (fresh missing), w)
  health_check missing (some cart) w = cart.health_check w

  unfoldable pub close : Option (Cart W V) → W → Result (Unit {0}) × W
  close none w = (ok tt, w)
  close (some cart) w = cart.close w

module _ {W V : Type 0} (cart : Cart W V) (config : RespConfig) (type : Text) where
  unfoldable pub set : Key → Option V → List CacheOption → W → Result (Unit {0}) × W
  unfolding expiration_of
  set key v options = cart.set (to_string key) v (expiration_of options config)

  unfoldable pub get_or_set : Key → Action W V → List CacheOption → Action W V
  unfolding expiration_of
  get_or_set key loader options =
      let lock_ttl = if is_zero config.lock_ttl then default_lock_ttl else config.lock_ttl in
      cart.get_or_set_with_lock (to_string key) loader (expiration_of options config) lock_ttl

  unfoldable pub get_multi : List Key → W → Result (Dict Key (Option V)) × W
  unfolding relabelled
  get_multi [] w = (ok [], w)
  get_multi (key ∷ keys) w =
      mapping (relabelled (key ∷ keys)) (cart.get_multi (map to_string (key ∷ keys)) w)

  unfoldable pub set_multi : Dict Key (Option V) → List CacheOption → W → Result (Unit {0}) × W
  unfolding expiration_of
  set_multi [] options w = (ok tt, w)
  set_multi (item ∷ items) options w =
      cart.set_multi (store_items (item ∷ items) []) (expiration_of options config) w

  unfoldable pub delete_multi : List Key → W → Result (Unit {0}) × W
  delete_multi [] w = (ok tt, w)
  delete_multi (key ∷ keys) w = cart.delete_multi (map to_string (key ∷ keys)) w

  unfoldable pub get_stats : W → Result Stats × W
  unfolding connected
  get_stats w = mapping (connected type) (cart.health_check w)

  -- The methods of the adapter that `New` made.
  abbrev pub resp_cache : Text → Cache W V
  resp_cache missing = record {
    get = λ key. cart.get (to_string key);
    set = set;
    delete = λ key. cart.delete (to_string key);
    clear = cart.clear;
    exists = λ key. cart.exists (to_string key);
    get_or_set = get_or_set;
    get_multi = get_multi;
    set_multi = set_multi;
    delete_multi = delete_multi;
    health_check = health_check missing (some cart);
    get_stats = get_stats;
    close = close (some cart);
  }
