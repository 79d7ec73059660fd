-- ===== src/Adapters/Keyed.antt =====
-- The text that adapters/memcached/adapter.go, adapters/olric/adapter.go and
-- adapters/surrealdb/adapter.go share, over the cart that each delegates to.
use nyro.Base.{◌*◌, true, false, List, [], map, Option, if◌then◌else◌}
use nyro.Base.Duration.{pos, Duration, is_zero, second, hour}
use nyro.Base.Text.{Text}
use nyro.Base.Dict.{Dict}
use nyro.Errors.{Result, ok, err, mapping}
use nyro.Keys.{Key, to_string}
use nyro.Options.{Option as CacheOption, apply_options}
use nyro.Memory.{Stats}
use nyro.Cache.{Cache}
use nyro.Carts.Guard.{Action}
use nyro.Carts.Cart.{Cart}
use nyro.Adapters.Resp.{relabelled, store_items}

abbrev pub default_ttl : Duration
default_ttl = pos (24 * hour)

abbrev pub default_lock_ttl : Duration
default_lock_ttl = pos (10 * second)

-- The field `ttl` that the constructors make of `defaultTTL`.
unfoldable pub configured_ttl : Duration → Duration
configured_ttl ttl = if is_zero ttl then default_ttl else ttl

-- `opts.Expiration`, or the adapter's TTL where that is 0.
unfoldable pub ttl_for : List CacheOption → Duration → Duration
ttl_for options ttl =
    let requested = (apply_options options).expiration in
    if is_zero requested then ttl else requested

-- What `GetStats` makes of the result of `HealthCheck`.
unfoldable pub connected : Text → Result (Unit {0}) → Result Stats
connected type (ok u) = ok (record { type = type; connected = true; info = [] })
connected type (err e) = ok (record { type = type; connected = false; info = [] })

module _ {W V : Type 0} (cart : Cart W V) (ttl : Duration) (type : Text) where
  unfoldable pub set : Key → Option V → List CacheOption → W → Result (Unit {0}) × W
  unfolding ttl_for
  set key v options = cart.set (to_string key) v (ttl_for options ttl)

  unfoldable pub get_or_set : Key → Action W V → List CacheOption → Action W V
  unfolding ttl_for
  get_or_set key loader options =
      cart.get_or_set_with_lock (to_string key) loader (ttl_for options ttl) default_lock_ttl

  unfoldable pub get_multi : List Key → W → Result (Dict Key (Option V)) × W
  unfolding relabelled
  get_multi keys w = mapping (relabelled keys) (cart.get_multi (map to_string keys) w)

  unfoldable pub set_multi : Dict Key (Option V) → List CacheOption → W → Result (Unit {0}) × W
  unfolding ttl_for
  set_multi items options = cart.set_multi (store_items items []) (ttl_for options ttl)

  unfoldable pub delete_multi : List Key → W → Result (Unit {0}) × W
  delete_multi keys = cart.delete_multi (map to_string keys)

  unfoldable pub get_stats : W → Result Stats × W
  unfolding connected
  get_stats w = mapping (connected type) (cart.health_check w)

  -- The methods of the adapter.
  abbrev pub keyed_cache : Cache W V
  keyed_cache = record {
    get = λ key. cart.get (to_string key);
    set = set;
    delete = λ key. cart.delete (to_string key);
    clear = cart.clear;
    exists = λ key. cart.exists (to_string key);
    get_or_set = get_or_set;
    get_multi = get_multi;
    set_multi = set_multi;
    delete_multi = delete_multi;
    health_check = cart.health_check;
    get_stats = get_stats;
    close = cart.close;
  }
