-- ===== src/Adapters/Pebble.antt =====
-- adapters/pebble/adapter.go: the cache over `PebbleCart`. The loops that convert keys are those of
-- the other adapters, and each call of the cart that reads the clock takes the reading.
pub mod Loading
use nyro.Base.{◌≡◌, ◌*◌, Bool, true, false, List, [], ◌∷◌, map, Option, none, some, if◌then◌else◌}
use nyro.Base.Duration.{pos, Duration, Time, is_zero, hour}
use nyro.Base.Text.{Text, bytes, text_eq}
use nyro.Base.Dict.{Dict}
use nyro.Errors.{Error, as_not_found, Result, ok, err, mapping}
use nyro.Keys.{Key, to_string, key_eq}
use nyro.Options.{Option as CacheOption, apply_options}
use nyro.Memory.{Stats}
use nyro.Carts.Guard.{Action}
use nyro.Carts.Pebble
use nyro.Carts.Pebble.{Db, EntryJson}
use nyro.Adapters.Resp.{relabelled, store_items}

-- `Adapter`: its cart is the database that the operations take.
pub record Adapter : Type 0 where
  pub ttl : Duration

abbrev pub default_ttl : Duration
default_ttl = pos (24 * hour)

unfoldable pub new : Duration → Adapter
new configured = record { ttl = if is_zero configured then default_ttl else configured }

-- `ttl := opts.Expiration; if ttl == 0 { ttl = a.ttl }`
unfoldable pub ttl_for : Adapter → List CacheOption → Duration
ttl_for a options =
    let ttl = (apply_options options).expiration in if is_zero ttl then a.ttl else ttl

abbrev pub at_string : Time × Key → Time × Text
at_string (now, key) = (now, to_string key)

-- The items in the order in which the cart iterates over `storeItems`, with the readings of its clock.
abbrev pub timed :
    {V : Type 0} → (Text → Time) → Dict Text (Option V) → List (Time × Text × Option V)
timed clock [] = []
timed clock ((key, v) ∷ items) = (clock key, key, v) ∷ timed clock items

module _ {W B V : Type 0} (db : Db W B) (json : EntryJson V) (a : Adapter) where
  unfoldable pub get : Time → Key → W → Result (Option V) × W
  get now key = Pebble.get db json now (to_string key)

  unfoldable pub set : Time → Key → Option V → List CacheOption → W → Result (Unit {0}) × W
  unfolding ttl_for
  set now key v options = Pebble.set db json now (to_string key) v (ttl_for a options)

  unfoldable pub delete : Key → W → Result (Unit {0}) × W
  delete key = Pebble.delete db json (to_string key)

  unfoldable pub clear : W → Result (Unit {0}) × W
  clear = Pebble.clear db json

  unfoldable pub exists : Key → W → Result Bool × W
  exists key = Pebble.exists db json (to_string key)

  -- The value that was loaded is stored, and a failure to store it is returned.
  unfoldable pub store :
      Time → Key → List CacheOption → Result (Option V) × W → Result (Option V) × W
  store now key options (err e, w) = (err e, w)
  store now key options (ok v, w) =
      let (r, w') = set now key v options w in elim r [ err e ↦ (err e, w') | ok _ ↦ (ok v, w') ]

  -- `t` and `now` are the readings of the clock by the look-up and by the write.
  unfoldable pub get_or_set : Time → Time → Key → Action W V → List CacheOption → Action W V
  unfolding store
  get_or_set t now key loader options w =
      let (r, w₁) = get t key w in
      elim r [
        | ok v ↦ (ok v, w₁)
        | err e ↦ if as_not_found e then store now key options (loader w₁) else (err e, w₁)
      ]

  unfoldable pub get_multi : List (Time × Key) → W → Result (Dict Key (Option V)) × W
  get_multi keys w =
      mapping (relabelled (map (λ p. p.1) keys)) (Pebble.get_multi db json (map at_string keys) w)

  unfoldable pub set_multi :
      (Text → Time) → Dict Key (Option V) → List CacheOption → W → Result (Unit {0}) × W
  set_multi clock items options w =
      Pebble.set_multi db json (timed clock (store_items items [])) (ttl_for a options) w

  unfoldable pub delete_multi : List Key → W → Result (Unit {0}) × W
  delete_multi keys = Pebble.delete_multi db json (map to_string keys)

  unfoldable pub health_check : W → Result (Unit {0}) × W
  health_check = Pebble.health_check db json

  connected : Result (Unit {0}) → Result Stats
  connected (ok u) = ok (record { type = bytes "pebble"; connected = true; info = [] })
  connected (err e) = ok (record { type = bytes "pebble"; connected = false; info = [] })

  unfoldable pub get_stats : W → Result Stats × W
  unfolding connected
  get_stats w = mapping connected (Pebble.health_check db json w)

  unfoldable pub close : W → Result (Unit {0}) × W
  close = Pebble.close db json
