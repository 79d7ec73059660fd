-- ===== src/Typed.antt =====
-- typed_cache.go, pkg/decode.go: `TypedCache` over a cache, and `Decode`. decode.go repeats `Decode`
-- with other texts of the errors.
pub mod Reading
use nyro.Base.{◌≡◌, Bool, List, [], ◌∷◌, Option, none, some}
use nyro.Base.Text.{Text, bytes}
use nyro.Base.Dict.{Dict, insert}
use nyro.Errors.{Error, wrap, Result, ok, err}
use nyro.Keys.{Key, key_eq}
use nyro.Options.{Option as CacheOption}
use nyro.Memory.{Stats}
use nyro.Cache.{Cache}
use nyro.Carts.Guard.{Action}

-- What Go does with a type `T` beside `any`: its zero value, the conversion to `any`, the type
-- assertion on what is not nil, and encoding/json at `any` and at `T`.
pub record GoType (T V : Type 0) : Type 0 where
  pub zero : T
  pub to_any : T → Option V
  pub assert : V → Option T
  pub marshal : Option V → Result Text
  pub unmarshal : Text → Result T

module _ {T V : Type 0} (type : GoType T V) where
  -- The JSON path, with the text for a value that does not encode.
  unfoldable pub through_json : Text → Option V → Result T
  through_json m result = elim (type.marshal result) [
    | err e ↦ err (wrap m e)
    | ok data_ ↦ elim (type.unmarshal data_) [
      | err e ↦ err (wrap (bytes "cache: type mismatch in cached payload") e)
      | ok target ↦ ok target
    ]
  ]

  unfoldable pub decode_with : Text → Option V → Result T
  unfolding through_json
  decode_with m none = ok type.zero
  decode_with m (some v) = elim (type.assert v) [
    | some value ↦ ok value
    | none ↦ through_json m (some v)
  ]

  -- `Decode` of package pkg, and the one of package cache.
  unfoldable pub decode : Option V → Result T
  unfolding decode_with
  decode = decode_with (bytes "cache: failed to marshal cached value")

  unfoldable pub cache_decode : Option V → Result T
  unfolding decode_with
  cache_decode = decode_with (bytes "cache: marshal failed")

  unfoldable pub decoded : Result (Option V) → Result T
  unfolding decode
  decoded (ok result) = decode result
  decoded (err e) = err e

  -- The loop over the results; the first that does not decode ends it.
  unfoldable pub decode_all : Dict Key (Option V) → Dict Key T → Result (Dict Key T)
  unfolding decode
  decode_all [] typed = ok typed
  decode_all ((key, value) ∷ results) typed = elim (decode value) [
    | err e ↦ err e
    | ok d ↦ decode_all results (insert key d typed)
  ]

  -- The loop that builds `anyItems`.
  unfoldable pub any_items : Dict Key T → Dict Key (Option V) → Dict Key (Option V)
  any_items [] out = out
  any_items ((key, value) ∷ items) out = any_items items (insert key (type.to_any value) out)

  module _ {W : Type 0} (cache : Cache W V) where
    unfoldable pub get : Key → W → Result T × W
    unfolding decoded
    get key w = let (r, w') = cache.get key w in (decoded r, w')

    unfoldable pub set : Key → T → List CacheOption → W → Result (Unit {0}) × W
    set key value opts = cache.set key (type.to_any value) opts

    unfoldable pub delete : Key → W → Result (Unit {0}) × W
    delete = cache.delete

    unfoldable pub clear : W → Result (Unit {0}) × W
    clear = cache.clear

    unfoldable pub exists : Key → W → Result Bool × W
    exists = cache.exists

    -- `wrappedLoader`
    unfoldable pub wrapped_loader : (W → Result T × W) → Action W V
    wrapped_loader loader w =
        let (r, w') = loader w in
        elim r [ ok value ↦ (ok (type.to_any value), w') | err e ↦ (err e, w') ]

    unfoldable pub get_or_set : Key → (W → Result T × W) → List CacheOption → W → Result T × W
    unfolding wrapped_loader decoded
    get_or_set key loader opts w =
        let (r, w') = cache.get_or_set key (wrapped_loader loader) opts w in (decoded r, w')

    unfoldable pub get_multi : List Key → W → Result (Dict Key T) × W
    unfolding decode_all
    get_multi keys w =
        let (r, w') = cache.get_multi keys w in
        elim r [ err e ↦ (err e, w') | ok results ↦ (decode_all results [], w') ]

    unfoldable pub set_multi : Dict Key T → List CacheOption → W → Result (Unit {0}) × W
    unfolding any_items
    set_multi items opts = cache.set_multi (any_items items []) opts

    unfoldable pub delete_multi : List Key → W → Result (Unit {0}) × W
    delete_multi = cache.delete_multi

    unfoldable pub health_check : W → Result (Unit {0}) × W
    health_check = cache.health_check

    unfoldable pub get_stats : W → Result Stats × W
    get_stats = cache.get_stats

    unfoldable pub close : W → Result (Unit {0}) × W
    close = cache.close
