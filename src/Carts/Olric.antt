-- ===== src/Carts/Olric.antt =====
-- carts/olric/olric.go: `OlricCart` over its client, which is a parameter. The client hands out maps
-- (`D`) and the contexts of locks (`L`).
pub mod Locks
pub mod Ownership
pub mod Reference
pub mod Reads
pub mod Keeps
pub mod Runs
use nyro.Base.{foldl, ◌≡◌, Bool, true, false, List, [], ◌∷◌, Option, none, some, if◌then◌else◌, ◌*◌}
use nyro.Base.Duration.{Duration, pos, second}
use nyro.Base.Text.{Text, bytes, text_eq}
use nyro.Base.Dict.{Dict, lookup, insert, delete as remove}
use nyro.Errors.{Error, wrap, not_found_with_cause, as_not_found, Result, ok, err, mapping}

-- OlricClientInterface, olric.DMap and olric.LockContext. What `Get` returns is what its `Scan` into
-- an `any` answers; `ok_value` is the string "ok" as an `any`; the last two fields are `errors.Is` at
-- `olric.ErrKeyNotFound` and at `olric.ErrLockNotAcquired`.
pub record Client (W D L V : Type 0) : Type 0 where
  pub new_dmap : Text → W → Result D × W
  pub get : D → Text → W → Result (Result (Option V)) × W
  pub put : D → Text → Option V → Duration → W → Result (Unit {0}) × W
  pub delete : D → List Text → W → Result (Unit {0}) × W
  pub destroy : D → W → Result (Unit {0}) × W
  pub close : D → W → Result (Unit {0}) × W
  pub lock_with_timeout : D → Text → Duration → Duration → W → Result L × W
  pub unlock : L → W → W
  pub ok_value : Option V
  pub is_key_not_found : Error → Bool
  pub is_lock_not_acquired : Error → Bool

pub record OlricCartConfig : Type 0 where
  pub dmap_name : Text
  pub lock_ttl : Duration
  pub lock_max_wait : Duration

abbrev pub default_olric_cart_config : OlricCartConfig
default_olric_cart_config = record {
  dmap_name = bytes "cache";
  lock_ttl = pos (10 * second);
  lock_max_wait = pos (30 * second);
}

abbrev pub OlricCartOption : Type 0
OlricCartOption = OlricCartConfig → OlricCartConfig

unfoldable pub with_dmap_name : Text → OlricCartOption
with_dmap_name name c = record c { dmap_name = name }

unfoldable pub with_lock_ttl : Duration → OlricCartOption
with_lock_ttl ttl c = record c { lock_ttl = ttl }

unfoldable pub with_lock_max_wait : Duration → OlricCartOption
with_lock_max_wait d c = record c { lock_max_wait = d }

-- The fields of `OlricCart` that change, with the world: the functions in `locks` unlock the context
-- that they hold.
pub record OlricCart (W D L : Type 0) : Type 0 where
  pub dmap : D
  pub locks : Dict Text L
  pub world : W

abbrev pub Action : Type 0 → Type 0 → Type 0 → Type 0 → Type 0
Action W D L V = OlricCart W D L → Result (Option V) × OlricCart W D L

-- An operation of the map runs in the cart's world.
unfoldable pub in_world :
    {W D L A : Type 0} → (W → Result A × W) → OlricCart W D L → Result A × OlricCart W D L
in_world f s = let (r, w') = f s.world in (r, record s { world = w' })

unfoldable pub done_or : Text → Result (Unit {0}) → Result (Unit {0})
done_or m (ok u) = ok tt
done_or m (err e) = err (wrap m e)

module _ {W D L V : Type 0} (c : Client W D L V) where
  scanned : Result (Option V) → Result (Option V)
  scanned (ok v) = ok v
  scanned (err e) = err (wrap (bytes "olric: scan failed") e)

  got : Result (Result (Option V)) → Result (Option V)
  unfolding scanned not_found_with_cause
  got (ok resp) = scanned resp
  got (err e) =
      if c.is_key_not_found e
      then err (not_found_with_cause e)
      else err (wrap (bytes "olric: get failed") e)

  unfoldable pub get : Text → Action W D L V
  unfolding got in_world
  get key s = mapping got (in_world (c.get s.dmap key) s)

  unfoldable pub set :
      Text → Option V → Duration → OlricCart W D L → Result (Unit {0}) × OlricCart W D L
  unfolding done_or in_world
  set key v expiration s =
      mapping (done_or (bytes "olric: put failed")) (in_world (c.put s.dmap key v expiration) s)

  unfoldable pub delete : Text → OlricCart W D L → Result (Unit {0}) × OlricCart W D L
  unfolding done_or in_world
  delete key s =
      mapping (done_or (bytes "olric: delete failed")) (in_world (c.delete s.dmap (key ∷ [])) s)

  exists_read : Result (Result (Option V)) → Result Bool
  exists_read (ok resp) = ok true
  exists_read (err e) =
      if c.is_key_not_found e then ok false else err (wrap (bytes "olric: exists check failed") e)

  unfoldable pub exists : Text → OlricCart W D L → Result Bool × OlricCart W D L
  unfolding exists_read in_world
  exists key s = mapping exists_read (in_world (c.get s.dmap key) s)

  -- The loop of `Get` calls: a missing key is left out, and any other failure ends it.
  unfoldable pub get_each :
      List Text
      → Dict Text (Option V)
      → OlricCart W D L
      → Result (Dict Text (Option V)) × OlricCart W D L
  unfolding as_not_found
  get_each [] result s = (ok result, s)
  get_each (key ∷ keys) result s =
      let (r, s') = get key s in
      let skipped = get_each keys result s' in
      elim r [
        | ok v ↦ get_each keys (insert key v result) s'
        | err e ↦ if as_not_found e then skipped else (err e, s')
      ]

  unfoldable pub get_multi :
      List Text → OlricCart W D L → Result (Dict Text (Option V)) × OlricCart W D L
  unfolding get_each
  get_multi keys s = get_each keys [] s

  -- The loop of `Set` calls; the first that fails ends it.
  unfoldable pub set_multi :
      Dict Text (Option V) → Duration → OlricCart W D L → Result (Unit {0}) × OlricCart W D L
  set_multi [] expiration s = (ok tt, s)
  set_multi ((key, v) ∷ items) expiration s =
      let (r, s') = set key v expiration s in
      let rest = set_multi items expiration s' in elim r [ err e ↦ (err e, s') | ok _ ↦ rest ]

  unfoldable pub delete_multi : List Text → OlricCart W D L → Result (Unit {0}) × OlricCart W D L
  unfolding done_or in_world
  delete_multi keys s =
      mapping (done_or (bytes "olric: delete multi failed")) (in_world (c.delete s.dmap keys) s)

  recreated : Result D × OlricCart W D L → Result (Unit {0}) × OlricCart W D L
  recreated (ok dmap, s) = (ok tt, record s { dmap = dmap })
  recreated (err e, s) = (err (wrap (bytes "olric: failed to recreate DMap") e), s)

  unfoldable pub clear : OlricCartConfig → OlricCart W D L → Result (Unit {0}) × OlricCart W D L
  unfolding in_world recreated
  clear cfg s =
      let (r, s₁) = in_world (c.destroy s.dmap) s in
      elim r [
        | err e ↦ (err (wrap (bytes "olric: clear failed") e), s₁)
        | ok _ ↦ recreated (in_world (c.new_dmap cfg.dmap_name) s₁)
      ]

  -- The result of deleting the test key is not looked at.
  unfoldable pub health_check : OlricCart W D L → Result (Unit {0}) × OlricCart W D L
  unfolding in_world
  health_check s =
      let test_key = bytes "__health_check__" in
      let (r, s₁) = in_world (c.put s.dmap test_key c.ok_value (pos second)) s in
      elim r [
        | err e ↦ (err (wrap (bytes "olric: health check failed") e), s₁)
        | ok _ ↦ (ok tt, (in_world (c.delete s.dmap (test_key ∷ [])) s₁).1)
      ]

  -- `NewOlric`
  unfoldable pub new_olric :
      List OlricCartOption → W → Result (OlricCartConfig × OlricCart W D L) × W
  new_olric opts w =
      let cfg = foldl (λ cfg opt. opt cfg) default_olric_cart_config opts in
      let (r, w') = c.new_dmap cfg.dmap_name w in
      elim r [
        | ok dmap ↦ (ok (cfg, record { dmap = dmap; locks = []; world = w' }), w')
        | err e ↦ (err (wrap (bytes "failed to create DMap") e), w')
      ]
