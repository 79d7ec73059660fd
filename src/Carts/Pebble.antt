-- ===== src/Carts/Pebble.antt =====
-- carts/pebble/pebble.go: `PebbleCart` over its database, which is a parameter. Each reading of the
-- clock is an argument.
pub mod Server
pub mod Laws
pub mod Reference
use nyro.Base.{◌≡◌, Bool, true, false, List, [], ◌∷◌, Option, none, some, if◌then◌else◌}
use nyro.Base.Duration.{Duration, Time, add_time, after}
use nyro.Base.Text.{Text, bytes, text_eq}
use nyro.Base.Dict.{Dict, insert}
use nyro.Errors.{Error, fresh, wrap, not_found_with_cause, as_not_found, Result, ok, err, mapping}

pub record CacheEntry (V : Type 0) : Type 0 where
  pub value : Option V
  pub expiration : Time

-- What `db.Get` returns: the bytes, an error for which `errors.Is(err, pebble.ErrNotFound)`, or
-- another error.
pub data Read : Type 0 where
  found : Text → Read
  missing failure : Error → Read

-- The database and its batches. `new_iter` gives the keys that the iterator visits, and what
-- `iter.Error` returns after them.
pub record Db (W B : Type 0) : Type 0 where
  pub get : Text → W → Read × W
  pub set : Text → Text → W → Result (Unit {0}) × W
  pub delete : Text → W → Result (Unit {0}) × W
  pub new_batch : B
  pub batch_set : Text → Text → B → Result (Unit {0}) × B
  pub batch_delete : Text → B → Result (Unit {0}) × B
  pub commit : B → W → Result (Unit {0}) × W
  pub new_iter : W → Result (List Text × Result (Unit {0})) × W
  pub close : W → Result (Unit {0}) × W

-- encoding/json on entries.
pub record EntryJson (V : Type 0) : Type 0 where
  pub marshal : CacheEntry V → Result Text
  pub unmarshal : Text → Result (CacheEntry V)

-- `if err := …; err != nil { return fmt.Errorf(…) }; return nil`
unfoldable pub done_or : Text → Result (Unit {0}) → Result (Unit {0})
done_or m (ok u) = ok u
done_or m (err e) = err (wrap m e)

abbrev pub key_expired : Error
key_expired = fresh (bytes "key expired")

abbrev test_key : Text
test_key = bytes "__health_check__"

-- The entry that is stored.
abbrev pub entry_of : {V : Type 0} → Time → Option V → Duration → CacheEntry V
entry_of now v expiration = record { value = v; expiration = add_time now expiration }

exists_read : Read → Result Bool
exists_read (missing e) = ok false
exists_read (failure e) = err (wrap (bytes "pebble: exists check failed") e)
exists_read (found s) = ok true

module _ {W B V : Type 0} (db : Db W B) (json : EntryJson V) where
  -- The entry that was read: an expired one is deleted, and the result of that is not looked at.
  unfoldable pub check_expiration : Time → Text → Result (CacheEntry V) → W → Result (Option V) × W
  unfolding not_found_with_cause
  check_expiration now key (err e) w = (err (wrap (bytes "pebble: unmarshal failed") e), w)
  check_expiration now key (ok entry) w =
      if after now entry.expiration
      then (err (not_found_with_cause key_expired), (db.delete key w).1)
      else (ok entry.value, w)

  get_read : Time → Text → Read → W → Result (Option V) × W
  unfolding check_expiration not_found_with_cause
  get_read now key (missing e) w = (err (not_found_with_cause e), w)
  get_read now key (failure e) w = (err (wrap (bytes "pebble: get failed") e), w)
  get_read now key (found s) w = check_expiration now key (json.unmarshal s) w

  unfoldable pub get : Time → Text → W → Result (Option V) × W
  unfolding get_read
  get now key w = get_read now key (db.get key w).0 (db.get key w).1

  unfoldable pub set : Time → Text → Option V → Duration → W → Result (Unit {0}) × W
  unfolding done_or
  set now key v expiration w = elim (json.marshal (entry_of now v expiration)) [
    | err e ↦ (err (wrap (bytes "pebble: marshal failed") e), w)
    | ok data_ ↦ mapping (done_or (bytes "pebble: set failed")) (db.set key data_ w)
  ]

  unfoldable pub delete : Text → W → Result (Unit {0}) × W
  unfolding done_or
  delete key w = mapping (done_or (bytes "pebble: delete failed")) (db.delete key w)

  unfoldable pub exists : Text → W → Result Bool × W
  unfolding exists_read
  exists key w = (exists_read (db.get key w).0, (db.get key w).1)

  -- The loop of `GetMulti`, with the reading of the clock for each key.
  unfoldable pub get_each :
      List (Time × Text) → Dict Text (Option V) → W → Result (Dict Text (Option V)) × W
  unfolding get as_not_found
  get_each [] result w = (ok result, w)
  get_each ((now, key) ∷ keys) result w =
      let (r, w') = get now key w in
      let skip = get_each keys result w' in
      elim r [
        | err e ↦ if as_not_found e then skip else (err e, w')
        | ok value ↦ get_each keys (insert key value result) w'
      ]

  unfoldable pub get_multi : List (Time × Text) → W → Result (Dict Text (Option V)) × W
  unfolding get_each
  get_multi keys w = get_each keys [] w

  -- The loop of `SetMulti`, with the reading of the clock for each item.
  unfoldable pub batch_all : List (Time × Text × Option V) → Duration → B → Result B
  batch_all [] expiration batch = ok batch
  batch_all ((now, key, v) ∷ items) expiration batch =
      elim (json.marshal (entry_of now v expiration)) [
        | err e ↦ err (wrap (bytes "pebble: marshal failed") e)
        | ok data_ ↦
            let (r, batch') = db.batch_set key data_ batch in
            let rest = batch_all items expiration batch' in
            elim r [ err e ↦ err (wrap (bytes "pebble: batch set failed") e) | ok _ ↦ rest ]
      ]

  -- The commit of the batch that the loop has filled; the deferred `Close` drops an unused one.
  unfoldable pub committed : Result B → W → Result (Unit {0}) × W
  unfolding done_or
  committed (err e) w = (err e, w)
  committed (ok batch) w =
      mapping (done_or (bytes "pebble: batch commit failed")) (db.commit batch w)

  unfoldable pub set_multi : List (Time × Text × Option V) → Duration → W → Result (Unit {0}) × W
  unfolding batch_all committed
  set_multi items expiration w = committed (batch_all items expiration db.new_batch) w

  -- The loops of `DeleteMulti` and `Clear`.
  unfoldable pub batch_delete_all : List Text → B → Result B
  batch_delete_all [] batch = ok batch
  batch_delete_all (key ∷ keys) batch =
      let (r, batch') = db.batch_delete key batch in
      let rest = batch_delete_all keys batch' in
      elim r [ err e ↦ err (wrap (bytes "pebble: batch delete failed") e) | ok _ ↦ rest ]

  unfoldable pub delete_multi : List Text → W → Result (Unit {0}) × W
  unfolding batch_delete_all committed
  delete_multi keys w = committed (batch_delete_all keys db.new_batch) w

  -- `iter.Error` is looked at after the loop.
  iterated : Result (Unit {0}) → Result B → Result B
  iterated r (err e) = err e
  iterated (err e) (ok batch) = err (wrap (bytes "pebble: iteration failed") e)
  iterated (ok u) (ok batch) = ok batch

  unfoldable pub clear : W → Result (Unit {0}) × W
  unfolding batch_delete_all committed iterated
  clear w =
      let (r, w') = db.new_iter w in
      elim r [
        | err e ↦ (err (wrap (bytes "pebble: iterator creation failed") e), w')
        | ok (keys, ended) ↦ committed (iterated ended (batch_delete_all keys db.new_batch)) w'
      ]

  checked : Result (Unit {0}) × W → Result (Unit {0}) × W
  checked (err e, w) = (err (wrap (bytes "pebble: health check failed") e), w)
  checked (ok u, w) = (ok tt, (db.delete test_key w).1)

  unfoldable pub health_check : W → Result (Unit {0}) × W
  unfolding checked
  health_check w = checked (db.set test_key (bytes "ok") w)

  unfoldable pub close : W → Result (Unit {0}) × W
  close w = db.close w
