-- ===== src/Carts/Surreal.antt =====
-- carts/surrealdb/surrealdb.go: `SurrealDBCart` over its client, which is a parameter. `now` reads the
-- clock of the world. The client's `Select` returns a record or an error: a nil record without an
-- error, which the code would dereference, is not among its results.
pub mod Load
pub mod Stuck
pub mod Reference
use nyro.Base.{◌≡◌, Bool, true, false, List, [], ◌∷◌, ◌++◌, Option, none, some, if◌then◌else◌, ◌==◌}
use nyro.Base.Duration.{Duration, Time, add_time, after}
use nyro.Base.Text.{Text, bytes, text_eq}
use nyro.Base.Dict.{Dict, insert}
use nyro.Errors.{Error, fresh, wrap, not_found_with_cause, as_not_found, Result, ok, err, mapping}
use nyro.Carts.Redis.{lock_key}

-- models.RecordID: a table and an id.
pub record RecordId : Type 0 where
  pub table : Text
  pub id : Text

pub record CacheEntry (V : Type 0) : Type 0 where
  pub key : Text
  pub value : Option V
  pub expiration : Time

pub record LockEntry : Type 0 where
  pub key : Text
  pub value : Text
  pub expiration : Time

-- surrealdb.DB, with its generic functions at the two types of record.
pub record Client (W V : Type 0) : Type 0 where
  pub use_ : Text → Text → W → Result (Unit {0}) × W
  pub select_entry : RecordId → W → Result (CacheEntry V) × W
  pub upsert_entry : RecordId → CacheEntry V → W → Result (Unit {0}) × W
  pub delete_entry : RecordId → W → Result (Unit {0}) × W
  pub delete_table : Text → W → Result (Unit {0}) × W
  pub query_table : Text → W → Result (Unit {0}) × W
  pub create_lock : RecordId → LockEntry → W → Result (Unit {0}) × W
  pub select_lock : RecordId → W → Result LockEntry × W
  pub update_lock : RecordId → LockEntry → W → Result (Unit {0}) × W
  pub delete_lock : RecordId → W → Result (Unit {0}) × W
  pub close : W → Result (Unit {0}) × W
  pub now : W → Time

abbrev pub lock_table : Text
lock_table = bytes "cache_locks"

unfoldable pub done_or : Text → Result (Unit {0}) → Result (Unit {0})
done_or m (ok u) = ok u
done_or m (err e) = err (wrap m e)

abbrev pub key_expired : Error
key_expired = fresh (bytes "key expired")

abbrev pub record_id : Text → Text → RecordId
record_id table key = record { table = table; id = key }

abbrev pub lock_id : Text → RecordId
lock_id key = record { table = lock_table; id = lock_key key }

module _ {W V : Type 0} (c : Client W V) (table : Text) where
  -- An expired entry is deleted, and the result of that is not looked at.
  unfoldable pub got : Text → Result (CacheEntry V) → W → Result (Option V) × W
  unfolding not_found_with_cause
  got key (err e) w = (err (not_found_with_cause e), w)
  got key (ok entry) w =
      if after (c.now w) entry.expiration
      then (err (not_found_with_cause key_expired), (c.delete_entry (record_id table key) w).1)
      else (ok entry.value, w)

  unfoldable pub get : Text → W → Result (Option V) × W
  unfolding got
  get key w = let (r, w') = c.select_entry (record_id table key) w in got key r w'

  unfoldable pub set : Text → Option V → Duration → W → Result (Unit {0}) × W
  unfolding done_or
  set key v expiration w = mapping (done_or (bytes "surrealdb: upsert failed")) (
      c.upsert_entry (record_id table key)
        (record { key = key; value = v; expiration = add_time (c.now w) expiration }) w)

  unfoldable pub delete : Text → W → Result (Unit {0}) × W
  unfolding done_or
  delete key w =
      mapping (done_or (bytes "surrealdb: delete failed")) (c.delete_entry (record_id table key) w)

  found : Result (Option V) → Result Bool
  unfolding as_not_found
  found (ok v) = ok true
  found (err e) = if as_not_found e then ok false else err e

  unfoldable pub exists : Text → W → Result Bool × W
  unfolding found
  exists key w = mapping found (get key w)

  -- The loop of `Get` calls: a key whose `Get` fails is left out.
  unfoldable pub get_each : List Text → Dict Text (Option V) → W → Result (Dict Text (Option V)) × W
  get_each [] result w = (ok result, w)
  get_each (key ∷ keys) result w =
      let (r, w') = get key w in
      elim r [ ok v ↦ get_each keys (insert key v result) w' | err e ↦ get_each keys result w' ]

  unfoldable pub get_multi : List Text → W → Result (Dict Text (Option V)) × W
  unfolding get_each
  get_multi keys w = get_each keys [] w

  -- The loops of `Set` and `Delete` calls; the first that fails ends them.
  unfoldable pub set_multi : Dict Text (Option V) → Duration → W → Result (Unit {0}) × W
  set_multi [] expiration w = (ok tt, w)
  set_multi ((key, v) ∷ items) expiration w =
      let (r, w') = set key v expiration w in
      let rest = set_multi items expiration w' in elim r [ err e ↦ (err e, w') | ok _ ↦ rest ]

  unfoldable pub delete_multi : List Text → W → Result (Unit {0}) × W
  delete_multi [] w = (ok tt, w)
  delete_multi (key ∷ keys) w =
      let (r, w') = delete key w in
      let rest = delete_multi keys w' in elim r [ err e ↦ (err e, w') | ok _ ↦ rest ]

  unfoldable pub clear : W → Result (Unit {0}) × W
  unfolding done_or
  clear w = mapping (done_or (bytes "surrealdb: clear failed")) (c.delete_table table w)

  unfoldable pub health_check : W → Result (Unit {0}) × W
  unfolding done_or
  health_check w =
      mapping (done_or (bytes "surrealdb: health check failed")) (c.query_table table w)

module _ {W V : Type 0} (c : Client W V) where
  unfoldable pub close : W → Result (Unit {0}) × W
  close w = c.close w

  -- Any failure to create the record counts as a lock that exists.
  unfoldable pub acquired : Text → Result (Unit {0}) → Result (Text × Bool)
  acquired lock_value (ok u) = ok (lock_value, true)
  acquired lock_value (err e) = ok ([], false)

  -- `lock_value` is what `generateLockValue` returned.
  unfoldable pub acquire_lock : Text → Duration → Text → W → Result (Text × Bool) × W
  unfolding acquired
  acquire_lock key ttl lock_value w = mapping (acquired lock_value) (
      c.create_lock (lock_id key)
        (record { key = lock_key key; value = lock_value; expiration = add_time (c.now w) ttl }) w)

  unfoldable pub release_lock : Text → Text → W → Result (Unit {0}) × W
  unfolding done_or
  release_lock key lock_value w =
      let (r, w₁) = c.select_lock (lock_id key) w in
      elim r [
        | err e ↦ (ok tt, w₁)
        | ok entry ↦
            if entry.value == lock_value
            then mapping (done_or (bytes "failed to release lock")) (c.delete_lock (lock_id key) w₁)
            else (ok tt, w₁)
      ]

  unfoldable pub extended : Result (Unit {0}) → Result Bool
  extended (ok u) = ok true
  extended (err e) = err (wrap (bytes "failed to extend lock") e)

  unfoldable pub extend_lock : Text → Text → Duration → W → Result Bool × W
  unfolding extended
  extend_lock key lock_value ttl w =
      let (r, w₁) = c.select_lock (lock_id key) w in
      elim r [
        | err e ↦ (ok false, w₁)
        | ok entry ↦
            if entry.value == lock_value
            then mapping extended (
                c.update_lock (lock_id key) (record entry { expiration = add_time (c.now w₁) ttl })
                  w₁)
            else (ok false, w₁)
      ]
