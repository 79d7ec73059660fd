-- ===== src/Carts/Redis.antt =====
-- carts/redis/redis.go: `RedisCart` over its client. The client, a parameter, is go-redis talking to
-- a server that executes the two Lua scripts.
pub mod Locks
pub mod Server
pub mod ShortTtl
pub mod Contents
pub mod Reference
pub mod Keeps
pub mod Runs
pub mod Filling
use nyro.Base.{
  ℕ, ◌≡◌, ◌<◌, Bool, true, false, List, [], ◌∷◌, ◌++◌, Option, none, some, if◌then◌else◌, ltb,
}
use nyro.Base.Duration.{ℤ, pos, negsuc, Duration, is_positive, to_seconds}
use nyro.Base.Text.{Text, bytes, text_eq}
use nyro.Base.Dict.{Dict, insert}
use nyro.Errors.{Error, fresh, wrap, panicked, not_found_with_cause, Result, ok, err, mapping}
use nyro.Carts.Json.{Json}

-- The reply of `GET`: a value, an error for which `errors.Is(err, redis.Nil)`, or another error.
pub data Reply : Type 0 where
  value : Text → Reply
  nil failure : Error → Reply

-- An element of the reply of `MGET`: nil, a string, or a value of another type.
pub data Slot : Type 0 where
  absent odd : Slot
  present : Text → Slot

-- The Lua scripts, and an argument of `EVAL`.
pub data Script : Type 0 where
  release_lock_script extend_lock_script : Script

pub data Arg : Type 0 where
  text : Text → Arg
  number : ℤ → Arg

-- RedisClientInterface. `mset` takes the pairs that are its flat list of arguments, and `eval`
-- returns `some n` for `int64(n)` and `none` for a result of another type.
pub record Client (W : Type 0) : Type 0 where
  pub get : Text → W → Reply × W
  pub set : Text → Text → Duration → W → Result (Unit {0}) × W
  pub set_nx : Text → Text → Duration → W → Result Bool × W
  pub del : List Text → W → Result ℕ × W
  pub exists : List Text → W → Result ℕ × W
  pub mget : List Text → W → Result (List Slot) × W
  pub mset : List (Text × Text) → W → Result (Unit {0}) × W
  pub flush_all : W → Result (Unit {0}) × W
  pub ping : W → Result (Unit {0}) × W
  pub expire : Text → Duration → W → Result Bool × W
  pub eval : Script → List Text → List Arg → W → Result (Option ℤ) × W
  pub close : W → Result (Unit {0}) × W

-- `if err != nil { return fmt.Errorf(…) }; return nil`
unfoldable pub done_or : {A : Type 0} → Text → Result A → Result (Unit {0})
done_or m (ok a) = ok tt
done_or m (err e) = err (wrap m e)

abbrev pub lock_key_suffix : Text
lock_key_suffix = bytes ":lock"

-- `getLockKey`
unfoldable pub lock_key : Text → Text
lock_key key = key ++ lock_key_suffix

module _ {W V : Type 0} (c : Client W) (json : Json V) where
  -- What is no JSON is returned as the string that it is.
  unfoldable pub decode : Text → Option V
  decode s = elim (json.unmarshal s) [ ok v ↦ v | err _ ↦ some (json.raw s) ]

  got : Reply → Result (Option V)
  unfolding decode not_found_with_cause
  got (value s) = ok (decode s)
  got (nil e) = err (not_found_with_cause e)
  got (failure e) = err (wrap (bytes "redis get failed") e)

  unfoldable pub get : Text → W → Result (Option V) × W
  unfolding got
  get key w = (got (c.get key w).0, (c.get key w).1)

  unfoldable pub set : Text → Option V → Duration → W → Result (Unit {0}) × W
  unfolding done_or
  set key v expiration w = elim (json.marshal v) [
    | err e ↦ (err (wrap (bytes "failed to marshal value") e), w)
    | ok data_ ↦ mapping (done_or (bytes "redis set failed")) (c.set key data_ expiration w)
  ]

  unfoldable pub delete : Text → W → Result (Unit {0}) × W
  unfolding done_or
  delete key w = mapping (done_or (bytes "redis delete failed")) (c.del (key ∷ []) w)

  counted : Result ℕ → Result Bool
  counted (ok n) = ok (ltb 0 n)
  counted (err e) = err (wrap (bytes "redis exists failed") e)

  unfoldable pub exists : Text → W → Result Bool × W
  unfolding counted
  exists key w = mapping counted (c.exists (key ∷ []) w)

  -- The loop over `keys` with `values[i]`: an element that is no string is left out, and reading
  -- past the end of `values` panics.
  collect : List Text → List Slot → Dict Text (Option V) → Result (Dict Text (Option V))
  collect [] slots out = ok out
  collect (key ∷ keys) [] out = err (panicked (bytes "index out of range"))
  collect (key ∷ keys) (absent ∷ slots) out = collect keys slots out
  collect (key ∷ keys) (odd ∷ slots) out = collect keys slots out
  collect (key ∷ keys) (present s ∷ slots) out = collect keys slots (insert key (decode s) out)

  collected : List Text → Result (List Slot) → Result (Dict Text (Option V))
  unfolding collect decode
  collected keys (ok slots) = collect keys slots []
  collected keys (err e) = err (wrap (bytes "redis mget failed") e)

  unfoldable pub get_multi : List Text → W → Result (Dict Text (Option V)) × W
  unfolding collected
  get_multi [] w = (ok [], w)
  get_multi (key ∷ keys) w = mapping (collected (key ∷ keys)) (c.mget (key ∷ keys) w)

  -- The arguments of `MSET`, in the order of the first iteration over the items.
  marshal_all : Dict Text (Option V) → Result (List (Text × Text))
  marshal_all [] = ok []
  marshal_all ((key, v) ∷ items) =
      let rest = marshal_all items in
      elim (json.marshal v) [
        | err e ↦ err (wrap (bytes "failed to marshal value for key " ++ key) e)
        | ok s ↦ elim rest [ err e ↦ err e | ok args ↦ ok ((key, s) ∷ args) ]
      ]

  -- The loop of `Expire` calls; the first that fails ends it.
  expire_all : List Text → Duration → W → Result (Unit {0}) × W
  expire_all [] expiration w = (ok tt, w)
  expire_all (key ∷ keys) expiration w =
      let (r, w') = c.expire key expiration w in
      let rest = expire_all keys expiration w' in
      elim r [
        | err e ↦ (err (wrap (bytes "redis expire failed for key " ++ key) e), w')
        | ok _ ↦ rest
      ]

  stored : List Text → Duration → Result (Unit {0}) × W → Result (Unit {0}) × W
  unfolding expire_all
  stored keys expiration (err e, w) = (err (wrap (bytes "redis mset failed") e), w)
  stored keys expiration (ok _, w) =
      if is_positive expiration then expire_all keys expiration w else (ok tt, w)

  -- `again` lists the keys in the order of the second iteration over the items.
  unfoldable pub set_multi : Dict Text (Option V) → List Text → Duration → W → Result (Unit {0}) × W
  unfolding marshal_all stored
  set_multi [] again expiration w = (ok tt, w)
  set_multi (item ∷ items) again expiration w = elim (marshal_all (item ∷ items)) [
    | err e ↦ (err e, w)
    | ok args ↦ stored again expiration (c.mset args w)
  ]

  unfoldable pub delete_multi : List Text → W → Result (Unit {0}) × W
  unfolding done_or
  delete_multi [] w = (ok tt, w)
  delete_multi (key ∷ keys) w = mapping (done_or (bytes "redis del failed")) (c.del (key ∷ keys) w)

  unfoldable pub clear : W → Result (Unit {0}) × W
  unfolding done_or
  clear w = mapping (done_or (bytes "redis flushall failed")) (c.flush_all w)

  unfoldable pub health_check : W → Result (Unit {0}) × W
  unfolding done_or
  health_check w = mapping (done_or (bytes "redis health check failed")) (c.ping w)

  unfoldable pub close : W → Result (Unit {0}) × W
  unfolding done_or
  close w = mapping (done_or (bytes "redis close failed")) (c.close w)
