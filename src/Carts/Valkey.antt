-- ===== src/Carts/Valkey.antt =====
-- carts/valkey/valkey.go: `ValkeyStore` over its client, which is a parameter: `do` sends a command,
-- and the other fields are what valkey-go reads from the result.
pub mod Load
pub mod Laws
pub mod Ownership
pub mod Release
pub mod Reference
use nyro.Base.{
  ℕ, ◌≡◌, ◌<◌, Bool, true, false, List, [], ◌∷◌, ◌++◌, Option, none, some, if◌then◌else◌, ltb, ◌==◌,
}
use nyro.Base.Duration.{ℤ, pos, negsuc, Duration, int_eq, is_positive, to_seconds}
use nyro.Base.Text.{Text, bytes, text_eq}
use nyro.Base.Dict.{Dict, insert}
use nyro.Errors.{Error, fresh, wrap, not_found_with_cause, Result, ok, err, mapping}
use nyro.Keys.Decimal.{format_int}
use nyro.Carts.Json.{Json}
use nyro.Carts.Redis.{Script, release_lock_script, extend_lock_script, lock_key}

-- The commands that the store builds. Expirations are whole seconds.
pub data Command : Type 0 where
  get_command : Text → Command
  set_command set_nx_command : Text → Text → ℤ → Command
  del_command exists_command mget_command : List Text → Command
  flushall_command ping_command : Command
  eval_command : Script → Text → List Text → Command

-- `error` is `result.Error()`, and `is_valkey_nil` is `valkey.IsValkeyNil` of an error.
pub record Client (W R : Type 0) : Type 0 where
  pub do_ : Command → W → R × W
  pub error : R → Option Error
  pub is_valkey_nil : Error → Bool
  pub to_string : R → Result Text
  pub as_int64 : R → Result ℤ
  pub as_str_slice : R → Result (List Text)
  pub close : W → W

converted : {A B : Type 0} → Text → (A → B) → Result A → Result B
converted m f (ok a) = ok (f a)
converted m f (err e) = err (wrap m e)

module _ {W R : Type 0} (c : Client W R) where
  -- `result := s.client.Do(ctx, cmd)`, and what is read from the result.
  abbrev pub sending : {A : Type 0} → (R → Result A) → Command → W → Result A × W
  sending f command w = (f (c.do_ command w).0, (c.do_ command w).1)

  -- `if err := result.Error(); err != nil { return fmt.Errorf(…) }`, and what follows it.
  unfoldable pub unless_error : {A : Type 0} → Text → (R → Result A) → R → Result A
  unless_error m next r = elim (c.error r) [ some e ↦ err (wrap m e) | none ↦ next r ]

  unfoldable pub finished : R → Result (Unit {0})
  finished r = ok tt

  unfoldable pub delete : Text → W → Result (Unit {0}) × W
  unfolding unless_error finished
  delete key =
      sending (unless_error (bytes "valkey delete failed") finished) (del_command (key ∷ []))

  unfoldable pub exists : Text → W → Result Bool × W
  unfolding unless_error converted
  exists key =
      sending
        (unless_error (bytes "valkey exists failed")
          λ r. converted (bytes "failed to parse exists result") is_positive (c.as_int64 r))
        (exists_command (key ∷ []))

  unfoldable pub delete_multi : List Text → W → Result (Unit {0}) × W
  unfolding unless_error finished
  delete_multi [] w = (ok tt, w)
  delete_multi (key ∷ keys) w =
      sending (unless_error (bytes "valkey del failed") finished) (del_command (key ∷ keys)) w

  unfoldable pub clear : W → Result (Unit {0}) × W
  unfolding unless_error finished
  clear = sending (unless_error (bytes "valkey flushall failed") finished) flushall_command

  unfoldable pub health_check : W → Result (Unit {0}) × W
  unfolding unless_error finished
  health_check = sending (unless_error (bytes "valkey health check failed") finished) ping_command

  unfoldable pub close : W → Result (Unit {0}) × W
  close w = (ok tt, c.close w)

  -- `str, err := result.ToString(); acquired = (err == nil && str == "OK")`
  unfoldable pub acquired_by : Text → R → Result (Text × Bool)
  acquired_by lock_value r = elim (c.to_string r) [
    | ok str ↦ ok (lock_value, str == bytes "OK")
    | err e ↦ ok (lock_value, false)
  ]

  -- `lock_value` is what `generateLockValue` returned.
  unfoldable pub acquire_lock : Text → Duration → Text → W → Result (Text × Bool) × W
  unfolding unless_error acquired_by
  acquire_lock key ttl lock_value =
      sending (unless_error (bytes "failed to acquire lock") (acquired_by lock_value))
        (set_nx_command (lock_key key) lock_value (to_seconds ttl))

  unfoldable pub release_lock : Text → Text → W → Result (Unit {0}) × W
  unfolding unless_error finished
  release_lock key lock_value =
      sending (unless_error (bytes "failed to release lock") finished)
        (eval_command release_lock_script (lock_key key) (lock_value ∷ []))

  unfoldable pub extend_lock : Text → Text → Duration → W → Result Bool × W
  unfolding unless_error converted
  extend_lock key lock_value ttl =
      sending
        (unless_error (bytes "failed to extend lock") λ r.
          converted (bytes "failed to parse extend result") (λ count. count == pos 1)
            (c.as_int64 r))
        (eval_command extend_lock_script (lock_key key)
          (lock_value ∷ format_int (to_seconds ttl) ∷ []))

module _ {W R V : Type 0} (c : Client W R) (json : Json V) where
  -- What is no JSON is returned as the string that it is.
  decode : Text → Option V
  decode s = elim (json.unmarshal s) [ ok v ↦ v | err _ ↦ some (json.raw s) ]

  got : R → Result (Option V)
  unfolding decode converted not_found_with_cause
  got r = elim (c.error r) [
    | some e ↦
        if c.is_valkey_nil e
        then err (not_found_with_cause e)
        else err (wrap (bytes "valkey get failed") e)
    | none ↦ converted (bytes "failed to convert result to string") decode (c.to_string r)
  ]

  unfoldable pub get : Text → W → Result (Option V) × W
  unfolding got
  get key = sending c got (get_command key)

  unfoldable pub set : Text → Option V → Duration → W → Result (Unit {0}) × W
  unfolding unless_error finished
  set key v expiration w = elim (json.marshal v) [
    | err e ↦ (err (wrap (bytes "failed to marshal value") e), w)
    | ok data_ ↦
        sending c (unless_error c (bytes "valkey set failed") (finished c))
          (set_command key data_ (to_seconds expiration)) w
  ]

  -- The loop over `keys` with `values[i]`: it ends with the shorter list, and leaves out an empty string.
  collect : List Text → List Text → Dict Text (Option V) → Dict Text (Option V)
  unfolding decode
  collect [] values out = out
  collect (key ∷ keys) [] out = out
  collect (key ∷ keys) ([] ∷ values) out = collect keys values out
  collect (key ∷ keys) ((b ∷ s) ∷ values) out =
      collect keys values (insert key (decode (b ∷ s)) out)

  unfoldable pub get_multi : List Text → W → Result (Dict Text (Option V)) × W
  unfolding unless_error converted collect
  get_multi [] w = (ok [], w)
  get_multi (key ∷ keys) w =
      sending c
        (unless_error c (bytes "valkey mget failed") λ r.
          converted (bytes "failed to parse mget result") (λ values. collect (key ∷ keys) values [])
            (c.as_str_slice r))
        (mget_command (key ∷ keys)) w

  -- The loop of `Set` calls, in the order of the iteration; the first that fails ends it.
  unfoldable pub set_multi : Dict Text (Option V) → Duration → W → Result (Unit {0}) × W
  set_multi [] expiration w = (ok tt, w)
  set_multi ((key, v) ∷ items) expiration w =
      let (r, w') = set key v expiration w in
      let rest = set_multi items expiration w' in
      elim r [ err e ↦ (err (wrap (bytes "failed to set key " ++ key) e), w') | ok _ ↦ rest ]
