-- ===== src/Typed/Reading.antt =====
-- What a `TypedCache` reads back, over the adapters.
use nyro.Base.{
  ◌≡◌, refl, ◌<◌, ◌⊎◌, inl, inr, arith, eq_iff, eq_self, Bool-cases, ◌&&◌, List, [], ◌∷◌, Option,
  none, some, if◌then◌else◌,
}
use nyro.Base.Duration.{Time, add_time, after, is_positive}
use nyro.Base.Text.{Text, bytes, text_eq}
use nyro.Base.Dict.{Dict, lookup, insert, lookup-insert, Distinct}
use nyro.Errors.{Error, sentinel, err_not_found, wrap, Result, ok, err, Result-cases}
use nyro.Keys.{Key, key_eq, to_string}
use nyro.Options.{Option as CacheOption}
use nyro.Cache.{Cache}
use nyro.Memory
use nyro.Memory.{to_key, ttl_of}
use nyro.Memory.Expiry
use nyro.Memory.Loading
use nyro.Memory.Port.{memory_cache}
use nyro.Carts.Json.{Json, Encodes}
use nyro.Carts.Redis.{Client}
use nyro.Carts.Redis.Server.{Contents, Serves}
use nyro.Carts.Redis.Contents.{get-set_cart}
use nyro.Adapters.Resp.{Adapter}
use nyro.Adapters.OverRedis.{Run, redis_cache}
use nyro.Adapters.RespCache.{set as resp_set, expiration_of}
use nyro.Typed.{GoType, decode, decode_with, through_json, decoded, decode_all, get, set, get_multi}

module _ {T V : Type 0} (type : GoType T V) where
  -- A value that is not nil as an `any`, and that the type assertion gives back.
  abbrev pub Boxed : T → Type 0
  Boxed x = (v : V) × (type.to_any x ≡ some v) × (type.assert v ≡ some x)

  decode-Boxed : (x : T) → Boxed x → decode type (type.to_any x) ≡ ok x
  unfolding decode decode_with
  decode-Boxed x (v, boxed, asserted) = rw (boxed, decode, asserted, decode_with) refl

  -- Over the in-memory adapter, what is stored at a time `t` of a clock past zero is read back as
  -- it was until the TTL that applied has run out, and is then not found.
  pub get-set_typed :
      (flight : Text → Loading.Action V → Loading.Action V) (t t' : Time) (key : Key) (x : T)
      (options : List CacheOption) (a : Memory.Adapter V)
      → 0 < t
      → Boxed x
      → (get type
          (memory_cache flight t' t' t')
          key
          (set type (memory_cache flight t t t) key x options a).1).0
        ≡ (if is_positive (ttl_of options a.config)
              && after t' (add_time t (ttl_of options a.config))
            then err (sentinel err_not_found)
            else ok x)
  unfolding get set memory_cache decoded
  get-set_typed flight t t' key x options a h boxed =
      let ttl = ttl_of options a.config in
      rw
        (
          get,
          memory_cache,
          Expiry.get-set a key key t t' (type.to_any x) options h,
          eq_self (to_key key),
        )
        (elim (Bool-cases (is_positive ttl && after t' (add_time t ttl))) [
          | inl late ↦ rw late refl
          | inr live ↦ rw live (decode-Boxed x boxed)
        ])

  module _ {W : Type 0} (c : Client W) (json : Json V) (run : Run W V) (a : Adapter)
      (view : W → Contents) (serves : Serves c view) where
    -- Over Redis the value comes back as what its JSON denotes: where that is not of the type, as
    -- for a struct that comes back as a map, `Decode` encodes it again and decodes it at the type.
    -- If that is the value, a `Get` after a successful `Set` returns it, unless the client fails.
    pub get-set_typed_redis :
        (key : Key) (x : T) (s s' : Text) (v' : V) (options : List CacheOption) (w : W)
        → Encodes json (type.to_any x) s (some v')
        → type.assert v' ≡ none
        → type.marshal (some v') ≡ ok s'
        → type.unmarshal s' ≡ ok x
        → (set type (redis_cache c json run a) key x options w).0 ≡ ok tt
        → let w' = (set type (redis_cache c json run a) key x options w).1 in
          ((get type (redis_cache c json run a) key w').0 ≡ ok x)
          ⊎ ((e : Error) × ((get type (redis_cache c json run a) key w').0
                ≡ err (wrap (bytes "redis get failed") e)))
    unfolding get set redis_cache resp_set decoded decode decode_with through_json
    get-set_typed_redis key x s s' v' options w encodes other marshals unmarshals stored =
        elim (get-set_cart c json view serves (to_string key) s (type.to_any x) (some v')
          (expiration_of options a.config) w encodes stored).1 [
            | inl hit ↦
                inl (rw (hit, decoded, other, decode_with, marshals, through_json, unmarshals) refl)
            | inr (e, failed) ↦ inr (e, rw (failed, decoded) refl)
          ]

  -- What stands under a key, as a result.
  abbrev pub held : Option T → Option (Result T)
  held none = none
  held (some x) = some (ok x)

  lookup-decode_all :
      (key : Key) (results : Dict Key (Option V)) (typed out : Dict Key T)
      → Distinct results
      → decode_all type results typed ≡ ok out
      → held (lookup key out) ≡ elim (lookup key results) [
        | none ↦ held (lookup key typed)
        | some v ↦ some (decode type v)
      ]
  unfolding decode_all lookup
  lookup-decode_all key [] typed out d done = ground arith
  lookup-decode_all key ((k, v) ∷ results) typed out d done = elim (Result-cases (decode type v)) [
    | inr (e, failed) ↦ absurd (ground arith)
    | inl (x, good) ↦ ground (
      arith,
      lookup-decode_all key results (insert k x typed) out d.1,
      lookup-insert k key x typed,
      eq_iff k key,
      d.0,
    )
  ]

  -- `GetMulti` succeeds only where every value that the cache returned decodes, and then holds the
  -- decoded value under each of their keys and nothing else.
  pub lookup-get_multi_typed :
      {W : Type 0} (cache : Cache W V) (keys : List Key) (key : Key) (results : Dict Key (Option V))
      (out : Dict Key T) (w : W)
      → (cache.get_multi keys w).0 ≡ ok results
      → Distinct results
      → (get_multi type cache keys w).0 ≡ ok out
      → held (lookup key out)
        ≡ elim (lookup key results) [ none ↦ none | some v ↦ some (decode type v) ]
  unfolding get_multi lookup
  lookup-get_multi_typed cache keys key results out w found d done =
      lookup-decode_all key results [] out d (rw (found, get_multi) at done)
