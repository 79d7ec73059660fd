-- ===== src/Memory.antt =====
-- adapters/memory/adapter.go: the process-local cache. Each reading of the clock is an argument.
-- A value of type `any` is an `Option V`, with `none` for nil. Each operation is atomic, as the
-- mutex makes it.
pub mod Expiry
pub mod Collect
pub mod History
pub mod Bulk
pub mod Loading
pub mod Flights
pub mod Port
use nyro.Base.{
  ℕ, ◌*◌, ◌≡◌, Bool, true, false, not, ◌&&◌, List, [], ◌∷◌, Option, none, some, if◌then◌else◌,
  length, ◌++◌, nat_beq, ltb, leb,
}
use nyro.Base.Duration.{
  ℤ, pos, negsuc, Duration, Time, add_time, after, is_zero, is_positive, second,
}
use nyro.Base.Text.{Text, bytes, text_eq, text_beq}
use nyro.Base.Dict.{Dict, lookup, insert, delete}
use nyro.Errors.{Error, sentinel, wrap, Sentinel, err_not_found, Result, ok, err, is}
use nyro.Keys.{Key, string, key_eq}
use nyro.Keys
use nyro.Keys.Decimal.{format_uint}
use nyro.Options.{Option as CacheOption, apply_options}

-- config.MemoryConfig
pub record MemoryConfig : Type 0 where
  pub default_ttl : Duration
  pub gc_interval : Duration

pub record Entry (V : Type 0) : Type 0 where
  pub value : Option V
  pub expires_at : Time

-- `!e.expiresAt.IsZero() && time.Now().After(e.expiresAt)`
unfoldable pub expired : {V : Type 0} → Time → Entry V → Bool
expired now e = not (nat_beq e.expires_at 0) && after now e.expires_at

-- cache.Stats
pub record Stats : Type 0 where
  pub type : Text
  pub connected : Bool
  pub info : Text

-- What the `select` of `runGC` receives: a tick, with the time, or the closed channel.
pub data Signal : Type 0 where
  ticker : Time → Signal
  close_ch : Signal

-- `closed` says that `closeCh` is closed, which `closeOnce` does once.
pub record Adapter (V : Type 0) : Type 0 where
  pub entries : Dict Text (Entry V)
  pub config : MemoryConfig
  pub closed : Bool

module _ {V : Type 0} where
  unfoldable pub new : MemoryConfig → Adapter V
  new cfg =
      let interval = if is_positive cfg.gc_interval then cfg.gc_interval else pos (60 * second) in
      record { entries = []; config = record cfg { gc_interval = interval }; closed = false }

  -- The loop of `evictExpired`.
  pub drop_expired : Time → Dict Text (Entry V) → Dict Text (Entry V)
  drop_expired now [] = []
  drop_expired now ((k, e) ∷ m) =
      if expired now e then drop_expired now m else (k, e) ∷ drop_expired now m

  unfoldable pub evict_expired : Time → Adapter V → Adapter V
  unfolding drop_expired expired
  evict_expired now a = record a { entries = drop_expired now a.entries }

-- The TTL that `Set` applies.
unfoldable pub ttl_of : List CacheOption → MemoryConfig → Duration
ttl_of options config =
    let ttl = (apply_options options).expiration in if is_zero ttl then config.default_ttl else ttl

unfoldable pub expiry : Time → Duration → Time
expiry now ttl = if is_positive ttl then add_time now ttl else 0

-- `fmt.Sprintf("%v", key)` of what is not a string.
unfoldable pub to_key : Key → Text
to_key (string s) = s
to_key (Key.stringer i s printed) = printed
to_key k = Keys.to_string k

module _ {V : Type 0} where
  -- The entry that is found, if it has not expired.
  live : Time → Option (Entry V) → Result (Option V)
  live now none = err (sentinel err_not_found)
  live now (some e) = if expired now e then err (sentinel err_not_found) else ok e.value

  unfoldable pub get : Time → Key → Adapter V → Result (Option V)
  unfolding live expired
  get now key a = live now (lookup (to_key key) a.entries)

  unfoldable pub set :
      Time → Key → Option V → List CacheOption → Adapter V → Result (Unit {0}) × Adapter V
  unfolding ttl_of expiry
  set now key value options a =
      let e : Entry V = record {
        value = value;
        expires_at = expiry now (ttl_of options a.config);
      } in
      (ok tt, record a { entries = insert (to_key key) e a.entries })

  unfoldable pub delete_key : Key → Adapter V → Result (Unit {0}) × Adapter V
  delete_key key a = (ok tt, record a { entries = delete (to_key key) a.entries })

  unfoldable pub clear : Adapter V → Result (Unit {0}) × Adapter V
  clear a = (ok tt, record a { entries = [] })

  -- `Exists` on what its call of `Get` returns.
  found : Result (Option V) → Result Bool
  found (ok v) = ok true
  found (err e) = if is e err_not_found then ok false else err e

  unfoldable pub exists : Time → Key → Adapter V → Result Bool
  unfolding found get is
  exists now key a = found (get now key a)

  unfoldable pub health_check : Adapter V → Result (Unit {0})
  health_check a = ok tt

  unfoldable pub get_stats : Adapter V → Result Stats
  get_stats a = ok (record {
    type = bytes "memory";
    connected = true;
    info = bytes "entries=" ++ format_uint (length a.entries);
  })

  -- `closeOnce.Do` closes the channel the first time.
  unfoldable pub close : Adapter V → Result (Unit {0}) × Adapter V
  close a = (ok tt, record a { closed = true })

  -- The loop of `runGC` over what its `select` receives.
  unfoldable pub run_gc : List Signal → Adapter V → Adapter V
  run_gc [] a = a
  run_gc (ticker now ∷ signals) a = run_gc signals (evict_expired now a)
  run_gc (close_ch ∷ signals) a = a
