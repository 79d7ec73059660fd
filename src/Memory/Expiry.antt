-- ===== src/Memory/Expiry.antt =====
-- What `Get` returns after `Set`, `Delete` and `Clear`.
use nyro.Base.{◌<◌, ◌≡◌, refl, true, false, ◌&&◌, List, Option, if◌then◌else◌, arith, ◌==◌}
use nyro.Base.Duration.{pos, negsuc, Duration, Time, add_time, after, is_positive}
use nyro.Base.Text.{text_eq}
use nyro.Base.Dict.{lookup-insert, lookup-delete}
use nyro.Errors.{sentinel, err_not_found, ok, err}
use nyro.Keys.{Key}
use nyro.Options.{Option as CacheOption}
use nyro.Memory.{Adapter, get, set, delete_key, ttl_of, expiry, to_key, expired, exists}

-- An entry written at `t` with a positive TTL `d` is expired after `t + d`, with another TTL never.
pub expired-expiry :
    {V : Type 0} (v : Option V) (t t' : Time) (d : Duration)
    → 0 < t
    → expired t' (record { value = v; expires_at = expiry t d })
      ≡ (is_positive d && after t' (add_time t d))
unfolding expired expiry
expired-expiry v t t' (pos n) h = ground arith
expired-expiry v t t' (negsuc n) h = refl

module _ {V : Type 0} (a : Adapter V) (key j : Key) (t t' : Time) where
  -- After `Set` at a time `t` of a clock past zero, `Get` of a key of the same string returns the
  -- value until the applied TTL has run out, and for ever if that TTL is not positive; `Get` of
  -- any other key returns what it did.
  pub get-set :
      (v : Option V) (options : List CacheOption)
      → 0 < t
      → get t' j (set t key v options a).1 ≡ (
          if to_key key == to_key j
          then (if is_positive (ttl_of options a.config)
                && after t' (add_time t (ttl_of options a.config))
              then err (sentinel err_not_found)
              else ok v)
          else get t' j a)
  unfolding get set
  get-set v options h =
      rw lookup-insert (ground (arith, expired-expiry v t t' (ttl_of options a.config)))

  -- `Delete` takes away the keys of the same string and no other.
  pub get-delete_key :
      get t' j (delete_key key a).1
      ≡ (if to_key key == to_key j then err (sentinel err_not_found) else get t' j a)
  unfolding get delete_key
  get-delete_key = rw lookup-delete (ground arith)

-- `Exists` never fails, and says whether `Get` succeeds.
pub exists-get :
    {V : Type 0} (now : Time) (key : Key) (a : Adapter V)
    → exists now key a ≡ ok (elim (get now key a) [ ok v ↦ true | err e ↦ false ])
unfolding exists get
exists-get now key a = ground arith

-- `Set` and `Delete` never fail, and leave the configuration alone.
pub set-ok :
    {V : Type 0} (t : Time) (key : Key) (v : Option V) (options : List CacheOption) (a : Adapter V)
    → (set t key v options a).0 ≡ ok tt
unfolding set
set-ok t key v options a = refl

pub set-config :
    {V : Type 0} (t : Time) (key : Key) (v : Option V) (options : List CacheOption) (a : Adapter V)
    → (set t key v options a).1.config ≡ a.config
unfolding set
set-config t key v options a = refl

pub delete_key-ok : {V : Type 0} (key : Key) (a : Adapter V) → (delete_key key a).0 ≡ ok tt
unfolding delete_key
delete_key-ok key a = refl
