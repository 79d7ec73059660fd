-- ===== src/Carts/Contract/Decoding.antt =====
-- The values of carts/redis/redis.go and carts/memcached/memcached.go, whose servers hold them as
-- texts, under the decoder of a cart's items.
use nyro.Base.{◌≡◌, refl, fun_ext, Bool, true, false, Option, none, some, if◌then◌else◌, ◌==◌}
use nyro.Base.Text.{Text, text_eq}
use nyro.Carts.Contract.{Values, assign}
use nyro.Carts.Redis.Server.{Contents, write, remove}

module _ {V : Type 0} (decode : Text → Option V) where
  abbrev pub reading : Option Text → Option (Option V)
  reading o = elim o [ none ↦ none | some s ↦ some (decode s) ]

  abbrev pub values : Contents → Values V
  values m j = reading (m j)

  branch :
      (b : Bool) (x o : Option Text)
      → reading (if b then x else o) ≡ (if b then reading x else reading o)
  branch true x o = refl
  branch false x o = refl

  pub values-write :
      (k s : Text) (m : Contents) → values (write k s m) ≡ assign k (some (decode s)) (values m)
  values-write k s m = fun_ext λ j. branch (k == j) (some s) (m j)

  pub values-remove : (k : Text) (m : Contents) → values (remove k m) ≡ assign k none (values m)
  values-remove k m = fun_ext λ j. branch (k == j) none (m j)
