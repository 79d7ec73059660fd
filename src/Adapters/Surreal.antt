-- ===== src/Adapters/Surreal.antt =====
-- adapters/surrealdb/adapter.go: the cache over `SurrealDBCart`.
use nyro.Base.{◌≡◌, refl, arith, List, [], ◌∷◌, ◌==◌, if◌then◌else◌, inl, inr}
use nyro.Base.Duration.{Duration}
use nyro.Base.Text.{Text, bytes, text_eq}
use nyro.Errors.{Result, ok, err, Result-cases}
use nyro.Cache.{Cache}
use nyro.Carts.Cart.{Cart}
use nyro.Carts.Guard.{Retry, Action, Beat, Selected}
use nyro.Carts.Surreal
use nyro.Carts.Surreal.{Client}
use nyro.Carts.Surreal.Load.{
  SurrealDbCartConfig, SurrealDbCartOption, new_surreal_db, with_table, configured,
  get_or_set_with_lock,
}
use nyro.Adapters.Keyed.{configured_ttl, keyed_cache}

pub record Adapter : Type 0 where
  pub cart_config : SurrealDbCartConfig
  pub ttl : Duration

-- `if s == "" { s = … }`
unfoldable pub or_default : Text → Text → Text
or_default d s = if s == [] then d else s

module _ {W V : Type 0} (c : Client W V) where
  -- `New`, after `surrealdb.New` has dialled.
  unfoldable pub new :
      Text → Text → Text → Duration → List SurrealDbCartOption → W → Result Adapter × W
  unfolding configured_ttl or_default
  new namespace database table default_ttl opts w =
      let (used, w₁) =
        c.use_ (or_default (bytes "test") namespace) (or_default (bytes "test") database) w in
      let (made, w₂) = new_surreal_db c (with_table (or_default (bytes "cache") table) ∷ opts) w₁ in
      elim used [
        | err e ↦ (err e, (c.close w₁).1)
        | ok _ ↦ elim made [
          | err e ↦ (err e, (c.close w₂).1)
          | ok cfg ↦ (ok (record { cart_config = cfg; ttl = configured_ttl default_ttl }), w₂)
        ]
      ]

  module _ (cfg : SurrealDbCartConfig) (retry : Retry W V) (flight : Text → Action W V → Action W V)
      (selected : Selected) (value : Text) (before after : List Beat) where
    -- `SurrealDBCart` as a `carts.Cart`, under one run of its guarded load.
    abbrev pub surreal_cart : Cart W V
    surreal_cart = record {
      get = Surreal.get c cfg.table;
      set = Surreal.set c cfg.table;
      delete = Surreal.delete c cfg.table;
      exists = Surreal.exists c cfg.table;
      get_multi = Surreal.get_multi c cfg.table;
      set_multi = Surreal.set_multi c cfg.table;
      delete_multi = Surreal.delete_multi c cfg.table;
      clear = Surreal.clear c cfg.table;
      health_check = Surreal.health_check c cfg.table;
      close = Surreal.close c;
      get_or_set_with_lock = λ key loader expiration lock_ttl.
          get_or_set_with_lock c cfg retry flight selected value key loader expiration lock_ttl
            before after;
    }

    -- The adapter's methods, with its TTL.
    unfoldable pub surreal_cache : Duration → Cache W V
    surreal_cache ttl = keyed_cache surreal_cart ttl (bytes "surrealdb")

  cart_uses :
      (table : Text) (w : W)
      → (new_surreal_db c (with_table table ∷ []) w).1 ≡ (c.use_ (bytes "cache") (bytes "nyro") w).1
  unfolding new_surreal_db with_table configured
  cart_uses table w = elim (Result-cases (c.use_ (bytes "cache") (bytes "nyro") w).0) [
    | inl (u, used) ↦ rw (used, new_surreal_db) refl
    | inr (e, failed) ↦ rw (failed, new_surreal_db) refl
  ]

  -- `Use` of a database, when it succeeds, makes the client work on it.
  module _ (in_use : W → Text × Text)
      (uses : (ns db : Text) (w : W)
        → (c.use_ ns db w).0 ≡ ok tt
        → in_use (c.use_ ns db w).1 ≡ (ns, db)) where
    -- The namespace and the database that the caller names are not the ones in use afterwards: the
    -- cart, which gets none of them as an option, selects its own defaults.
    pub new-in_use :
        (namespace database table : Text) (ttl : Duration) (a : Adapter) (w : W)
        → (new namespace database table ttl [] w).0 ≡ ok a
        → in_use (new namespace database table ttl [] w).1 ≡ (bytes "cache", bytes "nyro")
    unfolding new new_surreal_db with_table
    new-in_use namespace database table ttl a w made =
        let w₁ =
          (c.use_ (or_default (bytes "test") namespace) (or_default (bytes "test") database) w).1 in
        elim (Result-cases
          (c.use_ (or_default (bytes "test") namespace) (or_default (bytes "test") database) w).0) [
            | inr (e, failed) ↦ absurd (ground arith)
            | inl (u, used) ↦ elim (Result-cases (c.use_ (bytes "cache") (bytes "nyro") w₁).0) [
              | inr (e, failed) ↦ absurd (ground arith)
              | inl (u', again) ↦
                  rw
                    (
                      used,
                      new,
                      again,
                      new_surreal_db,
                      cart_uses (or_default (bytes "cache") table) w₁,
                    )
                    (uses (bytes "cache") (bytes "nyro") w₁ again)
            ]
          ]
