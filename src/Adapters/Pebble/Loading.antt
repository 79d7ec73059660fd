-- ===== src/Adapters/Pebble/Loading.antt =====
-- `GetOrSet` of the Pebble adapter, over a database that behaves as documented.
use nyro.Base.{◌≡◌, refl, ◌⊎◌, true, List, Option, inl, inr}
use nyro.Base.Duration.{Time}
use nyro.Base.Text.{Text, bytes}
use nyro.Errors.{Error, wrap, as_not_found, ok, err, Result-cases}
use nyro.Keys.{Key, to_string}
use nyro.Options.{Option as CacheOption}
use nyro.Carts.Guard.{Action}
use nyro.Carts.Redis.Server.{Contents}
use nyro.Carts.Pebble.{Db, EntryJson, entry_of}
use nyro.Carts.Pebble.Server.{Stores, Pending}
use nyro.Carts.Pebble.Laws.{get-set_pebble, answer_of}
use nyro.Adapters.Pebble.{Adapter, get, set, store, get_or_set, ttl_for}

module _ {W B V : Type 0} (db : Db W B) (json : EntryJson V) (a : Adapter) (view : W → Contents)
    (pending : B → Pending) (stores : Stores db view pending) where
  -- A `GetOrSet` that misses and whose loader returns a value that encodes, and decodes to itself,
  -- either returns it with the entry stored, so that a later `Get` answers by the entry's expiry and
  -- the clock or fails with the database, or returns the error of the write, without the value.
  pub get-get_or_set :
      (t now later : Time) (key : Key) (s : Text) (v : Option V) (options : List CacheOption)
      (loader : Action W V) (w : W) {missed : Error}
      → (get db json a t key w).0 ≡ err missed
      → as_not_found missed ≡ true
      → (loader (get db json a t key w).1).0 ≡ ok v
      → json.marshal (entry_of now v (ttl_for a options)) ≡ ok s
      → json.unmarshal s ≡ ok (entry_of now v (ttl_for a options))
      → let (r, w') = get_or_set db json a t now key loader options w in
        ((r ≡ ok v)
          × (((get db json a later key w').0 ≡ answer_of later (entry_of now v (ttl_for a options)))
              ⊎ ((e : Error) × ((get db json a later key w').0
                    ≡ err (wrap (bytes "pebble: get failed") e)))))
        ⊎ ((e : Error) × (r ≡ err e)
            × ((set db json a now key v options (loader (get db json a t key w).1).1).0 ≡ err e))
  unfolding get_or_set store get set
  get-get_or_set t now later key s v options loader w miss absent_ loaded encoded decoded =
      let w₂ = (loader (get db json a t key w).1).1 in
      elim (Result-cases (set db json a now key v options w₂).0) [
        | inr (e, failed) ↦
            rw (miss, get_or_set, absent_, store, loaded, failed) (inr (e, refl, refl))
        | inl (u, written) ↦
            rw (miss, get_or_set, absent_, store, loaded, written)
              (inl (
                refl,
                (get-set_pebble db json view pending stores now later (to_string key) s v
                    (ttl_for a options) w₂ encoded decoded written).1,
              ))
      ]
