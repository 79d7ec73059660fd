-- ===== src/Carts/Valkey/Laws.antt =====
-- What `ValkeyStore` does over a server and a client that behave as documented.
use nyro.Base.{
  ℕ, ◌<◌, ◌≡◌, refl, ap, ◌⊎◌, inl, inr, true, false, List, [], ◌∷◌, ◌++◌, Option, none, some, arith,
  Option-cases,
}
use nyro.Base.Duration.{ℤ, pos, Duration, is_positive, to_seconds, second}
use nyro.Base.Text.{Text, bytes}
use nyro.Base.Dict.{Dict}
use nyro.Errors.{Error, wrap, as_not_found, ok, err, Result-cases}
use nyro.Carts.Json.{Json}
use nyro.Carts.Redis.{lock_key}
use nyro.Carts.Redis.Server.{Contents, write, write_all, Maybe}
use nyro.Carts.Redis.Contents.{Spells}
use nyro.Carts.Guard.{LockConfig, Retry, Action, Beat, effective_lock_ttl}
use nyro.Carts.Valkey.{
  Client, get_command, set_command, set_nx_command, get, set, acquire_lock, unless_error, finished,
  set_multi,
}
use nyro.Carts.Valkey.Load.{get_or_set_locked, get_or_set_with_lock}

-- The documented behaviour of the commands, while no key expires: a write is done when there is no
-- error; `SET NX` on a key that exists replies nil, which valkey-go returns as an error; and an
-- expiration that is not positive is refused.
pub record Serves {W R : Type 0} (c : Client W R) (view : W → Contents) : Type 0 where
  pub get_keeps : (k : Text) (w : W) → view (c.do_ (get_command k) w).1 ≡ view w
  pub set_done :
      (k s : Text) (n : ℤ) (w : W)
      → c.error (c.do_ (set_command k s n) w).0 ≡ none
      → view (c.do_ (set_command k s n) w).1 ≡ write k s (view w)
  pub set_any :
      (k s : Text) (n : ℤ) (w : W)
      → Maybe (view w) (write k s (view w)) (view (c.do_ (set_command k s n) w).1)
  pub set_refused :
      (k s : Text) (n : ℤ) (w : W)
      → is_positive n ≡ false
      → (e : Error) × (c.error (c.do_ (set_command k s n) w).0 ≡ some e)
  pub set_nx_held :
      (k s : Text) (n : ℤ) (w : W) (u : Text)
      → view w k ≡ some u
      → (e : Error) × (c.error (c.do_ (set_nx_command k s n) w).0 ≡ some e)

module _ {W R V : Type 0} (c : Client W R) (json : Json V) (view : W → Contents)
    (serves : Serves c view) where
  acquire_fails :
      (key value other : Text) (ttl : Duration) (w : W)
      → view w (lock_key key) ≡ some other
      → (e : Error) × ((acquire_lock c key ttl value w).0
          ≡ err (wrap (bytes "failed to acquire lock") e))
  unfolding acquire_lock unless_error
  acquire_fails key value other ttl w held =
      let (e, refused) = serves.set_nx_held (lock_key key) value (to_seconds ttl) w other held in
      (e, rw (refused, unless_error))

  -- While another holds the lock of a key, a `GetOrSetWithLock` that misses fails with the error of the
  -- acquisition, whatever the loader and the waiting policy are: it does not wait for the holder.
  pub get_or_set_with_lock-held :
      (cfg : LockConfig) (retry : Retry W V) (value key other : Text) (loader : Action W V)
      (expiration lock_ttl : Duration) (before after : List Beat) (w : W) {missed : Error}
      → (get c json key w).0 ≡ err missed
      → as_not_found missed ≡ true
      → view w (lock_key key) ≡ some other
      → (e : Error) × ((get_or_set_with_lock c json cfg retry value key loader expiration lock_ttl
            before after w).0
          ≡ err (wrap (bytes "lock acquisition failed") (wrap (bytes "failed to acquire lock") e)))
  unfolding get_or_set_with_lock get_or_set_locked get
  get_or_set_with_lock-held cfg retry value key other loader expiration lock_ttl before after w miss
        absent_ held =
      let w₁ = (get c json key w).1 in
      let kept : view w₁ (lock_key key) ≡ some other = rw (serves.get_keeps key w) held in
      let (e, failed) = acquire_fails key value other (effective_lock_ttl cfg lock_ttl) w₁ kept in
      (e, rw (miss, get_or_set_with_lock, absent_, failed, get_or_set_locked))

  -- A `Set` of a value that encodes, with an expiration of less than a second, fails: the seconds that
  -- it sends are 0.
  pub set_below_second :
      (key s : Text) (v : Option V) (n : ℕ) (w : W)
      → n < second
      → json.marshal v ≡ ok s
      → (e : Error) × ((set c json key v (pos n) w).0 ≡ err (wrap (bytes "valkey set failed") e))
  unfolding set unless_error
  set_below_second key s v n w small encoded =
      let (e, refused) = serves.set_refused key s (to_seconds (pos n)) w (ground arith) in
      (e, rw (encoded, set, refused, unless_error))

  pub set_effect :
      (key : Text) (v : Option V) (d : Duration) (w : W)
      → ((view (set c json key v d w).1 ≡ view w)
          × ((e : Error) × ((set c json key v d w).0 ≡ err e)))
        ⊎ ((s : Text) × (json.marshal v ≡ ok s)
            × (view (set c json key v d w).1 ≡ write key s (view w)))
  unfolding set unless_error finished
  set_effect key v d w = elim (Result-cases (json.marshal v)) [
    | inr (e, bad) ↦ inl (rw (bad, set) (refl, (_, refl)))
    | inl (s, encoded) ↦
        elim (Option-cases (c.error (c.do_ (set_command key s (to_seconds d)) w).0)) [
          | inl fine ↦
              inr (s, encoded, rw (encoded, set) (serves.set_done key s (to_seconds d) w fine))
          | inr (e, failed) ↦ elim (serves.set_any key s (to_seconds d) w) [
            | inl same ↦ inl (rw (encoded, set, failed, unless_error) (same, (_, refl)))
            | inr wrote ↦ inr (s, encoded, rw (encoded, set) wrote)
          ]
        ]
  ]

  -- `SetMulti` writes the items in the order of the iteration up to some item, all of them if it
  -- succeeds: where one fails, the items before it stay written.
  pub set_multi_prefix :
      (items : Dict Text (Option V)) (d : Duration) (w : W)
      → (written rest : Dict Text (Option V)) × (args : List (Text × Text)) × (items
          ≡ written ++ rest)
        × Spells json written args
        × (view (set_multi c json items d w).1 ≡ write_all args (view w))
        × ((set_multi c json items d w).0 ≡ ok tt → rest ≡ [])
  unfolding set_multi
  set_multi_prefix [] d w = ([], [], [], refl, tt, refl, λ h. refl)
  set_multi_prefix ((key, v) ∷ items) d w =
      let w' = (set c json key v d w).1 in
      elim (Result-cases (set c json key v d w).0) [
        | inr (e, failed) ↦ elim (set_effect key v d w) [
          | inl (same, _) ↦ (
            [],
            (key, v) ∷ items,
            [],
            refl,
            tt,
            rw (failed, set_multi) same,
            rw (failed, set_multi) (λ h. absurd (ground arith)),
          )
          | inr (s, encoded, wrote) ↦ (
            (key, v) ∷ [],
            items,
            (key, s) ∷ [],
            refl,
            (refl, encoded, tt),
            rw (failed, set_multi) wrote,
            rw (failed, set_multi) (λ h. absurd (ground arith)),
          )
        ]
        | inl (u, done_) ↦ elim (set_effect key v d w) [
          | inl (same, (e, failed)) ↦ absurd (ground arith)
          | inr (s, encoded, wrote) ↦
              let (written, rest, args, split, spells, effect, whole) =
                set_multi_prefix items d w' in
              (
                (key, v) ∷ written,
                rest,
                (key, s) ∷ args,
                ap (λ l. (key, v) ∷ l) split,
                (refl, encoded, spells),
                rw (done_, set_multi, effect, wrote) refl,
                rw (done_, set_multi) whole,
              )
        ]
      ]
