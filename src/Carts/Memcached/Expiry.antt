-- ===== src/Carts/Memcached/Expiry.antt =====
-- The expiration that `MemcachedCart` sends, in whole seconds.
use nyro.Base.{
  Bool-cases, ◌<◌, none, some, ◌^◌, ◌/◌, ◌≤◌, ℕ, ◌≡◌, Option, arith, ap, refl, inl, inr,
}
use nyro.Base.Duration.{pos, to_seconds, second}
use nyro.Base.Text.{Text, bytes}
use nyro.Carts.Redis.Server.{Contents}
use nyro.Errors.{not_found_with_cause, wrap, Error, ok, err, mapping, Result-cases}
use nyro.Carts.Json.{Json}
use nyro.Carts.Memcached.Ownership.{longest_relative}
use nyro.Carts.Memcached.{Client, get, got, set, done_or}

-- A `Set` with an expiration of less than a second is the `Set` with expiration 0, which
-- Memcached takes to mean that the item never expires.
pub set_below_second-never_expires :
    {W V : Type 0} (c : Client W) (json : Json V) (key : Text) (v : Option V) (n : ℕ) (w : W)
    → n < second
    → set c json key v (pos n) w ≡ set c json key v (pos 0) w
unfolding set
set_below_second-never_expires c json key v n w small = elim (Result-cases (json.marshal v)) [
  | inr (e, bad) ↦ rw (bad, set) refl
  | inl (s, encoded) ↦
      let none_left : to_seconds (pos n) ≡ to_seconds (pos 0) = ground arith in
      rw (encoded, set)
        (ap (λ t. mapping (done_or (bytes "memcached: set failed")) (c.set key s (c.int32 t) w))
          none_left)
]

-- The documented treatment of expirations: a number of seconds above thirty days is a Unix time,
-- and an item whose time is not later than the server's clock is not there. `view` is what has not
-- expired.
pub record Expires {W : Type 0} (c : Client W) (view : W → Contents) (clock : W → ℕ) : Type 0 where
  pub int32_small : (n : ℕ) → n < 2 ^ 31 → c.int32 (pos n) ≡ pos n
  pub set_past :
      (k s : Text) (n : ℕ) (w : W)
      → longest_relative < n
      → n ≤ clock w
      → (c.set k s (pos n) w).0 ≡ ok tt
      → view (c.set k s (pos n) w).1 k ≡ none
  pub get_found : (k : Text) (w : W) (s : Text) → (c.get k w).0 ≡ ok s → view w k ≡ some s

module _ {W V : Type 0} (c : Client W) (json : Json V) (view : W → Contents) (clock : W → ℕ)
    (expires : Expires c view clock) where
  get_fails :
      (key : Text) (w : W) → view w key ≡ none → (e : Error) × ((get c json key w).0 ≡ err e)
  unfolding get got not_found_with_cause
  get_fails key w gone = elim (Result-cases (c.get key w).0) [
    | inl (s, read) ↦ absurd (ground (arith, expires.get_found key w s read))
    | inr (e, failed) ↦ elim (Bool-cases (c.is_cache_miss e)) [
      | inl missed ↦ (not_found_with_cause e, rw (failed, got, missed) refl)
      | inr other ↦ (wrap (bytes "memcached: get failed") e, rw (failed, got, other) refl)
    ]
  ]

  -- The seconds of an expiration above thirty days are sent as they are, and Memcached takes them for
  -- a Unix time. Where that is past, as it is for every expiration below fifty years, a `Set` that
  -- succeeds stores nothing: the `Get` that follows fails.
  pub set_above_month-lost :
      (key : Text) (v : Option V) (n : ℕ) (w : W)
      → longest_relative < n / second
      → n / second < 2 ^ 31
      → n / second ≤ clock w
      → (set c json key v (pos n) w).0 ≡ ok tt
      → let w' = (set c json key v (pos n) w).1 in
        (view w' key ≡ none) × ((e : Error) × ((get c json key w').0 ≡ err e))
  unfolding set done_or
  set_above_month-lost key v n w long small past done = elim (Result-cases (json.marshal v)) [
    | inr (e, bad) ↦ let refused = rw (bad, set) at done in absurd (cc)
    | inl (s, encoded) ↦
        let sent = expires.int32_small (n / second) small in
        let stored = rw (encoded, set, sent) at done in
        let gone = expires.set_past key s (n / second) w long past (ground arith) in
        rw (encoded, set, sent) (gone, get_fails key _ gone)
  ]
