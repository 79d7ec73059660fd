-- ===== src/Carts/Memcached/Ownership.antt =====
-- The lock of `MemcachedCart`, over a server that behaves as documented.
use nyro.Base.{
  ℕ, ◌*◌, ◌≤◌, List, false, if◌then◌else◌, ◌≡◌, ◌≢◌, ◌∙◌, ap, inl, inr, true, Option, none, some,
  arith, ◌==◌, eq_iff, eq_self, Bool-cases,
}
use nyro.Base.Duration.{ℤ, pos, negsuc, Duration, to_seconds}
use nyro.Base.Text.{Text, bytes, text_eq}
use nyro.Base.Dict.{Dict, lookup, Keys, Distinct, asked}
use nyro.Errors.{Error, as_not_found, ok, err, Result-cases}
use nyro.Carts.Json.{Json}
use nyro.Carts.Guard.Release.{Owned}
use nyro.Carts.Redis.{lock_key}
use nyro.Carts.Redis.Server.{Contents, write, remove, Maybe, holder_of, lock_key-ne}
use nyro.Carts.Memcached.{
  Client, get, set, acquire_lock, acquired, release_lock, extend_lock, unless_miss,
  memcached_backend,
}

-- The longest expiration, in seconds, that Memcached counts from the write: thirty days.
abbrev pub longest_relative : ℕ
longest_relative = 30 * 24 * 3600

-- The expirations that Memcached counts: 0, with which an item does not expire, and the seconds up to
-- thirty days. An item with a negative number has expired already, and one above is a Unix time.
abbrev pub Lasting : ℤ → Type 0
Lasting (pos n) = n ≤ longest_relative
Lasting (negsuc n) = ⊥

-- The duration is sent as one that Memcached counts.
abbrev pub Counts : {W : Type 0} → Client W → Duration → Type 0
Counts c d = Lasting (c.int32 (to_seconds d))

-- The documented behaviour of the commands, while no item's time runs out. No error of the client is
-- one of package carts.
pub record Serves {W : Type 0} (c : Client W) (view : W → Contents) : Type 0 where
  pub get_keeps : (k : Text) (w : W) → view (c.get k w).1 ≡ view w
  pub get_found : (k : Text) (w : W) (s : Text) → (c.get k w).0 ≡ ok s → view w k ≡ some s
  pub get_missed :
      (k : Text) (w : W) (e : Error)
      → (c.get k w).0 ≡ err e
      → c.is_cache_miss e ≡ true
      → view w k ≡ none
  pub set_any :
      (k s : Text) (n : ℤ) (w : W)
      → Lasting n
      → Maybe (view w) (write k s (view w)) (view (c.set k s n w).1)
  pub set_other :
      (k s : Text) (n : ℤ) (w : W) (j : Text)
      → (k == j) ≡ false
      → view (c.set k s n w).1 j ≡ view w j
  pub add_done :
      (k s : Text) (n : ℤ) (w : W)
      → Lasting n
      → (c.add k s n w).0 ≡ ok tt
      → (view w k ≡ none) × (view (c.add k s n w).1 ≡ write k s (view w))
  pub add_held :
      (k s : Text) (n : ℤ) (w : W) (u : Text) → view w k ≡ some u → view (c.add k s n w).1 ≡ view w
  pub delete_done :
      (k : Text) (w : W) → (c.delete k w).0 ≡ ok tt → view (c.delete k w).1 ≡ remove k (view w)
  pub delete_missed :
      (k : Text) (w : W) (e : Error)
      → (c.delete k w).0 ≡ err e
      → c.is_cache_miss e ≡ true
      → view (c.delete k w).1 k ≡ none
  pub delete_any : (k : Text) (w : W) → Maybe (view w) (remove k (view w)) (view (c.delete k w).1)
  pub set_done :
      (k s : Text) (n : ℤ) (w : W)
      → Lasting n
      → (c.set k s n w).0 ≡ ok tt
      → view (c.set k s n w).1 ≡ write k s (view w)
  pub get_failed :
      (k : Text) (w : W) (e : Error)
      → (c.get k w).0 ≡ err e
      → c.is_cache_miss e ≡ false
      → as_not_found e ≡ false
  pub get_multi_keeps : (keys : List Text) (w : W) → view (c.get_multi keys w).1 ≡ view w
  pub get_multi_reads :
      (keys : List Text) (w : W) (items : Dict Text Text)
      → (c.get_multi keys w).0 ≡ ok items
      → Keys (λ k. asked k keys ≡ true) items
        × Distinct items
        × ((j : Text) → lookup j items ≡ (if asked j keys then view w j else none))
  pub flush_all_done : (w : W) → (c.flush_all w).0 ≡ ok tt → view (c.flush_all w).1 ≡ λ k. none

module _ {W : Type 0} (c : Client W) (view : W → Contents) (serves : Serves c view) where
  acquire_takes :
      (k : Text) (d : Duration) (v v' : Text) (w : W)
      → Counts c d
      → (acquire_lock c k d v w).0 ≡ ok (v', true)
      → (holder_of view w k ≡ none) × (holder_of view (acquire_lock c k d v w).1 k ≡ some v')
  unfolding acquire_lock acquired
  acquire_takes k d v v' w l h =
      elim (Result-cases (c.add (lock_key k) v (c.int32 (to_seconds d)) w).0) [
        | inr (e, failed) ↦ absurd (ground arith)
        | inl (u, stored) ↦
            let same : v ≡ v' = ground arith in
            let (free, written) =
              serves.add_done (lock_key k) v (c.int32 (to_seconds d)) w l stored in
            (free, rw written (rw (eq_self (lock_key k)) (ap some same)))
      ]

  acquire_keeps :
      (k : Text) (d : Duration) (v u : Text) (w : W)
      → holder_of view w k ≡ some u
      → holder_of view (acquire_lock c k d v w).1 k ≡ some u
  unfolding acquire_lock
  acquire_keeps k d v u w held =
      rw (serves.add_held (lock_key k) v (c.int32 (to_seconds d)) w u held) held

  -- The deletion that ends a release leaves no lock, whoever held it, unless it fails.
  delete_frees :
      (k : Text) (w : W)
      → unless_miss c (bytes "failed to release lock") (c.delete (lock_key k) w).0 ≡ ok tt
      → holder_of view (c.delete (lock_key k) w).1 k ≡ none
  unfolding unless_miss
  delete_frees k w h = elim (Result-cases (c.delete (lock_key k) w).0) [
    | inl (u, done_) ↦ rw (serves.delete_done (lock_key k) w done_) (rw (eq_self (lock_key k)))
    | inr (e, failed) ↦ elim (Bool-cases (c.is_cache_miss e)) [
      | inl missed ↦ serves.delete_missed (lock_key k) w e failed missed
      | inr other ↦ absurd (ground arith)
    ]
  ]

  -- `ReleaseLock` checks the owner and deletes in two commands: where the lock passes to another
  -- owner between them, as it does when it expires, a release that succeeds frees the lock of that
  -- owner.
  pub release_lock-frees_other :
      (between : W → W) (k v other : Text) (w : W)
      → (c.get (lock_key k) w).0 ≡ ok v
      → holder_of view (between (c.get (lock_key k) w).1) k ≡ some other
      → (release_lock c between k v w).0 ≡ ok tt
      → holder_of view (release_lock c between k v w).1 k ≡ none
  unfolding release_lock
  release_lock-frees_other between k v other w mine taken h =
      rw (mine, release_lock, eq_self v)
        (delete_frees k (between (c.get (lock_key k) w).1)
          (rw (mine, release_lock, eq_self v) at h))

  release_frees :
      (k v : Text) (w : W)
      → (release_lock c (λ w. w) k v w).0 ≡ ok tt
      → holder_of view w k ≡ some v
      → holder_of view (release_lock c (λ w. w) k v w).1 k ≡ none
  unfolding release_lock
  release_frees k v w h held = elim (Result-cases (c.get (lock_key k) w).0) [
    | inr (e, failed) ↦ elim (Bool-cases (c.is_cache_miss e)) [
      | inl missed ↦ absurd (ground (arith, serves.get_missed (lock_key k) w e failed missed))
      | inr other ↦ absurd (ground arith)
    ]
    | inl (s, read) ↦
        let same : s ≡ v = ground (arith, serves.get_found (lock_key k) w s read) in
        rw (read, release_lock, same, eq_self v)
          (delete_frees k (c.get (lock_key k) w).1 (rw (read, release_lock, same, eq_self v) at h))
  ]

  release_checks :
      (k v : Text) (w : W)
      → holder_of view w k ≢ some v
      → holder_of view (release_lock c (λ w. w) k v w).1 k ≡ holder_of view w k
  unfolding release_lock
  release_checks k v w h = elim (Result-cases (c.get (lock_key k) w).0) [
    | inr (e, failed) ↦ rw (failed, release_lock) (rw (serves.get_keeps (lock_key k) w))
    | inl (s, read) ↦ elim (Bool-cases (s == v)) [
      | inl same ↦
          absurd (h (serves.get_found (lock_key k) w s read ∙ ap some ((eq_iff s v).0 same)))
      | inr other ↦ rw (read, release_lock, other) (rw (serves.get_keeps (lock_key k) w))
    ]
  ]

  extend_keeps :
      (k v : Text) (d : Duration) (w : W)
      → Counts c d
      → holder_of view (extend_lock c (λ w. w) k v d w).1 k ≡ holder_of view w k
  unfolding extend_lock
  extend_keeps k v d w l = elim (Result-cases (c.get (lock_key k) w).0) [
    | inr (e, failed) ↦ rw (failed, extend_lock) (rw (serves.get_keeps (lock_key k) w))
    | inl (s, read) ↦ elim (Bool-cases (s == v)) [
      | inr other ↦ rw (read, extend_lock, other) (rw (serves.get_keeps (lock_key k) w))
      | inl same ↦
          let held = serves.get_found (lock_key k) w s read in
          let w₁ = (c.get (lock_key k) w).1 in
          rw (read, extend_lock, same)
            (elim (serves.set_any (lock_key k) s (c.int32 (to_seconds d)) w₁ l) [
              | inl kept ↦ rw (kept, serves.get_keeps (lock_key k) w)
              | inr wrote ↦ rw (wrote, held) (rw (eq_self (lock_key k)))
            ])
    ]
  ]

module _ {W V : Type 0} (c : Client W) (json : Json V) (view : W → Contents)
    (serves : Serves c view) where
  set_keeps_lock :
      (k : Text) (v : Option V) (d : Duration) (w : W)
      → holder_of view (set c json k v d w).1 k ≡ holder_of view w k
  unfolding set
  set_keeps_lock k v d w = elim (Result-cases (json.marshal v)) [
    | inr (e, bad) ↦ rw (bad, set)
    | inl (s, encoded) ↦
        rw (encoded, set)
          (serves.set_other k s (c.int32 (to_seconds d)) w (lock_key k)
            (ground (arith, eq_iff k (lock_key k), lock_key-ne k)))
  ]

  -- Over a Memcached server, and while no other process acts between the commands of one release or
  -- extension, the lock of `MemcachedCart` keeps the promises of the guarded load for TTLs that
  -- Memcached counts, at most thirty days: it is taken only when free, freed only for its holder, and
  -- untouched by reads and writes of the key and by its extensions.
  pub MemcachedCart-Owned : Owned (memcached_backend c json) (holder_of view) (Counts c)
  unfolding get
  MemcachedCart-Owned = record {
    get_keeps = λ k w. rw (serves.get_keeps k w);
    set_keeps = set_keeps_lock;
    extend_keeps = extend_keeps c view serves;
    acquire_takes = acquire_takes c view serves;
    acquire_keeps = acquire_keeps c view serves;
    release_frees = release_frees c view serves;
    release_checks = release_checks c view serves;
  }
