-- ===== src/Carts/Surreal/Stuck.antt =====
-- What follows from carts/surrealdb/surrealdb.go keeping its locks as records that nothing expires.
use nyro.Base.{
  arith, ◌≡◌, refl, Bool-cases, true, false, List, [], inl, inr, if◌then◌else◌, Option, some,
}
use nyro.Base.Duration.{Duration, add_time, after}
use nyro.Base.Text.{Text}
use nyro.Errors.{Error, Result, ok, err, as_not_found, not_found_with_cause}
use nyro.Carts.Guard
use nyro.Carts.Guard.{Retry, Action, Beat, LockConfig, effective_lock_ttl}
use nyro.Carts.Surreal.{
  Client, RecordId, CacheEntry, LockEntry, lock_id, record_id, acquire_lock, acquired, release_lock,
  get, got, set, exists, found, done_or, key_expired,
}
use nyro.Carts.Surreal.Load.{SurrealDbCartConfig, get_or_set_locked, wait_for_cache}

-- What SurrealDB does: `entry_at` and `lock_at` are the records of a world. `Create` fails on an id
-- that has a record, whatever the record holds, `Select` reads and `Upsert` writes a record.
pub record Keeps {W V : Type 0} (c : Client W V) (entry_at : W → RecordId → Option (CacheEntry V))
    (lock_at : W → RecordId → Option LockEntry) : Type 0 where
  pub create_refused :
      (id : RecordId) (l l' : LockEntry) (w : W)
      → lock_at w id ≡ some l
      → (e : Error) × ((c.create_lock id l' w).0 ≡ err e)
  pub create_keeps :
      (id : RecordId) (l l' : LockEntry) (w : W)
      → lock_at w id ≡ some l
      → lock_at (c.create_lock id l' w).1 id ≡ some l
  pub select_lock_keeps : (id : RecordId) (w : W) → lock_at (c.select_lock id w).1 id ≡ lock_at w id
  pub upsert_writes :
      (id : RecordId) (x : CacheEntry V) (w : W)
      → (c.upsert_entry id x w).0 ≡ ok tt
      → entry_at (c.upsert_entry id x w).1 id ≡ some x
  pub select_reads :
      (id : RecordId) (x : CacheEntry V) (w : W)
      → entry_at w id ≡ some x
      → c.select_entry id w ≡ (ok x, w)

ok_of_done_or : (m : Text) (r : Result (Unit {0})) → done_or m r ≡ ok tt → r ≡ ok tt
unfolding done_or
ok_of_done_or m (ok u) h = h
ok_of_done_or m (err e) h = absurd (ground arith)

module _ {W V : Type 0} (c : Client W V) (entry_at : W → RecordId → Option (CacheEntry V))
    (lock_at : W → RecordId → Option LockEntry) (keeps : Keeps c entry_at lock_at) where
  open keeps use {create_refused, create_keeps, select_lock_keeps, upsert_writes, select_reads}

  -- While a lock has a record, `AcquireLock` reports it busy and leaves the record, whatever its
  -- expiration.
  acquire_lock-busy :
      (key : Text) (ttl : Duration) (value : Text) (l : LockEntry) (w : W)
      → lock_at w (lock_id key) ≡ some l
      → ((acquire_lock c key ttl value w).0 ≡ ok ([], false))
        × (lock_at (acquire_lock c key ttl value w).1 (lock_id key) ≡ some l)
  unfolding acquire_lock acquired
  acquire_lock-busy key ttl value l w held =
      let l' : LockEntry = record {
        key = (lock_id key).id;
        value = value;
        expiration = add_time (c.now w) ttl;
      } in
      let (e, failed) = create_refused (lock_id key) l l' w held in
      (rw (failed, acquired) refl, create_keeps (lock_id key) l l' w held)

  -- A lock whose holder died is never taken over: although its expiration is past, the guarded load
  -- does not call its loader but waits for a value that nobody is computing, and the lock remains.
  pub expired_lock-never_taken :
      (cfg : SurrealDbCartConfig) (retry : Retry W V) (value key : Text) (loader : Action W V)
      (expiration lock_ttl : Duration) (before after_ : List Beat) (l : LockEntry) (w : W)
      → lock_at w (lock_id key) ≡ some l
      → after (c.now w) l.expiration ≡ true
      → (w₁ : W) × (get_or_set_locked c cfg retry value key loader expiration lock_ttl before after_
            w
          ≡ wait_for_cache c cfg retry key w₁)
        × (lock_at w₁ (lock_id key) ≡ some l)
  unfolding get_or_set_locked wait_for_cache Guard.get_or_set_locked
  expired_lock-never_taken cfg retry value key loader expiration lock_ttl before after_ l w held
        past =
      let ttl = effective_lock_ttl cfg.lock lock_ttl in
      let busy = acquire_lock-busy key ttl value l w held in
      ((acquire_lock c key ttl value w).1, rw (busy.0, Guard.get_or_set_locked) refl, busy.1)

  -- When the look-up of `ReleaseLock` fails, the call reports success although the lock stays, and
  -- from then on every `AcquireLock` of the key is refused.
  pub release_lock-strands :
      (key value : Text) (e : Error) (l : LockEntry) (ttl : Duration) (value' : Text) (w : W)
      → (c.select_lock (lock_id key) w).0 ≡ err e
      → lock_at w (lock_id key) ≡ some l
      → ((release_lock c key value w).0 ≡ ok tt)
        × ((acquire_lock c key ttl value' (release_lock c key value w).1).0 ≡ ok ([], false))
  unfolding release_lock
  release_lock-strands key value e l ttl value' w failed held =
      let w₁ = (c.select_lock (lock_id key) w).1 in
      let stays : lock_at w₁ (lock_id key) ≡ some l = rw (select_lock_keeps (lock_id key) w) held in
      (
        rw (failed, release_lock) refl,
        rw (failed, release_lock) (acquire_lock-busy key ttl value' l w₁ stays).0,
      )

  -- What is stored is read back while the clock has not passed its expiration, and then not any more.
  pub get-set_surreal :
      (table key : Text) (v : Option V) (d : Duration) (w : W)
      → (set c table key v d w).0 ≡ ok tt
      → (get c table key (set c table key v d w).1).0 ≡ (
          if after (c.now (set c table key v d w).1) (add_time (c.now w) d)
          then err (not_found_with_cause key_expired)
          else ok v)
  unfolding get got set
  get-set_surreal table key v d w stored =
      let x : CacheEntry V = record { key = key; value = v; expiration = add_time (c.now w) d } in
      let id = record_id table key in
      let w₁ = (c.upsert_entry id x w).1 in
      let reads : c.select_entry id w₁ ≡ (ok x, w₁) =
        select_reads id x w₁
          (upsert_writes id x w (ok_of_done_or _ (c.upsert_entry id x w).0 stored)) in
      elim (Bool-cases (after (c.now w₁) x.expiration)) [
        | inl late ↦ rw (reads, get, late, got) refl
        | inr live ↦ rw (reads, get, live, got) refl
      ]

module _ {W V : Type 0} (c : Client W V) (table key : Text) (w : W) where
  -- A client that fails is taken for one that has no record: whatever the error, `Get` reports the
  -- key as not found, and `Exists` that it does not exist, without an error.
  pub select_fails-not_found :
      {e : Error}
      → (c.select_entry (record_id table key) w).0 ≡ err e
      → ((get c table key w).0 ≡ err (not_found_with_cause e))
        × ((exists c table key w).0 ≡ ok false)
  unfolding get got exists found as_not_found not_found_with_cause
  select_fails-not_found failed = (rw (failed, got) refl, rw (failed, got) refl)
