-- ===== src/Carts/Redis/Server.antt =====
-- What the carts rely on of the Redis server and its client, and that it makes `RedisCart` a lock.
use nyro.Base.{
  ℕ, ◌↔◌, ◌≡◌, ◌≢◌, refl, ap, ◌⊎◌, inl, inr, Bool, true, false, List, [], ◌∷◌, map, Option, none,
  some, if◌then◌else◌, arith, ◌==◌, eq_iff, eq_self, Bool-cases, length, length-append,
}
use nyro.Base.Duration.{ℤ, pos, Duration, to_seconds, is_positive, int_eq}
use nyro.Base.Text.{Text, text_eq}
use nyro.Errors.{Error, as_not_found, ok, Result-cases}
use nyro.Carts.Json.{Json}
use nyro.Carts.Guard.Release.{Owned}
use nyro.Carts.Redis.{
  Client, value, nil, failure, Slot, absent, present, release_lock_script, extend_lock_script, text,
  number, lock_key, lock_key_suffix, get, set, done_or,
}
use nyro.Carts.Redis.Locks.{redis_backend, acquire_lock, acquired, release_lock, extend_lock}

-- The string values of the server, by key.
abbrev pub Contents : Type 0
Contents = Text → Option Text

abbrev pub write : Text → Text → Contents → Contents
write k s m j = if k == j then some s else m j

-- `MSET` writes its pairs in one step.
abbrev pub write_all : List (Text × Text) → Contents → Contents
write_all [] m = m
write_all ((k, s) ∷ args) m = write_all args (write k s m)

abbrev pub remove : Text → Contents → Contents
remove k m j = if k == j then none else m j

abbrev pub remove_all : List Text → Contents → Contents
remove_all [] m = m
remove_all (k ∷ keys) m = remove_all keys (remove k m)

-- `redis.call("get", KEYS[1]) == ARGV[1]`
abbrev pub holds : Option Text → Text → Bool
holds none v = false
holds (some u) v = u == v

-- The script that releases a lock, as the server runs it: in one step.
unfoldable pub run_release_lock_script : Text → Text → Contents → Contents
run_release_lock_script k v m = if holds (m k) v then remove k m else m

abbrev pub slot_of : Option Text → Slot
slot_of none = absent
slot_of (some s) = present s

-- A command that fails may have taken effect or not.
abbrev pub Maybe : {A : Type 0} → A → A → A → Type 0
Maybe old new m = (m ≡ old) ⊎ (m ≡ new)

-- The documented behaviour of the commands on string values, while no key's time runs out. `EXPIRE`
-- with a number of seconds that is not positive deletes the key, and the client rounds a positive
-- duration up to a second. No error of the client is one of package carts.
pub record Serves {W : Type 0} (c : Client W) (view : W → Contents) : Type 0 where
  pub get_keeps : (k : Text) (w : W) → view (c.get k w).1 ≡ view w
  pub get_value : (k : Text) (w : W) (s : Text) → (c.get k w).0 ≡ value s → view w k ≡ some s
  pub get_nil : (k : Text) (w : W) (e : Error) → (c.get k w).0 ≡ nil e → view w k ≡ none
  pub set_done :
      (k s : Text) (d : Duration) (w : W)
      → (c.set k s d w).0 ≡ ok tt
      → view (c.set k s d w).1 ≡ write k s (view w)
  pub set_any :
      (k s : Text) (d : Duration) (w : W)
      → Maybe (view w) (write k s (view w)) (view (c.set k s d w).1)
  pub set_nx_done :
      (k s : Text) (d : Duration) (w : W)
      → (c.set_nx k s d w).0 ≡ ok true
      → (view w k ≡ none) × (view (c.set_nx k s d w).1 ≡ write k s (view w))
  pub set_nx_held :
      (k s : Text) (d : Duration) (w : W) (u : Text)
      → view w k ≡ some u
      → view (c.set_nx k s d w).1 ≡ view w
  pub release_done :
      (k v : Text) (w : W) (r : Option ℤ)
      → (c.eval release_lock_script (k ∷ []) (text v ∷ []) w).0 ≡ ok r
      → view (c.eval release_lock_script (k ∷ []) (text v ∷ []) w).1
        ≡ run_release_lock_script k v (view w)
  pub release_any :
      (k v : Text) (w : W)
      → Maybe
          (view w)
          (run_release_lock_script k v (view w))
          (view (c.eval release_lock_script (k ∷ []) (text v ∷ []) w).1)
  pub extend_keeps :
      (k v : Text) (n : ℤ) (w : W)
      → is_positive n ≡ true
      → view (c.eval extend_lock_script (k ∷ []) (text v ∷ number n ∷ []) w).1 ≡ view w
  pub extend_expires :
      (k v : Text) (n : ℤ) (w : W)
      → is_positive n ≡ false
      → (c.eval extend_lock_script (k ∷ []) (text v ∷ number n ∷ []) w).0 ≡ ok (some (pos 1))
      → view (c.eval extend_lock_script (k ∷ []) (text v ∷ number n ∷ []) w).1 ≡ remove k (view w)
  pub mget_reads :
      (ks : List Text) (w : W) (slots : List Slot)
      → (c.mget ks w).0 ≡ ok slots
      → slots ≡ map (λ k. slot_of (view w k)) ks
  pub mget_keeps : (ks : List Text) (w : W) → view (c.mget ks w).1 ≡ view w
  pub mset_done :
      (args : List (Text × Text)) (w : W)
      → (c.mset args w).0 ≡ ok tt
      → view (c.mset args w).1 ≡ write_all args (view w)
  pub mset_any :
      (args : List (Text × Text)) (w : W)
      → Maybe (view w) (write_all args (view w)) (view (c.mset args w).1)
  pub expire_keeps :
      (k : Text) (d : Duration) (w : W) → is_positive d ≡ true → view (c.expire k d w).1 ≡ view w
  pub get_failed :
      (k : Text) (w : W) (e : Error) → (c.get k w).0 ≡ failure e → as_not_found e ≡ false
  pub del_done :
      (ks : List Text) (w : W) (n : ℕ)
      → (c.del ks w).0 ≡ ok n
      → view (c.del ks w).1 ≡ remove_all ks (view w)
  pub del_any :
      (ks : List Text) (w : W) → Maybe (view w) (remove_all ks (view w)) (view (c.del ks w).1)
  pub exists_keeps : (ks : List Text) (w : W) → view (c.exists ks w).1 ≡ view w
  pub exists_counts :
      (k : Text) (w : W) (n : ℕ) → (c.exists (k ∷ []) w).0 ≡ ok n → (view w k ≡ none) ↔ (n ≡ 0)
  pub flush_all_done : (w : W) → (c.flush_all w).0 ≡ ok tt → view (c.flush_all w).1 ≡ λ k. none

pub lock_key-ne : (k : Text) → lock_key k ≢ k
unfolding lock_key
lock_key-ne k e = omega (arith, ap length e, length-append k lock_key_suffix)

not_held : (o : Option Text) (v : Text) → o ≢ some v → holds o v ≡ false
not_held none v h = refl
not_held (some u) v h = elim (Bool-cases (u == v)) [
  | inl same ↦ absurd (h (ap some ((eq_iff u v).0 same)))
  | inr other ↦ other
]

-- A script that is given another value than the one that is stored changes nothing.
pub checks : (m : Contents) (k v : Text) → m k ≢ some v → run_release_lock_script k v m k ≡ m k
unfolding run_release_lock_script
checks m k v h = rw (not_held (m k) v h)

-- Who holds the lock of a key: the value of its lock key.
abbrev pub holder_of : {W : Type 0} → (W → Contents) → W → Text → Option Text
holder_of view w key = view w (lock_key key)

-- A TTL of at least a second, so that its whole seconds are positive.
abbrev pub InSeconds : Duration → Type 0
InSeconds d = is_positive (to_seconds d) ≡ true

module _ {W V : Type 0} (c : Client W) (json : Json V) (view : W → Contents)
    (serves : Serves c view) where
  get_keeps_lock : (k : Text) (w : W) → holder_of view (get c json k w).1 k ≡ holder_of view w k
  unfolding get
  get_keeps_lock k w = rw (serves.get_keeps k w)

  set_keeps_lock :
      (k : Text) (v : Option V) (d : Duration) (w : W)
      → holder_of view (set c json k v d w).1 k ≡ holder_of view w k
  unfolding set
  set_keeps_lock k v d w = elim (Result-cases (json.marshal v)) [
    | inr (e, bad) ↦ rw (bad, set)
    | inl (s, encoded) ↦
        rw (encoded, set)
          (elim (serves.set_any k s d w) [
            | inl same ↦ rw same
            | inr written ↦ rw written (ground (arith, eq_iff k (lock_key k), lock_key-ne k))
          ])
  ]

  acquire_takes :
      (k : Text) (d : Duration) (v v' : Text) (w : W)
      → InSeconds d
      → (acquire_lock c k d v w).0 ≡ ok (v', true)
      → (holder_of view w k ≡ none) × (holder_of view (acquire_lock c k d v w).1 k ≡ some v')
  unfolding acquire_lock acquired
  acquire_takes k d v v' w l h =
      let (free, written) = serves.set_nx_done (lock_key k) v d w (ground arith) in
      (free, rw written (rw (eq_self (lock_key k)) (ground arith)))

  acquire_keeps :
      (k : Text) (d : Duration) (v u : Text) (w : W)
      → holder_of view w k ≡ some u
      → holder_of view (acquire_lock c k d v w).1 k ≡ some u
  unfolding acquire_lock
  acquire_keeps k d v u w held = rw (serves.set_nx_held (lock_key k) v d w u held) held

  release_frees :
      (k v : Text) (w : W)
      → (release_lock c k v w).0 ≡ ok tt
      → holder_of view w k ≡ some v
      → holder_of view (release_lock c k v w).1 k ≡ none
  unfolding release_lock run_release_lock_script done_or
  release_frees k v w h held =
      let (r, replied) : (r : Option ℤ) × (c.eval release_lock_script (lock_key k ∷ [])
              (text v ∷ []) w).0
            ≡ ok r =
        ground arith in
      rw (serves.release_done (lock_key k) v w r replied)
        (rw (held, eq_self v, eq_self (lock_key k)) refl)

  release_checks :
      (k v : Text) (w : W)
      → holder_of view w k ≢ some v
      → holder_of view (release_lock c k v w).1 k ≡ holder_of view w k
  unfolding release_lock run_release_lock_script
  release_checks k v w h = elim (serves.release_any (lock_key k) v w) [
    | inl same ↦ rw same
    | inr ran ↦ rw ran (checks (view w) (lock_key k) v h)
  ]

  extend_keeps_lock :
      (k v : Text) (d : Duration) (w : W)
      → InSeconds d
      → holder_of view (extend_lock c k v d w).1 k ≡ holder_of view w k
  unfolding extend_lock
  extend_keeps_lock k v d w l = rw (serves.extend_keeps (lock_key k) v (to_seconds d) w l)

  -- Over a Redis server the lock of `RedisCart` keeps its promises for TTLs of at least a second: it is
  -- taken only when free, freed only for its holder, and untouched by reads and writes of the key and
  -- by its extensions.
  pub RedisCart-Owned : Owned (redis_backend c json) (holder_of view) InSeconds
  RedisCart-Owned = record {
    get_keeps = get_keeps_lock;
    set_keeps = set_keeps_lock;
    extend_keeps = extend_keeps_lock;
    acquire_takes = acquire_takes;
    acquire_keeps = acquire_keeps;
    release_frees = release_frees;
    release_checks = release_checks;
  }
