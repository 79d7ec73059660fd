-- ===== src/Carts/Olric/Reference.antt =====
-- A grid in memory, with the entries of one map and the tokens of its locks.
use nyro.Base.{
  ◌≡◌, ◌∙◌, refl, ap, fun_ext, inr, List, ◌∷◌, arith, ℕ, ◌+◌, ◌==◌, if◌then◌else◌, [], foldl,
  Option, none, some, nat_beq, Bool, false,
}
use nyro.Base.Text.{Text, bytes, text_eq}
use nyro.Base.Dict.{Dict, lookup, insert, delete, lookup-insert, lookup-delete}
use nyro.Errors.{Error, fresh, as_not_found, Result, ok, err}
use nyro.Carts.Olric.{Client}
use nyro.Carts.Contract.{Values, assign, remove_all}
use nyro.Carts.Olric.Reads.{Serves}

pub record Grid : Type 0 where
  pub entries : Dict Text (Option ℕ)
  pub tokens : Dict Text ℕ
  pub next : ℕ

abbrev missing : Text
missing = bytes "key not found"

abbrev not_acquired : Text
not_acquired = bytes "lock not acquired"

is_text : Text → Error → Bool
is_text m (fresh t) = t == m
is_text m _ = false

read : Option (Option ℕ) → Result (Result (Option ℕ))
read none = err (fresh missing)
read (some v) = ok (ok v)

lock : Option ℕ → Text → Grid → Result (Text × ℕ) × Grid
lock none key w =
    (ok (key, w.next), record w { tokens = insert key w.next w.tokens; next = w.next + 1 })
lock (some token) key w = (err (fresh not_acquired), w)

unlock : Text × ℕ → Option ℕ → Grid → Grid
unlock l none w = w
unlock (key, token) (some held) w =
    if nat_beq held token then record w { tokens = delete key w.tokens } else w

unfoldable pub reference : Client Grid (Unit {0}) (Text × ℕ) ℕ
unfolding read lock unlock is_text
reference = record {
  new_dmap = λ name w. (ok tt, w);
  get = λ d key w. (read (lookup key w.entries), w);
  put = λ d key v ttl w. (ok tt, record w { entries = insert key v w.entries });
  delete = λ d keys w. (ok tt, record w { entries = foldl (λ m key. delete key m) w.entries keys });
  destroy = λ d w. (ok tt, record w { entries = [] });
  close = λ d w. (ok tt, w);
  lock_with_timeout = λ d key ttl wait w. lock (lookup key w.tokens) key w;
  unlock = λ l w. unlock l (lookup l.0 w.tokens) w;
  ok_value = some 0;
  is_key_not_found = is_text missing;
  is_lock_not_acquired = is_text not_acquired;
}

-- What the map holds.
abbrev pub entries_of : Unit {0} → Grid → Values ℕ
entries_of d w k = lookup k w.entries

assigned :
    (k : Text) (v : Option ℕ) (m : Dict Text (Option ℕ))
    → (λ j. lookup j (insert k v m)) ≡ assign k (some v) (λ j. lookup j m)
assigned k v m = fun_ext λ j. lookup-insert k j v m

removed :
    (keys : List Text) (m : Dict Text (Option ℕ))
    → (λ j. lookup j (foldl (λ m key. delete key m) m keys)) ≡ remove_all keys (λ j. lookup j m)
removed [] m = refl
removed (k ∷ keys) m =
    removed keys (delete k m) ∙ ap (remove_all keys) (fun_ext λ j. lookup-delete k j m)

read_found : (o : Option (Option ℕ)) (v : Option ℕ) → read o ≡ ok (ok v) → o ≡ some v
unfolding read
read_found none v h = cc
read_found (some u) v h = ground arith

read_unscanned : (o : Option (Option ℕ)) (e : Error) → read o ≡ ok (err e) → ⊥
unfolding read
read_unscanned none e h = cc
read_unscanned (some u) e h = cc

read_missed :
    (o : Option (Option ℕ)) (e : Error) → read o ≡ err e → (o ≡ none) × (as_not_found e ≡ false)
unfolding read as_not_found
read_missed none e h = let at : fresh missing ≡ e = ground arith in (refl, rw (← at) refl)
read_missed (some u) e h = cc

pub reference-Serves_olric : Serves reference entries_of (λ v. v)
unfolding reference lookup
reference-Serves_olric = record {
  get_keeps = λ d k w. refl;
  get_found = λ d k w v h. read_found (lookup k w.entries) v h;
  get_unscanned = λ d k w e h. absurd (read_unscanned (lookup k w.entries) e h);
  get_missed = λ d k w e h m. (read_missed (lookup k w.entries) e h).0;
  get_failed = λ d k w e h m. (read_missed (lookup k w.entries) e h).1;
  put_effect = λ d k v ttl w. inr (assigned k v w.entries);
  delete_effect = λ d keys w. inr (removed keys w.entries);
  destroyed = λ d d' name w h h'. refl;
}
