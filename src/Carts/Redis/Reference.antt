-- ===== src/Carts/Redis/Reference.antt =====
-- A server in memory: it shows that the documented behaviour of Redis can be met.
use nyro.Base.{
  ℕ, suc, ◌≡◌, refl, inl, inr, Bool, true, false, List, [], ◌∷◌, map, Option, none, some,
  if◌then◌else◌, arith, Bool-cases, Option-cases, ◌↔◌, fun_ext,
}
use nyro.Base.Duration.{ℤ, pos, is_positive}
use nyro.Base.Text.{Text, bytes, text_eq}
use nyro.Base.Dict.{Dict, lookup, insert, delete, lookup-insert, lookup-delete, insert_all}
use nyro.Errors.{Error, fresh, as_not_found, Result, ok, err}
use nyro.Carts.Redis.{
  Client, Reply, value, nil, failure, Script, release_lock_script, extend_lock_script, Arg, text,
  number,
}
use nyro.Carts.Redis.Server.{
  Contents, Serves, write, write_all, holds, run_release_lock_script, remove, remove_all, slot_of,
}

abbrev pub Store : Type 0
Store = Dict Text Text

abbrev pub contents : Store → Contents
contents w k = lookup k w

reply : Option Text → Reply
reply none = nil (fresh (bytes "redis: nil"))
reply (some s) = value s

unfoldable pub delete_all : List Text → Store → Store
delete_all [] w = w
delete_all (k ∷ ks) w = delete_all ks (delete k w)

unfoldable pub count_found : List Text → Store → ℕ
count_found [] w = 0
count_found (k ∷ ks) w = elim (lookup k w) [
  | none ↦ count_found ks w
  | some _ ↦ suc (count_found ks w)
]

set_nx : Text → Text → Option Text → Store → Result Bool × Store
set_nx k s none w = (ok true, insert k s w)
set_nx k s (some _) w = (ok false, w)

eval : Script → List Text → List Arg → Store → Result (Option ℤ) × Store
eval release_lock_script (k ∷ []) (text v ∷ []) w =
    if holds (lookup k w) v then (ok (some (pos 1)), delete k w) else (ok (some (pos 0)), w)
eval extend_lock_script (k ∷ []) (text v ∷ number n ∷ []) w =
    if holds (lookup k w) v
    then (ok (some (pos 1)), if is_positive n then w else delete k w)
    else (ok (some (pos 0)), w)
eval _ ks args w = (err (fresh (bytes "ERR")), w)

unfoldable pub reference : Client Store
unfolding reply delete_all count_found set_nx eval
reference = record {
  get = λ k w. (reply (lookup k w), w);
  set = λ k s d w. (ok tt, insert k s w);
  set_nx = λ k s d w. set_nx k s (lookup k w) w;
  del = λ ks w. (ok (count_found ks w), delete_all ks w);
  exists = λ ks w. (ok (count_found ks w), w);
  mget = λ ks w. (ok (map (λ k. slot_of (lookup k w)) ks), w);
  mset = λ args w. (ok tt, insert_all args w);
  flush_all = λ w. (ok tt, []);
  ping = λ w. (ok tt, w);
  expire = λ k d w. (ok true, w);
  eval = eval;
  close = λ w. (ok tt, w);
}

pub contents-insert : (k s : Text) (w : Store) → contents (insert k s w) ≡ write k s (contents w)
contents-insert k s w = fun_ext λ j. lookup-insert k j s w

pub contents-delete : (k : Text) (w : Store) → contents (delete k w) ≡ remove k (contents w)
contents-delete k w = fun_ext λ j. lookup-delete k j w

contents-insert_all :
    (args : List (Text × Text)) (w : Store)
    → contents (insert_all args w) ≡ write_all args (contents w)
unfolding insert_all
contents-insert_all [] w = refl
contents-insert_all ((k, s) ∷ args) w =
    rw (← contents-insert k s w) (contents-insert_all args (insert k s w))

contents-release :
    (k v : Text) (w : Store)
    → contents (eval release_lock_script (k ∷ []) (text v ∷ []) w).1
      ≡ run_release_lock_script k v (contents w)
unfolding eval run_release_lock_script
contents-release k v w = elim (Bool-cases (holds (lookup k w) v)) [
  | inl held ↦ rw held (contents-delete k w)
  | inr other ↦ rw other
]

set_nx_lem :
    (k s : Text) (w : Store) (o : Option Text)
    → lookup k w ≡ o
    → (set_nx k s o w).0 ≡ ok true
    → (lookup k w ≡ none) × (contents (set_nx k s o w).1 ≡ write k s (contents w))
unfolding set_nx
set_nx_lem k s w none e h = (e, contents-insert k s w)
set_nx_lem k s w (some u) e h = absurd (ground arith)

reply_value : (o : Option Text) (s : Text) → reply o ≡ value s → o ≡ some s
unfolding reply
reply_value none s h = cc
reply_value (some u) s h = ground arith

reply_nil : (o : Option Text) (e : Error) → reply o ≡ nil e → o ≡ none
unfolding reply
reply_nil none e h = refl
reply_nil (some u) e h = cc

reply_failure : (o : Option Text) (e : Error) → reply o ≡ failure e → as_not_found e ≡ false
unfolding reply
reply_failure none e h = cc
reply_failure (some u) e h = cc

contents-delete_all :
    (ks : List Text) (w : Store) → contents (delete_all ks w) ≡ remove_all ks (contents w)
unfolding delete_all
contents-delete_all [] w = refl
contents-delete_all (k ∷ ks) w = rw (← contents-delete k w) (contents-delete_all ks (delete k w))

count_found_one : (k : Text) (w : Store) → (lookup k w ≡ none) ↔ (count_found (k ∷ []) w ≡ 0)
unfolding count_found
count_found_one k w = elim (Option-cases (lookup k w)) [
  | inl gone ↦ rw (gone, count_found) (λ e. refl, λ e. refl)
  | inr (s, here) ↦ rw (here, count_found) (λ e. cc, λ e. ground arith)
]

extend_kept :
    (k v : Text) (n : ℤ) (w : Store)
    → is_positive n ≡ true
    → contents (eval extend_lock_script (k ∷ []) (text v ∷ number n ∷ []) w).1 ≡ contents w
unfolding eval
extend_kept k v n w h = elim (Bool-cases (holds (lookup k w) v)) [
  | inl held ↦ rw (held, h)
  | inr other ↦ rw other
]

extend_deletes :
    (k v : Text) (n : ℤ) (w : Store)
    → is_positive n ≡ false
    → (eval extend_lock_script (k ∷ []) (text v ∷ number n ∷ []) w).0 ≡ ok (some (pos 1))
    → contents (eval extend_lock_script (k ∷ []) (text v ∷ number n ∷ []) w).1
      ≡ remove k (contents w)
unfolding eval
extend_deletes k v n w short said = elim (Bool-cases (holds (lookup k w) v)) [
  | inl held ↦ rw (held, short) (contents-delete k w)
  | inr other ↦ absurd (ground arith)
]

pub reference-Serves : Serves reference contents
unfolding reference lookup
reference-Serves = record {
  get_keeps = λ k w. refl;
  get_value = λ k w s h. reply_value (lookup k w) s h;
  get_nil = λ k w e h. reply_nil (lookup k w) e h;
  set_done = λ k s d w h. contents-insert k s w;
  set_any = λ k s d w. inr (contents-insert k s w);
  set_nx_done = λ k s d w h. set_nx_lem k s w (lookup k w) refl h;
  set_nx_held = λ k s d w u held. rw (held, set_nx);
  release_done = λ k v w r h. contents-release k v w;
  release_any = λ k v w. inr (contents-release k v w);
  extend_keeps = λ k v n w h. extend_kept k v n w h;
  extend_expires = λ k v n w short said. extend_deletes k v n w short said;
  mget_reads = λ ks w slots h. ground arith;
  mget_keeps = λ ks w. refl;
  mset_done = λ args w h. contents-insert_all args w;
  mset_any = λ args w. inr (contents-insert_all args w);
  expire_keeps = λ k d w h. refl;
  get_failed = λ k w e h. reply_failure (lookup k w) e h;
  del_done = λ ks w n h. contents-delete_all ks w;
  del_any = λ ks w. inr (contents-delete_all ks w);
  exists_keeps = λ ks w. refl;
  exists_counts = λ k w n h.
      let e : count_found (k ∷ []) w ≡ n = ground arith in rw (← e) (count_found_one k w);
  flush_all_done = λ w h. refl;
}
