-- ===== src/Carts/Memcached/Reference.antt =====
-- A server in memory: it shows that the documented behaviour of Memcached can be met.
use nyro.Base.{
  ◌≡◌, ◌∙◌, ap, refl, inl, inr, Bool, true, false, if◌then◌else◌, All, Option-cases, eq_iff, subst,
  List, [], ◌∷◌, Option, none, some, ◌==◌, arith,
}
use nyro.Base.Text.{Text, bytes, text_eq}
use nyro.Base.Dict.{
  Dict, lookup, insert, delete, Keys, Distinct, insert-Keys, insert-Distinct, lookup-insert, asked,
  asked-All,
}
use nyro.Errors.{Error, fresh, as_not_found, Result, ok, err}
use nyro.Carts.Redis.Server.{Contents, write, remove, Maybe}
use nyro.Carts.Redis.Reference.{Store, contents, contents-insert, contents-delete}
use nyro.Carts.Memcached.{Client}
use nyro.Carts.Memcached.Ownership.{Serves}

abbrev miss_text : Text
miss_text = bytes "memcache: cache miss"

abbrev not_stored_text : Text
not_stored_text = bytes "memcache: item not stored"

is_text : Text → Error → Bool
is_text m (fresh t) = t == m
is_text m _ = false

pub read : Option Text → Result Text
read none = err (fresh miss_text)
read (some s) = ok s

add : Option Text → Text → Text → Store → Result (Unit {0}) × Store
add none k s w = (ok tt, insert k s w)
add (some u) k s w = (err (fresh not_stored_text), w)

drop : Option Text → Text → Store → Result (Unit {0}) × Store
drop none k w = (err (fresh miss_text), w)
drop (some u) k w = (ok tt, delete k w)

found_in : List Text → Store → Dict Text Text
found_in [] w = []
found_in (k ∷ keys) w =
    let rest = found_in keys w in elim (lookup k w) [ none ↦ rest | some s ↦ insert k s rest ]

unfoldable pub reference : Client Store
unfolding read add drop found_in is_text
reference = record {
  get = λ k w. (read (lookup k w), w);
  set = λ k s n w. (ok tt, insert k s w);
  add = λ k s n w. add (lookup k w) k s w;
  delete = λ k w. drop (lookup k w) k w;
  get_multi = λ keys w. (ok (found_in keys w), w);
  flush_all = λ w. (ok tt, []);
  ping = λ w. (ok tt, w);
  is_cache_miss = is_text miss_text;
  is_not_stored = is_text not_stored_text;
  int32 = λ n. n;
}

pub some_of_read : (o : Option Text) (s : Text) → read o ≡ ok s → o ≡ some s
unfolding read as_not_found
some_of_read none s h = cc
some_of_read (some u) s h = ground arith

none_of_read : (o : Option Text) (e : Error) → read o ≡ err e → o ≡ none
unfolding read as_not_found
none_of_read none e h = refl
none_of_read (some u) e h = cc

add_writes :
    (k s : Text) (w : Store) (o : Option Text)
    → lookup k w ≡ o
    → (add o k s w).0 ≡ ok tt
    → (lookup k w ≡ none) × (contents (add o k s w).1 ≡ write k s (contents w))
unfolding add
add_writes k s w none e h = (e, contents-insert k s w)
add_writes k s w (some u) e h = absurd (ground arith)

drop_removes :
    (k : Text) (w : Store) (o : Option Text)
    → (drop o k w).0 ≡ ok tt
    → contents (drop o k w).1 ≡ remove k (contents w)
unfolding drop
drop_removes k w none h = absurd (ground arith)
drop_removes k w (some u) h = contents-delete k w

drop_misses :
    (k : Text) (w : Store) (o : Option Text) (e : Error)
    → lookup k w ≡ o
    → (drop o k w).0 ≡ err e
    → lookup k (drop o k w).1 ≡ none
unfolding drop
drop_misses k w none e gone h = gone
drop_misses k w (some u) e gone h = absurd (ground arith)

read_fails : (o : Option Text) (e : Error) → read o ≡ err e → as_not_found e ≡ false
unfolding read as_not_found
read_fails none e h = let same : fresh miss_text ≡ e = ground arith in rw (← same) refl
read_fails (some u) e h = cc

drop_any :
    (k : Text) (w : Store) (o : Option Text)
    → Maybe (contents w) (remove k (contents w)) (contents (drop o k w).1)
unfolding drop
drop_any k w none = inl refl
drop_any k w (some u) = inr (contents-delete k w)

-- What of the store is read for the keys.
abbrev Read : List Text → Store → Dict Text Text → Type 0
Read keys w items =
    Keys (λ k. asked k keys ≡ true) items
    × Distinct items
    × ((j : Text) → lookup j items ≡ (if asked j keys then lookup j w else none))

found_in-Keys :
    (P : Text → Type 0) (keys : List Text) (w : Store)
    → All P keys
    → Keys P (found_in keys w) × Distinct (found_in keys w)
unfolding found_in
found_in-Keys P [] w a = (tt, tt)
found_in-Keys P (k ∷ keys) w a = elim (Option-cases (lookup k w)) [
  | inl gone ↦ rw (gone, found_in) (found_in-Keys P keys w a.1)
  | inr (s, here) ↦
      let (h, u) = found_in-Keys P keys w a.1 in
      rw (here, found_in)
        (insert-Keys P k s (found_in keys w) a.0 h, insert-Distinct k s (found_in keys w) u)
]

lookup-found_in :
    (keys : List Text) (w : Store) (j : Text)
    → lookup j (found_in keys w) ≡ (if asked j keys then lookup j w else none)
unfolding found_in lookup
lookup-found_in [] w j = refl
lookup-found_in (k ∷ keys) w j = elim (Option-cases (lookup k w)) [
  | inl gone ↦ rw (gone, found_in) (ground (arith, eq_iff k j, lookup-found_in keys w j))
  | inr (s, here) ↦
      rw (here, found_in)
        (ground
          (arith, eq_iff k j, lookup-insert k j s (found_in keys w), lookup-found_in keys w j))
]

found_in-Read : (keys : List Text) (w : Store) → Read keys w (found_in keys w)
found_in-Read keys w =
    let (h, u) = found_in-Keys (λ k. asked k keys ≡ true) keys w (asked-All _ keys (λ k a. a)) in
    (h, u, lookup-found_in keys w)

pub reference-Serves_memcached : Serves reference contents
unfolding reference lookup
reference-Serves_memcached = record {
  get_keeps = λ k w. refl;
  get_found = λ k w s h. some_of_read (lookup k w) s h;
  get_missed = λ k w e h m. none_of_read (lookup k w) e h;
  set_any = λ k s n w l. inr (contents-insert k s w);
  set_other = λ k s n w j other. ap (λ (m : Contents). m j) (contents-insert k s w) ∙ rw other refl;
  add_done = λ k s n w l h. add_writes k s w (lookup k w) refl h;
  add_held = λ k s n w u held. rw (held, add);
  delete_done = λ k w h. drop_removes k w (lookup k w) h;
  delete_missed = λ k w e h m. drop_misses k w (lookup k w) e refl h;
  delete_any = λ k w. drop_any k w (lookup k w);
  set_done = λ k s n w l h. contents-insert k s w;
  get_failed = λ k w e h m. read_fails (lookup k w) e h;
  get_multi_keeps = λ keys w. refl;
  get_multi_reads = λ keys w items h.
      let e : found_in keys w ≡ items = ground arith in
      subst (Read keys w) e (found_in-Read keys w);
  flush_all_done = λ w h. refl;
}
