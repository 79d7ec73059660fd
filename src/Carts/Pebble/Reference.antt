-- ===== src/Carts/Pebble/Reference.antt =====
-- A database in memory: it shows that the documented behaviour of Pebble can be met.
use nyro.Base.{◌≡◌, refl, inr, [], ◌∷◌, ◌++◌, map, Option, none, some, arith}
use nyro.Base.Text.{Text, bytes, text_eq}
use nyro.Base.Dict.{lookup, insert, delete}
use nyro.Errors.{fresh, ok}
use nyro.Carts.Redis.Reference.{Store, contents, contents-insert, contents-delete}
use nyro.Carts.Pebble.{Db, Read, found, missing}
use nyro.Carts.Pebble.Server.{Stores, Pending, apply}

read : Option Text → Read
read none = missing (fresh (bytes "pebble: not found"))
read (some s) = found s

apply_all : Pending → Store → Store
apply_all [] w = w
apply_all ((k, none) ∷ ops) w = apply_all ops (delete k w)
apply_all ((k, some s) ∷ ops) w = apply_all ops (insert k s w)

-- A batch is the list of its operations.
unfoldable pub reference : Db Store Pending
unfolding read apply_all
reference = record {
  get = λ k w. (read (lookup k w), w);
  set = λ k s w. (ok tt, insert k s w);
  delete = λ k w. (ok tt, delete k w);
  new_batch = [];
  batch_set = λ k s b. (ok tt, b ++ ((k, some s) ∷ []));
  batch_delete = λ k b. (ok tt, b ++ ((k, none) ∷ []));
  commit = λ b w. (ok tt, apply_all b w);
  new_iter = λ w. (ok (map (λ p. p.0) w, ok tt), w);
  close = λ w. (ok tt, w);
}

contents-apply_all : (b : Pending) (w : Store) → contents (apply_all b w) ≡ apply b (contents w)
unfolding apply_all
contents-apply_all [] w = refl
contents-apply_all ((k, none) ∷ ops) w =
    rw (← contents-delete k w) (contents-apply_all ops (delete k w))
contents-apply_all ((k, some s) ∷ ops) w =
    rw (← contents-insert k s w) (contents-apply_all ops (insert k s w))

found_of_read : (o : Option Text) (s : Text) → read o ≡ found s → o ≡ some s
unfolding read
found_of_read none s h = cc
found_of_read (some u) s h = ground arith

missing_of_read : (o : Option Text) {e : _} → read o ≡ missing e → o ≡ none
unfolding read
missing_of_read none h = refl
missing_of_read (some u) h = cc

pub reference-Stores : Stores reference contents (λ b. b)
unfolding reference
reference-Stores = record {
  get_keeps = λ k w. refl;
  get_found = λ k w s h. found_of_read (lookup k w) s h;
  get_missing = λ k w e h. missing_of_read (lookup k w) h;
  set_done = λ k s w h. contents-insert k s w;
  delete_done = λ k w h. contents-delete k w;
  new_empty = refl;
  batch_set_done = λ k s b h. refl;
  batch_delete_done = λ k b h. refl;
  commit_done = λ b w h. contents-apply_all b w;
  commit_any = λ b w. inr (contents-apply_all b w);
}
