-- ===== src/Carts/Valkey/Reference.antt =====
-- A server in memory with its client: it shows that the documented behaviour can be met.
use nyro.Base.{
  ℕ, ◌≡◌, refl, inl, inr, Bool, false, List, [], ◌∷◌, Option, none, some, if◌then◌else◌, arith,
  Bool-cases, map, ◌==◌, true,
}
use nyro.Base.Duration.{ℤ, pos, is_positive}
use nyro.Base.Text.{Text, bytes, text_eq}
use nyro.Keys.Decimal.{format_int}
use nyro.Base.Dict.{lookup, insert, delete}
use nyro.Errors.{Error, fresh, Result, ok, err}
use nyro.Carts.Redis.{release_lock_script, extend_lock_script}
use nyro.Carts.Redis.Server.{holds, write, run_release_lock_script}
use nyro.Carts.Valkey.Ownership.{Locks}
use nyro.Carts.Redis.Reference.{
  Store, contents, contents-insert, contents-delete, count_found, delete_all,
}
use nyro.Carts.Valkey.{
  Client, Command, get_command, set_command, set_nx_command, del_command, exists_command,
  mget_command, flushall_command, ping_command, eval_command,
}
use nyro.Carts.Valkey.Laws.{Serves}

-- The messages of the protocol.
pub data Message : Type 0 where
  nil : Message
  simple bulk : Text → Message
  integer : ℕ → Message
  strings : List Text → Message
  refused : Text → Message

answer_get : Option Text → Message
answer_get none = nil
answer_get (some s) = bulk s

string_of : Option Text → Text
string_of none = []
string_of (some s) = s

set_nx : Option Text → Text → Text → Store → Message × Store
set_nx none k s w = (simple (bytes "OK"), insert k s w)
set_nx (some u) k s w = (nil, w)

execute : Command → Store → Message × Store
unfolding answer_get string_of set_nx count_found delete_all
execute (get_command k) w = (answer_get (lookup k w), w)
execute (set_command k s n) w =
    if is_positive n
    then (simple (bytes "OK"), insert k s w)
    else (refused (bytes "ERR invalid expire time"), w)
execute (set_nx_command k s n) w =
    if is_positive n
    then set_nx (lookup k w) k s w
    else (refused (bytes "ERR invalid expire time"), w)
execute (del_command ks) w = (integer (count_found ks w), delete_all ks w)
execute (exists_command ks) w = (integer (count_found ks w), w)
execute (mget_command ks) w = (strings (map (λ k. string_of (lookup k w)) ks), w)
execute flushall_command w = (simple (bytes "OK"), [])
execute ping_command w = (simple (bytes "PONG"), w)
execute (eval_command release_lock_script k (v ∷ [])) w =
    if holds (lookup k w) v then (integer 1, delete k w) else (integer 0, w)
execute (eval_command extend_lock_script k (v ∷ n ∷ [])) w =
    (integer (if holds (lookup k w) v then 1 else 0), w)
execute (eval_command _ k args) w = (refused (bytes "ERR"), w)

error_of : Message → Option Error
error_of nil = some (fresh (bytes "valkey nil message"))
error_of (refused t) = some (fresh t)
error_of _ = none

text_of : Message → Result Text
text_of (simple t) = ok t
text_of (bulk t) = ok t
text_of _ = err (fresh (bytes "valkey message type is not a string"))

number_of : Message → Result ℤ
number_of (integer n) = ok (pos n)
number_of _ = err (fresh (bytes "valkey message type is not a number"))

texts_of : Message → Result (List Text)
texts_of (strings ts) = ok ts
texts_of _ = err (fresh (bytes "valkey message type is not an array"))

abbrev nil_text : Text
nil_text = bytes "valkey nil message"

nil_error : Error → Bool
nil_error (fresh t) = t == nil_text
nil_error _ = false

unfoldable pub reference : Client Store Message
unfolding execute error_of text_of number_of texts_of nil_error
reference = record {
  do_ = execute;
  error = error_of;
  is_valkey_nil = nil_error;
  to_string = text_of;
  as_int64 = number_of;
  as_str_slice = texts_of;
  close = λ w. w;
}

pub reference-Serves_valkey : Serves reference contents
unfolding reference execute
reference-Serves_valkey = record {
  get_keeps = λ k w. refl;
  set_done = λ k s n w h. elim (Bool-cases (is_positive n)) [
    | inl good ↦ rw good (contents-insert k s w)
    | inr bad ↦ absurd (ground arith)
  ];
  set_any = λ k s n w. elim (Bool-cases (is_positive n)) [
    | inl good ↦ inr (rw good (contents-insert k s w))
    | inr bad ↦ inl (rw bad)
  ];
  set_refused = λ k s n w bad. (fresh (bytes "ERR invalid expire time"), rw bad refl);
  set_nx_held = λ k s n w u held. elim (Bool-cases (is_positive n)) [
    | inl good ↦ (fresh nil_text, rw (good, held, set_nx) refl)
    | inr bad ↦ (fresh (bytes "ERR invalid expire time"), rw bad refl)
  ];
}

set_nx_says :
    (k s : Text) (w : Store) (o : Option Text)
    → lookup k w ≡ o
    → text_of (set_nx o k s w).0 ≡ ok (bytes "OK")
    → (lookup k w ≡ none) × (contents (set_nx o k s w).1 ≡ write k s (contents w))
unfolding set_nx text_of
set_nx_says k s w none e h = (e, contents-insert k s w)
set_nx_says k s w (some u) e h = absurd (ground arith)

contents-release :
    (k v : Text) (w : Store)
    → contents (execute (eval_command release_lock_script k (v ∷ [])) w).1
      ≡ run_release_lock_script k v (contents w)
unfolding execute run_release_lock_script
contents-release k v w = elim (Bool-cases (holds (lookup k w) v)) [
  | inl held ↦ rw held (contents-delete k w)
  | inr other ↦ rw other
]

execute-extend :
    (k v : Text) (n : ℤ) (w : Store)
    → is_positive n ≡ true
    → contents (execute (eval_command extend_lock_script k (v ∷ format_int n ∷ [])) w).1
      ≡ contents w
unfolding execute
execute-extend k v n w h = refl

pub reference-Locks : Locks reference contents
unfolding reference execute text_of
reference-Locks = record {
  set_nx_done = λ k s n w clean said. elim (Bool-cases (is_positive n)) [
    | inl good ↦ rw good (set_nx_says k s w (lookup k w) refl (rw good at said))
    | inr bad ↦ absurd (ground arith)
  ];
  set_nx_kept = λ k s n w u held. elim (Bool-cases (is_positive n)) [
    | inl good ↦ rw (good, held, set_nx)
    | inr bad ↦ rw bad
  ];
  release_done = λ k v w h. contents-release k v w;
  release_any = λ k v w. inr (contents-release k v w);
  extend_keeps = λ k v n w h. execute-extend k v n w h;
}
