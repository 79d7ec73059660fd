-- ===== src/Carts/Surreal/Reference.antt =====
-- A database in memory, with one table of entries and one of locks and a clock: it shows that the
-- documented behaviour of SurrealDB can be met.
use nyro.Base.{refl, ℕ, [], Option, none, some, arith, eq_iff}
use nyro.Base.Duration.{Time}
use nyro.Base.Text.{Text, bytes, text_eq}
use nyro.Base.Dict.{Dict, lookup, insert, delete, lookup-insert}
use nyro.Errors.{Error, fresh, Result, ok, err}
use nyro.Carts.Surreal.{Client, RecordId, CacheEntry, LockEntry}
use nyro.Carts.Surreal.Stuck.{Keeps}

pub record Db : Type 0 where
  pub entries : Dict Text (CacheEntry ℕ)
  pub locks : Dict Text LockEntry
  pub clock : Time

abbrev refused : Error
refused = fresh (bytes "Database record already exists")

read : {A : Type 0} → Option A → Result A
read none = err (fresh (bytes "record not found"))
read (some x) = ok x

create : Option LockEntry → Text → LockEntry → Db → Result (Unit {0}) × Db
create (some l) id l' w = (err refused, w)
create none id l' w = (ok tt, record w { locks = insert id l' w.locks })

unfoldable pub reference : Client Db ℕ
unfolding read create
reference = record {
  use_ = λ ns db w. (ok tt, w);
  select_entry = λ id w. (read (lookup id.id w.entries), w);
  upsert_entry = λ id x w. (ok tt, record w { entries = insert id.id x w.entries });
  delete_entry = λ id w. (ok tt, record w { entries = delete id.id w.entries });
  delete_table = λ t w. (ok tt, record w { entries = [] });
  query_table = λ t w. (ok tt, w);
  create_lock = λ id l w. create (lookup id.id w.locks) id.id l w;
  select_lock = λ id w. (read (lookup id.id w.locks), w);
  update_lock = λ id l w. (ok tt, record w { locks = insert id.id l w.locks });
  delete_lock = λ id w. (ok tt, record w { locks = delete id.id w.locks });
  close = λ w. (ok tt, w);
  now = λ w. w.clock;
}

abbrev pub entry_at : Db → RecordId → Option (CacheEntry ℕ)
entry_at w id = lookup id.id w.entries

abbrev pub lock_at : Db → RecordId → Option LockEntry
lock_at w id = lookup id.id w.locks

pub reference-Keeps : Keeps reference entry_at lock_at
unfolding reference
reference-Keeps = record {
  create_refused = λ id l l' w held. (refused, rw (held, create) refl);
  create_keeps = λ id l l' w held. rw (held, create) held;
  select_lock_keeps = λ id w. refl;
  upsert_writes =
      λ id x w h. ground (arith, lookup-insert id.id id.id x w.entries, eq_iff id.id id.id);
  select_reads = λ id x w h. rw (h, read) refl;
}
