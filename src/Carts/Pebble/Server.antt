-- ===== src/Carts/Pebble/Server.antt =====
-- What `PebbleCart` relies on of the database: the documented behaviour of reads, synced writes and
-- batches, as seen through the stored contents.
use nyro.Base.{◌≡◌, ◌++◌, List, [], ◌∷◌, Option, none, some}
use nyro.Base.Text.{Text}
use nyro.Errors.{Error, ok}
use nyro.Carts.Redis.Server.{Contents, write, remove, Maybe}
use nyro.Carts.Pebble.{Db, found, missing}

-- The operations that a batch holds, and their effect in order: a write or a deletion of a key.
abbrev pub Pending : Type 0
Pending = List (Text × Option Text)

abbrev pub apply : Pending → Contents → Contents
apply [] m = m
apply ((k, none) ∷ ops) m = apply ops (remove k m)
apply ((k, some s) ∷ ops) m = apply ops (write k s m)

pub record Stores {W B : Type 0} (db : Db W B) (view : W → Contents) (pending : B → Pending)
    : Type 0 where
  pub get_keeps : (k : Text) (w : W) → view (db.get k w).1 ≡ view w
  pub get_found : (k : Text) (w : W) (s : Text) → (db.get k w).0 ≡ found s → view w k ≡ some s
  pub get_missing : (k : Text) (w : W) (e : Error) → (db.get k w).0 ≡ missing e → view w k ≡ none
  pub set_done :
      (k s : Text) (w : W) → (db.set k s w).0 ≡ ok tt → view (db.set k s w).1 ≡ write k s (view w)
  pub delete_done :
      (k : Text) (w : W) → (db.delete k w).0 ≡ ok tt → view (db.delete k w).1 ≡ remove k (view w)
  pub new_empty : pending db.new_batch ≡ []
  pub batch_set_done :
      (k s : Text) (b : B)
      → (db.batch_set k s b).0 ≡ ok tt
      → pending (db.batch_set k s b).1 ≡ pending b ++ ((k, some s) ∷ [])
  pub batch_delete_done :
      (k : Text) (b : B)
      → (db.batch_delete k b).0 ≡ ok tt
      → pending (db.batch_delete k b).1 ≡ pending b ++ ((k, none) ∷ [])
  pub commit_done :
      (b : B) (w : W)
      → (db.commit b w).0 ≡ ok tt
      → view (db.commit b w).1 ≡ apply (pending b) (view w)
  pub commit_any :
      (b : B) (w : W) → Maybe (view w) (apply (pending b) (view w)) (view (db.commit b w).1)
