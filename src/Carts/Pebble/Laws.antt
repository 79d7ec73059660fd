-- ===== src/Carts/Pebble/Laws.antt =====
-- What `PebbleCart` stores, reads back and forgets, over a database that behaves as documented.
use nyro.Base.{
  ◌≡◌, ◌∙◌, refl, sym, ap, ◌⊎◌, inl, inr, true, List, [], ◌∷◌, ◌++◌, append-nil, append_assoc,
  Option, none, some, if◌then◌else◌, arith, eq_self,
}
use nyro.Base.Duration.{Duration, Time, after}
use nyro.Base.Text.{Text, bytes, text_eq}
use nyro.Errors.{Error, wrap, not_found, Result, ok, err, Result-cases, not_found_with_cause}
use nyro.Carts.Redis.Server.{Contents, write}
use nyro.Carts.Pebble.{
  Db, EntryJson, CacheEntry, Read, found, missing, failure, key_expired, check_expiration, get_read,
  get, set, exists, exists_read, done_or, entry_of, batch_all, committed, set_multi,
}
use nyro.Carts.Pebble.Server.{Stores, Pending, apply}

Read-cases :
    (r : Read)
    → ((s : Text) × (r ≡ found s))
      ⊎ ((e : Error) × (r ≡ missing e))
      ⊎ ((e : Error) × (r ≡ failure e))
Read-cases (found s) = inl (s, refl)
Read-cases (missing e) = inr (inl (e, refl))
Read-cases (failure e) = inr (inr (e, refl))

set_done_of : (m : Text) (r : Result (Unit {0})) → done_or m r ≡ ok tt → r ≡ ok tt
unfolding done_or
set_done_of m r h = ground arith

-- What a read of an entry answers by the clock.
abbrev pub answer_of : {V : Type 0} → Time → CacheEntry V → Result (Option V)
answer_of now entry =
    if after now entry.expiration then err (not_found key_expired) else ok entry.value

-- Each item's entry, encoded, in order: the writes of a batch.
abbrev pub Writes :
    {V : Type 0} → EntryJson V → Duration → List (Time × Text × Option V) → Pending → Type 0
Writes json d [] [] = Unit
Writes json d [] (p ∷ ps) = ⊥
Writes json d (i ∷ items) [] = ⊥
Writes json d ((now, key, v) ∷ items) ((k, none) ∷ ps) = ⊥
Writes json d ((now, key, v) ∷ items) ((k, some s) ∷ ps) =
    (key ≡ k) × (json.marshal (entry_of now v d) ≡ ok s) × Writes json d items ps

module _ {W B V : Type 0} (db : Db W B) (json : EntryJson V) (view : W → Contents)
    (pending : B → Pending) (stores : Stores db view pending) where
  -- Where the database holds an entry, `Get` answers by the entry's expiry and the clock, or fails
  -- with the database; `Exists` answers true, also for an entry that has expired and that `Get`
  -- does not return, or fails with the database.
  pub get-exists_stored :
      (now : Time) (key s : Text) (entry : CacheEntry V) (w : W)
      → view w key ≡ some s
      → json.unmarshal s ≡ ok entry
      → (((get db json now key w).0 ≡ answer_of now entry)
          ⊎ ((e : Error) × ((get db json now key w).0 ≡ err (wrap (bytes "pebble: get failed") e))))
        × (((exists db json key w).0 ≡ ok true)
            ⊎ ((e : Error) × ((exists db json key w).0
                  ≡ err (wrap (bytes "pebble: exists check failed") e))))
  unfolding get get_read check_expiration exists exists_read not_found_with_cause
  get-exists_stored now key s entry w holds_s decoded = elim (Read-cases (db.get key w).0) [
    | inr (inl (e, replied)) ↦ absurd (ground (arith, stores.get_missing key w e replied, holds_s))
    | inr (inr (e, replied)) ↦
        rw (replied, get, get_read, exists_read) (inr (e, refl), inr (e, refl))
    | inl (s', replied) ↦
        let same : s' ≡ s = ground (arith, stores.get_found key w s' replied, holds_s) in
        rw (replied, get, get_read, exists_read, same, decoded, check_expiration)
          (inl (ground arith), inl refl)
  ]

  -- After a successful `Set` with an entry that decodes as it was encoded, the key holds it and every
  -- other key what it held. A later `Get` returns the value until the moment of the `Set` plus
  -- the expiration has passed and misses after that, or fails with the database.
  pub get-set_pebble :
      (t now : Time) (key s : Text) (v : Option V) (expiration : Duration) (w : W)
      → json.marshal (entry_of t v expiration) ≡ ok s
      → json.unmarshal s ≡ ok (entry_of t v expiration)
      → (set db json t key v expiration w).0 ≡ ok tt
      → let w' = (set db json t key v expiration w).1 in
        (view w' ≡ write key s (view w))
        × (((get db json now key w').0 ≡ answer_of now (entry_of t v expiration))
            ⊎ ((e : Error) × ((get db json now key w').0
                  ≡ err (wrap (bytes "pebble: get failed") e))))
  unfolding set done_or
  get-set_pebble t now key s v expiration w encoded decoded h =
      rw (encoded, set)
        (
          wrote,
          (get-exists_stored now key s (entry_of t v expiration) (db.set key s w).1
              (rw wrote (rw (eq_self key))) decoded).0,
        )
    where
      wrote : view (db.set key s w).1 ≡ write key s (view w)
      wrote = stores.set_done key s w (set_done_of _ _ (rw (encoded, set) at h))

  batch_all_lem :
      (items : List (Time × Text × Option V)) (d : Duration) (b b' : B)
      → batch_all db json items d b ≡ ok b'
      → (ps : Pending) × Writes json d items ps × (pending b' ≡ pending b ++ ps)
  unfolding batch_all
  batch_all_lem [] d b b' h =
      let e : b ≡ b' = ground arith in ([], tt, rw (← e) (sym (append-nil (pending b))))
  batch_all_lem ((now, key, v) ∷ items) d b b' h =
      elim (Result-cases (json.marshal (entry_of now v d))) [
        | inr (e, bad) ↦ absurd (ground arith)
        | inl (s, encoded) ↦ elim (Result-cases (db.batch_set key s b).0) [
          | inr (e, failed) ↦ absurd (ground arith)
          | inl (u, done_) ↦
              let (ps, written, e) =
                batch_all_lem items d (db.batch_set key s b).1 b'
                  (rw (encoded, batch_all, done_) at h) in
              (
                (key, some s) ∷ ps,
                (refl, encoded, written),
                rw (e, stores.batch_set_done key s b done_)
                    (append_assoc (pending b) ((key, some s) ∷ []) ps),
              )
        ]
      ]

  -- `SetMulti` writes the entries of all its items or nothing, whatever fails, and all of them if
  -- it succeeds.
  pub set_multi_pebble_all_or_none :
      (items : List (Time × Text × Option V)) (d : Duration) (w : W)
      → let (r, w') = set_multi db json items d w in
        ((view w' ≡ view w) × ((e : Error) × (r ≡ err e)))
        ⊎ ((ps : Pending) × Writes json d items ps × (view w' ≡ apply ps (view w)))
  unfolding set_multi committed done_or
  set_multi_pebble_all_or_none items d w =
      elim (Result-cases (batch_all db json items d db.new_batch)) [
        | inr (e, bad) ↦ inl (rw (bad, set_multi, committed) (refl, (e, refl)))
        | inl (b, filled) ↦
            let (ps, written, e) = batch_all_lem items d db.new_batch b filled in
            let holds_ps : pending b ≡ ps = e ∙ ap (λ x. x ++ ps) stores.new_empty in
            elim (Result-cases (db.commit b w).0) [
              | inl (u, done_) ↦ inr (
                ps,
                written,
                rw (filled, set_multi, committed)
                    (stores.commit_done b w done_ ∙ ap (λ x. apply x (view w)) holds_ps),
              )
              | inr (e', failed) ↦ elim (stores.commit_any b w) [
                | inl same ↦ inl (rw (filled, set_multi, committed, failed) (same, (_, refl)))
                | inr wrote ↦ inr (
                  ps,
                  written,
                  rw (filled, set_multi, committed) (wrote ∙ ap (λ x. apply x (view w)) holds_ps),
                )
              ]
            ]
      ]
