-- ===== src/Carts/Memcached/Keeps.antt =====
-- `MemcachedCart` keeps the contract over a server that behaves as documented.
use nyro.Base.{
  ◌≡◌, ◌∙◌, sym, refl, ap, fun_ext, inl, inr, Bool, true, false, List, [], ◌∷◌, Option, none, some,
  if◌then◌else◌, ◌==◌, arith, eq_iff, Bool-cases,
}
use nyro.Base.Duration.{Duration, to_seconds}
use nyro.Base.Text.{Text, text_eq}
use nyro.Base.Dict.{Dict, lookup, asked}
use nyro.Errors.{Error, as_not_found, not_found_with_cause, ok, err, Result-cases}
use nyro.Carts.Json.{Json}
use nyro.Carts.Guard.{LockConfig, Retry, Action, Beat, Selected}
use nyro.Carts.Redis.Server.{Contents, remove}
use nyro.Carts.Memcached.{
  Client, get, got, decoded, set, set_multi, delete, delete_multi, exists, exists_read, get_multi,
  collected, decode_all, clear, done_or, unless_miss,
}
use nyro.Carts.Memcached.Load.{memcached_cart}
use nyro.Carts.Memcached.Ownership.{Serves, Counts}
use nyro.Carts.Contract.{
  Values, assign, assign_all, remove_all, names, is_some, Sees, SeesFlag, SeesAll, Keeps, Effect,
  Effect-done, Effect-other,
}
use nyro.Carts.Contract.Decoding
use nyro.Carts.Memcached.Values.{
  decode, reading, values, denotes, decode_all-Keys, lookup-decode_all,
}

module _ {W V : Type 0} (c : Client W) (json : Json V) (view : W → Contents)
    (serves : Serves c view) where
  abbrev holds : W → Values V
  holds w = values json (view w)

  -- The errors of the encoding are not those of package carts.
  module _
      (foreign : (s : Text) (e : Error) → json.unmarshal s ≡ err e → as_not_found e ≡ false) where
    pub get-Sees : (k : Text) (w : W) → Sees (get c json k w).0 (values json (view w) k)
    unfolding get got decoded as_not_found not_found_with_cause
    get-Sees k w = elim (Result-cases (c.get k w).0) [
      | inl (s, read) ↦ elim (Result-cases (json.unmarshal s)) [
        | inl (v, came) ↦
            rw (read, got, came, decoded)
              (ap (reading json) (serves.get_found k w s read) ∙ rw (came, decode) refl)
        | inr (e, bad) ↦ rw (read, got, bad, decoded) (inr (foreign s e bad))
      ]
      | inr (e, failed) ↦ elim (Bool-cases (c.is_cache_miss e)) [
        | inl missed ↦
            rw (failed, got, missed)
              (inl (ap (reading json) (serves.get_missed k w e failed missed)))
        | inr other ↦ rw (failed, got, other) (inr (serves.get_failed k w e failed other))
      ]
    ]

  exists-SeesFlag : (k : Text) (w : W) → SeesFlag (exists c k w).0 (holds w k)
  unfolding exists exists_read
  exists-SeesFlag k w = elim (Result-cases (c.get k w).0) [
    | inl (s, read) ↦
        rw (read, exists_read)
          (ap (λ o. is_some (reading json o)) (sym (serves.get_found k w s read)))
    | inr (e, failed) ↦ elim (Bool-cases (c.is_cache_miss e)) [
      | inl missed ↦
          rw (failed, exists_read, missed)
            (ap (λ o. is_some (reading json o)) (sym (serves.get_missed k w e failed missed)))
      | inr other ↦ rw (failed, exists_read, other) tt
    ]
  ]

  found :
      (b : Bool) (x o : Option Text) (y : Option (Option V))
      → o ≡ (if b then x else none)
      → y ≡ reading json o
      → y ≡ (if b then reading json x else none)
  found true x o y h h' = ground arith
  found false x o y h h' = ground arith

  get_multi-SeesAll :
      (keys : List Text) (w : W) → SeesAll keys (get_multi c json keys w).0 (holds w)
  unfolding get_multi collected lookup
  get_multi-SeesAll keys w = elim (Result-cases (c.get_multi keys w).0) [
    | inr (e, failed) ↦ rw (failed, collected) tt
    | inl (items, replied) ↦
        let (k, u, at) = serves.get_multi_reads keys w items replied in
        elim (Result-cases (decode_all c json items [])) [
          | inr (e, bad) ↦ rw (replied, collected, bad) tt
          | inl (d, read) ↦
              let (k', u') =
                decode_all-Keys c json (λ k. asked k keys ≡ true) items [] d k tt tt read in
              rw (replied, collected, read)
                (
                  k',
                  u',
                  λ j.
                      found (asked j keys) (view w j) (lookup j items) (lookup j d) (at j)
                        (lookup-decode_all c json items [] d j u read),
                )
        ]
  ]

  pub set-Effect :
      (k : Text) (v : Option V) (d : Duration) (w : W)
      → Counts c d
      → let (r, w') = set c json k v d w in
        Effect r
          (values json (view w))
          (assign k (some (denotes json v)) (values json (view w)))
          (values json (view w'))
  unfolding set done_or
  set-Effect k v d w l = elim (Result-cases (json.marshal v)) [
    | inr (e, bad) ↦ inl (rw (bad, set) (refl, λ x. cc))
    | inl (s, encoded) ↦
        let came : decode json s ≡ denotes json v = rw (encoded, denotes) refl in
        let wrote =
          Decoding.values-write (decode json) k s (view w)
          ∙ ap (λ (x : Option V). assign k (some x) (holds w)) came in
        let n = c.int32 (to_seconds d) in
        elim (Result-cases (c.set k s n w).0) [
          | inl (u, done) ↦
              inr (rw (encoded, set) (ap (values json) (serves.set_done k s n w l done) ∙ wrote))
          | inr (e, failed) ↦ elim (serves.set_any k s n w l) [
            | inl same ↦ inl (rw (encoded, set, failed, done_or) (ap (values json) same, λ x. cc))
            | inr new ↦ inr (rw (encoded, set) (ap (values json) new ∙ wrote))
          ]
        ]
  ]

  set_other :
      (k : Text) (v : Option V) (d : Duration) (w : W) (j : Text)
      → (k == j) ≡ false
      → holds (set c json k v d w).1 j ≡ holds w j
  unfolding set
  set_other k v d w j o = elim (Result-cases (json.marshal v)) [
    | inr (e, bad) ↦ rw (bad, set) refl
    | inl (s, encoded) ↦
        rw (encoded, set) (ap (reading json) (serves.set_other k s (c.int32 (to_seconds d)) w j o))
  ]

  already_gone : (k : Text) (m : Contents) → m k ≡ none → m ≡ remove k m
  already_gone k m gone = fun_ext λ j. ground (arith, eq_iff k j)

  delete-Effect :
      (k : Text) (w : W)
      → let (r, w') = delete c k w in Effect r (holds w) (assign k none (holds w)) (holds w')
  unfolding delete unless_miss
  delete-Effect k w = elim (Result-cases (c.delete k w).0) [
    | inl (u, done) ↦ inr (
        ap (values json) (serves.delete_done k w done)
        ∙ Decoding.values-remove (decode json) k (view w))
    | inr (e, failed) ↦ elim (serves.delete_any k w) [
      | inr new ↦ inr (ap (values json) new ∙ Decoding.values-remove (decode json) k (view w))
      | inl same ↦ elim (Bool-cases (c.is_cache_miss e)) [
        | inr other ↦ inl (ap (values json) same, rw (failed, unless_miss, other) (λ x. cc))
        | inl missed ↦
            let gone : view w k ≡ none =
              ap (λ (m : Contents). m k) (sym same) ∙ serves.delete_missed k w e failed missed in
            inr (
              ap (values json) (same ∙ already_gone k (view w) gone)
              ∙ Decoding.values-remove (decode json) k (view w))
      ]
    ]
  ]

  set_multi_done :
      (items : Dict Text (Option V)) (d : Duration) (w : W)
      → Counts c d
      → (set_multi c json items d w).0 ≡ ok tt
      → holds (set_multi c json items d w).1 ≡ assign_all (denotes json) items (holds w)
  unfolding set_multi
  set_multi_done [] d w l h = refl
  set_multi_done ((k, v) ∷ items) d w l h = elim (Result-cases (set c json k v d w).0) [
    | inr (e, failed) ↦ absurd (ground arith)
    | inl (u, done) ↦
        rw (done, set_multi)
          (set_multi_done items d (set c json k v d w).1 l (rw (done, set_multi) at h)
            ∙ ap (assign_all (denotes json) items)
                (Effect-done (set c json k v d w).0 (set-Effect k v d w l) done))
  ]

  set_multi_other :
      (items : Dict Text (Option V)) (d : Duration) (w : W) (j : Text)
      → asked j (names items) ≡ false
      → holds (set_multi c json items d w).1 j ≡ holds w j
  unfolding set_multi
  set_multi_other [] d w j o = refl
  set_multi_other ((k, v) ∷ items) d w j o =
      let first = set_other k v d w j (ground arith) in
      elim (Result-cases (set c json k v d w).0) [
        | inr (e, failed) ↦ rw (failed, set_multi) first
        | inl (u, done) ↦
            rw (done, set_multi)
              (set_multi_other items d (set c json k v d w).1 j (ground arith) ∙ first)
      ]

  delete_multi_done :
      (keys : List Text) (w : W)
      → (delete_multi c keys w).0 ≡ ok tt
      → holds (delete_multi c keys w).1 ≡ remove_all keys (holds w)
  unfolding delete_multi
  delete_multi_done [] w h = refl
  delete_multi_done (k ∷ keys) w h = elim (Result-cases (delete c k w).0) [
    | inr (e, failed) ↦ absurd (ground arith)
    | inl (u, done) ↦
        rw (done, delete_multi)
          (delete_multi_done keys (delete c k w).1 (rw (done, delete_multi) at h)
            ∙ ap (remove_all keys) (Effect-done (delete c k w).0 (delete-Effect k w) done))
  ]

  delete_multi_other :
      (keys : List Text) (w : W) (j : Text)
      → asked j keys ≡ false
      → holds (delete_multi c keys w).1 j ≡ holds w j
  unfolding delete_multi
  delete_multi_other [] w j o = refl
  delete_multi_other (k ∷ keys) w j o =
      let first = Effect-other (delete c k w).0 j (delete-Effect k w) (ground arith) in
      elim (Result-cases (delete c k w).0) [
        | inr (e, failed) ↦ rw (failed, delete_multi) first
        | inl (u, done) ↦
            rw (done, delete_multi)
              (delete_multi_other keys (delete c k w).1 j (ground arith) ∙ first)
      ]

  -- Over a Memcached server, `MemcachedCart` does what the interface of a cart promises: its reads
  -- report what is there, its writes that succeed do what they say if Memcached counts their expiration, and no call changes a key that it
  -- does not name. A value comes back as what its JSON denotes. The errors of the encoding are not
  -- those of package carts.
  pub MemcachedCart-Keeps :
      (foreign : (s : Text) (e : Error) → json.unmarshal s ≡ err e → as_not_found e ≡ false)
      (cfg : LockConfig) (retry : Retry W V) (flight : Text → Action W V → Action W V)
      (selected : Selected) (value : Text) (before after : List Beat)
      → Keeps
          (memcached_cart c json cfg retry flight selected value before after)
          (λ w. values json (view w))
          (denotes json)
          (Counts c)
  unfolding get exists get_multi clear done_or
  MemcachedCart-Keeps foreign cfg retry flight selected value before after = record {
    get_keeps = λ k w. ap (values json) (serves.get_keeps k w);
    get_sees = get-Sees foreign;
    exists_keeps = λ k w. ap (values json) (serves.get_keeps k w);
    exists_sees = exists-SeesFlag;
    get_multi_keeps = λ keys w. ap (values json) (serves.get_multi_keeps keys w);
    get_multi_sees = get_multi-SeesAll;
    set_done = λ k v d w l. Effect-done (set c json k v d w).0 (set-Effect k v d w l);
    set_other = set_other;
    delete_done = λ k w. Effect-done (delete c k w).0 (delete-Effect k w);
    delete_other = λ k w j o. Effect-other (delete c k w).0 j (delete-Effect k w) (rw o refl);
    set_multi_done = set_multi_done;
    set_multi_other = set_multi_other;
    delete_multi_done = delete_multi_done;
    delete_multi_other = delete_multi_other;
    clear_done = λ w h. ap (values json) (serves.flush_all_done w (ground arith));
  }
