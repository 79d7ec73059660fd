-- ===== src/Carts/Redis/Keeps.antt =====
-- `RedisCart` keeps the contract over a server that behaves as documented.
use nyro.Base.{
  ℕ, ◌≡◌, ◌∙◌, sym, refl, ap, ◌↔◌, inl, inr, true, false, List, [], ◌∷◌, Option, none, some, arith,
  ltb,
}
use nyro.Base.Duration.{Duration}
use nyro.Base.Text.{Text, bytes, text_eq}
use nyro.Base.Dict.{Dict, asked, asked-All}
use nyro.Errors.{as_not_found, ok, err, mapping, Result-cases}
use nyro.Carts.Json.{Json}
use nyro.Carts.Guard.{LockConfig}
use nyro.Carts.Redis.{
  Client, decode, get, got, get_multi, set, set_multi, delete, delete_multi, exists, counted, clear,
  done_or,
}
use nyro.Carts.Redis.Server
use nyro.Carts.Redis.Server.{Contents, Serves, write, write_all, remove}
use nyro.Carts.Redis.Contents.{
  Spells, Reply-cases, lookup-get_multi_cart, get_multi-Keys, set_multi_all_or_none,
}
use nyro.Carts.Contract.{
  Values, assign, assign_all, remove_all, names, is_some, Sees, SeesFlag, SeesAll, Keeps, Effect,
  Effect-done, Effect-other, assign_all_other, remove_all_other,
}
use nyro.Carts.Contract.Decoding
use nyro.Carts.Contract.Runs.{Always}
use nyro.Adapters.OverRedis.{Run, redis_cart}

module _ {W V : Type 0} (c : Client W) (json : Json V) where
  abbrev pub reading : Option Text → Option (Option V)
  reading = Decoding.reading (decode c json)

  -- What the server holds, decoded.
  abbrev pub values : Contents → Values V
  values = Decoding.values (decode c json)

  -- What a value that is stored comes back as.
  abbrev pub denotes : Option V → Option V
  denotes v = elim (json.marshal v) [ ok s ↦ decode c json s | err _ ↦ v ]

  values-remove_all :
      (keys : List Text) (m : Contents)
      → values (Server.remove_all keys m) ≡ remove_all keys (values m)
  values-remove_all [] m = refl
  values-remove_all (k ∷ keys) m =
      rw (← Decoding.values-remove (decode c json) k m) (values-remove_all keys (remove k m))

  values-write_all :
      (items : Dict Text (Option V)) (args : List (Text × Text)) (m : Contents)
      → Spells json items args
      → values (write_all args m) ≡ assign_all denotes items (values m)
  values-write_all [] [] m h = refl
  values-write_all [] (a ∷ args) m h = absurd h
  values-write_all (i ∷ items) [] m h = absurd h
  values-write_all ((k, v) ∷ items) ((k', s) ∷ args) m (same, encoded, h) =
      values-write_all items args (write k' s m) h
      ∙ ap (assign_all denotes items) (
          Decoding.values-write (decode c json) k' s m
          ∙ ap (λ (x : Option V). assign k' (some x) (values m)) came
          ∙ ap (λ (x : Text). assign x (some (denotes v)) (values m)) (sym same))
    where
      came : decode c json s ≡ denotes v
      came = rw (encoded, denotes) refl

  write_all_other :
      (items : Dict Text (Option V)) (args : List (Text × Text)) (m : Contents) (j : Text)
      → Spells json items args
      → asked j (names items) ≡ false
      → write_all args m j ≡ m j
  write_all_other [] [] m j h o = refl
  write_all_other [] (a ∷ args) m j h o = absurd h
  write_all_other (i ∷ items) [] m j h o = absurd h
  write_all_other ((k, v) ∷ items) ((k', s) ∷ args) m j h o =
      ground (arith, write_all_other items args (write k' s m) j h.2)

  counted_lem : (n : ℕ) (o : Option Text) → (o ≡ none) ↔ (n ≡ 0) → ltb 0 n ≡ is_some (reading o)
  counted_lem n none h = ground (arith, h.0 refl)
  counted_lem n (some s) h = ground (arith, h.1)

module _ {W V : Type 0} (c : Client W) (json : Json V) (view : W → Contents)
    (serves : Serves c view) where
  abbrev holds : W → Values V
  holds w = values c json (view w)

  pub get-Sees : (k : Text) (w : W) → Sees (get c json k w).0 (values c json (view w) k)
  unfolding get got as_not_found
  get-Sees k w = elim (Reply-cases (c.get k w).0) [
    | inl (s, e) ↦ rw (e, got) (ap (reading c json) (serves.get_value k w s e))
    | inr (inl (x, e)) ↦ rw (e, got) (inl (ap (reading c json) (serves.get_nil k w x e)))
    | inr (inr (x, e)) ↦ rw (e, got) (inr (serves.get_failed k w x e))
  ]

  exists-SeesFlag : (k : Text) (w : W) → SeesFlag (exists c json k w).0 (holds w k)
  unfolding exists counted
  exists-SeesFlag k w = elim (Result-cases (c.exists (k ∷ []) w).0) [
    | inr (e, failed) ↦ rw (failed, counted) tt
    | inl (n, counts) ↦
        rw (counts, counted) (counted_lem c json n (view w k) (serves.exists_counts k w n counts))
  ]

  get_multi-SeesAll :
      (keys : List Text) (w : W) → SeesAll keys (get_multi c json keys w).0 (holds w)
  get_multi-SeesAll keys w = elim (lookup-get_multi_cart c json view serves keys w) [
    | inr (e, failed) ↦ rw failed tt
    | inl (d, replied, f) ↦
        let (h, u) =
          get_multi-Keys c json view serves (λ k. asked k keys ≡ true) keys w d
            (asked-All (λ k. asked k keys ≡ true) keys (λ k a. a)) replied in
        rw replied (h, u, f)
  ]

  get_multi_keeps : (keys : List Text) (w : W) → holds (get_multi c json keys w).1 ≡ holds w
  unfolding get_multi
  get_multi_keeps [] w = refl
  get_multi_keeps (k ∷ keys) w = ap (values c json) (serves.mget_keeps (k ∷ keys) w)

  pub set-Effect :
      (k : Text) (v : Option V) (d : Duration) (w : W)
      → let (r, w') = set c json k v d w in
        Effect r
          (values c json (view w))
          (assign k (some (denotes c json v)) (values c json (view w)))
          (values c json (view w'))
  unfolding set done_or
  set-Effect k v d w = elim (Result-cases (json.marshal v)) [
    | inr (e, bad) ↦ inl (rw (bad, set) (refl, λ x. cc))
    | inl (s, encoded) ↦
        let came : decode c json s ≡ denotes c json v = rw (encoded, denotes) refl in
        let wrote =
          Decoding.values-write (decode c json) k s (view w)
          ∙ ap (λ (x : Option V). assign k (some x) (holds w)) came in
        elim (Result-cases (c.set k s d w).0) [
          | inl (u, done) ↦
              inr (rw (encoded, set) (ap (values c json) (serves.set_done k s d w done) ∙ wrote))
          | inr (e, failed) ↦ elim (serves.set_any k s d w) [
            | inl same ↦ inl (rw (encoded, set, failed, done_or) (ap (values c json) same, λ x. cc))
            | inr new ↦ inr (rw (encoded, set) (ap (values c json) new ∙ wrote))
          ]
        ]
  ]

  del-Effect :
      (keys : List Text) (m : Text) (w : W)
      → let (r, w') = mapping (done_or m) (c.del keys w) in
        Effect r (holds w) (remove_all keys (holds w)) (holds w')
  unfolding done_or
  del-Effect keys m w = elim (Result-cases (c.del keys w).0) [
    | inl (n, done) ↦ inr (
        ap (values c json) (serves.del_done keys w n done) ∙ values-remove_all c json keys (view w))
    | inr (e, failed) ↦ elim (serves.del_any keys w) [
      | inl same ↦ inl (ap (values c json) same, rw (failed, done_or) (λ x. cc))
      | inr new ↦ inr (ap (values c json) new ∙ values-remove_all c json keys (view w))
    ]
  ]

  set_multi-Effect :
      (items : Dict Text (Option V)) (again : List Text) (d : Duration) (w : W)
      → let (r, w') = set_multi c json items again d w in
        Effect r (holds w) (assign_all (denotes c json) items (holds w)) (holds w')
  unfolding set_multi
  set_multi-Effect [] again d w = inr refl
  set_multi-Effect (item ∷ items) again d w =
      elim (set_multi_all_or_none c json view serves (item ∷ items) again d w) [
        | inl (same, inl none_given) ↦ cc
        | inl (same, inr failed) ↦ inl (ap (values c json) same, failed)
        | inr (args, spells, wrote) ↦
            inr (
              ap (values c json) wrote
              ∙ values-write_all c json (item ∷ items) args (view w) spells)
      ]

  delete_multi-Effect :
      (keys : List Text) (w : W)
      → let (r, w') = delete_multi c json keys w in
        Effect r (holds w) (remove_all keys (holds w)) (holds w')
  unfolding delete_multi
  delete_multi-Effect [] w = inr refl
  delete_multi-Effect (k ∷ keys) w = del-Effect (k ∷ keys) (bytes "redis del failed") w

  clear_done : (w : W) → (clear c json w).0 ≡ ok tt → holds (clear c json w).1 ≡ λ j. none
  unfolding clear done_or
  clear_done w h = ap (values c json) (serves.flush_all_done w (ground arith))

  -- Over a Redis server, `RedisCart` does what the interface of a cart promises: its reads report what
  -- is there, its writes that succeed do what they say, all of them at once, and no call changes a key
  -- that it does not name. A value comes back as what its JSON denotes.
  pub RedisCart-Keeps :
      (run : Run W V) (cfg : LockConfig)
      → Keeps (redis_cart c json run cfg) (λ w. values c json (view w)) (denotes c json) Always
  unfolding get set delete exists
  RedisCart-Keeps run cfg = record {
    get_keeps = λ k w. ap (values c json) (serves.get_keeps k w);
    get_sees = get-Sees;
    exists_keeps = λ k w. ap (values c json) (serves.exists_keeps (k ∷ []) w);
    exists_sees = exists-SeesFlag;
    get_multi_keeps = get_multi_keeps;
    get_multi_sees = get_multi-SeesAll;
    set_done = λ k v d w l. Effect-done (set c json k v d w).0 (set-Effect k v d w);
    set_other =
        λ k v d w j o. Effect-other (set c json k v d w).0 j (set-Effect k v d w) (rw o refl);
    delete_done = λ k w.
        Effect-done (delete c json k w).0 (del-Effect (k ∷ []) (bytes "redis delete failed") w);
    delete_other = λ k w j o.
        Effect-other (delete c json k w).0 j (del-Effect (k ∷ []) (bytes "redis delete failed") w)
          (rw o refl);
    set_multi_done = λ items d w l.
        Effect-done (set_multi c json items (run.again items) d w).0
          (set_multi-Effect items (run.again items) d w);
    set_multi_other = λ items d w j o.
        Effect-other (set_multi c json items (run.again items) d w).0 j
          (set_multi-Effect items (run.again items) d w)
          (assign_all_other (denotes c json) items (holds w) j o);
    delete_multi_done =
        λ keys w. Effect-done (delete_multi c json keys w).0 (delete_multi-Effect keys w);
    delete_multi_other = λ keys w j o.
        Effect-other (delete_multi c json keys w).0 j (delete_multi-Effect keys w)
          (remove_all_other keys (holds w) j o);
    clear_done = clear_done;
  }
