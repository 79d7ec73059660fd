-- ===== src/Carts/Redis/Contents.antt =====
-- What `RedisCart` stores and reads back, over a server that behaves as documented.
use nyro.Base.{
  ◌≡◌, ◌≢◌, ◌∙◌, refl, ◌⊎◌, inl, inr, List, [], ◌∷◌, map, Option, none, some, if◌then◌else◌, arith,
  eq_iff, eq_self, Bool-cases, Option-cases, All, true,
}
use nyro.Base.Duration.{Duration, is_positive}
use nyro.Base.Text.{Text, bytes, text_eq}
use nyro.Base.Dict.{
  Dict, lookup, insert, lookup-insert, Keys, insert-Keys, Distinct, insert-Distinct, asked,
}
use nyro.Errors.{Error, wrap, Result, ok, err, Result-cases}
use nyro.Carts.Json.{Json, Encodes}
use nyro.Carts.Redis.{
  Client, Reply, value, nil, failure, Slot, absent, odd, present, get, got, set, decode, get_multi,
  collect, collected, set_multi, marshal_all, stored, expire_all, done_or,
}
use nyro.Carts.Redis.Server.{Contents, Serves, write, write_all, slot_of}

pub Reply-cases :
    (r : Reply)
    → ((s : Text) × (r ≡ value s)) ⊎ ((e : Error) × (r ≡ nil e)) ⊎ ((e : Error) × (r ≡ failure e))
Reply-cases (value s) = inl (s, refl)
Reply-cases (nil e) = inr (inl (e, refl))
Reply-cases (failure e) = inr (inr (e, refl))

set_done_of : (r : Result (Unit {0})) → done_or (bytes "redis set failed") r ≡ ok tt → r ≡ ok tt
unfolding done_or
set_done_of r h = ground arith

-- The pairs of `MSET` spell the items, in order.
abbrev pub Spells : {V : Type 0} → Json V → Dict Text (Option V) → List (Text × Text) → Type 0
Spells json [] [] = Unit
Spells json [] (a ∷ args) = ⊥
Spells json (i ∷ items) [] = ⊥
Spells json ((k, v) ∷ items) ((k', s) ∷ args) =
    (k ≡ k') × (json.marshal v ≡ ok s) × Spells json items args

module _ {W V : Type 0} (c : Client W) (json : Json V) where
  -- What a look-up of several keys finds at `j`.
  abbrev pub found_at : Contents → Text → Option (Option V) → Option (Option V)
  found_at m j before = elim (m j) [ none ↦ before | some s ↦ some (decode c json s) ]

module _ {W V : Type 0} (c : Client W) (json : Json V) (view : W → Contents)
    (serves : Serves c view) where
  -- After a successful `Set` the key holds the encoded value and every other key what it held. A
  -- `Get` that follows returns the decoded value or fails with the client; it never misses.
  pub get-set_cart :
      (key s : Text) (v v' : Option V) (expiration : Duration) (w : W)
      → Encodes json v s v'
      → (set c json key v expiration w).0 ≡ ok tt
      → let w' = (set c json key v expiration w).1 in
        (view w' ≡ write key s (view w))
        × (((get c json key w').0 ≡ ok v')
            ⊎ ((e : Error) × ((get c json key w').0 ≡ err (wrap (bytes "redis get failed") e))))
  unfolding set get got done_or decode
  get-set_cart key s v v' expiration w (encoded, decoded) h = rw (encoded, set) (wrote, reply)
    where
      w' : W
      w' = (c.set key s expiration w).1

      wrote : view w' ≡ write key s (view w)
      wrote = serves.set_done key s expiration w (set_done_of _ (rw (encoded, set) at h))

      holds_s : view w' key ≡ some s
      holds_s = rw wrote (rw (eq_self key))

      reply :
          ((get c json key w').0 ≡ ok v')
          ⊎ ((e : Error) × ((get c json key w').0 ≡ err (wrap (bytes "redis get failed") e)))
      reply = elim (Reply-cases (c.get key w').0) [
        | inl (s', e) ↦
            let same : s' ≡ s = ground (arith, serves.get_value key w' s' e, holds_s) in
            inl (rw (e, got) (rw same (rw (decoded, decode))))
        | inr (inl (x, e)) ↦ absurd (ground (arith, serves.get_nil key w' x e, holds_s))
        | inr (inr (x, e)) ↦ inr (x, rw (e, got))
      ]

  -- The result of the loop of `GetMulti` has each key once, and only keys that were asked for.
  collect-Keys {μ} :
      (P : Text → Type μ) (keys : List Text) (slots : List Slot) (out d : Dict Text (Option V))
      → All P keys
      → Keys P out
      → Distinct out
      → collect c json keys slots out ≡ ok d
      → Keys P d × Distinct d
  unfolding collect
  collect-Keys P [] slots out d a k u h = let e : out ≡ d = ground arith in rw (← e) (k, u)
  collect-Keys P (key ∷ keys) [] out d a k u h = cc
  collect-Keys P (key ∷ keys) (absent ∷ slots) out d a k u h =
      collect-Keys P keys slots out d a.1 k u h
  collect-Keys P (key ∷ keys) (odd ∷ slots) out d a k u h =
      collect-Keys P keys slots out d a.1 k u h
  collect-Keys P (key ∷ keys) (present s ∷ slots) out d a k u h =
      collect-Keys P keys slots (insert key (decode c json s) out) d a.1
        (insert-Keys P key (decode c json s) out a.0 k)
        (insert-Distinct key (decode c json s) out u) h

  pub get_multi-Keys {μ} :
      (P : Text → Type μ) (keys : List Text) (w : W) (d : Dict Text (Option V))
      → All P keys
      → (get_multi c json keys w).0 ≡ ok d
      → Keys P d × Distinct d
  unfolding get_multi collected
  get_multi-Keys P [] w d a h = let e : [] ≡ d = ground arith in rw (← e) (tt, tt)
  get_multi-Keys P (key ∷ keys) w d a h = elim (Result-cases (c.mget (key ∷ keys) w).0) [
    | inr (e, failed) ↦ absurd (ground arith)
    | inl (slots, replied) ↦
        collect-Keys P (key ∷ keys) slots [] d a tt tt (rw (replied, get_multi, collected) at h)
  ]

  collect_lem :
      (m : Contents) (keys : List Text) (out : Dict Text (Option V))
      → (d : Dict Text (Option V)) × (collect c json keys (map (λ k. slot_of (m k)) keys) out
          ≡ ok d)
        × ((j : Text)
            → lookup j d
              ≡ (if asked j keys then found_at c json m j (lookup j out) else lookup j out))
  unfolding collect
  collect_lem m [] out = (out, refl, λ j. refl)
  collect_lem m (key ∷ keys) out = elim (Option-cases (m key)) [
    | inl gone ↦
        let (d, e, f) = collect_lem m keys out in
        (d, rw gone e, λ j. ground (arith, f j, eq_iff key j))
    | inr (s, here) ↦
        let (d, e, f) = collect_lem m keys (insert key (decode c json s) out) in
        (
          d,
          rw here e,
          λ j. ground (arith, f j, eq_iff key j, lookup-insert key j (decode c json s) out),
        )
  ]

  -- `GetMulti` fails only with the client, wrapped: it never reads past the reply. Its result
  -- holds, at each key asked for, what the server holds there, decoded, and nothing elsewhere.
  pub lookup-get_multi_cart :
      (keys : List Text) (w : W)
      → ((d : Dict Text (Option V)) × ((get_multi c json keys w).0 ≡ ok d)
          × ((j : Text)
              → lookup j d ≡ (if asked j keys then found_at c json (view w) j none else none)))
        ⊎ ((e : Error) × ((get_multi c json keys w).0 ≡ err (wrap (bytes "redis mget failed") e)))
  unfolding get_multi collected lookup
  lookup-get_multi_cart [] w = inl ([], refl, λ j. refl)
  lookup-get_multi_cart (key ∷ keys) w = elim (Result-cases (c.mget (key ∷ keys) w).0) [
    | inr (e, failed) ↦ inr (e, rw failed)
    | inl (slots, replied) ↦
        let (d, e, f) = collect_lem (view w) (key ∷ keys) [] in
        inl (d, rw (replied, serves.mget_reads (key ∷ keys) w slots replied) e, f)
  ]

  marshal_all_lem :
      (items : Dict Text (Option V)) (args : List (Text × Text))
      → marshal_all c json items ≡ ok args
      → Spells json items args
  unfolding marshal_all
  marshal_all_lem [] args h = let e : [] ≡ args = ground arith in rw (← e) tt
  marshal_all_lem ((k, v) ∷ items) args h = elim (Result-cases (json.marshal v)) [
    | inr (e, bad) ↦ absurd (ground arith)
    | inl (s, encoded) ↦ elim (Result-cases (marshal_all c json items)) [
      | inr (e, bad) ↦ absurd (ground arith)
      | inl (rest, spelled) ↦
          let e : (k, s) ∷ rest ≡ args = ground arith in
          rw (← e) (refl, encoded, marshal_all_lem items rest spelled)
    ]
  ]

  expire_all_keeps :
      (keys : List Text) (d : Duration) (w : W)
      → is_positive d ≡ true
      → view (expire_all c json keys d w).1 ≡ view w
  unfolding expire_all
  expire_all_keeps [] d w h = refl
  expire_all_keeps (k ∷ keys) d w h = elim (Result-cases (c.expire k d w).0) [
    | inr (e, failed) ↦ rw (failed, expire_all) (serves.expire_keeps k d w h)
    | inl (r, set_) ↦
        rw (set_, expire_all)
          (expire_all_keeps keys d (c.expire k d w).1 h ∙ serves.expire_keeps k d w h)
  ]

  stored_keeps :
      (keys : List Text) (d : Duration) (w : W) → view (stored c json keys d (ok tt, w)).1 ≡ view w
  unfolding stored
  stored_keeps keys d w = elim (Bool-cases (is_positive d)) [
    | inl timed ↦ rw timed (expire_all_keeps keys d w timed)
    | inr always ↦ rw always
  ]

  -- `SetMulti` writes all of its items or none, whatever fails, and all of them if it succeeds: it
  -- encodes every value before the one command that writes.
  pub set_multi_all_or_none :
      (items : Dict Text (Option V)) (again : List Text) (d : Duration) (w : W)
      → let (r, w') = set_multi c json items again d w in
        ((view w' ≡ view w) × ((items ≡ []) ⊎ (r ≢ ok tt)))
        ⊎ ((args : List (Text × Text)) × Spells json items args
            × (view w' ≡ write_all args (view w)))
  unfolding set_multi stored
  set_multi_all_or_none [] again d w = inl (refl, inl refl)
  set_multi_all_or_none (item ∷ items) again d w =
      elim (Result-cases (marshal_all c json (item ∷ items))) [
        | inr (e, bad) ↦ inl (rw (bad, set_multi) (refl, inr (λ x. cc)))
        | inl (args, spelled) ↦
            let spells = marshal_all_lem (item ∷ items) args spelled in
            elim (Result-cases (c.mset args w).0) [
              | inl (u, written) ↦ inr (
                args,
                spells,
                rw (spelled, set_multi, written)
                    (stored_keeps again d (c.mset args w).1 ∙ serves.mset_done args w written),
              )
              | inr (e, failed) ↦ elim (serves.mset_any args w) [
                | inl same ↦ inl (rw (spelled, set_multi, failed) (same, inr (λ x. cc)))
                | inr wrote ↦ inr (args, spells, rw (spelled, set_multi, failed) wrote)
              ]
            ]
      ]
