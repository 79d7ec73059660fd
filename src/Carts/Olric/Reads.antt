-- ===== src/Carts/Olric/Reads.antt =====
-- What the keys of `OlricCart` hold, and what its reads see of it, over a grid that behaves as
-- documented.
use nyro.Base.{
  ◌≡◌, ◌∙◌, subst, refl, ap, sym, inl, inr, true, false, List, [], ◌∷◌, Option, none, some,
  if◌then◌else◌, arith, eq_iff, Bool-cases, All,
}
use nyro.Base.Duration.{Duration}
use nyro.Base.Text.{Text, text_eq}
use nyro.Base.Dict.{
  Dict, lookup, insert, lookup-insert, Keys, insert-Keys, Distinct, insert-Distinct, asked,
  asked-All,
}
use nyro.Errors.{Error, as_not_found, not_found_with_cause, ok, err, Result-cases}
use nyro.Carts.Contract.{Values, assign, remove_all, is_some, Sees, SeesFlag, SeesAll, Effect}
use nyro.Carts.Olric.{
  Client, OlricCart, in_world, get, got, scanned, exists, exists_read, get_each, get_multi,
}

-- The documented behaviour of a map, while no key expires. `view d w` is what the map holds, and a
-- value that is put is scanned as what it denotes. No error of the client is one of package carts.
pub record Serves {W D L V : Type 0} (c : Client W D L V) (view : D → W → Values V)
    (denotes : Option V → Option V) : Type 0 where
  pub get_keeps : (d : D) (k : Text) (w : W) → view d (c.get d k w).1 ≡ view d w
  pub get_found :
      (d : D) (k : Text) (w : W) (v : Option V) → (c.get d k w).0 ≡ ok (ok v) → view d w k ≡ some v
  pub get_unscanned :
      (d : D) (k : Text) (w : W) (e : Error)
      → (c.get d k w).0 ≡ ok (err e)
      → (as_not_found e ≡ false) × (is_some (view d w k) ≡ true)
  pub get_missed :
      (d : D) (k : Text) (w : W) (e : Error)
      → (c.get d k w).0 ≡ err e
      → c.is_key_not_found e ≡ true
      → view d w k ≡ none
  pub get_failed :
      (d : D) (k : Text) (w : W) (e : Error)
      → (c.get d k w).0 ≡ err e
      → c.is_key_not_found e ≡ false
      → as_not_found e ≡ false
  pub put_effect :
      (d : D) (k : Text) (v : Option V) (ttl : Duration) (w : W)
      → let (r, w') = c.put d k v ttl w in
        Effect r (view d w) (assign k (some (denotes v)) (view d w)) (view d w')
  pub delete_effect :
      (d : D) (keys : List Text) (w : W)
      → let (r, w') = c.delete d keys w in
        Effect r (view d w) (remove_all keys (view d w)) (view d w')
  pub destroyed :
      (d d' : D) (name : Text) (w : W)
      → (c.destroy d w).0 ≡ ok tt
      → (c.new_dmap name (c.destroy d w).1).0 ≡ ok d'
      → view d' (c.new_dmap name (c.destroy d w).1).1 ≡ λ k. none

module _ {W D L V : Type 0} (c : Client W D L V) (view : D → W → Values V)
    (denotes : Option V → Option V) (serves : Serves c view denotes) where
  -- What the keys of a cart hold.
  abbrev pub holds : OlricCart W D L → Values V
  holds s = view s.dmap s.world

  pub get_keeps : (k : Text) (s : OlricCart W D L) → holds (get c k s).1 ≡ holds s
  unfolding get in_world
  get_keeps k s = serves.get_keeps s.dmap k s.world

  pub get-Sees : (k : Text) (s : OlricCart W D L) → Sees (get c k s).0 (holds s k)
  unfolding get got scanned in_world as_not_found not_found_with_cause
  get-Sees k s = elim (Result-cases (c.get s.dmap k s.world).0) [
    | inl (ok v, found) ↦ rw (found, got, scanned) (serves.get_found s.dmap k s.world v found)
    | inl (err e, odd) ↦
        rw (odd, got, scanned) (inr (serves.get_unscanned s.dmap k s.world e odd).0)
    | inr (e, failed) ↦ elim (Bool-cases (c.is_key_not_found e)) [
      | inl missed ↦
          rw (failed, got, missed) (inl (serves.get_missed s.dmap k s.world e failed missed))
      | inr other ↦
          rw (failed, got, other) (inr (serves.get_failed s.dmap k s.world e failed other))
    ]
  ]

  pub exists_keeps : (k : Text) (s : OlricCart W D L) → holds (exists c k s).1 ≡ holds s
  unfolding exists in_world
  exists_keeps k s = serves.get_keeps s.dmap k s.world

  pub exists-SeesFlag : (k : Text) (s : OlricCart W D L) → SeesFlag (exists c k s).0 (holds s k)
  unfolding exists exists_read in_world
  exists-SeesFlag k s = elim (Result-cases (c.get s.dmap k s.world).0) [
    | inl (ok v, found) ↦
        rw (found, exists_read)
          (ap (λ (o : Option (Option V)). is_some o)
            (sym (serves.get_found s.dmap k s.world v found)))
    | inl (err e, odd) ↦ rw (odd, exists_read) (sym (serves.get_unscanned s.dmap k s.world e odd).1)
    | inr (e, failed) ↦ elim (Bool-cases (c.is_key_not_found e)) [
      | inl missed ↦
          rw (failed, exists_read, missed)
            (ap (λ (o : Option (Option V)). is_some o)
              (sym (serves.get_missed s.dmap k s.world e failed missed)))
      | inr other ↦ rw (failed, exists_read, other) tt
    ]
  ]

  pub get_each_keeps :
      (keys : List Text) (out : Dict Text (Option V)) (s : OlricCart W D L)
      → holds (get_each c keys out s).1 ≡ holds s
  unfolding get_each
  get_each_keeps [] out s = refl
  get_each_keeps (key ∷ keys) out s =
      let s' = (get c key s).1 in
      elim (Result-cases (get c key s).0) [
        | inl (v, hit) ↦
            rw (hit, get_each) (get_each_keeps keys (insert key v out) s' ∙ get_keeps key s)
        | inr (e, failed) ↦ elim (Bool-cases (as_not_found e)) [
          | inl missed ↦
              rw (failed, get_each, missed) (get_each_keeps keys out s' ∙ get_keeps key s)
          | inr other ↦ rw (failed, get_each, other) (get_keeps key s)
        ]
      ]

  get_each-Keys :
      (P : Text → Type 0) (keys : List Text) (out d : Dict Text (Option V)) (s : OlricCart W D L)
      → All P keys
      → Keys P out
      → Distinct out
      → (get_each c keys out s).0 ≡ ok d
      → Keys P d × Distinct d
  unfolding get_each
  get_each-Keys P [] out d s a k u h = let e : out ≡ d = ground arith in rw (← e) (k, u)
  get_each-Keys P (key ∷ keys) out d s a k u h =
      let s' = (get c key s).1 in
      elim (Result-cases (get c key s).0) [
        | inl (v, hit) ↦
            get_each-Keys P keys (insert key v out) d s' a.1 (insert-Keys P key v out a.0 k)
              (insert-Distinct key v out u) (rw (hit, get_each) at h)
        | inr (e, failed) ↦ elim (Bool-cases (as_not_found e)) [
          | inl missed ↦ get_each-Keys P keys out d s' a.1 k u (rw (failed, get_each, missed) at h)
          | inr other ↦ absurd (ground arith)
        ]
      ]

  abbrev or_else : Option (Option V) → Option (Option V) → Option (Option V)
  or_else none before = before
  or_else (some v) before = some v

  lookup-get_each :
      (keys : List Text) (out d : Dict Text (Option V)) (s : OlricCart W D L) (j : Text)
      → (get_each c keys out s).0 ≡ ok d
      → lookup j d ≡ (if asked j keys then or_else (holds s j) (lookup j out) else lookup j out)
  unfolding get_each
  lookup-get_each [] out d s j h = ground arith
  lookup-get_each (key ∷ keys) out d s j h =
      let s' = (get c key s).1 in
      let same : holds s' j ≡ holds s j = ap (λ (f : Values V). f j) (get_keeps key s) in
      elim (Result-cases (get c key s).0) [
        | inl (v, hit) ↦
            let seen : holds s key ≡ some v =
              subst (λ r. Sees r (holds s key)) hit (get-Sees key s) in
            ground (
              arith,
              lookup-get_each keys (insert key v out) d s' j (rw (hit, get_each) at h),
              lookup-insert key j v out,
              eq_iff key j,
            )
        | inr (e, failed) ↦ elim (Bool-cases (as_not_found e)) [
          | inr other ↦ absurd (ground arith)
          | inl missed ↦ elim (subst (λ r. Sees r (holds s key)) failed (get-Sees key s)) [
            | inr other ↦ absurd (ground arith)
            | inl gone ↦ ground (
              arith,
              lookup-get_each keys out d s' j (rw (failed, get_each, missed) at h),
              eq_iff key j,
            )
          ]
        ]
      ]

  pub get_multi-SeesAll :
      (keys : List Text) (s : OlricCart W D L) → SeesAll keys (get_multi c keys s).0 (holds s)
  unfolding get_multi lookup
  get_multi-SeesAll keys s = elim (Result-cases (get_each c keys [] s).0) [
    | inr (e, failed) ↦ rw failed tt
    | inl (d, replied) ↦
        let (h, u) =
          get_each-Keys (λ k. asked k keys ≡ true) keys [] d s
            (asked-All (λ k. asked k keys ≡ true) keys (λ k a. a)) tt tt replied in
        rw replied (
          h,
          u,
          λ j.
              lookup-get_each keys [] d s j replied
              ∙ ap (λ (x : Option (Option V)). if asked j keys then x else none)
                  (plain (holds s j)),
        )
  ]
    where
      plain : (o : Option (Option V)) → or_else o none ≡ o
      plain none = refl
      plain (some v) = refl
