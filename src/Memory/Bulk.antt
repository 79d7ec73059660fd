-- ===== src/Memory/Bulk.antt =====
-- `GetMulti`, `SetMulti` and `DeleteMulti`: each key comes with the reading of the clock that its
-- own `Get` or `Set` makes, and a map is listed in the order of its iteration.
use nyro.Base.{
  ◌<◌, ◌≡◌, refl, Bool, false, ◌||◌, List, [], ◌∷◌, Option, none, some, if◌then◌else◌, arith, ◌==◌,
  eq_iff, All,
}
use nyro.Base.Duration.{Time}
use nyro.Base.Text.{Text, text_eq}
use nyro.Base.Dict.{Dict, lookup, insert, lookup-insert}
use nyro.Errors.{sentinel, err_not_found, Result, ok, err}
use nyro.Keys.{Key, key_eq}
use nyro.Options.{Option as CacheOption}
use nyro.Memory.{Adapter, get, set, delete_key, to_key, ttl_of}
use nyro.Memory.Expiry.{get-set, get-delete_key, set-ok, set-config, delete_key-ok}
use nyro.Memory.History.{answer, deadline}

-- Whether a key is among those asked for, and whether some key has the string.
abbrev pub asked : Key → List Key → Bool
asked j [] = false
asked j (k ∷ keys) = k == j || asked j keys

abbrev pub named : Text → List Key → Bool
named s [] = false
named s (k ∷ keys) = to_key k == s || named s keys

abbrev pub at_time : Time → List Key → List (Time × Key)
at_time now [] = []
at_time now (k ∷ keys) = (now, k) ∷ at_time now keys

module _ {V : Type 0} where
  -- `out[k] = v` if the `Get` succeeds.
  note : Key → Result (Option V) → Dict Key (Option V) → Dict Key (Option V)
  note k (ok v) out = insert k v out
  note k (err e) out = out

  get_each : List (Time × Key) → Adapter V → Dict Key (Option V) → Dict Key (Option V)
  get_each [] a out = out
  get_each ((t, k) ∷ keys) a out = get_each keys a (note k (get t k a) out)

  unfoldable pub get_multi : List (Time × Key) → Adapter V → Result (Dict Key (Option V))
  unfolding get_each note
  get_multi keys a = ok (get_each keys a [])

  unfoldable pub set_multi :
      List (Time × Key × Option V) → List CacheOption → Adapter V → Result (Unit {0}) × Adapter V
  set_multi [] options a = (ok tt, a)
  set_multi ((t, k, v) ∷ items) options a =
      let (r, a') = set t k v options a in
      elim r [ ok _ ↦ set_multi items options a' | err e ↦ (err e, a') ]

  unfoldable pub delete_multi : List Key → Adapter V → Result (Unit {0}) × Adapter V
  delete_multi [] a = (ok tt, a)
  delete_multi (k ∷ keys) a =
      let (r, a') = delete_key k a in elim r [ ok _ ↦ delete_multi keys a' | err e ↦ (err e, a') ]

  -- The value of a `Get`, or what stood there before.
  abbrev pub value_or : Option (Option V) → Result (Option V) → Option (Option V)
  value_or before (ok v) = some v
  value_or before (err e) = before

  lookup-note :
      (k j : Key) (r : Result (Option V)) (out : Dict Key (Option V))
      → lookup j (note k r out) ≡ (if k == j then value_or (lookup j out) r else lookup j out)
  unfolding note
  lookup-note k j (ok v) out = lookup-insert k j v out
  lookup-note k j (err e) out = ground arith

  lookup-get_each :
      (now : Time) (j : Key) (keys : List Key) (a : Adapter V) (out : Dict Key (Option V))
      → lookup j (get_each (at_time now keys) a out)
        ≡ (if asked j keys then value_or (lookup j out) (get now j a) else lookup j out)
  unfolding get_each
  lookup-get_each now j [] a out = refl
  lookup-get_each now j (k ∷ keys) a out = ground (
    arith,
    eq_iff k j,
    lookup-note k j (get now k a) out,
    lookup-get_each now j keys a (note k (get now k a) out),
  )

  -- The result of `GetMulti`, all of whose reads fall at one time, holds at each key that was asked
  -- for what a `Get` returns, and nothing at a key that is missing or was not asked for.
  pub lookup-get_multi :
      (now : Time) (j : Key) (keys : List Key) (a : Adapter V)
      → (m : Dict Key (Option V)) × (get_multi (at_time now keys) a ≡ ok m)
        × (lookup j m ≡ (if asked j keys then value_or none (get now j a) else none))
  unfolding get_multi lookup
  lookup-get_multi now j keys a =
      (get_each (at_time now keys) a [], refl, lookup-get_each now j keys a [])

  -- The last item with the string, and the time of its write.
  unfoldable pub last_item : Text → List (Time × Key × Option V) → Option (Time × Option V)
  last_item s [] = none
  last_item s ((t, k, v) ∷ items) = elim (last_item s items) [
    | none ↦ if to_key k == s then some (t, v) else none
    | some found ↦ some found
  ]

  -- `SetMulti` never fails. Afterwards `Get` returns, for a key whose string is that of an item, the
  -- value of the last such item until its deadline, and for any other key what it did before.
  pub get-set_multi :
      (now : Time) (key : Key) (options : List CacheOption) (items : List (Time × Key × Option V))
      (a : Adapter V)
      → All (λ (i : Time × Key × Option V). 0 < i.0) items
      → ((set_multi items options a).0 ≡ ok tt)
        × (get now key (set_multi items options a).1 ≡ elim (last_item (to_key key) items) [
          | none ↦ get now key a
          | some (t, v) ↦ answer now (some (v, deadline t (ttl_of options a.config)))
        ])
  unfolding set_multi last_item answer
  get-set_multi now key options [] a h = (refl, refl)
  get-set_multi now key options ((t, k, v) ∷ items) a h =
      let a' = (set t k v options a).1 in
      let (r, e) = get-set_multi now key options items a' h.1 in
      rw (set-ok t k v options a, set_multi)
        (r, rw e (ground (arith, set-config t k v options a, get-set a k key t now v options h.0)))

  -- `DeleteMulti` never fails, and takes away exactly the keys whose string is that of a given key.
  pub get-delete_multi :
      (now : Time) (j : Key) (keys : List Key) (a : Adapter V)
      → ((delete_multi keys a).0 ≡ ok tt)
        × (get now j (delete_multi keys a).1
            ≡ (if named (to_key j) keys then err (sentinel err_not_found) else get now j a))
  unfolding delete_multi
  get-delete_multi now j [] a = (refl, refl)
  get-delete_multi now j (k ∷ keys) a =
      let (r, e) = get-delete_multi now j keys (delete_key k a).1 in
      rw (delete_key-ok k a, delete_multi) (r, rw e (ground (arith, get-delete_key a k j 0 now)))
