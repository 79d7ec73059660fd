-- ===== src/Carts/Contract/Runs.antt =====
-- What a client sees of a cart that keeps the contract, after any sequence of calls.
use nyro.Base.{
  ◌≡◌, ◌∙◌, ap, refl, ◌⊎◌, inl, inr, Bool, true, false, List, [], ◌∷◌, Option, none, some, arith,
  ◌==◌,
}
use nyro.Base.Duration.{Duration}
use nyro.Base.Text.{Text, text_eq}
use nyro.Base.Dict.{Dict, asked}
use nyro.Errors.{ok}
use nyro.Carts.Cart.{Cart}
use nyro.Carts.Contract.{
  Values, assign, assign_all, remove_all, names, assign_all_other, remove_all_other, Sees, SeesFlag,
  Keeps,
}

pub data Call (V : Type 0) : Type 0 where
  get exists delete : Text → Call V
  get_multi delete_multi : List Text → Call V
  set : Text → Option V → Duration → Call V
  set_multi : Dict Text (Option V) → Duration → Call V
  clear : Call V

-- Whether a call writes the key.
abbrev pub touches : {V : Type 0} → Call V → Text → Bool
touches (get k) j = false
touches (exists k) j = false
touches (get_multi keys) j = false
touches (set k v d) j = k == j
touches (delete k) j = k == j
touches (set_multi items d) j = asked j (names items)
touches (delete_multi keys) j = asked j keys
touches clear j = true

-- The same call on a function.
abbrev pub effect : {V : Type 0} → (Option V → Option V) → Call V → Values V → Values V
effect denotes (get k) f = f
effect denotes (exists k) f = f
effect denotes (get_multi keys) f = f
effect denotes (set k v d) f = assign k (some (denotes v)) f
effect denotes (delete k) f = assign k none f
effect denotes (set_multi items d) f = assign_all denotes items f
effect denotes (delete_multi keys) f = remove_all keys f
effect denotes clear f = λ j. none

unfoldable pub replay : {V : Type 0} → (Option V → Option V) → List (Call V) → Values V → Values V
replay denotes [] f = f
replay denotes (call ∷ calls) f = replay denotes calls (effect denotes call f)

module _ {W V : Type 0} (cart : Cart W V) where
  abbrev pub after : Call V → W → W
  after (get k) w = (cart.get k w).1
  after (exists k) w = (cart.exists k w).1
  after (get_multi keys) w = (cart.get_multi keys w).1
  after (set k v d) w = (cart.set k v d w).1
  after (delete k) w = (cart.delete k w).1
  after (set_multi items d) w = (cart.set_multi items d w).1
  after (delete_multi keys) w = (cart.delete_multi keys w).1
  after clear w = (cart.clear w).1

  -- A call that writes succeeds.
  abbrev pub Done : Call V → W → Type 0
  Done (set k v d) w = (cart.set k v d w).0 ≡ ok tt
  Done (delete k) w = (cart.delete k w).0 ≡ ok tt
  Done (set_multi items d) w = (cart.set_multi items d w).0 ≡ ok tt
  Done (delete_multi keys) w = (cart.delete_multi keys w).0 ≡ ok tt
  Done clear w = (cart.clear w).0 ≡ ok tt
  Done (get k) w = Unit
  Done (exists k) w = Unit
  Done (get_multi keys) w = Unit

  unfoldable pub run : List (Call V) → W → W
  run [] w = w
  run (call ∷ calls) w = run calls (after call w)

  -- Every call that writes the key succeeds.
  abbrev pub Lands : List (Call V) → Text → W → Type 0
  Lands [] j w = Unit
  Lands (call ∷ calls) j w = ((touches call j ≡ false) ⊎ Done call w) × Lands calls j (after call w)

-- The expiration of a call is one that the backend can count.
abbrev pub Counted : {V : Type 0} → (Duration → Type 0) → Call V → Type 0
Counted Lasts (set k v d) = Lasts d
Counted Lasts (set_multi items d) = Lasts d
Counted Lasts _ = Unit

-- Every call that writes the key has an expiration that the backend can count.
abbrev pub AllCounted : {V : Type 0} → (Duration → Type 0) → List (Call V) → Text → Type 0
AllCounted Lasts [] j = Unit
AllCounted Lasts (call ∷ calls) j =
    ((touches call j ≡ false) ⊎ Counted Lasts call) × AllCounted Lasts calls j

-- Where the backend can count every expiration.
abbrev pub Always : Duration → Type 0
Always d = Unit

Counted-Always : {V : Type 0} (call : Call V) → Counted Always call
Counted-Always (get k) = tt
Counted-Always (exists k) = tt
Counted-Always (get_multi keys) = tt
Counted-Always (set k v d) = tt
Counted-Always (delete k) = tt
Counted-Always (set_multi items d) = tt
Counted-Always (delete_multi keys) = tt
Counted-Always clear = tt

pub AllCounted-Always : {V : Type 0} (calls : List (Call V)) (j : Text) → AllCounted Always calls j
AllCounted-Always [] j = tt
AllCounted-Always (call ∷ calls) j = (inr (Counted-Always call), AllCounted-Always calls j)

-- What an effect makes of a key depends on that key.
module _ {V : Type 0} (denotes : Option V → Option V) where
  assign_all_local :
      (items : Dict Text (Option V)) (f g : Values V) (j : Text)
      → f j ≡ g j
      → assign_all denotes items f j ≡ assign_all denotes items g j
  assign_all_local [] f g j h = h
  assign_all_local ((k, v) ∷ items) f g j h =
      assign_all_local items (assign k (some (denotes v)) f) (assign k (some (denotes v)) g) j
        (ground arith)

  remove_all_local :
      {V : Type 0} (keys : List Text) (f g : Values V) (j : Text)
      → f j ≡ g j
      → remove_all keys f j ≡ remove_all keys g j
  remove_all_local [] f g j h = h
  remove_all_local (k ∷ keys) f g j h =
      remove_all_local keys (assign k none f) (assign k none g) j (ground arith)

  effect_local :
      (call : Call V) (f g : Values V) (j : Text)
      → f j ≡ g j
      → effect denotes call f j ≡ effect denotes call g j
  effect_local (get k) f g j h = h
  effect_local (exists k) f g j h = h
  effect_local (get_multi keys) f g j h = h
  effect_local (set k v d) f g j h = ground arith
  effect_local (delete k) f g j h = ground arith
  effect_local (set_multi items d) f g j h = assign_all_local items f g j h
  effect_local (delete_multi keys) f g j h = remove_all_local keys f g j h
  effect_local clear f g j h = refl

  replay_local :
      (calls : List (Call V)) (f g : Values V) (j : Text)
      → f j ≡ g j
      → replay denotes calls f j ≡ replay denotes calls g j
  unfolding replay
  replay_local [] f g j h = h
  replay_local (call ∷ calls) f g j h =
      replay_local calls (effect denotes call f) (effect denotes call g) j
        (effect_local call f g j h)

module _ {W V : Type 0} {cart : Cart W V} {view : W → Values V} {denotes : Option V → Option V}
    {Lasts : Duration → Type 0} (keeps : Keeps cart view denotes Lasts) where
  untouched :
      (call : Call V) (w : W) (j : Text)
      → touches call j ≡ false
      → view (after cart call w) j ≡ effect denotes call (view w) j
  untouched (get k) w j h = ap (λ (f : Values V). f j) (keeps.get_keeps k w)
  untouched (exists k) w j h = ap (λ (f : Values V). f j) (keeps.exists_keeps k w)
  untouched (get_multi keys) w j h = ap (λ (f : Values V). f j) (keeps.get_multi_keeps keys w)
  untouched (set k v d) w j h = rw (keeps.set_other k v d w j h, h) refl
  untouched (delete k) w j h = rw (keeps.delete_other k w j h, h) refl
  untouched (set_multi items d) w j h =
      ground (arith, keeps.set_multi_other items d w j h, assign_all_other denotes items (view w) j)
  untouched (delete_multi keys) w j h =
      ground (arith, keeps.delete_multi_other keys w j h, remove_all_other keys (view w) j)
  untouched clear w j h = cc

  applied :
      (call : Call V) (w : W)
      → Counted Lasts call
      → Done cart call w
      → view (after cart call w) ≡ effect denotes call (view w)
  applied (get k) w l h = keeps.get_keeps k w
  applied (exists k) w l h = keeps.exists_keeps k w
  applied (get_multi keys) w l h = keeps.get_multi_keeps keys w
  applied (set k v d) w l h = keeps.set_done k v d w l h
  applied (delete k) w l h = keeps.delete_done k w h
  applied (set_multi items d) w l h = keeps.set_multi_done items d w l h
  applied (delete_multi keys) w l h = keeps.delete_multi_done keys w h
  applied clear w l h = keeps.clear_done w h

  -- A key holds what the calls make of a function, if those that write it succeed.
  pub run-replay :
      (calls : List (Call V)) (j : Text) (w : W)
      → AllCounted Lasts calls j
      → Lands cart calls j w
      → view (run cart calls w) j ≡ replay denotes calls (view w) j
  unfolding run replay
  run-replay [] j w l h = refl
  run-replay (call ∷ calls) j w l h =
      run-replay calls j (after cart call w) l.1 h.1
      ∙ replay_local denotes calls (view (after cart call w)) (effect denotes call (view w)) j
          (elim h.0 [
            | inl other ↦ untouched call w j other
            | inr done ↦ elim l.0 [
              | inl other ↦ untouched call w j other
              | inr lasts ↦ ap (λ (f : Values V). f j) (applied call w lasts done)
            ]
          ])

  -- After any sequence of calls of a cart, of which those that write the key succeed while others may
  -- fail, and have an expiration that the backend can count, `Get` and `Exists` see what the same calls make of a function from keys to values: `Get`
  -- returns that value or fails, and does not report a miss where there is one.
  pub reads_replayed :
      (calls : List (Call V)) (j : Text) (w : W)
      → AllCounted Lasts calls j
      → Lands cart calls j w
      → let w' = run cart calls w in
        Sees (cart.get j w').0 (replay denotes calls (view w) j)
        × SeesFlag (cart.exists j w').0 (replay denotes calls (view w) j)
  reads_replayed calls j w l h =
      let e = run-replay calls j w l h in
      rw (← e) (keeps.get_sees j (run cart calls w), keeps.exists_sees j (run cart calls w))
