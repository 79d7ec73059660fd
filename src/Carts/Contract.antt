-- ===== src/Carts/Contract.antt =====
-- carts/cart.go: what a cart promises its clients, as a change to, or a reading of, a function from
-- keys to values. Contract/Runs is about any sequence of calls; Contract/Decoding is the function of
-- a server that holds texts.
pub mod Decoding
pub mod Runs
use nyro.Base.{
  ◌≡◌, ◌≢◌, ◌∙◌, ap, refl, arith, inl, inr, ◌⊎◌, Bool, true, false, List, [], ◌∷◌, Option, none,
  some, if◌then◌else◌, ◌==◌,
}
use nyro.Base.Duration.{Duration}
use nyro.Base.Text.{Text, text_eq}
use nyro.Base.Dict.{Dict, lookup, Keys, Distinct, asked}
use nyro.Errors.{as_not_found, Result, ok, err}
use nyro.Carts.Cart.{Cart}

-- The values under the keys.
abbrev pub Values : Type 0 → Type 0
Values V = Text → Option (Option V)

abbrev pub assign : {V : Type 0} → Text → Option (Option V) → Values V → Values V
assign k x f j = if k == j then x else f j

-- The items one by one, each as what its value comes back as.
abbrev pub assign_all :
    {V : Type 0} → (Option V → Option V) → Dict Text (Option V) → Values V → Values V
assign_all denotes [] f = f
assign_all denotes ((k, v) ∷ items) f = assign_all denotes items (assign k (some (denotes v)) f)

abbrev pub remove_all : {V : Type 0} → List Text → Values V → Values V
remove_all [] f = f
remove_all (k ∷ keys) f = remove_all keys (assign k none f)

abbrev pub is_some : {A : Type 0} → Option A → Bool
is_some none = false
is_some (some a) = true

abbrev pub names : {V : Type 0} → Dict Text (Option V) → List Text
names [] = []
names ((k, v) ∷ items) = k ∷ names items

-- What a read of a key that holds `x` may return: its value, or an error, which is no miss unless the
-- key holds nothing.
abbrev pub Sees : {V : Type 0} → Result (Option V) → Option (Option V) → Type 0
Sees (ok v) x = x ≡ some v
Sees (err e) x = (x ≡ none) ⊎ (as_not_found e ≡ false)

abbrev pub SeesFlag : {V : Type 0} → Result Bool → Option (Option V) → Type 0
SeesFlag (ok b) x = b ≡ is_some x
SeesFlag (err e) x = Unit

-- What a read of several keys may return: each key that was asked for and is there, once, with its
-- value, or an error.
abbrev pub SeesAll : {V : Type 0} → List Text → Result (Dict Text (Option V)) → Values V → Type 0
SeesAll keys (ok d) f =
    Keys (λ k. asked k keys ≡ true) d
    × Distinct d
    × ((j : Text) → lookup j d ≡ (if asked j keys then f j else none))
SeesAll keys (err e) f = Unit

-- `view w` is what the keys hold in the world `w`, and `denotes v` what a stored `v` comes back as.
-- Of a call that fails it is only said which keys it leaves alone, and so of a write whose expiration
-- is not one of `Lasts`, those that the backend can count.
pub record Keeps {W V : Type 0} (cart : Cart W V) (view : W → Values V)
    (denotes : Option V → Option V) (Lasts : Duration → Type 0) : Type 0 where
  pub get_keeps : (k : Text) (w : W) → view (cart.get k w).1 ≡ view w
  pub get_sees : (k : Text) (w : W) → Sees (cart.get k w).0 (view w k)
  pub exists_keeps : (k : Text) (w : W) → view (cart.exists k w).1 ≡ view w
  pub exists_sees : (k : Text) (w : W) → SeesFlag (cart.exists k w).0 (view w k)
  pub get_multi_keeps : (keys : List Text) (w : W) → view (cart.get_multi keys w).1 ≡ view w
  pub get_multi_sees : (keys : List Text) (w : W) → SeesAll keys (cart.get_multi keys w).0 (view w)
  pub set_done :
      (k : Text) (v : Option V) (d : Duration) (w : W)
      → Lasts d
      → (cart.set k v d w).0 ≡ ok tt
      → view (cart.set k v d w).1 ≡ assign k (some (denotes v)) (view w)
  pub set_other :
      (k : Text) (v : Option V) (d : Duration) (w : W) (j : Text)
      → (k == j) ≡ false
      → view (cart.set k v d w).1 j ≡ view w j
  pub delete_done :
      (k : Text) (w : W)
      → (cart.delete k w).0 ≡ ok tt
      → view (cart.delete k w).1 ≡ assign k none (view w)
  pub delete_other :
      (k : Text) (w : W) (j : Text) → (k == j) ≡ false → view (cart.delete k w).1 j ≡ view w j
  pub set_multi_done :
      (items : Dict Text (Option V)) (d : Duration) (w : W)
      → Lasts d
      → (cart.set_multi items d w).0 ≡ ok tt
      → view (cart.set_multi items d w).1 ≡ assign_all denotes items (view w)
  pub set_multi_other :
      (items : Dict Text (Option V)) (d : Duration) (w : W) (j : Text)
      → asked j (names items) ≡ false
      → view (cart.set_multi items d w).1 j ≡ view w j
  pub delete_multi_done :
      (keys : List Text) (w : W)
      → (cart.delete_multi keys w).0 ≡ ok tt
      → view (cart.delete_multi keys w).1 ≡ remove_all keys (view w)
  pub delete_multi_other :
      (keys : List Text) (w : W) (j : Text)
      → asked j keys ≡ false
      → view (cart.delete_multi keys w).1 j ≡ view w j
  pub clear_done : (w : W) → (cart.clear w).0 ≡ ok tt → view (cart.clear w).1 ≡ λ j. none

-- What many operations do: they change nothing and report an error, or they do all.
abbrev pub Effect : {V : Type 0} → Result (Unit {0}) → Values V → Values V → Values V → Type 0
Effect r old new now = ((now ≡ old) × (r ≢ ok tt)) ⊎ (now ≡ new)

pub Effect-done :
    {V : Type 0} (r : Result (Unit {0})) {old new now : Values V}
    → Effect r old new now
    → r ≡ ok tt
    → now ≡ new
Effect-done r (inl (same, failed)) h = absurd (failed h)
Effect-done r (inr done) h = done

pub Effect-other :
    {V : Type 0} (r : Result (Unit {0})) {old new now : Values V} (j : Text)
    → Effect r old new now
    → new j ≡ old j
    → now j ≡ old j
Effect-other {V} r j (inl (same, failed)) h = ap (λ (f : Values V). f j) same
Effect-other {V} r j (inr done) h = ap (λ (f : Values V). f j) done ∙ h

pub assign_all_other :
    {V : Type 0} (denotes : Option V → Option V) (items : Dict Text (Option V)) (f : Values V)
    (j : Text)
    → asked j (names items) ≡ false
    → assign_all denotes items f j ≡ f j
assign_all_other denotes [] f j h = refl
assign_all_other denotes ((k, v) ∷ items) f j h =
    ground (arith, assign_all_other denotes items (assign k (some (denotes v)) f) j)

pub remove_all_other :
    {V : Type 0} (keys : List Text) (f : Values V) (j : Text)
    → asked j keys ≡ false
    → remove_all keys f j ≡ f j
remove_all_other [] f j h = refl
remove_all_other (k ∷ keys) f j h = ground (arith, remove_all_other keys (assign k none f) j)
