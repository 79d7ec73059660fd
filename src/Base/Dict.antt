-- ===== src/Base/Dict.antt =====
-- Go maps as association lists. The order of a list is one that `range` may take.
use mathlib.Core.Path.{◌≡◌, refl}
use mathlib.Core.List.{List, [], ◌∷◌}
use mathlib.Core.Option.{Option, none, some}
use native.Mathlib.Omega.{arith}
use mathlib.Core.Logic.{inl, inr}
use mathlib.Core.Bool.{Bool, true, false, ◌||◌}
use nyro.Base.Tests.{if◌then◌else◌, Eq, ◌==◌, eq_iff, eq_self, Bool-cases}
use nyro.Base.Lists.{All}

abbrev pub Dict {ℓ κ} : Type ℓ → Type κ → Type (ℓ ⊔ κ)
Dict K V = List (K × V)

or_true : (b : Bool) → (b || true) ≡ true
or_true true = refl
or_true false = refl

-- Whether a key is in a list.
abbrev pub asked {κ} : {K : Type κ} ⦃e : Eq K⦄ → K → List K → Bool
asked j [] = false
asked j (k ∷ keys) = k == j || asked j keys

pub asked-All {κ μ} :
    {K : Type κ} ⦃e : Eq K⦄ (P : K → Type μ) (l : List K)
    → ((x : K) → asked x l ≡ true → P x)
    → All P l
asked-All P [] h = tt
asked-All P (y ∷ l) h =
    (h y (rw (eq_self y) refl), asked-All P l (λ x a. h x (rw a (or_true (y == x)))))

module _ {ℓ κ} {K : Type ℓ} {V : Type κ} ⦃e : Eq K⦄ where
  -- `v, ok := m[k]`
  unfoldable pub lookup : K → Dict K V → Option V
  lookup k [] = none
  lookup k ((j, v) ∷ m) = if j == k then some v else lookup k m

  -- `m[k] = v`
  unfoldable pub insert : K → V → Dict K V → Dict K V
  insert k v [] = (k, v) ∷ []
  insert k v ((j, w) ∷ m) = if j == k then (k, v) ∷ m else (j, w) ∷ insert k v m

  -- `delete(m, k)`
  unfoldable pub delete : K → Dict K V → Dict K V
  delete k [] = []
  delete k ((j, w) ∷ m) = if j == k then delete k m else (j, w) ∷ delete k m

  -- A write is read back at its key, and only there.
  pub lookup-insert :
      (k j : K) (v : V) (m : Dict K V)
      → lookup j (insert k v m) ≡ (if k == j then some v else lookup j m)
  unfolding lookup insert
  lookup-insert key other new [] = refl
  lookup-insert key other new ((here, old) ∷ rest) = ground (
    arith,
    lookup-insert key other new rest,
    eq_iff here key,
    eq_iff key other,
    eq_iff here other,
  )

  pub lookup-delete :
      (k j : K) (m : Dict K V) → lookup j (delete k m) ≡ (if k == j then none else lookup j m)
  unfolding lookup delete
  lookup-delete key other [] = ground arith
  lookup-delete key other ((here, old) ∷ rest) =
      ground
        (arith, lookup-delete key other rest, eq_iff here key, eq_iff key other, eq_iff here other)

  -- No key stands twice.
  abbrev pub Distinct : Dict K V → Type κ
  Distinct [] = Unit
  Distinct ((k, v) ∷ m) = (lookup k m ≡ none) × Distinct m

  pub insert-Distinct : (k : K) (v : V) (m : Dict K V) → Distinct m → Distinct (insert k v m)
  unfolding lookup insert
  insert-Distinct k v [] d = (refl, tt)
  insert-Distinct k v ((j, w) ∷ m) d = elim (Bool-cases (j == k)) [
    | inl same ↦ rw same (rw (← (eq_iff j k).0 same) d)
    | inr other ↦ rw other (
      rw (lookup-insert k j v m) (ground (arith, eq_iff k j, eq_iff j k)),
      insert-Distinct k v m d.1,
    )
  ]

  pub delete-Distinct : (k : K) (m : Dict K V) → Distinct m → Distinct (delete k m)
  unfolding lookup delete
  delete-Distinct k [] d = tt
  delete-Distinct k ((j, w) ∷ m) d = elim (Bool-cases (j == k)) [
    | inl same ↦ rw same (delete-Distinct k m d.1)
    | inr other ↦
        rw other (
          rw (lookup-delete k j m) (ground (arith, eq_iff k j, eq_iff j k)),
          delete-Distinct k m d.1,
        )
  ]

  -- The keys that a map has.
  abbrev pub Keys {μ} : (K → Type μ) → Dict K V → Type μ
  Keys P [] = Unit
  Keys P ((k, v) ∷ m) = P k × Keys P m

  pub insert-Keys {μ} :
      (P : K → Type μ) (k : K) (v : V) (m : Dict K V) → P k → Keys P m → Keys P (insert k v m)
  unfolding insert
  insert-Keys P k v [] p h = (p, tt)
  insert-Keys P k v ((j, w) ∷ m) p h = elim (Bool-cases (j == k)) [
    | inl same ↦ rw same (p, h.1)
    | inr other ↦ rw other (h.0, insert-Keys P k v m p h.1)
  ]

  -- A run of writes: the last binding of a key is the one that is found.
  unfoldable pub insert_all : Dict K V → Dict K V → Dict K V
  insert_all [] m = m
  insert_all ((k, v) ∷ l) m = insert_all l (insert k v m)
