-- ===== src/Common/Sorting.antt =====
-- SQL's ORDER BY as insertion sort.
use Prim.Native.Nat.{suc, ◌+◌}
use mathlib.Core.Path.{◌≡◌, refl}
use mathlib.Core.Bool.{Bool, true, false}
use mathlib.Core.List.{List, [], ◌∷◌}
use native.Mathlib.Omega.{arith}
use mathlib.Core.Logic.{◌⊎◌, inl, inr}
use oppa.Common.Tests.{if◌then◌else◌, Bool-cases}
use oppa.Common.Lists.{length, All}
use oppa.Common.Counting.{count}
use oppa.Common.Everywhere.{In}

module _ {ℓ} {A : Type ℓ} (le : A → A → Bool) where
  pub insert_sorted : A → List A → List A
  insert_sorted x [] = x ∷ []
  insert_sorted x (y ∷ ys) =
      let rest = insert_sorted x ys in if le x y then x ∷ y ∷ ys else y ∷ rest

  unfoldable pub order_by : List A → List A
  unfolding insert_sorted
  order_by [] = []
  order_by (x ∷ xs) = insert_sorted x (order_by xs)

  count-insert_sorted :
      (p : A → Bool) (x : A) (xs : List A)
      → count p (insert_sorted x xs) ≡ (if p x then 1 else 0) + count p xs
  unfolding insert_sorted
  count-insert_sorted p x [] = refl
  count-insert_sorted p x (y ∷ ys) = ground (arith, count-insert_sorted p x ys)

  -- Ordering keeps every count, so the rows are the same as often.
  pub count-order_by : (p : A → Bool) (xs : List A) → count p (order_by xs) ≡ count p xs
  unfolding order_by
  count-order_by p [] = refl
  count-order_by p (x ∷ xs) =
      omega (arith, count-insert_sorted p x (order_by xs), count-order_by p xs)

  length-insert_sorted : (x : A) (xs : List A) → length (insert_sorted x xs) ≡ suc (length xs)
  unfolding insert_sorted
  length-insert_sorted x [] = refl
  length-insert_sorted x (y ∷ ys) = ground (arith, length-insert_sorted x ys)

  pub length-order_by : (xs : List A) → length (order_by xs) ≡ length xs
  unfolding order_by
  length-order_by [] = refl
  length-order_by (x ∷ xs) = omega (arith, length-insert_sorted x (order_by xs), length-order_by xs)

  -- Every item comes before all that follow it.
  abbrev pub IsOrdered : List A → Type 0
  IsOrdered [] = Unit
  IsOrdered (x ∷ xs) = All (λ y. le x y ≡ true) xs × IsOrdered xs

  module _ (total : (x y : A) → le x y ≡ false → le y x ≡ true)
      (trans : (x y z : A) → le x y ≡ true → le y z ≡ true → le x z ≡ true) where
    below-All :
        (x y : A) (ys : List A)
        → le x y ≡ true
        → All (λ z. le y z ≡ true) ys
        → All (λ z. le x z ≡ true) ys
    below-All x y [] h k = tt
    below-All x y (z ∷ zs) h k = (trans x y z h k.0, below-All x y zs h k.1)

    All-insert_sorted :
        (w x : A) (ys : List A)
        → le w x ≡ true
        → All (λ z. le w z ≡ true) ys
        → All (λ z. le w z ≡ true) (insert_sorted x ys)
    unfolding insert_sorted
    All-insert_sorted w x [] h k = (h, tt)
    All-insert_sorted w x (y ∷ ys) h k = elim (Bool-cases (le x y)) [
      | inl e ↦ rw e (h, k)
      | inr e ↦ rw e (k.0, All-insert_sorted w x ys h k.1)
    ]

    insert_sorted-IsOrdered : (x : A) (xs : List A) → IsOrdered xs → IsOrdered (insert_sorted x xs)
    unfolding insert_sorted
    insert_sorted-IsOrdered x [] h = (tt, tt)
    insert_sorted-IsOrdered x (y ∷ ys) h = elim (Bool-cases (le x y)) [
      | inl e ↦ rw e ((e, below-All x y ys e h.0), h)
      | inr e ↦ rw e (All-insert_sorted y x ys (total x y e) h.0, insert_sorted-IsOrdered x ys h.1)
    ]

    pub order_by-IsOrdered : (xs : List A) → IsOrdered (order_by xs)
    unfolding order_by
    order_by-IsOrdered [] = tt
    order_by-IsOrdered (x ∷ xs) = insert_sorted-IsOrdered x (order_by xs) (order_by-IsOrdered xs)

module _ {A : Type 0} (le : A → A → Bool) where
  In-insert_sorted : (w x : A) (xs : List A) → (w ≡ x) ⊎ In w xs → In w (insert_sorted le x xs)
  unfolding insert_sorted
  In-insert_sorted w x [] (inl e) = inl e
  In-insert_sorted w x [] (inr h) = absurd h
  In-insert_sorted w x (y ∷ ys) h = elim (Bool-cases (le x y)) [
    | inl t ↦ rw t h
    | inr f ↦ rw f (elim h [
      | inl e ↦ inr (In-insert_sorted w x ys (inl e))
      | inr i ↦ elim i [ inl e ↦ inl e | inr j ↦ inr (In-insert_sorted w x ys (inr j)) ]
    ])
  ]

  In-insert_sorted_inv : (w x : A) (xs : List A) → In w (insert_sorted le x xs) → (w ≡ x) ⊎ In w xs
  unfolding insert_sorted
  In-insert_sorted_inv w x [] h = h
  In-insert_sorted_inv w x (y ∷ ys) h = elim (Bool-cases (le x y)) [
    | inl t ↦ rw t at h
    | inr f ↦ elim (rw f at h) [
      | inl e ↦ inr (inl e)
      | inr i ↦ elim (In-insert_sorted_inv w x ys i) [ inl e ↦ inl e | inr j ↦ inr (inr j) ]
    ]
  ]

  -- The ordered list has the same items.
  pub In-order_by : (w : A) (xs : List A) → In w xs → In w (order_by le xs)
  unfolding order_by
  In-order_by w [] h = absurd h
  In-order_by w (x ∷ xs) (inl e) = In-insert_sorted w x (order_by le xs) (inl e)
  In-order_by w (x ∷ xs) (inr i) = In-insert_sorted w x (order_by le xs) (inr (In-order_by w xs i))

  pub In-order_by_inv : (w : A) (xs : List A) → In w (order_by le xs) → In w xs
  unfolding order_by
  In-order_by_inv w [] h = h
  In-order_by_inv w (x ∷ xs) h = elim (In-insert_sorted_inv w x (order_by le xs) h) [
    | inl e ↦ inl e
    | inr i ↦ inr (In-order_by_inv w xs i)
  ]
