-- ===== src/Common/Counting.antt =====
-- Counting the items that pass a test. Uniqueness of a column is "at most one row for each key",
-- so that the constraints of a table are arithmetic.
use Prim.Native.Nat.{ℕ, zero, suc, ◌+◌, ◌≤◌, ◌<◌}
use mathlib.Core.Path.{◌≡◌, refl}
use mathlib.Core.Bool.{Bool, true, false, not, ◌&&◌, ◌||◌}
use mathlib.Core.List.{List, [], ◌∷◌, ◌++◌}
use mathlib.Core.Option.{none, some}
use native.Mathlib.Omega.{arith}
use oppa.Common.Tests.{if◌then◌else◌}
use oppa.Common.Lists.{length, take, filter, find, any, update_where}

module _ {ℓ} {A : Type ℓ} where
  -- SELECT COUNT(*) ... WHERE p
  abbrev pub count : (A → Bool) → List A → ℕ
  count p [] = 0
  count p (x ∷ xs) = (if p x then 1 else 0) + count p xs

module _ {ℓ} {A : Type ℓ} where
  pub count-append : (p : A → Bool) (xs ys : List A) → count p (xs ++ ys) ≡ count p xs + count p ys
  count-append p [] ys = omega arith
  count-append p (x ∷ xs) ys = omega (arith, count-append p xs ys)

  pub count-le-length : (p : A → Bool) (xs : List A) → count p xs ≤ length xs
  count-le-length p [] = omega arith
  count-le-length p (x ∷ xs) = ground (arith, count-le-length p xs)

  pub count_mono :
      (p q : A → Bool) (xs : List A) → ((x : A) → p x ≡ true → q x ≡ true) → count p xs ≤ count q xs
  count_mono p q [] h = omega arith
  count_mono p q (x ∷ xs) h = ground (arith, h x, count_mono p q xs h)

  pub count_ext : (p q : A → Bool) (xs : List A) → ((x : A) → p x ≡ q x) → count p xs ≡ count q xs
  count_ext p q [] h = refl
  count_ext p q (x ∷ xs) h = ground (arith, h x, count_ext p q xs h)

  pub count_split :
      (p q : A → Bool) (xs : List A)
      → count (λ x. p x && q x) xs + count (λ x. p x && not (q x)) xs ≡ count p xs
  count_split p q [] = refl
  count_split p q (x ∷ xs) = ground (arith, count_split p q xs)

  pub count_or :
      (p q : A → Bool) (xs : List A)
      → count (λ x. p x || q x) xs + count (λ x. p x && q x) xs ≡ count p xs + count q xs
  count_or p q [] = refl
  count_or p q (x ∷ xs) = ground (arith, count_or p q xs)

  pub count-filter :
      (p q : A → Bool) (xs : List A) → count p (filter q xs) ≡ count (λ x. p x && q x) xs
  count-filter p q [] = refl
  count-filter p q (x ∷ xs) = ground (arith, count-filter p q xs)

  pub length-filter : (p : A → Bool) (xs : List A) → length (filter p xs) ≡ count p xs
  length-filter p [] = refl
  length-filter p (x ∷ xs) = ground (arith, length-filter p xs)

  pub count-take : (p : A → Bool) (n : ℕ) (xs : List A) → count p (take n xs) ≤ count p xs
  count-take p zero xs = omega arith
  count-take p (suc n) [] = omega arith
  count-take p (suc n) (x ∷ xs) = omega (arith, count-take p n xs)

  -- An update that keeps a test on every row keeps its count.
  pub count-update_where :
      (p q : A → Bool) (f : A → A) (xs : List A)
      → ((x : A) → p x ≡ true → q (f x) ≡ q x)
      → count q (update_where p f xs) ≡ count q xs
  count-update_where p q f [] h = refl
  count-update_where p q f (x ∷ xs) h = ground (arith, h x, count-update_where p q f xs h)

  pub find-none : (p : A → Bool) (xs : List A) → find p xs ≡ none → count p xs ≡ 0
  find-none p [] h = refl
  find-none p (x ∷ xs) h = ground (arith, find-none p xs)

  pub find-some : (p : A → Bool) (xs : List A) {x : A} → find p xs ≡ some x → p x ≡ true
  find-some p [] h = cc
  find-some p (y ∷ xs) {x} h = ground (arith, find-some p xs {x = x})

  pub find-some-count : (p : A → Bool) (xs : List A) {x : A} → find p xs ≡ some x → 0 < count p xs
  find-some-count p [] h = cc
  find-some-count p (y ∷ xs) {x} h = ground (arith, find-some-count p xs {x = x})

  pub count-zero-find : (p : A → Bool) (xs : List A) → count p xs ≡ 0 → find p xs ≡ none
  count-zero-find p [] h = refl
  count-zero-find p (x ∷ xs) h = ground (arith, count-zero-find p xs)

  pub count_zero_of_false : (p : A → Bool) (xs : List A) → ((x : A) → p x ≡ false) → count p xs ≡ 0
  count_zero_of_false p [] h = refl
  count_zero_of_false p (x ∷ xs) h = ground (arith, h x, count_zero_of_false p xs h)

  -- A filter whose test follows from `p` keeps what `p` finds and counts.
  pub find-filter :
      (p q : A → Bool) (xs : List A)
      → ((x : A) → p x ≡ true → q x ≡ true)
      → find p (filter q xs) ≡ find p xs
  find-filter p q [] h = refl
  find-filter p q (x ∷ xs) h = ground (arith, h x, find-filter p q xs h)

  pub count-filter_le : (p q : A → Bool) (xs : List A) → count p (filter q xs) ≤ count p xs
  count-filter_le p q [] = omega arith
  count-filter_le p q (x ∷ xs) = ground (arith, count-filter_le p q xs)

  pub count-filter_keep :
      (p q : A → Bool) (xs : List A)
      → ((x : A) → p x ≡ true → q x ≡ true)
      → count p (filter q xs) ≡ count p xs
  count-filter_keep p q [] h = refl
  count-filter_keep p q (x ∷ xs) h = ground (arith, h x, count-filter_keep p q xs h)

  pub count-filter_drop :
      (p q : A → Bool) (xs : List A)
      → ((x : A) → p x ≡ true → q x ≡ false)
      → count p (filter q xs) ≡ 0
  count-filter_drop p q [] h = refl
  count-filter_drop p q (x ∷ xs) h = ground (arith, h x, count-filter_drop p q xs h)

module _ {ℓ} {A : Type ℓ} (p : A → Bool) (f : A → A) where
  pub update_where-none : (xs : List A) → count p xs ≡ 0 → update_where p f xs ≡ xs
  update_where-none [] h = refl
  update_where-none (x ∷ xs) h = ground (arith, update_where-none xs)

  -- The update of the one row that passes `p` moves every other count by that row alone.
  pub count-update_unique :
      (q : A → Bool) (xs : List A) (x : A)
      → find p xs ≡ some x
      → count p xs ≤ 1
      → count q (update_where p f xs) + (if q x then 1 else 0)
        ≡ count q xs + (if q (f x) then 1 else 0)
  count-update_unique q [] x h u = cc
  count-update_unique q (y ∷ ys) x h u =
      ground (arith, update_where-none ys, count-update_unique q ys x)

  pub find-update_where :
      (xs : List A) (x : A)
      → ((y : A) → p y ≡ true → p (f y) ≡ true)
      → find p xs ≡ some x
      → find p (update_where p f xs) ≡ some (f x)
  find-update_where [] x k h = cc
  find-update_where (y ∷ ys) x k h = ground (arith, k y, find-update_where ys x k)

module _ {ℓ} {A : Type ℓ} where
  pub any-false : (p : A → Bool) (xs : List A) → any p xs ≡ false → count p xs ≡ 0
  any-false p [] h = refl
  any-false p (x ∷ xs) h = ground (arith, any-false p xs)

  pub any-true : (p : A → Bool) (xs : List A) → any p xs ≡ true → 0 < count p xs
  any-true p [] h = cc
  any-true p (x ∷ xs) h = ground (arith, any-true p xs)

  pub any-of_count : (p : A → Bool) (xs : List A) → 0 < count p xs → any p xs ≡ true
  any-of_count p [] h = absurd (omega arith)
  any-of_count p (x ∷ xs) h = ground (arith, any-of_count p xs)

  pub find-append_some :
      (p : A → Bool) (xs ys : List A) (x : A) → find p xs ≡ some x → find p (xs ++ ys) ≡ some x
  find-append_some p [] ys x h = cc
  find-append_some p (y ∷ xs) ys x h = ground (arith, find-append_some p xs ys x)

  pub find-append_none :
      (p : A → Bool) (xs ys : List A) → find p xs ≡ none → find p (xs ++ ys) ≡ find p ys
  find-append_none p [] ys h = refl
  find-append_none p (y ∷ xs) ys h = ground (arith, find-append_none p xs ys)
