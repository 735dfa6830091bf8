-- ===== src/Common/Everywhere.antt =====
-- Predicates of every item of a list, under finds, filters and updates.
use Prim.Native.Nat.{ℕ, zero, suc, ◌≤◌, ◌<◌}
use mathlib.Core.Path.{◌≡◌, sym, ap, ◌∙◌, subst}
use mathlib.Core.Logic.{◌⊎◌, inl, inr}
use mathlib.Core.Bool.{Bool, true}
use mathlib.Core.List.{List, [], ◌∷◌}
use mathlib.Core.Option.{some}
use native.Mathlib.Omega.{arith}
use oppa.Common.Tests.{Bool-cases}
use oppa.Common.Lists.{All, take, drop, find, filter, update_where}
use oppa.Common.Counting.{count, update_where-none}

module _ {ℓ κ} {A : Type ℓ} (P : A → Type κ) where
  pub All-find : (p : A → Bool) (xs : List A) (x : A) → All P xs → find p xs ≡ some x → P x
  All-find p [] x a h = cc
  All-find p (y ∷ ys) x a h = elim (Bool-cases (p y)) [
    | inl e ↦ let same : y ≡ x = ground arith in subst P same a.0
    | inr e ↦ All-find p ys x a.1 (ground arith)
  ]

  pub All-filter : (p : A → Bool) (xs : List A) → All P xs → All P (filter p xs)
  All-filter p [] a = tt
  All-filter p (x ∷ xs) a = elim (Bool-cases (p x)) [
    | inl e ↦ rw e (a.0, All-filter p xs a.1)
    | inr e ↦ rw e (All-filter p xs a.1)
  ]

  pub All-update_where :
      (p : A → Bool) (f : A → A) (xs : List A)
      → ((x : A) → p x ≡ true → P x → P (f x))
      → All P xs
      → All P (update_where p f xs)
  All-update_where p f [] h a = tt
  All-update_where p f (x ∷ xs) h a = elim (Bool-cases (p x)) [
    | inl e ↦ rw e (h x e a.0, All-update_where p f xs h a.1)
    | inr e ↦ rw e (a.0, All-update_where p f xs h a.1)
  ]

  -- An update of the one row that a search finds.
  pub All-update_unique :
      (p : A → Bool) (f : A → A) (xs : List A) (x : A)
      → find p xs ≡ some x
      → count p xs ≤ 1
      → (P x → P (f x))
      → All P xs
      → All P (update_where p f xs)
  All-update_unique p f [] x h u k a = cc
  All-update_unique p f (y ∷ ys) x h u k a = elim (Bool-cases (p y)) [
    | inl e ↦
        let same : x ≡ y = ground arith in
        let rest : update_where p f ys ≡ ys = update_where-none p f ys (ground arith) in
        rw (e, rest) (subst (λ z. P z → P (f z)) same k a.0, a.1)
    | inr e ↦ rw e (a.0, All-update_unique p f ys x (ground arith) (ground arith) k a.1)
  ]

module _ {A : Type 0} where
  -- The item stands in the list.
  abbrev pub In : A → List A → Type 0
  In x [] = ⊥
  In x (y ∷ ys) = (x ≡ y) ⊎ In x ys

module _ {A : Type 0} where
  pub In-take : (n : ℕ) (x : A) (xs : List A) → In x (take n xs) → In x xs
  In-take zero x xs h = absurd h
  In-take (suc n) x [] h = absurd h
  In-take (suc n) x (y ∷ ys) (inl e) = inl e
  In-take (suc n) x (y ∷ ys) (inr h) = inr (In-take n x ys h)

  pub In-take_or_drop :
      (n : ℕ) (x : A) (xs : List A) → In x xs → In x (take n xs) ⊎ In x (drop n xs)
  In-take_or_drop zero x xs h = inr h
  In-take_or_drop (suc n) x [] h = absurd h
  In-take_or_drop (suc n) x (y ∷ ys) (inl e) = inl (inl e)
  In-take_or_drop (suc n) x (y ∷ ys) (inr h) = elim (In-take_or_drop n x ys h) [
    | inl early ↦ inl (inr early)
    | inr late ↦ inr late
  ]

  pub In-filter : (p : A → Bool) (x : A) (xs : List A) → In x xs → p x ≡ true → In x (filter p xs)
  In-filter p x [] i h = absurd i
  In-filter p x (y ∷ ys) (inl e) h = let t : p y ≡ true = rw (← e) h in rw t (inl e)
  In-filter p x (y ∷ ys) (inr i) h = elim (Bool-cases (p y)) [
    | inl t ↦ rw t (inr (In-filter p x ys i h))
    | inr f ↦ rw f (In-filter p x ys i h)
  ]

  pub In-filter_inv : (p : A → Bool) (x : A) (xs : List A) → In x (filter p xs) → In x xs
  In-filter_inv p x (y ∷ ys) h = elim (Bool-cases (p y)) [
    | inl t ↦ elim (rw t at h) [ inl e ↦ inl e | inr i ↦ inr (In-filter_inv p x ys i) ]
    | inr f ↦ inr (In-filter_inv p x ys (rw f at h))
  ]
  In-filter_inv p x [] h = absurd h

  pub In-count : (p : A → Bool) (x : A) (xs : List A) → In x xs → p x ≡ true → 0 < count p xs
  In-count p x [] i h = absurd i
  In-count p x (y ∷ ys) (inl e) h = ground (arith, ap p e)
  In-count p x (y ∷ ys) (inr i) h = ground (arith, In-count p x ys i h)

  -- Where a test passes at most once, two items that pass it are one.
  pub In-unique :
      (p : A → Bool) (x y : A) (xs : List A)
      → In x xs
      → In y xs
      → p x ≡ true
      → p y ≡ true
      → count p xs ≤ 1
      → x ≡ y
  In-unique p x y [] i j h k u = absurd i
  In-unique p x y (z ∷ zs) (inl e) (inl f) h k u = e ∙ sym f
  In-unique p x y (z ∷ zs) (inl e) (inr j) h k u =
      absurd (ground (arith, ap p e, In-count p y zs j k))
  In-unique p x y (z ∷ zs) (inr i) (inl f) h k u =
      absurd (ground (arith, ap p f, In-count p x zs i h))
  In-unique p x y (z ∷ zs) (inr i) (inr j) h k u = In-unique p x y zs i j h k (ground arith)

  pub All-In : (P : A → Type 0) (x : A) (xs : List A) → All P xs → In x xs → P x
  All-In P x [] a i = absurd i
  All-In P x (y ∷ ys) a (inl e) = subst P (sym e) a.0
  All-In P x (y ∷ ys) a (inr i) = All-In P x ys a.1 i

  pub In-drop : (n : ℕ) (x : A) (xs : List A) → In x (drop n xs) → In x xs
  In-drop zero x xs h = h
  In-drop (suc n) x [] h = absurd h
  In-drop (suc n) x (y ∷ ys) h = inr (In-drop n x ys h)
