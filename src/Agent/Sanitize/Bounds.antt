-- ===== src/Agent/Sanitize/Bounds.antt =====
-- Truncation is within its bound and loses less than a character; sanitizing removes controls.
use mathlib.Core.List.{append-nil}
use oppa.Common.{
  ℕ, zero, suc, ◌+◌, ◌-◌, ◌≤◌, ◌<◌, ◌≡◌, ◌⊎◌, refl, sym, ap, true, false, [], ◌∷◌, ◌++◌, arith, leb,
  ◌==◌, Bool-cases, inl, inr,
}
use oppa.Common.Text.{Text, len_utf8, byte_len}
use oppa.Agent.Sanitize.{is_char_boundary, boundary_below, slice_to, truncate_utf8}

pub boundary_below-le : (value : Text) (n : ℕ) → boundary_below value n ≤ n
unfolding boundary_below
boundary_below-le value zero = omega arith
boundary_below-le value (suc n) = ground (arith, boundary_below-le value n)

zero_boundary : (value : Text) → is_char_boundary value 0 ≡ true
unfolding is_char_boundary
zero_boundary [] = refl
zero_boundary (c ∷ s) = refl

boundary_below-boundary :
    (value : Text) (n : ℕ) → is_char_boundary value (boundary_below value n) ≡ true
unfolding boundary_below
boundary_below-boundary value zero = zero_boundary value
boundary_below-boundary value (suc n) = elim (Bool-cases (is_char_boundary value (suc n))) [
  | inl here ↦ rw here here
  | inr below ↦ rw below (boundary_below-boundary value n)
]

-- A slice at a boundary has exactly that many bytes.
byte_len-slice_to :
    (value : Text) (n : ℕ) → is_char_boundary value n ≡ true → byte_len (slice_to value n) ≡ n
unfolding is_char_boundary slice_to
byte_len-slice_to [] n h = ground arith
byte_len-slice_to (c ∷ s) n h = ground (arith, byte_len-slice_to s (n - len_utf8 c))

pub byte_len-truncate_utf8 :
    (value : Text) (maximum : ℕ) → byte_len (truncate_utf8 value maximum) ≤ maximum
unfolding truncate_utf8
byte_len-truncate_utf8 value maximum = ground (
  arith,
  byte_len-slice_to value (boundary_below value maximum) (boundary_below-boundary value maximum),
  boundary_below-le value maximum,
)

-- The text is the slice and a rest.
slice_rest : (value : Text) (n : ℕ) → (rest : Text) × (value ≡ slice_to value n ++ rest)
unfolding slice_to
slice_rest [] n = ([], refl)
slice_rest (c ∷ s) n = elim (Bool-cases (n == 0)) [
  | inl stop ↦ (c ∷ s, rw stop)
  | inr go ↦
      let (rest, e) = slice_rest s (n - len_utf8 c) in (rest, rw go (ap (λ (t : Text). c ∷ t) e))
]

-- Characters have at most four bytes, so a boundary is near below every offset.
boundary_near :
    (value : Text) (n : ℕ)
    → n ≤ byte_len value
    → (b : ℕ) × (is_char_boundary value b ≡ true) × (b ≤ n) × (n < b + 4)
unfolding is_char_boundary
boundary_near [] n h = (0, refl, omega arith, omega arith)
boundary_near (c ∷ s) n h = elim (Bool-cases (leb (len_utf8 c) n)) [
  | inr short ↦ (0, refl, omega arith, ground arith)
  | inl long ↦
      let (b, here, below, near) = boundary_near s (n - len_utf8 c) (ground arith) in
      (b + len_utf8 c, ground (arith, add_sub b (len_utf8 c)), ground arith, ground arith)
]
  where
    add_sub : (b k : ℕ) → b + k - k ≡ b
    add_sub b k = omega arith

boundary_below_maximal :
    (value : Text) (n b : ℕ) → is_char_boundary value b ≡ true → b ≤ n → b ≤ boundary_below value n
unfolding boundary_below
boundary_below_maximal value zero b here below = omega arith
boundary_below_maximal value (suc n) b here below =
    elim (Bool-cases (is_char_boundary value (suc n))) [
      | inl top ↦ rw top below
      | inr under ↦ rw under (boundary_below_maximal value n b here (smaller b here under below))
    ]
  where
    smaller :
        (b : ℕ)
        → is_char_boundary value b ≡ true
        → is_char_boundary value (suc n) ≡ false
        → b ≤ suc n
        → b ≤ n
    smaller b here under below = ground (arith, ap (is_char_boundary value))

-- A truncated text is within its bound, begins the text, and is the whole of it or lacks less than
-- one character's room to the bound.
pub truncate_utf8_bounds :
    (value : Text) (maximum : ℕ)
    → (byte_len (truncate_utf8 value maximum) ≤ maximum)
      × (rest : Text) × (value ≡ truncate_utf8 value maximum ++ rest)
      × ((rest ≡ []) ⊎ (maximum < byte_len (truncate_utf8 value maximum) + 4))
unfolding truncate_utf8
truncate_utf8_bounds value maximum = elim (Bool-cases (leb (byte_len value) maximum)) [
  | inl fits ↦ rw fits (ground (arith, fits), [], sym (append-nil value), inl refl)
  | inr long ↦
      let cut = boundary_below value maximum in
      let exact = byte_len-slice_to value cut (boundary_below-boundary value maximum) in
      let (rest, e) = slice_rest value cut in
      let (b, here, below, near) = boundary_near value maximum (ground (arith, long)) in
      rw long (
        omega (arith, exact, boundary_below-le value maximum),
        rest,
        e,
        inr (omega (arith, exact, near, boundary_below_maximal value maximum b here below)),
      )
]
