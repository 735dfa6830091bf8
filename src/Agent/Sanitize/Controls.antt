-- ===== src/Agent/Sanitize/Controls.antt =====
-- Sanitized diagnostics hold no control character, are not empty, and are few and short.
use mathlib.Core.List.{append-nil}
use oppa.Common.{
  ℕ, zero, suc, ◌-◌, ◌≤◌, ◌≡◌, refl, ap, ◌∙◌, true, false, Option, none, some, List, [], ◌∷◌, ◌++◌,
  map, arith, take, length, length-take, any, All, Bool-cases, inl, inr,
}
use oppa.Common.Text.{Text, len_utf8, byte_len, is_control, is_empty, trim, trim_start, trim_end}
use oppa.Agent.Sanitize.{
  max_active_errors, max_active_error_bytes, max_message_bytes, slice_to, boundary_below,
  truncate_utf8, space_for_control, sanitize_error, push_some, sanitize_each,
  sanitize_active_errors, sanitize_message,
}
use oppa.Agent.Sanitize.Bounds.{byte_len-truncate_utf8, truncate_utf8_bounds}

-- Printable: no control character.
abbrev pub IsPrintable : Text → Type 0
IsPrintable t = any is_control t ≡ false

space_for_control-IsPrintable : (c : ℕ) → is_control (space_for_control c) ≡ false
unfolding is_control
space_for_control-IsPrintable c = ground arith

map-IsPrintable : (t : Text) → IsPrintable (map space_for_control t)
map-IsPrintable [] = refl
map-IsPrintable (c ∷ t) = rw (space_for_control-IsPrintable c) (map-IsPrintable t)

trim_start-IsPrintable : (t : Text) → IsPrintable t → IsPrintable (trim_start t)
unfolding trim_start
trim_start-IsPrintable [] h = h
trim_start-IsPrintable (c ∷ t) h = ground (arith, trim_start-IsPrintable t)

trim_end-IsPrintable : (t : Text) → IsPrintable t → IsPrintable (trim_end t)
unfolding trim_end
trim_end-IsPrintable [] h = h
trim_end-IsPrintable (c ∷ t) h = ground (arith, trim_end-IsPrintable t)

trim-IsPrintable : (t : Text) → IsPrintable t → IsPrintable (trim t)
unfolding trim
trim-IsPrintable t h = trim_end-IsPrintable (trim_start t) (trim_start-IsPrintable t h)

slice_to-IsPrintable : (t : Text) (n : ℕ) → IsPrintable t → IsPrintable (slice_to t n)
unfolding slice_to
slice_to-IsPrintable [] n h = h
slice_to-IsPrintable (c ∷ t) n h = ground (arith, slice_to-IsPrintable t (n - len_utf8 c))

truncate-IsPrintable : (t : Text) (n : ℕ) → IsPrintable t → IsPrintable (truncate_utf8 t n)
unfolding truncate_utf8
truncate-IsPrintable t n h = ground (arith, slice_to-IsPrintable t (boundary_below t n) h)

empty_bytes : (t : Text) → is_empty t ≡ true → byte_len t ≡ 0
unfolding is_empty
empty_bytes [] h = refl
empty_bytes (c ∷ t) h = cc

pub truncate-nonempty :
    (t : Text) (n : ℕ) → 4 ≤ n → is_empty t ≡ false → is_empty (truncate_utf8 t n) ≡ false
truncate-nonempty t n room h = elim (Bool-cases (is_empty (truncate_utf8 t n))) [
  | inr some_left ↦ some_left
  | inl nothing ↦
      let (_, rest, e, or) = truncate_utf8_bounds t n in
      elim or [
        | inl whole ↦ absurd (nothing_whole rest e whole nothing)
        | inr near ↦ absurd (omega (arith, near, room, empty_bytes (truncate_utf8 t n) nothing))
      ]
]
  where
    nothing_whole :
        (rest : Text)
        → t ≡ truncate_utf8 t n ++ rest
        → rest ≡ []
        → is_empty (truncate_utf8 t n) ≡ true
        → ⊥
    nothing_whole rest e w nothing =
        let whole : t ≡ truncate_utf8 t n =
          e ∙ ap (λ (r : Text). truncate_utf8 t n ++ r) w ∙ append-nil (truncate_utf8 t n) in
        cc (h, nothing, ap is_empty whole)

-- What every sanitized error satisfies.
abbrev pub IsShown : Text → Type 0
IsShown t = (byte_len t ≤ 1000) × IsPrintable t × (is_empty t ≡ false)

sanitize_error-IsShown : (e shown : Text) → sanitize_error e ≡ some shown → IsShown shown
unfolding sanitize_error
sanitize_error-IsShown e shown h =
    let trimmed = trim (map space_for_control e) in
    elim (Bool-cases (is_empty trimmed)) [
      | inl nothing ↦ absurd (ground (arith, h, nothing))
      | inr something ↦
          let same : shown ≡ truncate_utf8 trimmed max_active_error_bytes =
            ground (arith, h, something) in
          rw same (
            byte_len-truncate_utf8 trimmed max_active_error_bytes,
            truncate-IsPrintable trimmed max_active_error_bytes
                (trim-IsPrintable (map space_for_control e) (map-IsPrintable e)),
            truncate-nonempty trimmed max_active_error_bytes (omega arith) something,
          )
    ]

push_some-IsShown :
    (o : Option Text) (rest : List Text)
    → ((t : Text) → o ≡ some t → IsShown t)
    → All IsShown rest
    → All IsShown (push_some o rest)
unfolding push_some
push_some-IsShown none rest h a = a
push_some-IsShown (some t) rest h a = (h t refl, a)

sanitize_each-IsShown : (errors : List Text) → All IsShown (sanitize_each errors)
unfolding sanitize_each
sanitize_each-IsShown [] = tt
sanitize_each-IsShown (e ∷ es) =
    push_some-IsShown (sanitize_error e) (sanitize_each es) (sanitize_error-IsShown e)
      (sanitize_each-IsShown es)

All-take : (P : Text → Type 0) (n : ℕ) (ts : List Text) → All P ts → All P (take n ts)
All-take P zero ts a = tt
All-take P (suc n) [] a = tt
All-take P (suc n) (t ∷ ts) a = (a.0, All-take P n ts a.1)

-- The active errors of a snapshot are at most 32, each at most 1000 bytes, not empty, and without a
-- control character.
pub sanitize_active_errors_bounds :
    (errors : List Text)
    → (length (sanitize_active_errors errors) ≤ max_active_errors)
      × All IsShown (sanitize_active_errors errors)
unfolding sanitize_active_errors
sanitize_active_errors_bounds errors = (
  omega (arith, length-take max_active_errors (sanitize_each errors)),
  All-take IsShown max_active_errors (sanitize_each errors) (sanitize_each-IsShown errors),
)

-- A failure's message is at most 1000 bytes, not empty, and without a control character.
pub sanitize_message-IsShown : (value : Text) → IsShown (sanitize_message value)
unfolding sanitize_message is_control is_empty
sanitize_message-IsShown value =
    let trimmed = trim (map space_for_control value) in
    elim (Bool-cases (is_empty trimmed)) [
      | inl nothing ↦ rw nothing (omega arith, refl, refl)
      | inr something ↦ rw something (
        byte_len-truncate_utf8 trimmed max_message_bytes,
        truncate-IsPrintable trimmed max_message_bytes
            (trim-IsPrintable (map space_for_control value) (map-IsPrintable value)),
        truncate-nonempty trimmed max_message_bytes (omega arith) something,
      )
    ]
