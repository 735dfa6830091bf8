-- ===== src/Agent/Sanitize.antt =====
-- crates/oppa-agent/src/lib.rs and processor.rs: bounded, printable diagnostics.
pub mod Bounds
pub mod Controls
use oppa.Common.{
  ℕ, zero, suc, ◌-◌, Bool, true, ◌&&◌, ◌||◌, Option, none, some, List, [], ◌∷◌, map, leb, ◌==◌,
  take, if◌then◌else◌,
}
use oppa.Common.Text.{Text, text, len_utf8, byte_len, is_control, is_empty, trim}

abbrev pub max_active_errors : ℕ
max_active_errors = 32

abbrev pub max_active_error_bytes : ℕ
max_active_error_bytes = 1000

abbrev pub max_message_bytes : ℕ
max_message_bytes = 1000

-- `str::is_char_boundary`
pub is_char_boundary : Text → ℕ → Bool
is_char_boundary [] n = n == 0
is_char_boundary (c ∷ s) n =
    let rest = is_char_boundary s (n - len_utf8 c) in n == 0 || leb (len_utf8 c) n && rest

-- `while !value.is_char_boundary(boundary) { boundary -= 1 }`
pub boundary_below : Text → ℕ → ℕ
boundary_below value zero = 0
boundary_below value (suc n) =
    let rest = boundary_below value n in if is_char_boundary value (suc n) then suc n else rest

-- `&value[..boundary]` at a character boundary
pub slice_to : Text → ℕ → Text
slice_to [] n = []
slice_to (c ∷ s) n = let rest = slice_to s (n - len_utf8 c) in if n == 0 then [] else c ∷ rest

unfoldable pub truncate_utf8 : Text → ℕ → Text
unfolding is_char_boundary boundary_below slice_to
truncate_utf8 value maximum =
    if leb (byte_len value) maximum then value else slice_to value (boundary_below value maximum)

abbrev pub space_for_control : ℕ → ℕ
space_for_control c = if is_control c then 0x20 else c

-- The closure of `sanitize_active_errors`.
unfoldable pub sanitize_error : Text → Option Text
sanitize_error error =
    let sanitized = trim (map space_for_control error) in
    if is_empty sanitized then none else some (truncate_utf8 sanitized max_active_error_bytes)

-- `filter_map` of that closure
pub push_some : Option Text → List Text → List Text
push_some none rest = rest
push_some (some t) rest = t ∷ rest

pub sanitize_each : List Text → List Text
sanitize_each [] = []
sanitize_each (e ∷ es) = push_some (sanitize_error e) (sanitize_each es)

unfoldable pub sanitize_active_errors : List Text → List Text
unfolding push_some sanitize_each
sanitize_active_errors errors = take max_active_errors (sanitize_each errors)

-- processor.rs `sanitize_message`
unfoldable pub sanitize_message : Text → Text
sanitize_message value =
    let sanitized = trim (map space_for_control value) in
    if is_empty sanitized
    then text "operation failed without diagnostic details"
    else truncate_utf8 sanitized max_message_bytes
