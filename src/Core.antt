-- ===== src/Core.antt =====
-- crates/oppa-core/src/lib.rs: validated identifiers and the durable lifecycle of a print job.
use oppa.Common.{ℕ, Bool, true, false, not, Result, ok, ensure, ◌>>◌, leb, any}
use oppa.Common.Text.{Text, text_eq, byte_len, is_control, is_empty, trim}

-- MAX_IDENTIFIER_LEN
abbrev pub max_identifier_len : ℕ
max_identifier_len = 128

pub data IdentifierError : Type 0 where
  empty : IdentifierError
  too_long : (actual : ℕ) (maximum : ℕ) → IdentifierError
  control_character : IdentifierError
  surrounding_whitespace : IdentifierError

unfoldable pub validate_identifier : Text → Result IdentifierError (Unit {0})
validate_identifier value = do
  ensure (not (is_empty (trim value))) empty
  ensure (leb (byte_len value) max_identifier_len) (too_long (byte_len value) max_identifier_len)
  ensure (text_eq (trim value) value) surrounding_whitespace
  ensure (not (any is_control value)) control_character

-- `PrintJobId::new` and the other constructors of `typed_identifier!`
unfoldable pub identifier : Text → Result IdentifierError Text
unfolding validate_identifier
identifier value = do validate_identifier value; ok value

pub data JobState : Type 0 where
  received submitting submitted failed cancelled : JobState

abbrev pub state_eq : JobState → JobState → Bool
state_eq received received = true
state_eq submitting submitting = true
state_eq submitted submitted = true
state_eq failed failed = true
state_eq cancelled cancelled = true
state_eq _ _ = false

-- `JobState::is_terminal`
abbrev pub is_terminal : JobState → Bool
is_terminal submitted = true
is_terminal failed = true
is_terminal cancelled = true
is_terminal _ = false

-- state IN ('received', 'submitting')
abbrev pub is_pending : JobState → Bool
is_pending received = true
is_pending submitting = true
is_pending _ = false
