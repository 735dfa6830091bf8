-- ===== src/Storage/Schema.antt =====
-- crates/oppa-storage/src/lib.rs and its migrations: rows, tables, limits and errors.
-- A column that holds an enum's name or a serialized record is modelled by the value itself, and
-- an error's message is left out.
use oppa.Common.{
  ℕ, ◌^◌, Bool, not, ◌||◌, Option, none, some, List, Result, ok, err, ensure, ◌>>◌, ltb, ◌==◌, any,
}
use oppa.Common.Text.{Text, text_eq, byte_len, is_control, is_empty, trim}
use oppa.Core.{JobState, IdentifierError, is_terminal, is_pending}

pub data StorageError : Type 0 where
  sqlite json invalid_input : StorageError
  identifier : IdentifierError → StorageError
  queue_full : (maximum : ℕ) → StorageError
  job_identity_conflict : (job_id : Text) → StorageError
  job_content_conflict : (job_id : Text) → StorageError
  invalid_transition : (job_id : Text) (current requested : JobState) → StorageError
  job_not_found : (job_id : Text) → StorageError
  timestamp : ℕ → StorageError

-- `oppa_printer::SubmissionReceipt`
pub record SubmissionReceipt : Type 0 where
  pub backend_job_id : Option Text
  pub backend : Text
  pub accepted_at : ℕ
  pub metadata : List (Text × Text)

pub record StoredJobError : Type 0 where
  pub code : Text
  pub message : Text
  pub retryable : Bool
  pub occurred_at : ℕ

-- A row of print_jobs. Times are milliseconds since the epoch.
pub record JobRow : Type 0 where
  pub job_id : Text
  pub idempotency_key : Text
  pub printer_id : Text
  pub payload_json : Text
  pub state : JobState
  pub received_at_ms : ℕ
  pub updated_at_ms : ℕ
  pub retry_attempts : ℕ
  pub recovery_count : ℕ
  pub receipt : Option SubmissionReceipt
  pub error : Option StoredJobError
  pub source_message_id : Text
  pub payload_sha256 : Text

-- A row of outbound_status_outbox.
pub record OutboxRow : Type 0 where
  pub message_id : Text
  pub job_id : Text
  pub payload_json : Text
  pub created_at_ms : ℕ

pub record Database : Type 0 where
  pub jobs : List JobRow
  pub outbox : List OutboxRow

pub record StorageLimits : Type 0 where
  pub max_pending_jobs : ℕ
  pub max_terminal_jobs : ℕ

abbrev pub max_job_payload_bytes : ℕ
max_job_payload_bytes = 2097152

abbrev pub max_outbound_status_bytes : ℕ
max_outbound_status_bytes = 65536

unfoldable pub validate_limits : StorageLimits → Result StorageError (Unit {0})
validate_limits limits =
    ensure (not (limits.max_pending_jobs == 0 || limits.max_terminal_jobs == 0)) invalid_input

-- WHERE clauses
abbrev pub has_id : Text → JobRow → Bool
has_id id row = text_eq row.job_id id

abbrev pub has_key : Text → JobRow → Bool
has_key key row = text_eq row.idempotency_key key

abbrev pub row_is_terminal : JobRow → Bool
row_is_terminal row = is_terminal row.state

abbrev pub row_is_pending : JobRow → Bool
row_is_pending row = is_pending row.state

abbrev pub has_message : Text → OutboxRow → Bool
has_message id row = text_eq row.message_id id

abbrev pub about_job : Text → OutboxRow → Bool
about_job id row = text_eq row.job_id id

unfoldable pub validate_key : Text → ℕ → Result StorageError (Unit {0})
validate_key value maximum =
    ensure
      (not (
        is_empty (trim value)
        || not (text_eq (trim value) value)
        || ltb maximum (byte_len value)
        || any is_control value))
      invalid_input

-- `StoredJobError::validate`
unfoldable pub validate_error : StoredJobError → Result StorageError (Unit {0})
unfolding validate_key
validate_error error = do
  validate_key error.code 64
  ensure (not (is_empty (trim error.message) || ltb 2000 (byte_len error.message))) invalid_input

-- `clock` is what `SystemTime::now` gives: none before the epoch. The column is an i64.
unfoldable pub now_millis : Option ℕ → Result StorageError ℕ
now_millis none = err invalid_input
now_millis (some ms) = do ensure (ltb ms (2 ^ 63)) invalid_input; ok ms
