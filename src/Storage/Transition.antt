-- ===== src/Storage/Transition.antt =====
-- crates/oppa-storage/src/lib.rs: the lifecycle transitions of a durable job, with the report that
-- a terminal one leaves in the outbox.
use oppa.Common.{
  ℕ, ◌+◌, Bool, true, false, ◌||◌, Option, none, some, List, ◌∷◌, [], ◌++◌, Result, ok, err, ensure,
  ok_or, ◌>>=◌, ◌>>◌, not, find, any, update_where, if◌then◌else◌,
}
use oppa.Common.Text.{Text, text_eq}
use oppa.Core.{JobState, received, submitting, submitted, failed, cancelled, state_eq, is_terminal}
use oppa.Storage.Schema.{
  StorageError, sqlite, invalid_input, invalid_transition, job_not_found, SubmissionReceipt,
  StoredJobError, JobRow, OutboxRow, Database, StorageLimits, max_outbound_status_bytes, has_id,
  has_message, validate_key, validate_error, now_millis,
}
use oppa.Storage.Payload.{JsonCodec, bounded_json}
use oppa.Storage.Retention.{enforce_terminal_retention}

-- `NewOutboundStatus`
pub record NewOutboundStatus (Value : Type 0) : Type 0 where
  pub message_id : Text
  pub job_id : Text
  pub payload : Value
  pub created_at : ℕ

-- The `match requested` of `transition`: (current, requested).
unfoldable pub allowed : JobState → JobState → Bool
allowed received submitting = true
allowed submitting submitted = true
allowed received failed = true
allowed submitting failed = true
allowed received cancelled = true
allowed submitting cancelled = true
allowed _ _ = false

-- COALESCE(?4, receipt_json)
abbrev pub coalesce : Option SubmissionReceipt → Option SubmissionReceipt → Option SubmissionReceipt
coalesce none old = old
coalesce (some new) old = some new

-- The SET clause of the UPDATE.
unfoldable pub advance :
    ℕ → JobState → Option SubmissionReceipt → Option StoredJobError → JobRow → JobRow
advance now requested receipt error row = record row {
  state = requested;
  updated_at_ms = now;
  retry_attempts = row.retry_attempts + (if state_eq requested submitting then 1 else 0);
  receipt = coalesce receipt row.receipt;
  error = error;
}

-- INSERT INTO outbound_status_outbox: the primary key is new and the job exists.
unfoldable pub insert_status :
    List JobRow → OutboxRow → List OutboxRow → Result StorageError (List OutboxRow)
insert_status jobs status outbox =
    if any (has_message status.message_id) outbox || not (any (has_id status.job_id) jobs)
    then err sqlite
    else ok (outbox ++ status ∷ [])

unfoldable pub insert_optional :
    List JobRow → Option OutboxRow → List OutboxRow → Result StorageError (List OutboxRow)
insert_optional jobs none outbox = ok outbox
insert_optional jobs (some status) outbox = insert_status jobs status outbox

-- `transition`. A failed step drops the transaction, so an error keeps the database.
unfoldable pub transition :
    StorageLimits
    → Option ℕ
    → Text
    → JobState
    → Option SubmissionReceipt
    → Option StoredJobError
    → Option OutboxRow
    → Database
    → Result StorageError Database
transition limits clock id requested receipt error status db = do
  now ← now_millis clock
  row ← ok_or (find (has_id id) db.jobs) (job_not_found id)
  ensure (allowed row.state requested) (invalid_transition id row.state requested)
  let jobs = update_where (has_id id) (advance now requested receipt error) db.jobs
  outbox ← insert_optional jobs status db.outbox
  let moved : Database = record { jobs = jobs; outbox = outbox }
  ok (
      if is_terminal requested
      then (enforce_terminal_retention limits.max_terminal_jobs (some id) moved).1
      else moved)

unfoldable pub mark_submitting :
    StorageLimits → Option ℕ → Text → Database → Result StorageError Database
mark_submitting limits clock id = transition limits clock id submitting none none none

unfoldable pub mark_submitted :
    StorageLimits → Option ℕ → Text → SubmissionReceipt → Database → Result StorageError Database
mark_submitted limits clock id receipt =
    transition limits clock id submitted (some receipt) none none

unfoldable pub mark_failed :
    StorageLimits → Option ℕ → Text → StoredJobError → Database → Result StorageError Database
mark_failed limits clock id error db = do
  validate_error error
  transition limits clock id failed none (some error) none db

unfoldable pub mark_cancelled :
    StorageLimits → Option ℕ → Text → Database → Result StorageError Database
mark_cancelled limits clock id = transition limits clock id cancelled none none none

module _ {Value : Type 0} ⦃codec : JsonCodec Value⦄ where
  unfoldable pub prepare_outbound_status :
      Text → NewOutboundStatus Value → Result StorageError OutboxRow
  prepare_outbound_status job_id status = do
    validate_key status.message_id 128
    ensure (text_eq status.job_id job_id) invalid_input
    payload_json ← bounded_json status.payload max_outbound_status_bytes
    ok (record {
      message_id = status.message_id;
      job_id = status.job_id;
      payload_json = payload_json;
      created_at_ms = status.created_at;
    })

  unfoldable pub mark_submitted_with_status :
      StorageLimits
      → Option ℕ
      → Text
      → SubmissionReceipt
      → NewOutboundStatus Value
      → Database
      → Result StorageError Database
  unfolding prepare_outbound_status
  mark_submitted_with_status limits clock id receipt status db = do
    prepared ← prepare_outbound_status id status
    transition limits clock id submitted (some receipt) none (some prepared) db

  unfoldable pub mark_failed_with_status :
      StorageLimits
      → Option ℕ
      → Text
      → StoredJobError
      → NewOutboundStatus Value
      → Database
      → Result StorageError Database
  unfolding prepare_outbound_status
  mark_failed_with_status limits clock id error status db = do
    validate_error error
    prepared ← prepare_outbound_status id status
    transition limits clock id failed none (some error) (some prepared) db
