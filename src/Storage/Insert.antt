-- ===== src/Storage/Insert.antt =====
-- crates/oppa-storage/src/lib.rs: the durable receipt of a delivery, and the list of pending jobs.
use oppa.Common.{
  ℕ, Bool, ◌&&◌, ◌||◌, none, some, List, ◌∷◌, [], ◌++◌, Result, ok, err, ensure, ◌>>=◌, ◌>>◌, ltb,
  ◌==◌, find, filter, any, if◌then◌else◌,
}
use oppa.Common.Text.{Text, text_eq, text_le}
use oppa.Common.Counting.{count}
use oppa.Common.Sorting.{order_by}
use oppa.Core
use oppa.Core.{JobState, received, state_eq}
use oppa.Storage.Schema.{
  StorageError, sqlite, identifier, queue_full, job_identity_conflict, job_content_conflict, JobRow,
  Database, StorageLimits, max_job_payload_bytes, has_id, has_key, row_is_pending, validate_key,
}
use oppa.Storage.Payload.{JsonCodec, bounded_json, payload_fingerprint, payload_matches}

-- `ReceivedPrintJob`
pub record ReceivedPrintJob (Value : Type 0) : Type 0 where
  pub id : Text
  pub idempotency_key : Text
  pub printer_id : Text
  pub payload : Value
  pub source_message_id : Text
  pub received_at : ℕ

pub data InsertResult : Type 0 where
  inserted : InsertResult
  duplicate_job : (state : JobState) → InsertResult
  duplicate_idempotency : (existing_job_id : Text) (state : JobState) → InsertResult

-- `PrintJobId::new(value)?`
unfoldable pub stored_id : Text → Result StorageError Text
stored_id value = elim (Core.identifier value) [ ok id ↦ ok id | err e ↦ err (identifier e) ]

-- INSERT INTO print_jobs with its PRIMARY KEY and UNIQUE constraints.
unfoldable pub insert_row : JobRow → List JobRow → Result StorageError (List JobRow)
insert_row row jobs =
    if any (has_id row.job_id) jobs || any (has_key row.idempotency_key) jobs
    then err sqlite
    else ok (jobs ++ row ∷ [])

module _ {Value : Type 0} ⦃codec : JsonCodec Value⦄ where
  unfoldable pub new_row : ReceivedPrintJob Value → Text → Text → JobRow
  new_row job payload payload_sha256 = record {
    job_id = job.id;
    idempotency_key = job.idempotency_key;
    printer_id = job.printer_id;
    payload_json = payload;
    state = received;
    received_at_ms = job.received_at;
    updated_at_ms = job.received_at;
    retry_attempts = 0;
    recovery_count = 0;
    receipt = none;
    error = none;
    source_message_id = job.source_message_id;
    payload_sha256 = payload_sha256;
  }

  -- The branch in which the job identifier is known.
  unfoldable pub redelivered :
      ReceivedPrintJob Value → Text → JobRow → Result StorageError InsertResult
  redelivered job payload_sha256 existing = do
    ensure (text_eq existing.idempotency_key job.idempotency_key) (job_identity_conflict job.id)
    matches ← payload_matches existing payload_sha256 job.payload
    ensure (text_eq existing.printer_id job.printer_id && matches) (job_content_conflict job.id)
    ok (duplicate_job existing.state)

  -- The branch in which neither the identifier nor the key is known.
  unfoldable pub enqueue :
      StorageLimits
      → ReceivedPrintJob Value
      → Text
      → Text
      → Database
      → Result StorageError (InsertResult × Database)
  unfolding new_row
  enqueue limits job payload payload_sha256 db = do
    ensure (ltb (count row_is_pending db.jobs) limits.max_pending_jobs)
        (queue_full limits.max_pending_jobs)
    jobs ← insert_row (new_row job payload payload_sha256) db.jobs
    ok (inserted, record db { jobs = jobs })

  unfoldable pub insert_transaction :
      StorageLimits
      → ReceivedPrintJob Value
      → Text
      → Text
      → Database
      → Result StorageError (InsertResult × Database)
  insert_transaction limits job payload payload_sha256 db = elim (find (has_id job.id) db.jobs) [
    | some existing ↦ do answer ← redelivered job payload_sha256 existing; ok (answer, db)
    | none ↦ elim (find (has_key job.idempotency_key) db.jobs) [
      | some existing ↦ do
        existing_id ← stored_id existing.job_id
        ok (duplicate_idempotency existing_id existing.state, db)
      | none ↦ enqueue limits job payload payload_sha256 db
    ]
  ]

  unfoldable pub insert_received :
      StorageLimits
      → ReceivedPrintJob Value
      → Database
      → Result StorageError (InsertResult × Database)
  unfolding insert_transaction
  insert_received limits job db = do
    validate_key job.idempotency_key 256
    validate_key job.source_message_id 128
    payload ← bounded_json job.payload max_job_payload_bytes
    payload_sha256 ← payload_fingerprint job.payload
    insert_transaction limits job payload payload_sha256 db

-- ORDER BY received_at_ms, job_id
abbrev pub received_first : JobRow → JobRow → Bool
received_first a b =
    ltb a.received_at_ms b.received_at_ms
    || a.received_at_ms == b.received_at_ms && text_le a.job_id b.job_id

abbrev pub is_received : JobRow → Bool
is_received row = state_eq row.state received

-- `pending`, before the rows are decoded
unfoldable pub pending : Database → List JobRow
pending db = order_by received_first (filter is_received db.jobs)
