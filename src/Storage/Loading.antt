-- ===== src/Storage/Loading.antt =====
-- crates/oppa-storage/src/lib.rs: the rows that `pending` reads, decoded.
use oppa.Common.{ℕ, Bool, List, [], ◌∷◌, Result, ok, ensure, ok_or, ◌>>=◌, ◌>>◌}
use oppa.Common.Text.{Text}
use oppa.Core.{JobState}
use oppa.Storage.Schema.{StorageError, json, timestamp, JobRow, Database}
use oppa.Storage.Payload.{JsonCodec}
use oppa.Storage.Insert.{stored_id, pending}

-- `StoredPrintJob`, as far as a processor reads it
pub record StoredPrintJob (Value : Type 0) : Type 0 where
  pub id : Text
  pub idempotency_key : Text
  pub printer_id : Text
  pub payload : Value
  pub state : JobState
  pub received_at : ℕ
  pub retry_attempts : ℕ
  pub recovery_count : ℕ
  pub source_message_id : Text

-- `timestamp_from_millis`; `representable` is what chrono's `from_timestamp_millis` accepts.
unfoldable pub timestamp_from_millis : (ℕ → Bool) → ℕ → Result StorageError ℕ
timestamp_from_millis representable ms = do ensure (representable ms) (timestamp ms); ok ms

module _ {Value : Type 0} ⦃codec : JsonCodec Value⦄ (representable : ℕ → Bool) where
  unfoldable pub load_job : JobRow → Result StorageError (StoredPrintJob Value)
  unfolding timestamp_from_millis
  load_job row = do
    id ← stored_id row.job_id
    printer_id ← stored_id row.printer_id
    payload ← ok_or (codec.from_str row.payload_json) json
    received_at ← timestamp_from_millis representable row.received_at_ms
    updated_at ← timestamp_from_millis representable row.updated_at_ms
    ok (record {
      id = id;
      idempotency_key = row.idempotency_key;
      printer_id = printer_id;
      payload = payload;
      state = row.state;
      received_at = received_at;
      retry_attempts = row.retry_attempts;
      recovery_count = row.recovery_count;
      source_message_id = row.source_message_id;
    })

  unfoldable pub load_jobs : List JobRow → Result StorageError (List (StoredPrintJob Value))
  unfolding load_job
  load_jobs [] = ok []
  load_jobs (row ∷ rows) = do job ← load_job row; jobs ← load_jobs rows; ok (job ∷ jobs)

  -- `SqliteStorage::pending`
  unfoldable pub pending_jobs : Database → Result StorageError (List (StoredPrintJob Value))
  unfolding load_jobs
  pending_jobs db = load_jobs (pending db)
