-- ===== src/Storage/Receipt.antt =====
-- crates/oppa-storage/src/lib.rs: what an answer of insert_received says of the tables.
pub mod Redelivered
pub mod Answers
use oppa.Common.{
  ℕ, ◌≡◌, ◌≢◌, ◌≤◌, ◌<◌, ◌⊎◌, refl, ap, ◌∙◌, ◌>>=◌, Bool, true, false, ◌&&◌, Option, some, none,
  List, [], ◌∷◌, ◌++◌, Result, ok, err, arith, find, any, ltb, leb, ensure, if◌then◌else◌,
  Bool-cases, Result-cases, Option-cases, inl, inr,
}
use oppa.Common.Text.{Text, text, text_eq, text_eq→eq, eq→text_eq, text_eq_refl, byte_len}
use oppa.Common.Counting.{count, find-some}
use oppa.Core
use oppa.Core.{JobState, received}
use oppa.Storage.Schema.{
  StorageError, sqlite, json, invalid_input, identifier, queue_full, job_identity_conflict,
  job_content_conflict, JobRow, Database, StorageLimits, has_id, has_key, row_is_pending,
  validate_key, max_job_payload_bytes,
}
use oppa.Storage.Payload.{JsonCodec, payload_matches, bounded_json}
use oppa.Storage.Insert.{
  ReceivedPrintJob, InsertResult, inserted, duplicate_job, duplicate_idempotency, stored_id,
  new_row, insert_row, redelivered, enqueue, insert_transaction, insert_received,
}
use oppa.Storage.Delivery.{IsDeliverable, insert-deliverable}

module _ {Value : Type 0} ⦃codec : JsonCodec Value⦄ (limits : StorageLimits)
    (job : ReceivedPrintJob Value) (db : Database) where
  -- The row of a job that waits for its first submission.
  pub record IsWaiting (row : JobRow) : Type 0 where
    pub same_id : row.job_id ≡ job.id
    pub same_key : row.idempotency_key ≡ job.idempotency_key
    pub same_printer : row.printer_id ≡ job.printer_id
    pub same_source : row.source_message_id ≡ job.source_message_id
    pub encodes : codec.to_string job.payload ≡ some row.payload_json
    pub fingerprinted : row.payload_sha256 ≡ codec.digest row.payload_json
    pub is_received : row.state ≡ received
    pub never_tried : (row.retry_attempts ≡ 0) × (row.recovery_count ≡ 0)
    pub arrived : (row.received_at_ms ≡ job.received_at) × (row.updated_at_ms ≡ job.received_at)
    pub no_outcome : (row.receipt ≡ none) × (row.error ≡ none)

  -- The payload of a stored row is the job's: by its fingerprint if it was pruned, and by its value
  -- otherwise.
  abbrev pub IsSameContent : JobRow → Type 0
  IsSameContent row =
      ((row.payload_json ≡ text "null")
        × (encoded : Text) × (codec.to_string job.payload ≡ some encoded)
        × (row.payload_sha256 ≡ codec.digest encoded))
      ⊎ ((row.payload_json ≢ text "null") × (codec.from_str row.payload_json ≡ some job.payload))

  abbrev pub IsUnknown : Type 0
  IsUnknown =
      (find (has_id job.id) db.jobs ≡ none) × (find (has_key job.idempotency_key) db.jobs ≡ none)

  -- What an answer to the delivery says of the tables.
  abbrev pub IsAnswered : Result StorageError (InsertResult × Database) → Type 0
  IsAnswered (ok (inserted, after)) =
      IsUnknown
      × (count row_is_pending db.jobs < limits.max_pending_jobs)
      × (row : JobRow) × IsWaiting row
      × (after ≡ record db { jobs = db.jobs ++ row ∷ [] })
  IsAnswered (ok (duplicate_job state, after)) =
      (after ≡ db)
      × (row : JobRow) × (find (has_id job.id) db.jobs ≡ some row)
      × (row.idempotency_key ≡ job.idempotency_key)
      × (row.printer_id ≡ job.printer_id)
      × IsSameContent row
      × (row.state ≡ state)
  IsAnswered (ok (duplicate_idempotency existing_job_id state, after)) =
      (after ≡ db)
      × (find (has_id job.id) db.jobs ≡ none)
      × (owner : JobRow) × (find (has_key job.idempotency_key) db.jobs ≡ some owner)
      × (owner.job_id ≡ existing_job_id)
      × (owner.state ≡ state)
  IsAnswered (err (job_identity_conflict id)) =
      (id ≡ job.id)
      × (row : JobRow) × (find (has_id job.id) db.jobs ≡ some row)
      × (row.idempotency_key ≢ job.idempotency_key)
  IsAnswered (err (job_content_conflict id)) =
      (id ≡ job.id)
      × (row : JobRow) × (find (has_id job.id) db.jobs ≡ some row)
      × (row.idempotency_key ≡ job.idempotency_key)
      × ((row.printer_id ≡ job.printer_id) × IsSameContent row → ⊥)
  IsAnswered (err (queue_full maximum)) =
      (maximum ≡ limits.max_pending_jobs)
      × IsUnknown
      × (limits.max_pending_jobs ≤ count row_is_pending db.jobs)
  IsAnswered (err (identifier e)) =
      (find (has_id job.id) db.jobs ≡ none)
      × (owner : JobRow) × (find (has_key job.idempotency_key) db.jobs ≡ some owner)
      × (Core.identifier owner.job_id ≡ err e)
  IsAnswered (err json) =
      (codec.to_string job.payload ≡ none)
      ⊎ ((row : JobRow) × (find (has_id job.id) db.jobs ≡ some row)
          × (codec.from_str row.payload_json ≡ none))
  IsAnswered (err invalid_input) = IsDeliverable job → ⊥
  IsAnswered (err _) = ⊥

  IsAnswered-eq :
      (r r' : Result StorageError (InsertResult × Database)) → r' ≡ r → IsAnswered r → IsAnswered r'
  IsAnswered-eq r r' e a = rw e a
