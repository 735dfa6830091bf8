-- ===== src/Storage/Lifecycle/Reporting.antt =====
-- The two operations that commit a result with its report.
use oppa.Common.{ℕ, ◌≡◌, refl, Option, some, none, arith, ok, >>=-eq-ok, ensure}
use oppa.Common.Text.{Text, text_eq, text_eq→eq}
use oppa.Core.{submitted, failed}
use oppa.Storage.Schema.{
  invalid_input, SubmissionReceipt, StoredJobError, OutboxRow, Database, StorageLimits,
  max_outbound_status_bytes, validate_key, validate_error,
}
use oppa.Storage.Payload.{JsonCodec, bounded_json}
use oppa.Storage.Transition.{
  NewOutboundStatus, prepare_outbound_status, mark_submitted_with_status, mark_failed_with_status,
}
use oppa.Storage.Lifecycle.Finishing.{IsFinished, transition-IsFinished}

module _ {Value : Type 0} ⦃codec : JsonCodec Value⦄ where
  pub prepared_report :
      (id : Text) (status : NewOutboundStatus Value) (row : OutboxRow)
      → prepare_outbound_status id status ≡ ok row
      → (row.job_id ≡ id) × (row.message_id ≡ status.message_id)
  unfolding prepare_outbound_status
  prepared_report id status row h =
      let (_, _, h1) = >>=-eq-ok (validate_key status.message_id 128) _ h in
      let (_, same, h2) = >>=-eq-ok (ensure (text_eq status.job_id id) invalid_input) _ h1 in
      let (json, _, h3) = >>=-eq-ok (bounded_json status.payload max_outbound_status_bytes) _ h2 in
      (ground (arith, text_eq→eq status.job_id id), ground arith)

  module _ (limits : StorageLimits) (clock : Option ℕ) (id : Text)
      (status : NewOutboundStatus Value) (db db' : Database) where
    -- A submission that was recorded with its report was of a pending job;
    -- the job is then found as submitted with the receipt and no error, whatever retention
    -- evicted, and the report stands in the outbox exactly once.
    pub mark_submitted_with_status-IsFinished :
        (receipt : SubmissionReceipt)
        → mark_submitted_with_status limits clock id receipt status db ≡ ok db'
        → IsFinished id submitted (some receipt) none status.message_id db db'
    unfolding mark_submitted_with_status
    mark_submitted_with_status-IsFinished receipt h =
        let (row, prepared, h1) = >>=-eq-ok (prepare_outbound_status id status) _ h in
        let (about, message) = prepared_report id status row prepared in
        rw (← message) (
          transition-IsFinished limits clock id submitted (some receipt) none row db db' refl about
            h1)

    -- A failure that was recorded with its report was of a pending job; the job is then found as
    -- failed with the error and the receipt it had, whatever retention evicted, and the report
    -- stands in the outbox exactly once.
    pub mark_failed_with_status-IsFinished :
        (error : StoredJobError)
        → mark_failed_with_status limits clock id error status db ≡ ok db'
        → IsFinished id failed none (some error) status.message_id db db'
    unfolding mark_failed_with_status
    mark_failed_with_status-IsFinished error h =
        let (_, _, h0) = >>=-eq-ok (validate_error error) _ h in
        let (row, prepared, h1) = >>=-eq-ok (prepare_outbound_status id status) _ h0 in
        let (about, message) = prepared_report id status row prepared in
        rw (← message)
          (transition-IsFinished limits clock id failed none (some error) row db db' refl about h1)
