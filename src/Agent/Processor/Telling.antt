-- ===== src/Agent/Processor/Telling.antt =====
-- What the database holds when a job's outcome is returned.
use oppa.Common.{
  ℕ, ◌≡◌, ◌≢◌, refl, Bool, true, Option, some, none, ok, err, Result, arith, ok_or, >>=-eq-ok, find,
  update_where, Option-cases, inl, inr,
}
use oppa.Common.Text.{Text}
use oppa.Common.Counting.{count, find-update_where}
use oppa.Core.{JobState, received, submitted, failed, cancelled, is_terminal}
use oppa.Storage.Schema.{
  StorageError, SubmissionReceipt, StoredJobError, JobRow, Database, StorageLimits, has_id,
  now_millis, invalid_transition, validate_error,
}
use oppa.Storage.Payload.{JsonCodec}
use oppa.Storage.Retention.{enforce_terminal_retention}
use oppa.Storage.Transition.{
  NewOutboundStatus, allowed, advance, insert_optional, transition, mark_submitting,
  mark_submitted_with_status, mark_failed, mark_failed_with_status, mark_cancelled,
}
use oppa.Storage.Loading.{StoredPrintJob}
use oppa.Storage.Consistency.Moving.{transition-Moves}
use oppa.Storage.Lifecycle.Rows.{pruned_row, find-retention_protected}
use oppa.Storage.Lifecycle.Finishing.{is_report, IsFinished}
use oppa.Storage.Lifecycle.Reporting.{
  mark_submitted_with_status-IsFinished, mark_failed_with_status-IsFinished,
}
use oppa.Agent.Failure.{JobFailure, stored_error}
use oppa.Agent.Services.{
  json, PrintJob, AgentMessage, AgentMessageKind, submitted_report, failed_report, Services, Moment,
  as_storage, agent_message,
}
use oppa.Agent.Processor.{outbound_status, fail_with_report}
use oppa.Agent.Processor.Submission.{record_submission}

-- The job's row is in the state.
abbrev pub Stands : Text → JobState → Database → Type 0
Stands id state db = (row : JobRow) × (find (has_id id) db.jobs ≡ some row) × (row.state ≡ state)

-- The job's row is in the state, and the message about it, which answers its delivery, waits in the
-- outbox exactly once.
abbrev pub Tells : Text → Text → JobState → AgentMessage → Database → Type 0
Tells id source state message db =
    Stands id state db
    × (count (is_report message.message_id id) db.outbox ≡ 1)
    × (message.correlation_id ≡ source)

pub as_storage-eq-ok {ℓ} :
    {A : Type ℓ} (r : Result StorageError A) {a : A} → as_storage r ≡ ok a → r ≡ ok a
as_storage-eq-ok (ok a) h = ground arith
as_storage-eq-ok (err e) h = cc

module _ (limits : StorageLimits) (clock : Option ℕ) (id : Text) (db db' : Database) where
  transition-Stands :
      (requested : JobState) (error : Option StoredJobError)
      → is_terminal requested ≡ true
      → transition limits clock id requested none error none db ≡ ok db'
      → Stands id requested db'
  unfolding insert_optional advance
  transition-Stands requested error final h =
      let m = transition-Moves limits clock id requested none error none db db' h in
      let after = advance m.now requested none error m.row in
      let jobs = update_where (has_id id) (advance m.now requested none error) db.jobs in
      let moved : Database = record { jobs = jobs; outbox = m.outbox } in
      let e : db' ≡ (enforce_terminal_retention limits.max_terminal_jobs (some id) moved).1 =
        ground (arith, m.result) in
      let here : find (has_id id) jobs ≡ some after =
        find-update_where (has_id id) (advance m.now requested none error) db.jobs m.row (λ r k. k)
          m.found in
      (
        pruned_row after,
        rw e (find-retention_protected limits.max_terminal_jobs moved id after here),
        ground arith,
      )

  pub mark_cancelled-Stands : mark_cancelled limits clock id db ≡ ok db' → Stands id cancelled db'
  unfolding mark_cancelled
  mark_cancelled-Stands h = transition-Stands cancelled none refl h

  pub mark_failed-Stands :
      (error : StoredJobError)
      → mark_failed limits clock id error db ≡ ok db'
      → Stands id failed db'
  unfolding mark_failed
  mark_failed-Stands error h =
      let (_, _, h1) = >>=-eq-ok (validate_error error) _ h in
      transition-Stands failed (some error) refl h1

-- A refused claim names the state of the row, which is not `received`.
pub mark_submitting-refused :
    (limits : StorageLimits) (clock : Option ℕ) (id other : Text) (current wanted : JobState)
    (db : Database)
    → mark_submitting limits clock id db ≡ err (invalid_transition other current wanted)
    → Stands id current db × (current ≢ received)
unfolding mark_submitting transition now_millis allowed insert_optional
mark_submitting-refused limits clock id other current wanted db h =
    elim (Option-cases (find (has_id id) db.jobs)) [
      | inl missing ↦ absurd (ground (arith, missing))
      | inr (row, found) ↦
          ((row, found, ground (arith, found)), λ waiting. ground (arith, found, waiting))
    ]

module _ {Value Rendered : Type 0} ⦃codec : JsonCodec Value⦄ (services : Services Value Rendered)
    (limits : StorageLimits) (representable : ℕ → Bool) (moment : Moment) where
  pub agent_message-answers :
      (correlation_id : Text) (kind : AgentMessageKind) (message : AgentMessage)
      → agent_message services moment correlation_id kind ≡ ok message
      → (message.correlation_id ≡ correlation_id)
        × (message.kind ≡ kind)
        × (services.agent_message_is_valid message ≡ true)
  unfolding agent_message
  agent_message-answers correlation_id kind message h = ground arith

  outbound_status-about :
      (id : Text) (message : AgentMessage) (status : NewOutboundStatus Value)
      → outbound_status services limits representable moment id message ≡ ok status
      → status.message_id ≡ message.message_id
  unfolding outbound_status
  outbound_status-about id message status h =
      let (_, _, h1) = >>=-eq-ok (ok_or (services.encode_message message) json) _ h in ground arith

  finished-Tells :
      (id source : Text) (state : JobState) (receipt : Option SubmissionReceipt)
      (error : Option StoredJobError) (message : AgentMessage) (db db' : Database)
      → message.correlation_id ≡ source
      → IsFinished id state receipt error message.message_id db db'
      → Tells id source state message db'
  finished-Tells id source state receipt error message db db' from f =
      ((f.after, f.found_after, f.is_final), f.reported_once, from)

  module _ (stored : StoredPrintJob Value) (job : PrintJob Value) (message : AgentMessage)
      (db db' : Database) where
    pub record_submission-Tells :
        (receipt : SubmissionReceipt)
        → record_submission services limits representable moment stored job receipt db
          ≡ ok (message, db')
        → Tells stored.id stored.source_message_id submitted message db'
    unfolding record_submission
    record_submission-Tells receipt h =
        let kind =
          submitted_report job.job_id job.idempotency_key job.printer_id receipt.accepted_at in
        let (m, sent, h1) =
          >>=-eq-ok (agent_message services moment stored.source_message_id kind) _ h in
        let (status, outbound, h2) =
          >>=-eq-ok (outbound_status services limits representable moment stored.id m) _ h1 in
        let (after, written, h3) =
          >>=-eq-ok
            (as_storage
              (mark_submitted_with_status limits moment.clock stored.id receipt status db))
            _ h2 in
        let em : m ≡ message = ground (arith, h3) in
        let ed : after ≡ db' = ground (arith, h3) in
        rw (← em, ← ed)
          (finished-Tells stored.id stored.source_message_id submitted (some receipt) none m db
            after (agent_message-answers stored.source_message_id kind m sent).0
            (rw (← outbound_status-about stored.id m status outbound) (
              mark_submitted_with_status-IsFinished limits moment.clock stored.id status db after
                receipt (as_storage-eq-ok _ written))))

    pub fail_with_report-Tells :
        (failure : JobFailure)
        → fail_with_report services limits representable moment stored job failure db
          ≡ ok (message, db')
        → Tells stored.id stored.source_message_id failed message db'
    unfolding fail_with_report
    fail_with_report-Tells failure h =
        let kind = failed_report job.job_id job.idempotency_key moment.now failure in
        let error = stored_error failure moment.now in
        let (m, sent, h1) =
          >>=-eq-ok (agent_message services moment stored.source_message_id kind) _ h in
        let (status, outbound, h2) =
          >>=-eq-ok (outbound_status services limits representable moment stored.id m) _ h1 in
        let (after, written, h3) =
          >>=-eq-ok
            (as_storage (mark_failed_with_status limits moment.clock stored.id error status db)) _
            h2 in
        let em : m ≡ message = ground (arith, h3) in
        let ed : after ≡ db' = ground (arith, h3) in
        rw (← em, ← ed)
          (finished-Tells stored.id stored.source_message_id failed none (some error) m db after
            (agent_message-answers stored.source_message_id kind m sent).0
            (rw (← outbound_status-about stored.id m status outbound) (
              mark_failed_with_status-IsFinished limits moment.clock stored.id status db after error
                (as_storage-eq-ok _ written))))
