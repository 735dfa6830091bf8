-- ===== src/Agent/Processor.antt =====
-- crates/oppa-agent/src/processor.rs: JobProcessor, the preparation of a stored job and its failures.
pub mod Submission
pub mod Intake
pub mod Telling
pub mod Outcomes
pub mod Handing
pub mod Cancelling
pub mod Submitting
pub mod Acknowledging
pub mod Failing
pub mod Storing
use oppa.Common.{
  ◌++◌, ℕ, Bool, true, false, not, ◌||◌, Option, none, some, List, [], ◌∷◌, length, Result, ok, err,
  ensure, ok_or, ◌>>=◌, ◌>>◌, filter, any, if◌then◌else◌,
}
use oppa.Common.Text.{Text, text, text_eq}
use oppa.Core
use oppa.Core.{IdentifierError, JobState, submitted, is_terminal}
use oppa.Printer.{PrinterRef}
use oppa.Storage.Schema.{
  StorageError, invalid_transition, job_not_found, SubmissionReceipt, Database, StorageLimits,
}
use oppa.Storage.Payload.{JsonCodec}
use oppa.Storage.Insert.{
  ReceivedPrintJob, InsertResult, inserted, duplicate_job, duplicate_idempotency, insert_received,
}
use oppa.Storage.Transition.{
  NewOutboundStatus, mark_submitting, mark_submitted_with_status, mark_failed,
  mark_failed_with_status, mark_cancelled,
}
use oppa.Storage.Recovery.{RecoveryResult, recover_interrupted}
use oppa.Storage.Loading.{StoredPrintJob, pending_jobs}
use oppa.Agent.Lifecycle
use oppa.Agent.Lifecycle.{
  AgentHandle, AgentEvent, job_received, job_submitting, job_submitted, job_failed,
  cancellation_requested, job_cancelled, recovery_completed, set_pending_jobs, publish_job_event,
}
use oppa.Agent.Failure
use oppa.Renderer.{RendererError, RenderTarget}
use oppa.Agent.Failure.{
  JobFailure, stored_error, SpoolerError, DocumentFetchError, fetch_code, fetch_retryable,
  printer_render_target, pdf_route, renderer_failure, pdf_failure, spooler_failure,
  recovery_aware_failure,
}
use oppa.Agent.Services.{
  Agent, AgentMessage, AgentMessageKind, JobDocument, JobProcessingError, Moment, PrintJob,
  ProcessOutcome, ServerMessage, Services, agent_message, as_storage, cancelled_outcome,
  expected_print_job, failed_outcome, failed_report, identifier, json, pdf, protocol, publish,
  receipt, received_report, skipped_outcome, storage, submitted_outcome, submitted_report,
}

-- The checks of `resolve_enabled_printer` after the resolver's answer.
abbrev pub usable_printer : Text → Result Text (Option PrinterRef) → Result JobFailure PrinterRef
usable_printer id (err message) = err (Failure.new (text "printer.resolve_failed") message true)
usable_printer id (ok none) = err (
    Failure.new (text "printer.not_found") (text "the selected local printer is not configured")
      true)
usable_printer id (ok (some printer)) = do
  ensure (text_eq printer.id id) (
      Failure.new (text "printer.identity_mismatch")
        (text "the printer resolver returned a different stable identity") false)
  ensure printer.enabled
      (Failure.new (text "printer.disabled") (text "the selected local printer is disabled") true)
  ok printer

abbrev pub renderer_answer {ℓ} :
    {Rendered : Type ℓ} → Result (RendererError × Text) Rendered → Result JobFailure Rendered
renderer_answer (ok rendered) = ok rendered
renderer_answer (err (e, message)) = err (renderer_failure e message)

abbrev pub task_answer {ℓ} :
    {Rendered : Type ℓ}
    → Result Text (Result (RendererError × Text) Rendered)
    → Result JobFailure Rendered
task_answer (err message) = err (
    Failure.new (text "document.render_failed") (text "PDF validation did not finish: " ++ message)
      true)
task_answer (ok (err (e, message))) = err (pdf_failure e message)
task_answer (ok (ok rendered)) = ok rendered

abbrev pub fetch_answer {ℓ} :
    {Value : Type ℓ} → Result (DocumentFetchError × Text) Value → Result JobFailure Value
fetch_answer (ok bytes) = ok bytes
fetch_answer (err (e, message)) = err (Failure.new (fetch_code e) message (fetch_retryable e))

module _ {Value Rendered : Type 0} ⦃codec : JsonCodec Value⦄ (services : Services Value Rendered)
    (limits : StorageLimits) (representable : ℕ → Bool) where
  -- `refresh_pending_best_effort`
  unfoldable pub refresh_pending : Agent → Agent
  refresh_pending agent = elim (pending_jobs {Value = Value} representable agent.database) [
    | err _ ↦ agent
    | ok pending ↦ record agent { handle = set_pending_jobs agent.handle (length pending) }
  ]

  -- `outbound_status`
  unfoldable pub outbound_status :
      Moment → Text → AgentMessage → Result JobProcessingError (NewOutboundStatus Value)
  outbound_status moment job_id message = do
    payload ← ok_or (services.encode_message message) json
    ok (record {
      message_id = message.message_id;
      job_id = job_id;
      payload = payload;
      created_at = moment.now;
    })

  unfoldable pub validate_persisted_job :
      StoredPrintJob Value → PrintJob Value → Result JobFailure (Unit {0})
  unfolding Failure.new
  validate_persisted_job stored job = elim (services.invalid_job job) [
    | some message ↦ err (Failure.new (text "job.invalid_persisted") message false)
    | none ↦
        ensure
          (not (
            not (text_eq job.job_id stored.id)
            || not (text_eq job.idempotency_key stored.idempotency_key)
            || not (text_eq job.printer_id stored.printer_id)))
          (Failure.new (text "job.storage_mismatch")
            (text "persisted job identity does not match its durable row") false)
  ]

  unfoldable pub resolve_enabled_printer : Text → Result JobFailure PrinterRef
  unfolding Failure.new
  resolve_enabled_printer id = usable_printer id (services.resolve id)

  -- `render_receipt`
  unfoldable pub render_receipt : Value → PrinterRef → Result JobFailure Rendered
  render_receipt document printer = do
    target ← printer_render_target printer
    renderer_answer (services.render document target)

  -- `render_pdf_bytes`, where the blocking task may be lost
  unfoldable pub render_pdf_bytes : Value → Value → Result JobFailure Rendered
  unfolding Failure.new
  render_pdf_bytes bytes settings = task_answer (services.render_pdf bytes settings)

  unfoldable pub render_pdf_job :
      StoredPrintJob Value → Value → Value → PrinterRef → Result JobFailure Rendered
  unfolding Failure.new render_pdf_bytes
  render_pdf_job stored source settings printer = do
    pdf_route printer
    fetcher ← ok_or services.fetch_pdf (
        Failure.new (text "document.fetch_unavailable")
          (text "this agent is not configured to retrieve PDF documents") false)
    bytes ← fetch_answer (fetcher stored.id source)
    render_pdf_bytes bytes settings

  abbrev pub render_job :
      StoredPrintJob Value → JobDocument Value → PrinterRef → Result JobFailure Rendered
  render_job stored (receipt document) printer = render_receipt document printer
  render_job stored (pdf source settings) printer = render_pdf_job stored source settings printer

  -- What is handed to a spooler for a job, or why the job fails before.
  unfoldable pub prepare :
      StoredPrintJob Value → PrintJob Value → Result JobFailure (PrinterRef × Rendered)
  unfolding validate_persisted_job resolve_enabled_printer render_receipt render_pdf_job
  prepare stored job = do
    validate_persisted_job stored job
    printer ← resolve_enabled_printer stored.printer_id
    rendered ← render_job stored job.document printer
    ok (printer, rendered)

  -- The report and the repository's call of `persist_failure_while_active`.
  unfoldable pub fail_with_report :
      Moment
      → StoredPrintJob Value
      → PrintJob Value
      → JobFailure
      → Database
      → Result JobProcessingError (AgentMessage × Database)
  unfolding outbound_status
  fail_with_report moment stored job failure db = do
    message ←
        agent_message services moment stored.source_message_id
          (failed_report job.job_id job.idempotency_key moment.now failure)
    outbound ← outbound_status moment stored.id message
    after ← as_storage (
        mark_failed_with_status limits moment.clock stored.id (stored_error failure moment.now)
          outbound db)
    ok (message, after)

  abbrev pub failed_with :
      StoredPrintJob Value
      → JobFailure
      → Option AgentMessage
      → Database
      → Agent
      → Result JobProcessingError ProcessOutcome × Agent
  failed_with stored failure message db agent = (
    ok (failed_outcome stored.id message),
    publish (job_failed stored.id failure.code failure.retryable) (record agent { database = db }),
  )

  unfoldable pub persist_failure :
      Moment
      → StoredPrintJob Value
      → PrintJob Value
      → JobFailure
      → Agent
      → Result JobProcessingError ProcessOutcome × Agent
  unfolding fail_with_report
  persist_failure moment stored job failure agent =
      let aware = recovery_aware_failure stored.recovery_count failure in
      elim (fail_with_report moment stored job aware agent.database) [
        | err e ↦ (err e, agent)
        | ok (message, db) ↦ failed_with stored aware (some message) db agent
      ]

  unfoldable pub persist_unreportable_failure :
      Moment
      → StoredPrintJob Value
      → JobFailure
      → Agent
      → Result JobProcessingError ProcessOutcome × Agent
  persist_unreportable_failure moment stored failure agent =
      let aware = recovery_aware_failure stored.recovery_count failure in
      elim (mark_failed limits moment.clock stored.id (stored_error aware moment.now)
        agent.database) [
          | err e ↦ (err (storage e), agent)
          | ok db ↦ failed_with stored aware none db agent
        ]
