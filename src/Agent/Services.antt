-- ===== src/Agent/Services.antt =====
-- crates/oppa-agent/src/processor.rs: what a JobProcessor works with. What the message codec, the
-- printer catalog, the renderer, the fetcher and the spoolers answer is a record of services; the
-- clock, the fresh message identifiers and the log of what was handed to a spooler are explicit. A
-- time stands for its text.
use oppa.Common.{ℕ, Bool, Option, List, Result, ok, err, ensure, ◌>>◌}
use oppa.Common.Text.{Text}
use oppa.Core.{IdentifierError, JobState}
use oppa.Printer.{PrinterRef}
use oppa.Storage.Schema.{StorageError, SubmissionReceipt, Database}
use oppa.Agent.Lifecycle.{AgentHandle, AgentEvent, publish_job_event}
use oppa.Renderer.{RendererError, RenderTarget}
use oppa.Agent.Failure.{JobFailure, SpoolerError, DocumentFetchError}

pub data JobProcessingError : Type 0 where
  expected_print_job protocol json : JobProcessingError
  identifier : IdentifierError → JobProcessingError
  storage : StorageError → JobProcessingError

pub data JobDocument (Value : Type 0) : Type 0 where
  receipt : (document : Value) → JobDocument Value
  pdf : (source settings : Value) → JobDocument Value

-- `PrintJob`, as far as it is read
pub record PrintJob (Value : Type 0) : Type 0 where
  pub job_id : Text
  pub idempotency_key : Text
  pub printer_id : Text
  pub document : JobDocument Value

pub data AgentMessageKind : Type 0 where
  received_report : (job_id idempotency_key : Text) (received_at : ℕ) → AgentMessageKind
  submitted_report :
      (job_id idempotency_key printer_id : Text) (submitted_at : ℕ) → AgentMessageKind
  failed_report :
      (job_id idempotency_key : Text) (failed_at : ℕ) (error : JobFailure) → AgentMessageKind

-- `AgentMessage`; its version is the base version for these kinds.
pub record AgentMessage : Type 0 where
  pub message_id : Text
  pub sent_at : ℕ
  pub correlation_id : Text
  pub kind : AgentMessageKind

pub record ServerMessage (Value : Type 0) : Type 0 where
  pub message_id : Text
  pub print_job : Option (PrintJob Value)

-- The answers of the processor's collaborators during one call.
pub record Services (Value Rendered : Type 0) : Type 0 where
  pub server_message_is_valid : ServerMessage Value → Bool
  pub invalid_job : PrintJob Value → Option Text
  pub encode_job : PrintJob Value → Option Value
  pub decode_job : Value → Result Text (PrintJob Value)
  pub agent_message_is_valid : AgentMessage → Bool
  pub encode_message : AgentMessage → Option Value
  pub resolve : Text → Result Text (Option PrinterRef)
  pub render : Value → RenderTarget → Result (RendererError × Text) Rendered
  pub fetch_pdf : Option (Text → Value → Result (DocumentFetchError × Text) Value)
  pub render_pdf : Value → Value → Result Text (Result (RendererError × Text) Rendered)
  pub submit : Text → PrinterRef → Rendered → Result (SpoolerError × Text) SubmissionReceipt

-- The readings of the clock and the identifier of the next message during one step.
pub record Moment : Type 0 where
  pub clock : Option ℕ
  pub now : ℕ
  pub message_id : Text

pub data ProcessOutcome : Type 0 where
  submitted_outcome : (job_id : Text) (message : AgentMessage) → ProcessOutcome
  failed_outcome : (job_id : Text) (message : Option AgentMessage) → ProcessOutcome
  cancelled_outcome : (job_id : Text) → ProcessOutcome
  skipped_outcome : (job_id : Text) (state : JobState) → ProcessOutcome

-- `JobProcessor` with its repository: `active` has the jobs at a spooler with their cancellation
-- flags, and `handed_over` the job of every call of a spooler, newest first.
pub record Agent : Type 0 where
  pub database : Database
  pub handle : AgentHandle
  pub active : List (Text × Bool)
  pub handed_over : List Text

abbrev pub publish : AgentEvent → Agent → Agent
publish event agent = record agent { handle = publish_job_event agent.handle event }

abbrev pub as_storage {ℓ} : {A : Type ℓ} → Result StorageError A → Result JobProcessingError A
as_storage (ok a) = ok a
as_storage (err e) = err (storage e)

-- `agent_message`
unfoldable pub agent_message :
    {Value Rendered : Type 0}
    → Services Value Rendered
    → Moment
    → Text
    → AgentMessageKind
    → Result JobProcessingError AgentMessage
agent_message services moment correlation_id kind = do
  let message : AgentMessage = record {
    message_id = moment.message_id;
    sent_at = moment.now;
    correlation_id = correlation_id;
    kind = kind;
  }
  ensure (services.agent_message_is_valid message) protocol
  ok message
