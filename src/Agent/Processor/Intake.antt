-- ===== src/Agent/Processor/Intake.antt =====
-- crates/oppa-agent/src/processor.rs: receiving, cancelling, recovering and draining jobs.
use oppa.Common.{
  ℕ, Bool, true, false, Option, none, some, List, [], ◌∷◌, Result, ok, err, ensure, ok_or, ◌>>=◌,
  ◌>>◌, any, update_where, if◌then◌else◌,
}
use oppa.Common.Text.{Text}
use oppa.Core
use oppa.Core.{IdentifierError, JobState, is_terminal}
use oppa.Storage.Schema.{StorageError, job_not_found, invalid_transition, Database, StorageLimits}
use oppa.Storage.Payload.{JsonCodec}
use oppa.Storage.Insert.{
  ReceivedPrintJob, InsertResult, inserted, duplicate_job, duplicate_idempotency, insert_received,
}
use oppa.Storage.Transition.{mark_cancelled}
use oppa.Storage.Recovery.{RecoveryResult, recover_interrupted}
use oppa.Storage.Loading.{StoredPrintJob, pending_jobs}
use oppa.Agent.Lifecycle.{
  job_received, duplicate_job as duplicate_job_event,
  duplicate_idempotency as duplicate_idempotency_event, cancellation_requested, job_cancelled,
  recovery_completed, set_pending_jobs,
}
use oppa.Agent.Services.{
  JobProcessingError, expected_print_job, protocol, json, identifier, storage, PrintJob,
  AgentMessage, received_report, ServerMessage, Services, Moment, ProcessOutcome, Agent, publish,
  agent_message,
}
use oppa.Agent.Processor.{refresh_pending}
use oppa.Agent.Processor.Submission.{Moments, names, process_stored_job}

pub data ReceiveJobOutcome : Type 0 where
  inserted_outcome : (acknowledgement : AgentMessage) → ReceiveJobOutcome
  duplicate_job_outcome : (state : JobState) (acknowledgement : AgentMessage) → ReceiveJobOutcome
  duplicate_idempotency_outcome :
      (job_id existing_job_id : Text) (state : JobState) → ReceiveJobOutcome

abbrev pub acknowledgement : ReceiveJobOutcome → Option AgentMessage
acknowledgement (inserted_outcome message) = some message
acknowledgement (duplicate_job_outcome _ message) = some message
acknowledgement (duplicate_idempotency_outcome _ _ _) = none

pub data CancelOutcome : Type 0 where
  cancellation_requested_outcome cancelled_now not_found : (job_id : Text) → CancelOutcome
  already_terminal : (job_id : Text) (state : JobState) → CancelOutcome

abbrev pub as_identifier {ℓ} : {A : Type ℓ} → Result IdentifierError A → Result JobProcessingError A
as_identifier (ok a) = ok a
as_identifier (err e) = err (identifier e)

abbrev pub flagged : Text × Bool → Text × Bool
flagged (id, _) = (id, true)

-- The answer of `mark_cancelled` as `cancel_job` reads it.
abbrev pub cancel_answer :
    Text → Agent → Result StorageError Database → Result JobProcessingError CancelOutcome × Agent
cancel_answer id agent (ok db) =
    (ok (cancelled_now id), publish (job_cancelled id) (record agent { database = db }))
cancel_answer id agent (err (job_not_found _)) = (ok (not_found id), agent)
cancel_answer id agent (err (invalid_transition other current requested)) =
    if is_terminal current
    then (ok (already_terminal id current), agent)
    else (err (storage (invalid_transition other current requested)), agent)
cancel_answer id agent (err e) = (err (storage e), agent)

-- `job.validate().is_ok()`
abbrev pub is_valid : Option Text → Bool
is_valid none = true
is_valid (some _) = false

abbrev pub acknowledge_with :
    (AgentMessage → ReceiveJobOutcome)
    → Result JobProcessingError AgentMessage
    → Result JobProcessingError ReceiveJobOutcome
acknowledge_with outcome (err e) = err e
acknowledge_with outcome (ok message) = ok (outcome message)

module _ {Value Rendered : Type 0} ⦃codec : JsonCodec Value⦄ (services : Services Value Rendered)
    (limits : StorageLimits) (representable : ℕ → Bool) where
  unfoldable pub received_message :
      Moment → PrintJob Value → Text → ℕ → Result JobProcessingError AgentMessage
  received_message moment job correlation_id received_at =
      agent_message services moment correlation_id
        (received_report job.job_id job.idempotency_key received_at)

  -- The delivered job as the repository takes it.
  unfoldable pub delivered :
      Moment
      → ServerMessage Value
      → Result JobProcessingError (PrintJob Value × ReceivedPrintJob Value)
  delivered moment message = do
    ensure (services.server_message_is_valid message) protocol
    job ← ok_or message.print_job expected_print_job
    ensure (is_valid (services.invalid_job job)) protocol
    job_id ← as_identifier (Core.identifier job.job_id)
    printer_id ← as_identifier (Core.identifier job.printer_id)
    payload ← ok_or (services.encode_job job) json
    ok (
      job,
      record {
        id = job_id;
        idempotency_key = job.idempotency_key;
        printer_id = printer_id;
        payload = payload;
        source_message_id = message.message_id;
        received_at = moment.now;
      },
    )

  -- The match on the repository's answer.
  unfoldable pub receipt_answer :
      Moment
      → ServerMessage Value
      → PrintJob Value
      → Text
      → InsertResult
      → Agent
      → Result JobProcessingError ReceiveJobOutcome × Agent
  unfolding received_message refresh_pending
  receipt_answer moment message job id inserted agent = (
    acknowledge_with inserted_outcome (received_message moment job message.message_id moment.now),
    refresh_pending services limits representable (publish (job_received id) agent),
  )
  receipt_answer moment message job id (duplicate_job state) agent = (
    acknowledge_with (duplicate_job_outcome state)
        (received_message moment job message.message_id moment.now),
    publish (duplicate_job_event id state) agent,
  )
  receipt_answer moment message job id (duplicate_idempotency existing state) agent = (
    ok (duplicate_idempotency_outcome id existing state),
    publish (duplicate_idempotency_event id existing state) agent,
  )

  unfoldable pub receive_print_job :
      Moment → ServerMessage Value → Agent → Result JobProcessingError ReceiveJobOutcome × Agent
  unfolding delivered receipt_answer
  receive_print_job moment message agent = elim (delivered moment message) [
    | err e ↦ (err e, agent)
    | ok (job, received) ↦ elim (insert_received limits received agent.database) [
      | err e ↦ (err (storage e), agent)
      | ok (answer, db) ↦
          receipt_answer moment message job received.id answer (record agent { database = db })
    ]
  ]

  unfoldable pub cancel_job :
      Moment → Text → Agent → Result JobProcessingError CancelOutcome × Agent
  unfolding refresh_pending
  cancel_job moment job_id agent = elim (as_identifier (Core.identifier job_id)) [
    | err e ↦ (err e, agent)
    | ok id ↦
        if any (names id) agent.active
        then (
          ok (cancellation_requested_outcome id),
          publish (cancellation_requested id)
              (record agent { active = update_where (names id) flagged agent.active }),
        )
        else settled (cancel_answer id agent (mark_cancelled limits moment.clock id agent.database))
  ]
    where
      settled :
          Result JobProcessingError CancelOutcome × Agent
          → Result JobProcessingError CancelOutcome × Agent
      settled (err e, after) = (err e, after)
      settled (ok outcome, after) =
          (ok outcome, refresh_pending services limits representable after)

  -- `recover_interrupted_inner`
  unfoldable pub recover : Moment → Agent → Result JobProcessingError RecoveryResult × Agent
  recover moment agent = elim (recover_interrupted representable moment.clock agent.database) [
    | err e ↦ (err (storage e), agent)
    | ok (recovery, db) ↦ (
      ok recovery,
      publish (recovery_completed recovery.recovered_submissions recovery.pending_jobs)
          (record agent {
            database = db;
            handle = set_pending_jobs agent.handle recovery.pending_jobs;
          }),
    )
  ]

  -- The loop of `process_pending_inner`, with the moments of each job and what comes meanwhile.
  unfoldable pub process_each :
      (Text → Moments)
      → (Agent → Agent)
      → List (StoredPrintJob Value)
      → Agent
      → Result JobProcessingError (List ProcessOutcome) × Agent
  unfolding refresh_pending
  process_each moments meanwhile [] agent = (ok [], agent)
  process_each moments meanwhile (stored ∷ rest) agent =
      let (answer, after) =
        process_stored_job services limits representable (moments stored.id) meanwhile stored
          agent in
      let (later, end) =
        process_each moments meanwhile rest (refresh_pending services limits representable after) in
      elim answer [ err e ↦ (err e, after) | ok outcome ↦ (prepend outcome later, end) ]
    where
      prepend :
          ProcessOutcome
          → Result JobProcessingError (List ProcessOutcome)
          → Result JobProcessingError (List ProcessOutcome)
      prepend outcome (err e) = err e
      prepend outcome (ok outcomes) = ok (outcome ∷ outcomes)

  -- `process_pending_inner`
  unfoldable pub process_pending :
      (Text → Moments)
      → (Agent → Agent)
      → Agent
      → Result JobProcessingError (List ProcessOutcome) × Agent
  unfolding process_each
  process_pending moments meanwhile agent = elim (pending_jobs representable agent.database) [
    | err e ↦ (err (storage e), agent)
    | ok pending ↦ process_each moments meanwhile pending agent
  ]

  unfoldable pub recover_and_process :
      Moment
      → (Text → Moments)
      → (Agent → Agent)
      → Agent
      → Result JobProcessingError (RecoveryResult × List ProcessOutcome) × Agent
  unfolding recover process_pending
  recover_and_process moment moments meanwhile agent =
      let (answer, recovered) = recover moment agent in
      elim answer [
        | err e ↦ (err e, recovered)
        | ok recovery ↦
            let (outcomes, end) = process_pending moments meanwhile recovered in
            elim outcomes [ err e ↦ (err e, end) | ok done ↦ (ok (recovery, done), end) ]
      ]
