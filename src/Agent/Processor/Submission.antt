-- ===== src/Agent/Processor/Submission.antt =====
-- crates/oppa-agent/src/processor.rs: the submission of one job.
-- The claim and the end of a submission each hold the lock of the active jobs; other calls may come
-- between them, while the spooler works, and are an argument.
use oppa.Common.{
  ℕ, Bool, true, false, not, ◌||◌, List, [], ◌∷◌, Result, ok, err, ◌>>=◌, filter, if◌then◌else◌,
}
use oppa.Common.Text.{Text, text, text_eq}
use oppa.Storage.Schema.{
  StorageError, invalid_transition, SubmissionReceipt, Database, StorageLimits,
}
use oppa.Storage.Payload.{JsonCodec}
use oppa.Storage.Transition.{mark_submitting, mark_submitted_with_status, mark_cancelled}
use oppa.Storage.Loading.{StoredPrintJob}
use oppa.Agent.Lifecycle.{job_submitting, job_submitted, job_cancelled}
use oppa.Agent.Failure
use oppa.Agent.Failure.{SpoolerError, cancelled, spooler_failure}
use oppa.Agent.Services.{
  JobProcessingError, storage, PrintJob, AgentMessage, submitted_report, Services, Moment,
  ProcessOutcome, submitted_outcome, cancelled_outcome, skipped_outcome, Agent, publish, as_storage,
  agent_message,
}
use oppa.Agent.Processor.{outbound_status, prepare, persist_failure, persist_unreportable_failure}

-- The moments of a job's claim and of its end.
pub record Moments : Type 0 where
  pub claiming : Moment
  pub ending : Moment

abbrev pub is_cancelled : Text → List (Text × Bool) → Bool
is_cancelled id [] = false
is_cancelled id ((other, flag) ∷ rest) =
    let later = is_cancelled id rest in if text_eq other id then flag else later

abbrev pub names : Text → Text × Bool → Bool
names id (other, flag) = text_eq other id

-- `active.remove(&id)`
abbrev pub remove_active : Text → Agent → Agent
remove_active id agent = record agent {
  active = filter (λ entry. not (names id entry)) agent.active;
}

abbrev pub is_cancelled_error : SpoolerError → Bool
is_cancelled_error cancelled = true
is_cancelled_error _ = false

-- What the claim decided: to go on, or the answer of `submit`.
pub data Claimed : Type 0 where
  go_on : Claimed
  answered : Result JobProcessingError ProcessOutcome → Claimed

-- `HashMap::insert`
abbrev pub activate : Text → Agent → Agent
activate id agent = record agent {
  active = (id, false) ∷ filter (λ entry. not (names id entry)) agent.active;
}

abbrev pub claim_answer : Text → Agent → Result StorageError Database → Claimed × Agent
claim_answer id agent (ok db) = (go_on, activate id (record agent { database = db }))
claim_answer id agent (err (invalid_transition _ current _)) =
    (answered (ok (skipped_outcome id current)), agent)
claim_answer id agent (err e) = (answered (err (storage e)), agent)

module _ {Value Rendered : Type 0} ⦃codec : JsonCodec Value⦄ (services : Services Value Rendered)
    (limits : StorageLimits) (representable : ℕ → Bool) where
  unfoldable pub claim : Moment → StoredPrintJob Value → Agent → Claimed × Agent
  claim moment stored agent =
      claim_answer stored.id agent (mark_submitting limits moment.clock stored.id agent.database)

  unfoldable pub record_submission :
      Moment
      → StoredPrintJob Value
      → PrintJob Value
      → SubmissionReceipt
      → Database
      → Result JobProcessingError (AgentMessage × Database)
  unfolding outbound_status
  record_submission moment stored job receipt db = do
    message ←
        agent_message services moment stored.source_message_id
          (submitted_report job.job_id job.idempotency_key job.printer_id receipt.accepted_at)
    outbound ← outbound_status services limits representable moment stored.id message
    after ←
        as_storage (mark_submitted_with_status limits moment.clock stored.id receipt outbound db)
    ok (message, after)

  -- The `match submission`, before the active entry is removed.
  unfoldable pub conclude :
      Moment
      → StoredPrintJob Value
      → PrintJob Value
      → Result (SpoolerError × Text) SubmissionReceipt
      → Agent
      → Result JobProcessingError ProcessOutcome × Agent
  unfolding record_submission persist_failure
  conclude moment stored job (ok receipt) agent =
      elim (record_submission moment stored job receipt agent.database) [
        | err e ↦ (err e, agent)
        | ok (message, db) ↦ (
          ok (submitted_outcome stored.id message),
          publish (job_submitted stored.id) (record agent { database = db }),
        )
      ]
  conclude moment stored job (err (e, message)) agent =
      let failed =
        persist_failure services limits representable moment stored job (spooler_failure e message)
          agent in
      if is_cancelled stored.id agent.active || is_cancelled_error e
      then conclude_cancelled (mark_cancelled limits moment.clock stored.id agent.database)
      else failed
    where
      conclude_cancelled :
          Result StorageError Database → Result JobProcessingError ProcessOutcome × Agent
      conclude_cancelled (err e) = (err (storage e), agent)
      conclude_cancelled (ok db) = (
        ok (cancelled_outcome stored.id),
        publish (job_cancelled stored.id) (record agent { database = db }),
      )

  -- The part of `submit` after a successful claim. `meanwhile` is what other calls do to the agent
  -- while the spooler works.
  unfoldable pub hand_over :
      Moment
      → StoredPrintJob Value
      → PrintJob Value
      → Result (SpoolerError × Text) SubmissionReceipt
      → (Agent → Agent)
      → Agent
      → Result JobProcessingError ProcessOutcome × Agent
  unfolding conclude
  hand_over moment stored job answer meanwhile agent =
      let announced =
        publish (job_submitting stored.id)
          (record agent { handed_over = stored.id ∷ agent.handed_over }) in
      let (outcome, after) = conclude moment stored job answer (meanwhile announced) in
      (outcome, remove_active stored.id after)

  abbrev pub after_claim :
      Moment
      → StoredPrintJob Value
      → PrintJob Value
      → Result (SpoolerError × Text) SubmissionReceipt
      → (Agent → Agent)
      → Claimed × Agent
      → Result JobProcessingError ProcessOutcome × Agent
  after_claim moment stored job answer meanwhile (answered outcome, agent) = (outcome, agent)
  after_claim moment stored job answer meanwhile (go_on, agent) =
      hand_over moment stored job answer meanwhile agent

  unfoldable pub submit :
      Moments
      → StoredPrintJob Value
      → PrintJob Value
      → Result (SpoolerError × Text) SubmissionReceipt
      → (Agent → Agent)
      → Agent
      → Result JobProcessingError ProcessOutcome × Agent
  unfolding claim hand_over
  submit moments stored job answer meanwhile agent =
      after_claim moments.ending stored job answer meanwhile (claim moments.claiming stored agent)

  unfoldable pub process_stored_job :
      Moments
      → (Agent → Agent)
      → StoredPrintJob Value
      → Agent
      → Result JobProcessingError ProcessOutcome × Agent
  unfolding submit prepare persist_failure persist_unreportable_failure Failure.new
  process_stored_job moments meanwhile stored agent = elim (services.decode_job stored.payload) [
    | err message ↦
        persist_unreportable_failure services limits representable moments.ending stored
          (Failure.new (text "job.invalid_persisted") message false) agent
    | ok job ↦ elim (prepare services limits representable stored job) [
      | err failure ↦
          persist_failure services limits representable moments.ending stored job failure agent
      | ok (printer, rendered) ↦
          submit moments stored job (services.submit stored.id printer rendered) meanwhile agent
    ]
  ]
