-- ===== src/Agent/Processor/Cancelling.antt =====
-- crates/oppa-agent/src/processor.rs: a cancellation that comes while the spooler works.
use oppa.Common.{
  ℕ, Bool, true, false, ◌≡◌, ◌⊎◌, refl, List, ◌∷◌, ok, err, Result, arith, Result-cases, inl, inr,
}
use oppa.Common.Text.{Text, text_eq_refl}
use oppa.Core.{identifier}
use oppa.Printer.{PrinterRef}
use oppa.Storage.Schema.{StorageError, Database, StorageLimits}
use oppa.Storage.Payload.{JsonCodec}
use oppa.Storage.Transition.{mark_submitting, mark_cancelled}
use oppa.Storage.Loading.{StoredPrintJob}
use oppa.Agent.Lifecycle.{job_submitting}
use oppa.Agent.Failure.{SpoolerError}
use oppa.Agent.Services.{
  JobProcessingError, storage, PrintJob, Services, Moment, ProcessOutcome, cancelled_outcome, Agent,
  publish,
}
use oppa.Agent.Processor.{prepare}
use oppa.Agent.Processor.Submission.{
  Moments, is_cancelled, activate, conclude, hand_over, process_stored_job,
}
use oppa.Agent.Processor.Intake.{cancel_job}
use oppa.Agent.Processor.Outcomes.{submitted_as}

-- The job was cancelled, or the repository failed.
abbrev pub IsCancelledOrError : Text → Result JobProcessingError ProcessOutcome → Type 0
IsCancelledOrError id answer =
    (answer ≡ ok (cancelled_outcome id)) ⊎ ((e : StorageError) × (answer ≡ err (storage e)))

module _ {Value Rendered : Type 0} ⦃codec : JsonCodec Value⦄ (services : Services Value Rendered)
    (limits : StorageLimits) (representable : ℕ → Bool) (stored : StoredPrintJob Value) where
  flagged_active :
      (moment : Moment) (agent : Agent) (rest : List (Text × Bool))
      → identifier stored.id ≡ ok stored.id
      → agent.active ≡ (stored.id, false) ∷ rest
      → is_cancelled stored.id
          (cancel_job services limits representable moment stored.id agent).1.active
        ≡ true
  unfolding cancel_job
  flagged_active moment agent rest accepted e = ground (arith, accepted, e, text_eq_refl stored.id)

  conclude-cancelled :
      (moment : Moment) (job : PrintJob Value) (e : SpoolerError) (message : Text) (agent : Agent)
      → is_cancelled stored.id agent.active ≡ true
      → IsCancelledOrError stored.id
          (conclude services limits representable moment stored job (err (e, message)) agent).0
  unfolding conclude
  conclude-cancelled moment job e message agent flag =
      elim (Result-cases (mark_cancelled limits moment.clock stored.id agent.database)) [
        | inl (db, done) ↦ inl (rw (flag, done) refl)
        | inr (f, refused) ↦ inr (f, rw (flag, refused) refl)
      ]

  -- A job that was claimed and then cancelled by cancel_job while its spooler worked, which failed:
  -- it ends as cancelled, whatever the failure, or with an error of the repository, and never as
  -- failed.
  pub process_stored_job-cancelled :
      (moments : Moments) (moment : Moment) (job : PrintJob Value) (printer : PrinterRef)
      (rendered : Rendered) (e : SpoolerError) (message : Text) (agent : Agent) (db : Database)
      → services.decode_job stored.payload ≡ ok job
      → prepare services limits representable stored job ≡ ok (printer, rendered)
      → services.submit stored.id printer rendered ≡ err (e, message)
      → mark_submitting limits moments.claiming.clock stored.id agent.database ≡ ok db
      → identifier stored.id ≡ ok stored.id
      → IsCancelledOrError stored.id
          (process_stored_job services limits representable moments
            (λ a. (cancel_job services limits representable moment stored.id a).1)
            stored
            agent).0
  unfolding process_stored_job hand_over
  process_stored_job-cancelled moments moment job printer rendered e message agent db decoded
        prepared failing claimed accepted =
      let meanwhile =
        λ (a : Agent). (cancel_job services limits representable moment stored.id a).1 in
      let active = activate stored.id (record agent { database = db }) in
      let announced =
        publish (job_submitting stored.id)
          (record active { handed_over = stored.id ∷ active.handed_over }) in
      rw
        (
          process_stored_job,
          decoded,
          prepared,
          failing,
          submitted_as services limits representable stored moments job (err (e, message)) meanwhile
              agent (ok db) claimed,
        )
        (conclude-cancelled moments.ending job e message (meanwhile announced)
          (flagged_active moment announced _ accepted refl))
