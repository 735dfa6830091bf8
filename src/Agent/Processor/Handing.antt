-- ===== src/Agent/Processor/Handing.antt =====
-- crates/oppa-agent/src/processor.rs: the jobs that reach a spooler.
use oppa.Common.{
  ℕ, Bool, false, ◌≡◌, ◌⊎◌, refl, ◌∙◌, ◌∷◌, ok, err, Result, arith, Result-cases, inl, inr,
}
use oppa.Common.Text.{Text, text}
use oppa.Core.{received}
use oppa.Storage.Schema.{StorageError, invalid_transition, SubmissionReceipt, StorageLimits}
use oppa.Storage.Payload.{JsonCodec}
use oppa.Storage.Transition.{mark_submitting}
use oppa.Storage.Lifecycle.Claiming.{claimed_row}
use oppa.Storage.Loading.{StoredPrintJob}
use oppa.Agent.Lifecycle.{job_submitting}
use oppa.Agent.Failure
use oppa.Agent.Failure.{JobFailure, SpoolerError}
use oppa.Agent.Services.{
  JobProcessingError, storage, skipped_outcome, PrintJob, Services, Moment, ProcessOutcome, Agent,
  publish,
}
use oppa.Agent.Processor.{prepare, persist_failure, persist_unreportable_failure}
use oppa.Agent.Processor.Submission.{
  Moments, answered, activate, claim_answer, conclude, hand_over, submit, process_stored_job,
}
use oppa.Agent.Processor.Telling.{Stands}
use oppa.Agent.Processor.Outcomes.{submitted_as}

-- Nothing more was handed to a spooler, or this job was, once, whose row had been `received`.
abbrev pub HandsOver : Text → Agent → Result JobProcessingError ProcessOutcome × Agent → Type 0
HandsOver id agent (_, after) =
    (after.handed_over ≡ agent.handed_over)
    ⊎ ((after.handed_over ≡ id ∷ agent.handed_over) × Stands id received agent.database)

refused_claim :
    (id : Text) (agent : Agent) (e : StorageError)
    → (answer : Result JobProcessingError ProcessOutcome) × (claim_answer id agent (err e)
        ≡ (answered answer, agent))
refused_claim id agent (invalid_transition other current wanted) =
    (ok (skipped_outcome id current), refl)
refused_claim id agent e = (err (storage e), refl)

module _ {Value Rendered : Type 0} ⦃codec : JsonCodec Value⦄ (services : Services Value Rendered)
    (limits : StorageLimits) (representable : ℕ → Bool) (stored : StoredPrintJob Value) where
  persist_failure-keeps :
      (moment : Moment) (job : PrintJob Value) (failure : JobFailure) (agent : Agent)
      → (persist_failure services limits representable moment stored job failure
          agent).1.handed_over
        ≡ agent.handed_over
  unfolding persist_failure
  persist_failure-keeps moment job failure agent = ground arith

  persist_unreportable_failure-keeps :
      (moment : Moment) (failure : JobFailure) (agent : Agent)
      → (persist_unreportable_failure services limits representable moment stored failure
          agent).1.handed_over
        ≡ agent.handed_over
  unfolding persist_unreportable_failure
  persist_unreportable_failure-keeps moment failure agent = ground arith

  conclude-keeps :
      (moment : Moment) (job : PrintJob Value)
      (answer : Result (SpoolerError × Text) SubmissionReceipt) (agent : Agent)
      → (conclude services limits representable moment stored job answer agent).1.handed_over
        ≡ agent.handed_over
  unfolding conclude
  conclude-keeps moment job (ok receipt) agent = ground arith
  conclude-keeps moment job (err (e, message)) agent =
      ground (arith, persist_failure-keeps moment job (Failure.spooler_failure e message) agent)

  submit-HandsOver :
      (moments : Moments) (job : PrintJob Value)
      (answer : Result (SpoolerError × Text) SubmissionReceipt) (meanwhile : Agent → Agent)
      (agent : Agent)
      → ((a : Agent) → (meanwhile a).handed_over ≡ a.handed_over)
      → HandsOver stored.id agent
          (submit services limits representable moments stored job answer meanwhile agent)
  unfolding hand_over
  submit-HandsOver moments job answer meanwhile agent quiet =
      elim (Result-cases (mark_submitting limits moments.claiming.clock stored.id agent.database)) [
        | inr (e, refused) ↦
            let (refusal, decided) = refused_claim stored.id agent e in
            rw
              (
                submitted_as services limits representable stored moments job answer meanwhile agent
                    (err e) refused,
                decided,
              )
              (inl refl)
        | inl (db, done) ↦
            let (before, _, found, was, _, _, _) =
              claimed_row limits moments.claiming.clock stored.id agent.database db done in
            let claimed = activate stored.id (record agent { database = db }) in
            let announced =
              publish (job_submitting stored.id)
                (record claimed { handed_over = stored.id ∷ claimed.handed_over }) in
            rw
              (submitted_as services limits representable stored moments job answer meanwhile agent
                (ok db) done)
              (inr (
                conclude-keeps moments.ending job answer (meanwhile announced) ∙ quiet announced,
                (before, found, was),
              ))
      ]

  -- Where other calls hand nothing over meanwhile: one call hands at most its own job to a spooler,
  -- at most once, and only if the job's row was `received` when the call began.
  pub process_stored_job-HandsOver :
      (moments : Moments) (meanwhile : Agent → Agent) (agent : Agent)
      → ((a : Agent) → (meanwhile a).handed_over ≡ a.handed_over)
      → HandsOver stored.id agent
          (process_stored_job services limits representable moments meanwhile stored agent)
  unfolding process_stored_job
  process_stored_job-HandsOver moments meanwhile agent quiet =
      elim (Result-cases (services.decode_job stored.payload)) [
        | inr (message, undecoded) ↦ inl (
            rw (process_stored_job, undecoded)
              (persist_unreportable_failure-keeps moments.ending
                (Failure.new (text "job.invalid_persisted") message false) agent))
        | inl (job, decoded) ↦
            elim (Result-cases (prepare services limits representable stored job)) [
              | inr (failure, unprepared) ↦ inl (
                  rw (process_stored_job, decoded, unprepared)
                    (persist_failure-keeps moments.ending job failure agent))
              | inl ((printer, rendered), prepared) ↦
                  rw (process_stored_job, decoded, prepared)
                    (submit-HandsOver moments job (services.submit stored.id printer rendered)
                      meanwhile agent quiet)
            ]
      ]
