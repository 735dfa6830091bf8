-- ===== src/Agent/Processor/Outcomes.antt =====
-- crates/oppa-agent/src/processor.rs: the outcome of a job against what the database holds.
use oppa.Common.{
  ℕ, ◌≡◌, ◌≢◌, refl, Bool, false, ◌||◌, some, none, ◌∷◌, ok, err, Result, Bool-cases, Result-cases,
  inl, inr, ap,
}
use oppa.Common.Text.{Text, text}
use oppa.Core.{received, submitted, failed, cancelled}
use oppa.Storage.Schema.{
  StorageError, invalid_transition, SubmissionReceipt, Database, StorageLimits,
}
use oppa.Storage.Payload.{JsonCodec}
use oppa.Storage.Transition.{mark_submitting, mark_failed, mark_cancelled}
use oppa.Storage.Loading.{StoredPrintJob}
use oppa.Agent.Lifecycle.{job_submitting, job_submitted, job_cancelled}
use oppa.Agent.Failure
use oppa.Agent.Failure.{
  JobFailure, stored_error, SpoolerError, spooler_failure, recovery_aware_failure,
}
use oppa.Agent.Services.{
  JobProcessingError, storage, PrintJob, Services, Moment, ProcessOutcome, submitted_outcome,
  failed_outcome, cancelled_outcome, skipped_outcome, Agent, publish,
}
use oppa.Agent.Processor.{
  failed_with, fail_with_report, persist_failure, persist_unreportable_failure, prepare,
}
use oppa.Agent.Processor.Submission.{
  Moments, remove_active, answered, activate, claim_answer, claim, after_claim, is_cancelled,
  is_cancelled_error, record_submission, conclude, hand_over, submit, process_stored_job,
}
use oppa.Agent.Processor.Telling.{
  Stands, Tells, mark_cancelled-Stands, mark_failed-Stands, mark_submitting-refused,
  record_submission-Tells, fail_with_report-Tells,
}

-- What an outcome says of the job's row and of the report about it.
abbrev pub Holds : Text → Text → ProcessOutcome → Database → Type 0
Holds id source (submitted_outcome job message) db =
    (job ≡ id) × Tells id source submitted message db
Holds id source (failed_outcome job (some message)) db =
    (job ≡ id) × Tells id source failed message db
Holds id source (failed_outcome job none) db = (job ≡ id) × Stands id failed db
Holds id source (cancelled_outcome job) db = (job ≡ id) × Stands id cancelled db
Holds id source (skipped_outcome job state) db =
    (job ≡ id) × Stands id state db × (state ≢ received)

abbrev pub IsTold : Text → Text → Result JobProcessingError ProcessOutcome × Agent → Type 0
IsTold id source (err e, agent) = Unit
IsTold id source (ok outcome, agent) = Holds id source outcome agent.database

remove_active-IsTold :
    (id source : Text) (r : Result JobProcessingError ProcessOutcome × Agent)
    → IsTold id source r
    → IsTold id source (r.0, remove_active id r.1)
remove_active-IsTold id source (err e, agent) told = tt
remove_active-IsTold id source (ok outcome, agent) told = told

module _ {Value Rendered : Type 0} ⦃codec : JsonCodec Value⦄ (services : Services Value Rendered)
    (limits : StorageLimits) (representable : ℕ → Bool) where
  module _ (stored : StoredPrintJob Value) where
    -- An answer is told when it equals one that is.
    IsTold-eq :
        (r r' : Result JobProcessingError ProcessOutcome × Agent)
        → r' ≡ r
        → IsTold stored.id stored.source_message_id r
        → IsTold stored.id stored.source_message_id r'
    IsTold-eq r r' e told = rw e told

    persist_failure-IsTold :
        (moment : Moment) (job : PrintJob Value) (failure : JobFailure) (agent : Agent)
        → IsTold stored.id stored.source_message_id
            (persist_failure services limits representable moment stored job failure agent)
    unfolding persist_failure
    persist_failure-IsTold moment job failure agent =
        let aware = recovery_aware_failure stored.recovery_count failure in
        elim (Result-cases
          (fail_with_report services limits representable moment stored job aware agent.database)) [
            | inr (e, refused) ↦ IsTold-eq (err e, agent) _ (rw (refused, persist_failure)) tt
            | inl ((message, db), done) ↦
                IsTold-eq
                  (failed_with services limits representable stored aware (some message) db agent) _
                  (rw (done, persist_failure))
                  (
                    refl,
                    fail_with_report-Tells services limits representable moment stored job message
                        agent.database db aware done,
                  )
          ]

    persist_unreportable_failure-IsTold :
        (moment : Moment) (failure : JobFailure) (agent : Agent)
        → IsTold stored.id stored.source_message_id
            (persist_unreportable_failure services limits representable moment stored failure agent)
    unfolding persist_unreportable_failure
    persist_unreportable_failure-IsTold moment failure agent =
        let aware = recovery_aware_failure stored.recovery_count failure in
        let error = stored_error aware moment.now in
        elim (Result-cases (mark_failed limits moment.clock stored.id error agent.database)) [
          | inr (e, refused) ↦
              IsTold-eq (err (storage e), agent) _ (rw (refused, persist_unreportable_failure)) tt
          | inl (db, done) ↦
              IsTold-eq (failed_with services limits representable stored aware none db agent) _
                (rw (done, persist_unreportable_failure))
                (
                  refl,
                  mark_failed-Stands limits moment.clock stored.id agent.database db error done,
                )
        ]

    conclude-IsTold :
        (moment : Moment) (job : PrintJob Value)
        (answer : Result (SpoolerError × Text) SubmissionReceipt) (agent : Agent)
        → IsTold stored.id stored.source_message_id
            (conclude services limits representable moment stored job answer agent)
    unfolding conclude
    conclude-IsTold moment job (ok receipt) agent =
        elim (Result-cases (
          record_submission services limits representable moment stored job receipt
            agent.database)) [
              | inr (e, refused) ↦ IsTold-eq (err e, agent) _ (rw (refused, conclude)) tt
              | inl ((message, db), done) ↦
                  IsTold-eq
                    (
                      ok (submitted_outcome stored.id message),
                      publish (job_submitted stored.id) (record agent { database = db }),
                    )
                    _ (rw (done, conclude))
                    (
                      refl,
                      record_submission-Tells services limits representable moment stored job
                          message agent.database db receipt done,
                    )
            ]
    conclude-IsTold moment job (err (e, message)) agent =
        elim (Bool-cases (is_cancelled stored.id agent.active || is_cancelled_error e)) [
          | inr failing ↦
              IsTold-eq
                (persist_failure services limits representable moment stored job
                  (spooler_failure e message) agent)
                _ (rw (failing, conclude))
                (persist_failure-IsTold moment job (spooler_failure e message) agent)
          | inl cancelling ↦
              elim (Result-cases (mark_cancelled limits moment.clock stored.id agent.database)) [
                | inr (e', refused) ↦
                    IsTold-eq (err (storage e'), agent) _ (rw (cancelling, refused, conclude)) tt
                | inl (db, done) ↦
                    IsTold-eq
                      (
                        ok (cancelled_outcome stored.id),
                        publish (job_cancelled stored.id) (record agent { database = db }),
                      )
                      _ (rw (cancelling, done, conclude))
                      (
                        refl,
                        mark_cancelled-Stands limits moment.clock stored.id agent.database db done,
                      )
              ]
        ]

    hand_over-IsTold :
        (moment : Moment) (job : PrintJob Value)
        (answer : Result (SpoolerError × Text) SubmissionReceipt) (meanwhile : Agent → Agent)
        (agent : Agent)
        → IsTold stored.id stored.source_message_id
            (hand_over services limits representable moment stored job answer meanwhile agent)
    unfolding hand_over
    hand_over-IsTold moment job answer meanwhile agent =
        remove_active-IsTold stored.id stored.source_message_id
          (conclude services limits representable moment stored job answer (
            meanwhile (
              publish (job_submitting stored.id)
                (record agent { handed_over = stored.id ∷ agent.handed_over }))))
          (conclude-IsTold moment job answer (
            meanwhile (
              publish (job_submitting stored.id)
                (record agent { handed_over = stored.id ∷ agent.handed_over }))))

    refused_claim-IsTold :
        (moment : Moment) (agent : Agent) (e : StorageError)
        → mark_submitting limits moment.clock stored.id agent.database ≡ err e
        → (answer : Result JobProcessingError ProcessOutcome) × (claim_answer stored.id agent
              (err e)
            ≡ (answered answer, agent))
          × IsTold stored.id stored.source_message_id (answer, agent)
    refused_claim-IsTold moment agent (invalid_transition other current wanted) h =
        let (stands, taken) =
          mark_submitting-refused limits moment.clock stored.id other current wanted agent.database
            h in
        (ok (skipped_outcome stored.id current), refl, (refl, stands, taken))
    refused_claim-IsTold moment agent e h = (err (storage e), refl, tt)

    pub submitted_as :
        (moments : Moments) (job : PrintJob Value)
        (answer : Result (SpoolerError × Text) SubmissionReceipt) (meanwhile : Agent → Agent)
        (agent : Agent) (claiming : Result StorageError Database)
        → mark_submitting limits moments.claiming.clock stored.id agent.database ≡ claiming
        → submit services limits representable moments stored job answer meanwhile agent
          ≡ after_claim services limits representable moments.ending stored job answer meanwhile
              (claim_answer stored.id agent claiming)
    unfolding submit claim
    submitted_as moments job answer meanwhile agent claiming h =
        ap
          (λ c.
            after_claim services limits representable moments.ending stored job answer meanwhile
              (claim_answer stored.id agent c))
          h

    submit-IsTold :
        (moments : Moments) (job : PrintJob Value)
        (answer : Result (SpoolerError × Text) SubmissionReceipt) (meanwhile : Agent → Agent)
        (agent : Agent)
        → IsTold stored.id stored.source_message_id
            (submit services limits representable moments stored job answer meanwhile agent)
    submit-IsTold moments job answer meanwhile agent =
        elim (Result-cases
          (mark_submitting limits moments.claiming.clock stored.id agent.database)) [
            | inl (db, done) ↦
                IsTold-eq
                  (hand_over services limits representable moments.ending stored job answer
                    meanwhile (activate stored.id (record agent { database = db })))
                  _ (submitted_as moments job answer meanwhile agent (ok db) done)
                  (hand_over-IsTold moments.ending job answer meanwhile
                    (activate stored.id (record agent { database = db })))
            | inr (e, refused) ↦
                let (refusal, decided, told) =
                  refused_claim-IsTold moments.claiming agent e refused in
                IsTold-eq (refusal, agent) _
                  (rw decided at (submitted_as moments job answer meanwhile agent (err e) refused))
                  told
          ]

    -- Whatever the collaborators answer and whatever other calls do meanwhile: after an outcome, the
    -- job's row is in the state that the outcome names, which is not `received` for a skipped job, and
    -- a message that the outcome carries waits in the outbox exactly once, about this job and in
    -- answer to its delivery.
    pub process_stored_job-IsTold :
        (moments : Moments) (meanwhile : Agent → Agent) (agent : Agent)
        → IsTold stored.id stored.source_message_id
            (process_stored_job services limits representable moments meanwhile stored agent)
    unfolding process_stored_job
    process_stored_job-IsTold moments meanwhile agent =
        elim (Result-cases (services.decode_job stored.payload)) [
          | inr (message, undecoded) ↦ IsTold-eq _ _ (rw (undecoded, process_stored_job)) (
              persist_unreportable_failure-IsTold moments.ending
                (Failure.new (text "job.invalid_persisted") message false) agent)
          | inl (job, decoded) ↦
              elim (Result-cases (prepare services limits representable stored job)) [
                | inr (failure, unprepared) ↦
                    IsTold-eq _ _ (rw (decoded, unprepared, process_stored_job))
                      (persist_failure-IsTold moments.ending job failure agent)
                | inl ((printer, rendered), prepared) ↦
                    IsTold-eq _ _ (rw (decoded, prepared, process_stored_job)) (
                      submit-IsTold moments job (services.submit stored.id printer rendered)
                        meanwhile agent)
              ]
        ]
