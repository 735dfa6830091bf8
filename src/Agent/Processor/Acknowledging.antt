-- ===== src/Agent/Processor/Acknowledging.antt =====
-- crates/oppa-agent/src/processor.rs: a delivery's answer against what the repository holds.
use oppa.Common.{
  ℕ, Bool, ◌&&◌, ◌≡◌, ◌⊎◌, refl, ◌∙◌, some, ok, err, ensure, ok_or, Result, arith, >>=-eq-ok,
  Result-cases, Option-cases, inl, inr, ap, find,
}
use oppa.Common.Text.{Text, text_eq, text_eq→eq}
use oppa.Core
use oppa.Core.{IdentifierError, JobState}
use oppa.Storage.Schema.{
  JobRow, Database, StorageLimits, has_id, job_identity_conflict, job_content_conflict,
  max_job_payload_bytes, validate_key,
}
use oppa.Storage.Payload.{JsonCodec, bounded_json, payload_fingerprint, payload_matches}
use oppa.Storage.Insert.{
  ReceivedPrintJob, InsertResult, inserted, duplicate_job, duplicate_idempotency, redelivered,
  insert_transaction, insert_received,
}
use oppa.Storage.Consistency.Inserting.{enqueue-ok}
use oppa.Storage.Delivery.{inserted-StoredFrom}
use oppa.Agent.Lifecycle.{job_received}
use oppa.Agent.Services.{
  JobProcessingError, expected_print_job, protocol, json, PrintJob, AgentMessage, received_report,
  ServerMessage, Services, Moment, Agent, publish,
}
use oppa.Agent.Processor.{refresh_pending}
use oppa.Agent.Processor.Intake.{
  ReceiveJobOutcome, inserted_outcome, duplicate_job_outcome, acknowledgement, is_valid,
  as_identifier, received_message, delivered, acknowledge_with, receipt_answer, receive_print_job,
}
use oppa.Agent.Processor.Telling.{agent_message-answers}

-- The tables hold the job under its own key and printer.
abbrev pub IsKept : (id key printer_id : Text) → Database → Type 0
IsKept id key printer_id db =
    (row : JobRow) × (find (has_id id) db.jobs ≡ some row)
    × (row.idempotency_key ≡ key)
    × (row.printer_id ≡ printer_id)

module _ {Value : Type 0} ⦃codec : JsonCodec Value⦄ (limits : StorageLimits)
    (job : ReceivedPrintJob Value) where
  redelivered-same :
      (sha256 : Text) (existing : JobRow) (r : InsertResult)
      → redelivered job sha256 existing ≡ ok r
      → (existing.idempotency_key ≡ job.idempotency_key) × (existing.printer_id ≡ job.printer_id)
  unfolding redelivered
  redelivered-same sha256 existing r h =
      let (_, same_key, h1) =
        >>=-eq-ok
          (ensure (text_eq existing.idempotency_key job.idempotency_key)
            (job_identity_conflict job.id))
          _ h in
      let (matches, _, h2) = >>=-eq-ok (payload_matches existing sha256 job.payload) _ h1 in
      let (_, same_printer, h3) =
        >>=-eq-ok
          (ensure (text_eq existing.printer_id job.printer_id && matches)
            (job_content_conflict job.id))
          _ h2 in
      (
        ground (arith, text_eq→eq existing.idempotency_key job.idempotency_key),
        ground (arith, text_eq→eq existing.printer_id job.printer_id),
      )

  known_job-IsKept :
      (payload sha256 : Text) (state : JobState) (db db' : Database)
      → insert_transaction limits job payload sha256 db ≡ ok (duplicate_job state, db')
      → IsKept job.id job.idempotency_key job.printer_id db'
  unfolding insert_transaction
  known_job-IsKept payload sha256 state db db' h =
      elim (Option-cases (find (has_id job.id) db.jobs)) [
        | inl missing ↦ absurd (
            ground (
              arith,
              missing,
              enqueue-ok limits job payload sha256 db {r = duplicate_job state} {db' = db'},
            ))
        | inr (row, found) ↦
            let (answer, redelivering, same) =
              >>=-eq-ok (redelivered job sha256 row) (λ (r : InsertResult). ok (r, db))
                (rw (insert_transaction, found) at h) in
            let (same_key, same_printer) = redelivered-same sha256 row answer redelivering in
            let e : db' ≡ db = ground (arith, same) in (row, rw e found, same_key, same_printer)
      ]

  -- After a delivery that the repository took or knew.
  pub insert_received-IsKept :
      (r : InsertResult) (db db' : Database)
      → insert_received limits job db ≡ ok (r, db')
      → (r ≡ inserted) ⊎ ((state : JobState) × (r ≡ duplicate_job state))
      → IsKept job.id job.idempotency_key job.printer_id db'
  unfolding insert_received
  insert_received-IsKept r db db' h (inl new) =
      let (_, held) = inserted-StoredFrom limits job db db' (rw new at h) in
      (held.row, held.found, held.holds.same_key, held.holds.same_printer)
  insert_received-IsKept r db db' h (inr (state, known)) =
      let (_, _, h1) = >>=-eq-ok (validate_key job.idempotency_key 256) _ h in
      let (_, _, h2) = >>=-eq-ok (validate_key job.source_message_id 128) _ h1 in
      let (payload, _, h3) = >>=-eq-ok (bounded_json job.payload max_job_payload_bytes) _ h2 in
      let (sha256, _, h4) = >>=-eq-ok (payload_fingerprint job.payload) _ h3 in
      known_job-IsKept payload sha256 state db db' (rw known at h4)

-- An accepted identifier is the text itself.
identifier-eq : (text id : Text) → as_identifier (Core.identifier text) ≡ ok id → id ≡ text
unfolding Core.identifier
identifier-eq text id h = ground arith

module _ {Value Rendered : Type 0} ⦃codec : JsonCodec Value⦄ (services : Services Value Rendered)
    (limits : StorageLimits) (representable : ℕ → Bool) (moment : Moment)
    (message : ServerMessage Value) where
  record IsDelivered (job : PrintJob Value) (received : ReceivedPrintJob Value) : Type 0 where
    pub is_job : message.print_job ≡ some job
    pub same_id : received.id ≡ job.job_id
    pub same_key : received.idempotency_key ≡ job.idempotency_key
    pub same_printer : received.printer_id ≡ job.printer_id

  delivered-IsDelivered :
      (job : PrintJob Value) (received : ReceivedPrintJob Value)
      → delivered services limits representable moment message ≡ ok (job, received)
      → IsDelivered job received
  unfolding delivered
  delivered-IsDelivered job received h =
      let (_, _, h1) = >>=-eq-ok (ensure (services.server_message_is_valid message) protocol) _ h in
      let (carried, is_job, h2) = >>=-eq-ok (ok_or message.print_job expected_print_job) _ h1 in
      let (_, _, h3) = >>=-eq-ok (ensure (is_valid (services.invalid_job carried)) protocol) _ h2 in
      let (id, id_ok, h4) = >>=-eq-ok (as_identifier (Core.identifier carried.job_id)) _ h3 in
      let (printer_id, printer_ok, h5) =
        >>=-eq-ok (as_identifier (Core.identifier carried.printer_id)) _ h4 in
      let (payload, _, h6) = >>=-eq-ok (ok_or (services.encode_job carried) json) _ h5 in
      let same : carried ≡ job = ground (arith, h6) in
      record {
        is_job = ground arith;
        same_id = ground (arith, identifier-eq carried.job_id id);
        same_key = ground arith;
        same_printer = ground (arith, identifier-eq carried.printer_id printer_id);
      }

  answer_of :
      (outcome : AgentMessage → ReceiveJobOutcome) (sent : Result JobProcessingError AgentMessage)
      (given : ReceiveJobOutcome) (answer : AgentMessage)
      → ((m : AgentMessage) → acknowledgement (outcome m) ≡ some m)
      → acknowledge_with outcome sent ≡ ok given
      → acknowledgement given ≡ some answer
      → sent ≡ ok answer
  answer_of outcome (ok m) given answer shown h k = ground (arith, shown m, ap acknowledgement)
  answer_of outcome (err e) given answer shown h k = cc

  refresh_pending-keeps :
      (agent : Agent)
      → (refresh_pending services limits representable agent).database ≡ agent.database
  unfolding refresh_pending
  refresh_pending-keeps agent = ground arith

  receipt_answer-taken :
      (job : PrintJob Value) (id : Text) (r : InsertResult) (agent after : Agent)
      (outcome : ReceiveJobOutcome) (answer : AgentMessage)
      → receipt_answer services limits representable moment message job id r agent
        ≡ (ok outcome, after)
      → acknowledgement outcome ≡ some answer
      → ((r ≡ inserted) ⊎ ((state : JobState) × (r ≡ duplicate_job state)))
        × (after.database ≡ agent.database)
        × (received_message services limits representable moment job message.message_id moment.now
            ≡ ok answer)
  unfolding receipt_answer
  receipt_answer-taken job id inserted agent after outcome answer h k = (
    inl refl,
    ground (arith, refresh_pending-keeps (publish (job_received id) agent)),
    answer_of inserted_outcome
        (received_message services limits representable moment job message.message_id moment.now)
        outcome answer (λ m. refl) (ground arith) k,
  )
  receipt_answer-taken job id (duplicate_job state) agent after outcome answer h k = (
    inr (state, refl),
    ground arith,
    answer_of (duplicate_job_outcome state)
        (received_message services limits representable moment job message.message_id moment.now)
        outcome answer (λ m. refl) (ground arith) k,
  )
  receipt_answer-taken job id (duplicate_idempotency other state) agent after outcome answer h k =
      absurd (ground (arith, h))

  -- A delivery is acknowledged only for the job that the message carries, in answer to it, and only
  -- when the repository holds the job under its own key and printer.
  pub receive_print_job-IsKept :
      (agent after : Agent) (outcome : ReceiveJobOutcome) (answer : AgentMessage)
      → receive_print_job services limits representable moment message agent ≡ (ok outcome, after)
      → acknowledgement outcome ≡ some answer
      → (job : PrintJob Value) × (message.print_job ≡ some job)
        × (answer.correlation_id ≡ message.message_id)
        × (answer.kind ≡ received_report job.job_id job.idempotency_key moment.now)
        × IsKept job.job_id job.idempotency_key job.printer_id after.database
  unfolding receive_print_job
  receive_print_job-IsKept agent after outcome answer h acknowledged =
      elim (Result-cases (delivered services limits representable moment message)) [
        | inr (e, refused) ↦ cc (rw (receive_print_job, refused) at h)
        | inl ((job, received), taken) ↦
            elim (Result-cases (insert_received limits received agent.database)) [
              | inr (e, refused) ↦ cc (rw (receive_print_job, taken, refused) at h)
              | inl ((r, db), stored) ↦
                  let d = delivered-IsDelivered job received taken in
                  let (known, same, sent) =
                    receipt_answer-taken job received.id r (record agent { database = db }) after
                      outcome answer (rw (receive_print_job, taken, stored) at h) acknowledged in
                  let (row, found, key, printer) =
                    insert_received-IsKept limits received r agent.database db stored known in
                  let (correlation, kind, _) =
                    agent_message-answers services limits representable moment message.message_id
                      (received_report job.job_id job.idempotency_key moment.now) answer
                      (unfold received_message in sent) in
                  (
                    job,
                    d.is_job,
                    correlation,
                    kind,
                    (row, rw (same, ← d.same_id) found, key ∙ d.same_key, printer ∙ d.same_printer),
                  )
            ]
      ]
