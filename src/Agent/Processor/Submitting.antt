-- ===== src/Agent/Processor/Submitting.antt =====
-- crates/oppa-agent/src/processor.rs: the submission of a received job, step by step.
use oppa.Common.{
  ℕ, ◌<◌, ◌^◌, Bool, true, false, ◌≡◌, refl, some, none, List, [], ◌∷◌, ◌++◌, ok, arith, any, find,
  update_where,
}
use oppa.Common.Text.{Text, text_eq_refl}
use oppa.Common.Counting.{find-update_where}
use oppa.Core.{received, submitting, submitted}
use oppa.Printer.{PrinterRef}
use oppa.Storage.Schema.{
  SubmissionReceipt, JobRow, OutboxRow, Database, StorageLimits, has_id, has_message, now_millis,
  validate_key, max_outbound_status_bytes,
}
use oppa.Storage.Payload.{JsonCodec, bounded_json}
use oppa.Storage.Retention.{enforce_terminal_retention}
use oppa.Storage.Transition.{
  NewOutboundStatus, allowed, advance, insert_status, insert_optional, transition, mark_submitting,
  prepare_outbound_status, mark_submitted_with_status,
}
use oppa.Storage.Loading.{StoredPrintJob}
use oppa.Agent.Lifecycle.{job_submitting}
use oppa.Agent.Services.{
  PrintJob, AgentMessage, submitted_report, Services, Moment, submitted_outcome, Agent, publish,
  agent_message,
}
use oppa.Agent.Processor.{outbound_status, prepare}
use oppa.Agent.Processor.Submission.{
  Moments, activate, record_submission, conclude, hand_over, process_stored_job,
}
use oppa.Agent.Processor.Outcomes.{submitted_as}

now_millis-ok : (ms : ℕ) → ms < 2 ^ 63 → now_millis (some ms) ≡ ok ms
unfolding now_millis
now_millis-ok ms h = ground arith

found-any :
    (id : Text) (jobs : List JobRow) (row : JobRow)
    → find (has_id id) jobs ≡ some row
    → any (has_id id) jobs ≡ true
found-any id [] row h = cc
found-any id (x ∷ jobs) row h = ground (arith, found-any id jobs row)

abbrev claimed : ℕ → Text → Database → Database
claimed ms id db = record db {
  jobs = update_where (has_id id) (advance ms submitting none none) db.jobs;
}

abbrev recorded : StorageLimits → ℕ → Text → SubmissionReceipt → OutboxRow → Database → Database
recorded limits ms id receipt report db =
    (enforce_terminal_retention limits.max_terminal_jobs (some id) (record {
      jobs = update_where (has_id id) (advance ms submitted (some receipt) none) db.jobs;
      outbox = db.outbox ++ report ∷ [];
    })).1

module _ (limits : StorageLimits) (ms : ℕ) (fits : ms < 2 ^ 63) (id : Text) (db : Database)
    (row : JobRow) (found : find (has_id id) db.jobs ≡ some row) where
  mark_submitting-claims :
      row.state ≡ received → mark_submitting limits (some ms) id db ≡ ok (claimed ms id db)
  unfolding mark_submitting transition insert_optional allowed
  mark_submitting-claims waiting =
      let may : allowed row.state submitting ≡ true = ground (arith, waiting) in
      rw (now_millis-ok ms fits, found, may) refl

  mark_submitted-records :
      {Value : Type 0} ⦃codec : JsonCodec Value⦄ (receipt : SubmissionReceipt)
      (status : NewOutboundStatus Value) (report : OutboxRow)
      → row.state ≡ submitting
      → prepare_outbound_status id status ≡ ok report
      → report.job_id ≡ id
      → any (has_message report.message_id) db.outbox ≡ false
      → mark_submitted_with_status limits (some ms) id receipt status db
        ≡ ok (recorded limits ms id receipt report db)
  unfolding mark_submitted_with_status transition insert_optional insert_status allowed advance
  mark_submitted-records receipt status report claimed_state prepared about fresh =
      let move = advance ms submitted (some receipt) none in
      let may : allowed row.state submitted ≡ true = ground (arith, claimed_state) in
      let there : any (has_id report.job_id) (update_where (has_id id) move db.jobs) ≡ true =
        rw about (
          found-any id (update_where (has_id id) move db.jobs) (move row)
            (find-update_where (has_id id) move db.jobs row (λ r k. k) found)) in
      rw (prepared, now_millis-ok ms fits, found, may, fresh, there) refl

module _ {Value Rendered : Type 0} ⦃codec : JsonCodec Value⦄ (services : Services Value Rendered)
    (limits : StorageLimits) (representable : ℕ → Bool) (stored : StoredPrintJob Value)
    (job : PrintJob Value) (receipt : SubmissionReceipt) (moment : Moment) (ms : ℕ) where
  abbrev kept_report : AgentMessage → Text → OutboxRow
  kept_report message json_text = record {
    message_id = message.message_id;
    job_id = stored.id;
    payload_json = json_text;
    created_at_ms = moment.now;
  }

  prepared_report :
      (message : AgentMessage) (payload : Value) (json_text : Text)
      → validate_key message.message_id 128 ≡ ok tt
      → bounded_json payload max_outbound_status_bytes ≡ ok json_text
      → prepare_outbound_status stored.id (record {
        message_id = message.message_id;
        job_id = stored.id;
        payload = payload;
        created_at = moment.now;
      })
        ≡ ok (kept_report message json_text)
  unfolding prepare_outbound_status
  prepared_report message payload json_text key sized = rw (key, text_eq_refl stored.id, sized) refl

  record_submission-done :
      (message : AgentMessage) (payload : Value) (json_text : Text) (db : Database) (row : JobRow)
      → agent_message services moment stored.source_message_id
          (submitted_report job.job_id job.idempotency_key job.printer_id receipt.accepted_at)
        ≡ ok message
      → services.encode_message message ≡ some payload
      → validate_key message.message_id 128 ≡ ok tt
      → bounded_json payload max_outbound_status_bytes ≡ ok json_text
      → moment.clock ≡ some ms
      → ms < 2 ^ 63
      → find (has_id stored.id) db.jobs ≡ some row
      → row.state ≡ submitting
      → any (has_message message.message_id) db.outbox ≡ false
      → record_submission services limits representable moment stored job receipt db
        ≡ ok (message, recorded limits ms stored.id receipt (kept_report message json_text) db)
  unfolding record_submission outbound_status
  record_submission-done message payload json_text db row valid encoded key sized clock fits found
        claimed_state fresh =
      let status : NewOutboundStatus Value = record {
        message_id = message.message_id;
        job_id = stored.id;
        payload = payload;
        created_at = moment.now;
      } in
      rw
        (
          valid,
          encoded,
          clock,
          mark_submitted-records limits ms fits stored.id db row found receipt status
              (kept_report message json_text) claimed_state
              (prepared_report message payload json_text key sized) refl fresh,
        )
        refl

  conclude-done :
      (agent : Agent) (message : AgentMessage) (after : Database)
      → record_submission services limits representable moment stored job receipt agent.database
        ≡ ok (message, after)
      → (conclude services limits representable moment stored job (ok receipt) agent).0
        ≡ ok (submitted_outcome stored.id message)
  unfolding conclude
  conclude-done agent message after done = rw (done, conclude) refl

module _ {Value Rendered : Type 0} ⦃codec : JsonCodec Value⦄ (services : Services Value Rendered)
    (limits : StorageLimits) (representable : ℕ → Bool) (stored : StoredPrintJob Value) where
  -- A job whose row is received is submitted when every collaborator does its part: its payload
  -- decodes, it is prepared, the spooler accepts it, its report is valid, encodes to a bounded text
  -- and has a message id that no report in the outbox has, both clocks can be read and fit an i64,
  -- and the other calls that come between keep the database.
  pub process_stored_job-submits :
      (moments : Moments) (meanwhile : Agent → Agent) (agent : Agent) (job : PrintJob Value)
      (printer : PrinterRef) (rendered : Rendered) (receipt : SubmissionReceipt)
      (message : AgentMessage) (payload : Value) (json_text : Text) (row : JobRow)
      (claimed_ms ended_ms : ℕ)
      → services.decode_job stored.payload ≡ ok job
      → prepare services limits representable stored job ≡ ok (printer, rendered)
      → services.submit stored.id printer rendered ≡ ok receipt
      → agent_message services moments.ending stored.source_message_id
          (submitted_report job.job_id job.idempotency_key job.printer_id receipt.accepted_at)
        ≡ ok message
      → services.encode_message message ≡ some payload
      → validate_key message.message_id 128 ≡ ok tt
      → bounded_json payload max_outbound_status_bytes ≡ ok json_text
      → any (has_message message.message_id) agent.database.outbox ≡ false
      → (moments.claiming.clock ≡ some claimed_ms) × (claimed_ms < 2 ^ 63)
      → (moments.ending.clock ≡ some ended_ms) × (ended_ms < 2 ^ 63)
      → find (has_id stored.id) agent.database.jobs ≡ some row
      → row.state ≡ received
      → ((a : Agent) → (meanwhile a).database ≡ a.database)
      → (process_stored_job services limits representable moments meanwhile stored agent).0
        ≡ ok (submitted_outcome stored.id message)
  unfolding process_stored_job hand_over advance
  process_stored_job-submits moments meanwhile agent job printer rendered receipt message payload
        json_text row claimed_ms ended_ms decoded prepared accepted valid encoded key sized fresh
        (clock, fits) (clock', fits') found waiting keeps =
      let db = claimed claimed_ms stored.id agent.database in
      let claiming : mark_submitting limits moments.claiming.clock stored.id agent.database
          ≡ ok db =
        rw clock (
          mark_submitting-claims limits claimed_ms fits stored.id agent.database row found
            waiting) in
      let active = activate stored.id (record agent { database = db }) in
      let announced =
        publish (job_submitting stored.id)
          (record active { handed_over = stored.id ∷ active.handed_over }) in
      let after =
        recorded limits ended_ms stored.id receipt
          (kept_report services limits representable stored job receipt moments.ending ended_ms
            message json_text)
          db in
      let done : record_submission services limits representable moments.ending stored job receipt
            (meanwhile announced).database
          ≡ ok (message, after) =
        rw (keeps announced) (
          record_submission-done services limits representable stored job receipt moments.ending
            ended_ms message payload json_text db (advance claimed_ms submitting none none row)
            valid encoded key sized clock' fits'
            (find-update_where (has_id stored.id) (advance claimed_ms submitting none none)
              agent.database.jobs row (λ r k. k) found)
            refl fresh) in
      rw
        (
          process_stored_job,
          decoded,
          prepared,
          accepted,
          submitted_as services limits representable stored moments job (ok receipt) meanwhile agent
              (ok db) claiming,
        )
        (conclude-done services limits representable stored job receipt moments.ending ended_ms
          (meanwhile announced) message after done)
