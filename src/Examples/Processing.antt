-- ===== src/Examples/Processing.antt =====
-- Jobs that a processor receives, prepares and submits.
use oppa.Common.{ℕ, true, false, arith, some, none, List, [], ◌∷◌, ok, err, ◌≡◌, refl, Result, inl}
use oppa.Common.Text.{Text, text}
use oppa.Core.{received, submitting}
use oppa.Printer.{PrinterRef, system_queue, raw, esc_pos}
use oppa.Storage.Loading.{StoredPrintJob}
use oppa.Storage.Schema.{JobRow, Database}
use oppa.Agent.Lifecycle
use oppa.Agent.Failure
use oppa.Agent.Failure.{timeout, JobFailure}
use oppa.Agent.Services.{
  PrintJob, receipt, AgentMessage, received_report, submitted_report, submitted_outcome,
  ServerMessage, Services, Moment, Agent,
}
use oppa.Agent.Processor.{prepare}
use oppa.Agent.Processor.Submission.{Moments, process_stored_job}
use oppa.Agent.Processor.Intake.{inserted_outcome, cancel_job, receive_print_job}
use oppa.Agent.Processor.Outcomes.{IsTold, process_stored_job-IsTold}
use oppa.Agent.Processor.Handing.{HandsOver, process_stored_job-HandsOver}
use oppa.Agent.Processor.Acknowledging.{IsKept, receive_print_job-IsKept}
use oppa.Agent.Processor.Cancelling.{IsCancelledOrError, process_stored_job-cancelled}
use oppa.Agent.Processor.Submitting.{process_stored_job-submits}
use oppa.Examples.{text_codec, limits, any_time, waiting_1, receipt_1, tables}

abbrev kitchen : PrinterRef
kitchen = record {
  id = text "kitchen";
  display_name = text "Kitchen";
  connection = system_queue (text "q1");
  submission_mode = raw esc_pos;
  virtual_profile = none;
  enabled = true;
}

abbrev print_1 : PrintJob Text
print_1 = record {
  job_id = text "job_1";
  idempotency_key = text "order-1";
  printer_id = text "kitchen";
  document = receipt (text "soup");
}

abbrev services_1 : Services Text Text
services_1 = record {
  server_message_is_valid = λ m. true;
  invalid_job = λ j. none;
  encode_job = λ j. some (text "{}");
  decode_job = λ v. ok print_1;
  agent_message_is_valid = λ m. true;
  encode_message = λ m. some (text "{}");
  resolve = λ id. ok (some kitchen);
  render = λ document target. ok document;
  fetch_pdf = none;
  render_pdf = λ bytes settings. err (text "lost");
  submit = λ id printer rendered. ok receipt_1;
}

-- The printer was removed.
abbrev services_2 : Services Text Text
services_2 = record services_1 { resolve = λ id. ok none }

abbrev at_6 : Moment
at_6 = record { clock = some 6; now = 6; message_id = text "out-1" }

abbrev moments_1 : Moments
moments_1 = record { claiming = at_6; ending = record at_6 { clock = some 7; now = 7 } }

abbrev stored_1 : StoredPrintJob Text
stored_1 = record {
  id = text "job_1";
  idempotency_key = text "order-1";
  printer_id = text "kitchen";
  payload = text "{}";
  state = received;
  received_at = 5;
  retry_attempts = 0;
  recovery_count = 1;
  source_message_id = text "msg-1";
}

abbrev agent_of : List JobRow → Agent
agent_of jobs = record {
  database = tables jobs [];
  handle = Lifecycle.new Lifecycle.default_snapshot;
  active = [];
  handed_over = [];
}

process_stored_job-IsTold_example : IsTold (text "job_1") (text "msg-1") (
    process_stored_job services_1 limits any_time moments_1
      (λ a. a)
      stored_1
      (agent_of (waiting_1 ∷ [])))
process_stored_job-IsTold_example =
    process_stored_job-IsTold services_1 limits any_time stored_1 moments_1 (λ a. a)
      (agent_of (waiting_1 ∷ []))

process_stored_job-HandsOver_example : HandsOver (text "job_1") (agent_of (waiting_1 ∷ [])) (
    process_stored_job services_1 limits any_time moments_1
      (λ a. a)
      stored_1
      (agent_of (waiting_1 ∷ [])))
process_stored_job-HandsOver_example =
    process_stored_job-HandsOver services_1 limits any_time stored_1 moments_1 (λ a. a)
      (agent_of (waiting_1 ∷ [])) (λ a. refl)

abbrev message_1 : ServerMessage Text
message_1 = record { message_id = text "msg-1"; print_job = some print_1 }

abbrev answer_1 : AgentMessage
answer_1 = record {
  message_id = text "out-1";
  sent_at = 6;
  correlation_id = text "msg-1";
  kind = received_report (text "job_1") (text "order-1") 6;
}

abbrev after_1 : Agent
after_1 = (receive_print_job services_1 limits any_time at_6 message_1 (agent_of [])).1

receive_print_job-IsKept_example :
    (job : PrintJob Text) × (some print_1 ≡ some job)
    × (answer_1.correlation_id ≡ text "msg-1")
    × (answer_1.kind ≡ received_report job.job_id job.idempotency_key 6)
    × IsKept job.job_id job.idempotency_key job.printer_id after_1.database
unfolding receive_print_job oppa.Core.identifier oppa.Common.Text.is_empty oppa.Common.Text.trim
    oppa.Common.Text.is_control oppa.Storage.Insert.insert_received oppa.Storage.Schema.validate_key
    oppa.Storage.Payload.bounded_json oppa.Storage.Payload.payload_fingerprint
    oppa.Storage.Insert.enqueue oppa.Storage.Insert.insert_row oppa.Agent.Services.agent_message
receive_print_job-IsKept_example =
    receive_print_job-IsKept services_1 limits any_time at_6 message_1 (agent_of []) after_1
      (inserted_outcome answer_1) answer_1 refl refl

abbrev not_configured : JobFailure
not_configured =
    Failure.new (text "printer.not_found") (text "the selected local printer is not configured")
      true

-- The spooler does not answer in time.
abbrev services_3 : Services Text Text
services_3 = record services_1 { submit = λ id printer rendered. err (timeout, text "late") }

abbrev waiting_agent : Agent
waiting_agent = agent_of (waiting_1 ∷ [])

abbrev claimed_tables : Database
claimed_tables =
    tables (record waiting_1 { state = submitting; updated_at_ms = 6; retry_attempts = 1 } ∷ []) []

process_stored_job-cancelled_example :
    IsCancelledOrError
      (text "job_1")
      (process_stored_job services_3 limits any_time moments_1
        (λ a. (cancel_job services_3 limits any_time at_6 (text "job_1") a).1)
        stored_1
        waiting_agent).0
unfolding prepare oppa.Storage.Transition.mark_submitting Failure.printer_render_target
    oppa.Storage.Transition.transition oppa.Storage.Schema.now_millis
    oppa.Storage.Transition.allowed oppa.Storage.Transition.insert_optional
    oppa.Storage.Transition.advance oppa.Core.identifier oppa.Common.Text.is_empty
    oppa.Common.Text.trim oppa.Common.Text.is_control
process_stored_job-cancelled_example =
    process_stored_job-cancelled services_3 limits any_time stored_1 moments_1 at_6 print_1 kitchen
      (text "soup") timeout (text "late") waiting_agent claimed_tables refl refl refl refl refl

abbrev submitted_answer : AgentMessage
submitted_answer = record answer_1 {
  sent_at = 7;
  kind = submitted_report (text "job_1") (text "order-1") (text "kitchen") receipt_1.accepted_at;
}

process_stored_job-submits_example :
    (process_stored_job services_1 limits any_time moments_1 (λ a. a) stored_1 waiting_agent).0
    ≡ ok (submitted_outcome (text "job_1") submitted_answer)
unfolding prepare Failure.printer_render_target oppa.Agent.Services.agent_message
    oppa.Storage.Schema.validate_key oppa.Common.Text.is_empty oppa.Common.Text.trim
    oppa.Common.Text.is_control oppa.Storage.Payload.bounded_json
process_stored_job-submits_example =
    process_stored_job-submits services_1 limits any_time stored_1 moments_1 (λ a. a) waiting_agent
      print_1 kitchen (text "soup") receipt_1 submitted_answer (text "{}") (text "{}") waiting_1 6 7
      refl refl refl refl refl refl refl refl (refl, omega arith) (refl, omega arith) refl refl
      (λ a. refl)
