-- ===== src/Examples.antt =====
-- Concrete jobs, rows and tables, and the main theorems at them.
pub mod Tables
pub mod Deliveries
pub mod Endings
pub mod Sessions
pub mod Gateways
pub mod Receipts
pub mod Processing
pub mod Catalogs
use oppa.Common.{ℕ, Bool, true, some, none, List, [], ◌∷◌, ◌++◌, sym}
use oppa.Common.Text.{Text, text, text_eq, text_eq→eq, text_eq_refl}
use oppa.Core.{received, submitting, submitted}
use oppa.Storage.Schema.{
  SubmissionReceipt, StoredJobError, JobRow, OutboxRow, Database, StorageLimits,
}
use oppa.Storage.Payload.{JsonCodec}
use oppa.Storage.Insert.{ReceivedPrintJob}
use oppa.Storage.Transition.{NewOutboundStatus}

-- A codec whose values are texts that encode themselves.
instance abbrev pub text_codec : JsonCodec Text
text_codec = record {
  value_eq = text_eq;
  value_eq_iff = λ a b. (text_eq→eq a b, λ e. rw e (text_eq_refl b));
  to_string = some;
  from_str = some;
  from_str-to_string = λ v t e. sym e;
  digest = λ t. text "sha" ++ t;
}

abbrev pub limits : StorageLimits
limits = record { max_pending_jobs = 2; max_terminal_jobs = 1 }

abbrev pub any_time : ℕ → Bool
any_time ms = true

abbrev pub job_1 : ReceivedPrintJob Text
job_1 = record {
  id = text "job_1";
  idempotency_key = text "order-1";
  printer_id = text "kitchen";
  payload = text "{}";
  source_message_id = text "msg-1";
  received_at = 5;
}

abbrev pub waiting_1 : JobRow
waiting_1 = record {
  job_id = text "job_1";
  idempotency_key = text "order-1";
  printer_id = text "kitchen";
  payload_json = text "{}";
  state = received;
  received_at_ms = 5;
  updated_at_ms = 5;
  retry_attempts = 0;
  recovery_count = 0;
  receipt = none;
  error = none;
  source_message_id = text "msg-1";
  payload_sha256 = text "sha{}";
}

abbrev pub claimed_1 : JobRow
claimed_1 = record waiting_1 { state = submitting; updated_at_ms = 6; retry_attempts = 1 }

abbrev pub receipt_1 : SubmissionReceipt
receipt_1 = record {
  backend_job_id = some (text "17");
  backend = text "cups";
  accepted_at = 7;
  metadata = [];
}

abbrev pub printed_1 : JobRow
printed_1 = record claimed_1 {
  state = submitted;
  updated_at_ms = 7;
  receipt = some receipt_1;
  payload_json = text "null";
}

-- An earlier job, printed at time 3.
abbrev pub printed_0 : JobRow
printed_0 = record printed_1 {
  job_id = text "job_0";
  idempotency_key = text "order-0";
  updated_at_ms = 3;
}

abbrev pub report_1 : NewOutboundStatus Text
report_1 = record {
  message_id = text "out-1";
  job_id = text "job_1";
  payload = text "{}";
  created_at = 7;
}

abbrev pub sent_1 : OutboxRow
sent_1 = record {
  message_id = text "out-1";
  job_id = text "job_1";
  payload_json = text "{}";
  created_at_ms = 7;
}

abbrev pub error_1 : StoredJobError
error_1 = record {
  code = text "backend";
  message = text "no paper";
  retryable = true;
  occurred_at = 7;
}

abbrev pub tables : List JobRow → List OutboxRow → Database
tables jobs outbox = record { jobs = jobs; outbox = outbox }
