-- ===== src/Examples/Endings.antt =====
-- Finished jobs and their reports.
use oppa.Common.{
  ℕ, zero, suc, ◌≡◌, ◌≤◌, refl, Bool, true, false, some, none, List, [], ◌∷◌, ok, arith, any,
  if◌then◌else◌, find,
}
use oppa.Common.{◌⊎◌, length, All, inl}
use oppa.Common.Everywhere.{In}
use oppa.Storage.Outbox.{StoredOutboundStatus, pending_outbound_statuses}
use oppa.Storage.Batches.{IsStatusOf, is_earlier, pending_outbound_statuses_oldest}
use oppa.Common.Text.{Text, text, text_eq}
use oppa.Common.Counting.{count}
use oppa.Core.{submitted, failed}
use oppa.Storage.Schema.{OutboxRow, JobRow, Database, has_id, has_message}
use oppa.Storage.Transition.{
  mark_submitted_with_status, mark_failed_with_status, prepare_outbound_status, transition,
}
use oppa.Storage.Outbox.{acknowledge_outbound_status}
use oppa.Storage.Operations.{maintain, perform}
use oppa.Storage.Invariant.{IsConsistent}
use oppa.Storage.Reports.{acknowledge_twice}
use oppa.Storage.Lifecycle.Finishing.{IsFinished}
use oppa.Storage.Lifecycle.Reporting.{
  mark_submitted_with_status-IsFinished, mark_failed_with_status-IsFinished,
}
use oppa.Storage.Lifecycle.Final.{StaysOrGoes, perform-StaysOrGoes}
use oppa.Examples.{
  text_codec, limits, any_time, claimed_1, printed_0, printed_1, receipt_1, report_1, sent_1,
  error_1, tables,
}

abbrev failed_1 : JobRow
failed_1 = record printed_1 { state = failed; receipt = none; error = some error_1 }

mark_submitted_with_status-IsFinished_example :
    IsFinished
      (text "job_1")
      submitted
      (some receipt_1)
      none
      (text "out-1")
      (tables (printed_0 ∷ claimed_1 ∷ []) [])
      (tables (printed_1 ∷ []) (sent_1 ∷ []))
unfolding mark_submitted_with_status transition oppa.Storage.Schema.validate_key
    oppa.Common.Text.is_empty oppa.Common.Text.trim oppa.Common.Text.is_control
    oppa.Storage.Payload.bounded_json oppa.Storage.Schema.now_millis oppa.Storage.Transition.allowed
    oppa.Storage.Transition.insert_optional oppa.Storage.Transition.insert_status
    oppa.Storage.Transition.advance oppa.Storage.Retention.enforce_terminal_retention
    oppa.Storage.Retention.delete_jobs oppa.Storage.Retention.victims oppa.Common.Sorting.order_by
mark_submitted_with_status-IsFinished_example =
    mark_submitted_with_status-IsFinished limits (some 7) (text "job_1") report_1
      (tables (printed_0 ∷ claimed_1 ∷ []) []) (tables (printed_1 ∷ []) (sent_1 ∷ [])) receipt_1
      refl

mark_failed_with_status-IsFinished_example :
    IsFinished
      (text "job_1")
      failed
      none
      (some error_1)
      (text "out-1")
      (tables (printed_0 ∷ claimed_1 ∷ []) [])
      (tables (failed_1 ∷ []) (sent_1 ∷ []))
unfolding mark_failed_with_status transition oppa.Storage.Schema.validate_error
    oppa.Common.Text.is_empty oppa.Common.Text.trim oppa.Common.Text.is_control
    oppa.Storage.Payload.bounded_json oppa.Storage.Schema.now_millis oppa.Storage.Transition.allowed
    oppa.Storage.Transition.insert_optional oppa.Storage.Transition.insert_status
    oppa.Storage.Transition.advance oppa.Storage.Retention.enforce_terminal_retention
    oppa.Storage.Retention.delete_jobs oppa.Storage.Retention.victims oppa.Common.Sorting.order_by
mark_failed_with_status-IsFinished_example =
    mark_failed_with_status-IsFinished limits (some 7) (text "job_1") report_1
      (tables (printed_0 ∷ claimed_1 ∷ []) []) (tables (failed_1 ∷ []) (sent_1 ∷ [])) error_1 refl

perform-StaysOrGoes_example :
    StaysOrGoes
      (text "job_1")
      printed_1
      (perform {Value = Text} limits any_time maintain (tables (printed_0 ∷ printed_1 ∷ []) []))
perform-StaysOrGoes_example =
    perform-StaysOrGoes (text "job_1") printed_1 (tables (printed_0 ∷ printed_1 ∷ []) []) refl refl
      refl limits any_time maintain

printed-IsConsistent : IsConsistent limits (tables (printed_1 ∷ []) (sent_1 ∷ []))
printed-IsConsistent = record {
  tables = record {
    unique_id = λ id. ground arith;
    unique_key = λ key. ground arith;
    unique_message = λ id. ground arith;
    reports_finished = λ id. ground arith;
    rows_sound = ((refl, (refl, refl)), tt);
  };
  pending_bounded = omega arith;
  terminal_bounded = omega arith;
  all_pruned = refl;
}

acknowledge_twice_example :
    (true ≡ any (has_message (text "out-1")) (sent_1 ∷ []))
    × (count (has_message (text "out-2")) [] ≡ (
        if text_eq (text "out-2") (text "out-1")
        then 0
        else count (has_message (text "out-2")) (sent_1 ∷ [])))
    × (printed_1 ∷ [] ≡ printed_1 ∷ [])
    × (acknowledge_outbound_status (text "out-1") (tables (printed_1 ∷ []) [])
        ≡ ok (false, tables (printed_1 ∷ []) []))
unfolding acknowledge_outbound_status oppa.Storage.Schema.validate_key oppa.Common.Text.is_empty
    oppa.Common.Text.trim oppa.Common.Text.is_control
acknowledge_twice_example =
    acknowledge_twice limits (text "out-1") (text "out-2") (tables (printed_1 ∷ []) (sent_1 ∷ []))
      true (tables (printed_1 ∷ []) []) printed-IsConsistent refl

-- A report that was created before that of the first job.
abbrev sent_0 : OutboxRow
sent_0 = record sent_1 { message_id = text "out-0"; created_at_ms = 4 }

abbrev status_0 : StoredOutboundStatus Text
status_0 = record {
  message_id = text "out-0";
  job_id = sent_1.job_id;
  payload = sent_1.payload_json;
  created_at = 4;
}

pending_outbound_statuses_oldest_example :
    ((status : StoredOutboundStatus Text) × In status (status_0 ∷ []) × IsStatusOf sent_1 status)
    ⊎ ((length (status_0 ∷ []) ≡ 1) × All (λ sent. is_earlier sent_1 sent ≡ true) (status_0 ∷ []))
unfolding pending_outbound_statuses oppa.Common.Sorting.order_by oppa.Storage.Insert.stored_id
    oppa.Core.identifier oppa.Common.Text.is_empty oppa.Common.Text.trim oppa.Common.Text.is_control
pending_outbound_statuses_oldest_example =
    pending_outbound_statuses_oldest any_time 1 (tables (printed_1 ∷ []) (sent_1 ∷ sent_0 ∷ []))
      (status_0 ∷ []) sent_1 refl (inl refl)
