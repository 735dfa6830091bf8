-- ===== src/Examples/Deliveries.antt =====
-- Deliveries, claims and recoveries of a job.
use oppa.Common.{
  ℕ, zero, suc, ◌+◌, ◌^◌, ◌≡◌, ◌≢◌, ap, ◌<◌, refl, true, false, some, none, List, [], ◌∷◌, ◌++◌, ok,
  err, arith, find, ltb, if◌then◌else◌,
}
use oppa.Common.Text.{Text, text, text_eq, is_control}
use oppa.Core
use oppa.Core.{received, submitting}
use oppa.Storage.Schema.{
  JobRow, has_id, invalid_transition, job_identity_conflict, validate_key, now_millis,
}
use oppa.Storage.Payload.{bounded_json, payload_fingerprint}
use oppa.Storage.Insert.{
  inserted, duplicate_job, duplicate_idempotency, insert_received, insert_transaction, enqueue,
  insert_row, new_row,
}
use oppa.Storage.Transition.{allowed, advance, insert_optional, transition, mark_submitting}
use oppa.Storage.Recovery.{requeue, recover_interrupted}
use oppa.Storage.Operations.{Operation, claim, recover, perform, perform_all, empty_database}
use oppa.Storage.Delivery.{redelivery}
use oppa.Storage.Receipt.{IsAnswered}
use oppa.Storage.Receipt.Answers.{insert_received-IsAnswered}
use oppa.Storage.Lifecycle.Claiming.{
  mark_submitting_exclusive, IsRecovered, recover_interrupted-IsRecovered,
}
use oppa.Examples.{text_codec, limits, any_time, job_1, waiting_1, claimed_1, tables}

abbrev later : List (Operation Text)
later = claim (some 6) (text "job_1") ∷ recover (some 7) ∷ []

redelivery_example :
    (row : JobRow) × (find
        (has_id (text "job_1"))
        (perform_all limits any_time later (tables (waiting_1 ∷ []) [])).jobs
      ≡ some row)
    × (insert_received limits job_1 (perform_all limits any_time later (tables (waiting_1 ∷ []) []))
        ≡ ok (
          duplicate_job row.state,
          perform_all limits any_time later (tables (waiting_1 ∷ []) []),
        ))
unfolding insert_received insert_transaction enqueue validate_key oppa.Common.Text.is_empty
    oppa.Common.Text.trim is_control bounded_json payload_fingerprint insert_row perform
    mark_submitting transition now_millis allowed insert_optional advance recover_interrupted
redelivery_example =
    redelivery limits any_time job_1 empty_database (tables (waiting_1 ∷ []) []) later refl
      (refl, (refl, tt))

abbrev owner_1 : JobRow
owner_1 = record waiting_1 { job_id = text "job_2"; idempotency_key = text "order-2" }

insert_received-IsAnswered_example :
    IsAnswered limits job_1
      (tables (owner_1 ∷ []) [])
      (insert_received limits job_1 (tables (owner_1 ∷ []) []))
insert_received-IsAnswered_example =
    insert_received-IsAnswered limits job_1 (tables (owner_1 ∷ []) [])

-- The answers at a new job, a taken key and a conflict.
insert_new_test :
    insert_received limits job_1 (tables (owner_1 ∷ []) [])
    ≡ ok (inserted, tables (owner_1 ∷ waiting_1 ∷ []) [])
unfolding insert_received validate_key oppa.Common.Text.is_empty oppa.Common.Text.trim is_control
    bounded_json payload_fingerprint enqueue insert_row
insert_new_test = refl

abbrev keeper_1 : JobRow
keeper_1 = record waiting_1 { job_id = text "job_2" }

insert_key_taken_test :
    insert_received limits job_1 (tables (keeper_1 ∷ []) [])
    ≡ ok (duplicate_idempotency (text "job_2") received, tables (keeper_1 ∷ []) [])
unfolding insert_received validate_key oppa.Common.Text.is_empty oppa.Common.Text.trim is_control
    bounded_json payload_fingerprint oppa.Storage.Insert.stored_id Core.identifier
insert_key_taken_test = refl

abbrev other_1 : JobRow
other_1 = record waiting_1 { idempotency_key = text "order-2" }

insert_conflict_test :
    insert_received limits job_1 (tables (other_1 ∷ []) [])
    ≡ err (job_identity_conflict (text "job_1"))
unfolding insert_received validate_key oppa.Common.Text.is_empty oppa.Common.Text.trim is_control
    bounded_json payload_fingerprint oppa.Storage.Insert.redelivered
insert_conflict_test = refl

mark_submitting_exclusive_example :
    (before after : JobRow) × (find (has_id (text "job_1")) (waiting_1 ∷ []) ≡ some before)
    × (before.state ≡ received)
    × (find (has_id (text "job_1")) (claimed_1 ∷ []) ≡ some after)
    × (after.retry_attempts ≡ before.retry_attempts + 1)
    × (mark_submitting limits (some 8) (text "job_1") (tables (claimed_1 ∷ []) [])
        ≡ err (invalid_transition (text "job_1") submitting submitting))
unfolding mark_submitting transition now_millis allowed insert_optional advance
mark_submitting_exclusive_example =
    mark_submitting_exclusive limits (some 6) 8 (text "job_1") (tables (waiting_1 ∷ []) [])
      (tables (claimed_1 ∷ []) []) refl (omega arith)

recover_interrupted-IsRecovered_example :
    IsRecovered
      (record { recovered_submissions = 1; pending_jobs = 1 })
      (tables (claimed_1 ∷ []) [])
      (tables (requeue 9 claimed_1 ∷ []) [])
unfolding recover_interrupted now_millis
recover_interrupted-IsRecovered_example =
    recover_interrupted-IsRecovered any_time (some 9) (tables (claimed_1 ∷ []) [])
      (record { recovered_submissions = 1; pending_jobs = 1 })
      (tables (requeue 9 claimed_1 ∷ []) []) refl
