-- ===== src/Storage/Lifecycle/Finishing.antt =====
-- Terminal transitions: they are visible together with their report, and they are final.
use oppa.Common.{
  ℕ, ◌≡◌, ◌∙◌, Bool, true, ◌&&◌, Option, some, List, [], ◌∷◌, arith, ok, find, update_where,
}
use oppa.Common.Text.{Text, text_eq_refl}
use oppa.Common.Counting.{count, count-append, count_mono, any-false, find-update_where}
use oppa.Core.{JobState, is_terminal, is_pending}
use oppa.Storage.Schema.{
  SubmissionReceipt, StoredJobError, JobRow, OutboxRow, Database, StorageLimits, has_id,
  has_message, about_job,
}
use oppa.Storage.Retention.{enforce_terminal_retention}
use oppa.Storage.Transition.{allowed, coalesce, advance, insert_status, insert_optional, transition}
use oppa.Storage.Consistency.Moving.{transition-Moves}
use oppa.Storage.Lifecycle.Rows.{pruned_row, find-retention_protected, reports-retention_protected}

-- The report of a message identifier about a job.
abbrev pub is_report : Text → Text → OutboxRow → Bool
is_report message_id id report = has_message message_id report && about_job id report

-- A finished job with its report, as the next reader of the database finds them.
pub record IsFinished (id : Text) (requested : JobState) (receipt : Option SubmissionReceipt)
    (error : Option StoredJobError) (message_id : Text) (db db' : Database) : Type 0 where
  pub before : JobRow
  pub after : JobRow
  pub found_before : find (has_id id) db.jobs ≡ some before
  pub was_pending : is_pending before.state ≡ true
  pub found_after : find (has_id id) db'.jobs ≡ some after
  pub is_final : after.state ≡ requested
  pub has_receipt : after.receipt ≡ coalesce receipt before.receipt
  pub has_error : after.error ≡ error
  pub reported_once : count (is_report message_id id) db'.outbox ≡ 1

module _ (jobs : List JobRow) (status : OutboxRow) (outbox outbox' : List OutboxRow) where
  count-insert_status :
      insert_status jobs status outbox ≡ ok outbox'
      → count (is_report status.message_id status.job_id) outbox' ≡ 1
  unfolding insert_status
  count-insert_status h = ground (
    arith,
    any-false (has_message status.message_id) outbox,
    count_mono (is_report status.message_id status.job_id) (has_message status.message_id) outbox
        (λ row. ground arith),
    count-append (is_report status.message_id status.job_id) outbox (status ∷ []),
    text_eq_refl status.message_id,
    text_eq_refl status.job_id,
  )

module _ (limits : StorageLimits) (clock : Option ℕ) (id : Text) (requested : JobState)
    (receipt : Option SubmissionReceipt) (error : Option StoredJobError) (status : OutboxRow)
    (db db' : Database) where
  pending_before :
      (current : JobState) → allowed current requested ≡ true → is_pending current ≡ true
  unfolding allowed
  pending_before current may = ground arith

  pub transition-IsFinished :
      is_terminal requested ≡ true
      → status.job_id ≡ id
      → transition limits clock id requested receipt error (some status) db ≡ ok db'
      → IsFinished id requested receipt error status.message_id db db'
  unfolding insert_optional advance
  transition-IsFinished final about h =
      let m = transition-Moves limits clock id requested receipt error (some status) db db' h in
      let after = advance m.now requested receipt error m.row in
      let jobs = update_where (has_id id) (advance m.now requested receipt error) db.jobs in
      let moved : Database = record { jobs = jobs; outbox = m.outbox } in
      let e : db' ≡ (enforce_terminal_retention limits.max_terminal_jobs (some id) moved).1 =
        ground (arith, m.result) in
      let here : find (has_id id) jobs ≡ some after =
        find-update_where (has_id id) (advance m.now requested receipt error) db.jobs m.row
          (λ r k. k) m.found in
      record {
        before = m.row;
        after = pruned_row after;
        found_before = m.found;
        was_pending = pending_before m.row.state m.may;
        found_after = rw e (find-retention_protected limits.max_terminal_jobs moved id after here);
        is_final = ground arith;
        has_receipt = ground arith;
        has_error = ground arith;
        reported_once = rw e (
            reports-retention_protected limits.max_terminal_jobs moved id status.message_id
            ∙ rw (← about) (count-insert_status jobs status db.outbox m.outbox m.inserted));
      }
