-- ===== src/Storage/Invariant.antt =====
-- What holds of the job tables between two operations, and the rows' own histories.
use oppa.Common.{ℕ, zero, suc, ◌≤◌, ◌<◌, min, ◌≡◌, Bool, true, false, ◌&&◌, arith, is_some, All}
use oppa.Common.Text.{Text}
use oppa.Common.Counting.{count}
use oppa.Core.{JobState, received, submitting, submitted, failed, cancelled}
use oppa.Storage.Schema.{
  JobRow, Database, StorageLimits, has_id, has_key, has_message, about_job, row_is_terminal,
  row_is_pending,
}
use oppa.Storage.Retention.{needs_pruning}

-- What a row's counters, receipt and error say of its state: a job is claimed at most once more
-- than it was recovered.
abbrev pub Claims : JobState → ℕ → ℕ → Type 0
Claims received attempts recoveries = attempts ≡ recoveries
Claims submitting attempts recoveries = attempts ≡ suc recoveries
Claims submitted attempts recoveries = attempts ≡ suc recoveries
Claims failed attempts recoveries = (recoveries ≤ attempts) × (attempts ≤ suc recoveries)
Claims cancelled attempts recoveries = (recoveries ≤ attempts) × (attempts ≤ suc recoveries)

abbrev pub Evidence : JobState → Bool → Bool → Type 0
Evidence received receipt error = receipt ≡ false
Evidence submitting receipt error = receipt ≡ false
Evidence submitted receipt error = (receipt ≡ true) × (error ≡ false)
Evidence failed receipt error = (receipt ≡ false) × (error ≡ true)
Evidence cancelled receipt error = (receipt ≡ false) × (error ≡ false)

abbrev pub RowIsSound : JobRow → Type 0
RowIsSound row =
    Claims row.state row.retry_attempts row.recovery_count
    × Evidence row.state (is_some row.receipt) (is_some row.error)

abbrev pub is_finished : Text → JobRow → Bool
is_finished id row = has_id id row && row_is_terminal row

-- The constraints of the schema, reports only about finished jobs, and sound rows.
pub record AreTables (db : Database) : Type 0 where
  pub unique_id : (id : Text) → count (has_id id) db.jobs ≤ 1
  pub unique_key : (key : Text) → count (has_key key) db.jobs ≤ 1
  pub unique_message : (id : Text) → count (has_message id) db.outbox ≤ 1
  pub reports_finished :
      (id : Text) → min 1 (count (about_job id) db.outbox) ≤ count (is_finished id) db.jobs
  pub rows_sound : All RowIsSound db.jobs

-- The tables are within their limits, and finished payloads are pruned.
pub record IsConsistent (limits : StorageLimits) (db : Database) : Type 0 where
  pub tables : AreTables db
  pub pending_bounded : count row_is_pending db.jobs ≤ limits.max_pending_jobs
  pub terminal_bounded : count row_is_terminal db.jobs ≤ limits.max_terminal_jobs
  pub all_pruned : count needs_pruning db.jobs ≡ 0

-- A job that a report is about is stored and finished.
pub reported_finished :
    {db : Database}
    → AreTables db
    → (id : Text) → 0 < count (about_job id) db.outbox
    → 0 < count (is_finished id) db.jobs
reported_finished t id h = omega (arith, t.reports_finished id)

pub min_of_implication : (a b : ℕ) → (0 < a → 0 < b) → min 1 a ≤ b
min_of_implication zero b h = omega arith
min_of_implication (suc a) b h = omega (arith, h (omega arith))
