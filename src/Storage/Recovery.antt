-- ===== src/Storage/Recovery.antt =====
-- crates/oppa-storage/src/lib.rs: interrupted submissions return to the queue after a restart.
use oppa.Common.{ℕ, ◌+◌, Bool, true, Option, some, Result, ok, ensure, ◌>>=◌, ◌>>◌, update_where}
use oppa.Common.Text.{text}
use oppa.Common.Counting.{count}
use oppa.Core.{received, submitting, state_eq}
use oppa.Storage.Schema.{StorageError, timestamp, StoredJobError, JobRow, Database, now_millis}
use oppa.Storage.Insert.{is_received}

pub record RecoveryResult : Type 0 where
  pub recovered_submissions : ℕ
  pub pending_jobs : ℕ

abbrev pub recovery_error : ℕ → StoredJobError
recovery_error now = record {
  code = text "agent-restarted";
  message = text "submission was interrupted by agent restart; outcome is unknown";
  retryable = true;
  occurred_at = now;
}

abbrev pub is_submitting : JobRow → Bool
is_submitting row = state_eq row.state submitting

abbrev pub requeue : ℕ → JobRow → JobRow
requeue now row = record row {
  state = received;
  recovery_count = row.recovery_count + 1;
  updated_at_ms = now;
  error = some (recovery_error now);
}

-- `recover_interrupted`; `representable` is what chrono's `from_timestamp_millis` accepts.
unfoldable pub recover_interrupted :
    (ℕ → Bool) → Option ℕ → Database → Result StorageError (RecoveryResult × Database)
recover_interrupted representable clock db = do
  now ← now_millis clock
  ensure (representable now) (timestamp now)
  let jobs = update_where is_submitting (requeue now) db.jobs
  ok (
    record {
      recovered_submissions = count is_submitting db.jobs;
      pending_jobs = count is_received jobs;
    },
    record db { jobs = jobs },
  )
