-- ===== src/Storage/Consistency/Recovering.antt =====
-- Recovery, acknowledgement and maintenance keep the tables consistent.
use oppa.Common.{
  ℕ, ◌≤◌, ◌<◌, ◌≡◌, refl, Bool, true, not, Option, none, arith, ok, ensure, >>=-eq-ok, filter,
  update_where,
}
use oppa.Common.Text.{Text}
use oppa.Common.Counting.{count, count-update_where, count-filter_le}
use oppa.Common.Everywhere.{All-update_where}
use oppa.Storage.Schema.{
  JobRow, Database, StorageLimits, timestamp, has_id, has_key, has_message, about_job,
  row_is_terminal, row_is_pending, now_millis, validate_key,
}
use oppa.Storage.Retention.{needs_pruning, maintain_terminal_jobs}
use oppa.Storage.Retention.Bounds.{retention_bound}
use oppa.Storage.Recovery.{RecoveryResult, is_submitting, requeue, recover_interrupted}
use oppa.Storage.Outbox.{acknowledge_outbound_status}
use oppa.Storage.Invariant.{RowIsSound, is_finished, AreTables, IsConsistent}
use oppa.Storage.Consistency.Retaining.{retention-AreTables, count-retention, retention-all_pruned}

requeue_sound :
    (now : ℕ) (row : JobRow)
    → is_submitting row ≡ true
    → RowIsSound row
    → RowIsSound (requeue now row)
requeue_sound now row h r = ground arith

module _ (now : ℕ) (db : Database) where
  abbrev requeued : Database
  requeued = record db { jobs = update_where is_submitting (requeue now) db.jobs }

  count-requeued :
      (q : JobRow → Bool)
      → ((row : JobRow) → is_submitting row ≡ true → q (requeue now row) ≡ q row)
      → count q requeued.jobs ≡ count q db.jobs
  count-requeued q h = count-update_where is_submitting q (requeue now) db.jobs h

  requeued-IsConsistent :
      (limits : StorageLimits) → IsConsistent limits db → IsConsistent limits requeued
  requeued-IsConsistent limits c = record {
    tables = record {
      unique_id =
          λ id. omega (arith, count-requeued (has_id id) (λ _ _. refl), c.tables.unique_id id);
      unique_key =
          λ key. omega (arith, count-requeued (has_key key) (λ _ _. refl), c.tables.unique_key key);
      unique_message = c.tables.unique_message;
      reports_finished = λ id. omega (
        arith,
        count-requeued (is_finished id) (λ row e. ground arith),
        c.tables.reports_finished id,
      );
      rows_sound =
          All-update_where RowIsSound is_submitting (requeue now) db.jobs (requeue_sound now)
            c.tables.rows_sound;
    };
    pending_bounded =
        omega (arith, count-requeued row_is_pending (λ row e. ground arith), c.pending_bounded);
    terminal_bounded =
        omega (arith, count-requeued row_is_terminal (λ row e. ground arith), c.terminal_bounded);
    all_pruned = omega (arith, count-requeued needs_pruning (λ row e. ground arith), c.all_pruned);
  }

-- Recovery keeps the tables consistent.
pub recover_interrupted-IsConsistent :
    (limits : StorageLimits) (representable : ℕ → Bool) (clock : Option ℕ) (db : Database)
    (r : RecoveryResult) (db' : Database)
    → IsConsistent limits db
    → recover_interrupted representable clock db ≡ ok (r, db')
    → IsConsistent limits db'
unfolding recover_interrupted
recover_interrupted-IsConsistent limits representable clock db r db' c h =
    let (now, _, h1) = >>=-eq-ok (now_millis clock) _ h in
    let (_, _, h2) = >>=-eq-ok (ensure (representable now) (timestamp now)) _ h1 in
    let e : db' ≡ requeued now db = ground arith in rw e (requeued-IsConsistent now db limits c)

acknowledged-IsConsistent :
    (limits : StorageLimits) (id : Text) (db : Database)
    → IsConsistent limits db
    → IsConsistent limits
        (record db { outbox = filter (λ row. not (has_message id row)) db.outbox })
acknowledged-IsConsistent limits id db c = record {
  tables = record {
    unique_id = c.tables.unique_id;
    unique_key = c.tables.unique_key;
    unique_message = λ m. omega (
      arith,
      count-filter_le (has_message m) (λ row. not (has_message id row)) db.outbox,
      c.tables.unique_message m,
    );
    reports_finished = λ j. omega (
      arith,
      count-filter_le (about_job j) (λ row. not (has_message id row)) db.outbox,
      c.tables.reports_finished j,
    );
    rows_sound = c.tables.rows_sound;
  };
  pending_bounded = c.pending_bounded;
  terminal_bounded = c.terminal_bounded;
  all_pruned = c.all_pruned;
}

-- An acknowledgement keeps the tables consistent.
pub acknowledge-IsConsistent :
    (limits : StorageLimits) (id : Text) (db : Database) (removed : Bool) (db' : Database)
    → IsConsistent limits db
    → acknowledge_outbound_status id db ≡ ok (removed, db')
    → IsConsistent limits db'
unfolding acknowledge_outbound_status
acknowledge-IsConsistent limits id db removed db' c h =
    let (_, _, h1) = >>=-eq-ok (validate_key id 128) _ h in
    let e : db' ≡ record db { outbox = filter (λ row. not (has_message id row)) db.outbox } =
      ground arith in
    rw e (acknowledged-IsConsistent limits id db c)

-- Maintenance needs the tables alone, and brings a table that is over its bound within it.
pub maintain-IsConsistent :
    (limits : StorageLimits) (db : Database)
    → 0 < limits.max_terminal_jobs
    → AreTables db
    → count row_is_pending db.jobs ≤ limits.max_pending_jobs
    → IsConsistent limits (maintain_terminal_jobs limits db).1
unfolding maintain_terminal_jobs
maintain-IsConsistent limits db positive t pending = record {
  tables = retention-AreTables limits.max_terminal_jobs none db t;
  pending_bounded =
      omega (
        arith,
        pending,
        count-retention limits.max_terminal_jobs none db row_is_pending (λ _. refl),
      );
  terminal_bounded = retention_bound limits.max_terminal_jobs none db t.unique_id positive;
  all_pruned = retention-all_pruned limits.max_terminal_jobs none db;
}
