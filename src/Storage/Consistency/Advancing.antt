-- ===== src/Storage/Consistency/Advancing.antt =====
-- The tables after an accepted transition, before and after retention.
use oppa.Common.{
  ℕ, ◌+◌, ◌≤◌, ◌<◌, ◌≡◌, refl, Bool, true, false, Option, some, none, List, [], ◌∷◌, arith, ok,
  find, update_where, if◌then◌else◌, Bool-cases, inl, inr, is_some,
}
use oppa.Common.Text.{Text, text_eq, text_eq→eq}
use oppa.Common.Counting.{
  count, count-append, count-update_where, count-update_unique, find-some, any-false,
}
use oppa.Common.Everywhere.{All-update_unique}
use oppa.Core.{JobState, is_terminal}
use oppa.Storage.Schema.{
  SubmissionReceipt, StoredJobError, JobRow, OutboxRow, Database, StorageLimits, has_id, has_key,
  has_message, about_job, row_is_terminal, row_is_pending,
}
use oppa.Storage.Retention.{needs_pruning, enforce_terminal_retention}
use oppa.Storage.Retention.Bounds.{retention_bound}
use oppa.Storage.Transition.{allowed, advance, insert_status, insert_optional}
use oppa.Storage.Invariant.{
  RowIsSound, is_finished, AreTables, IsConsistent, reported_finished, min_of_implication,
}
use oppa.Storage.Consistency.Retaining.{retention-AreTables, count-retention, retention-all_pruned}
use oppa.Storage.Consistency.Suiting.{
  Suits, Reports, Claims-advance, no_receipt, Evidence-advance, allowed_pending,
}

module _ (now : ℕ) (id : Text) (requested : JobState) (receipt : Option SubmissionReceipt)
    (error : Option StoredJobError) (db : Database) (row : JobRow)
    (found : find (has_id id) db.jobs ≡ some row) (may : allowed row.state requested ≡ true) where
  abbrev moved_jobs : List JobRow
  moved_jobs = update_where (has_id id) (advance now requested receipt error) db.jobs

  advance_sound :
      Suits requested (is_some receipt) (is_some error)
      → RowIsSound row
      → RowIsSound (advance now requested receipt error row)
  unfolding advance allowed
  advance_sound s r = (
    Claims-advance row.state requested row.retry_attempts row.recovery_count may r.0,
    Evidence-advance requested row.receipt receipt (is_some error)
        (no_receipt row.state requested (is_some row.receipt) (is_some row.error) may r.1) s,
  )

  row_matches : text_eq row.job_id id ≡ true
  row_matches = find-some (has_id id) db.jobs found

  moved_finished :
      AreTables db → is_terminal requested ≡ true → 0 < count (is_finished id) moved_jobs
  unfolding advance
  moved_finished t final = ground (
    arith,
    row_matches,
    allowed_pending row.state requested may,
    count-update_unique (has_id id) (advance now requested receipt error) (is_finished id) db.jobs
        row found (t.unique_id id),
  )

  -- The jobs that were finished still are.
  still_finished :
      AreTables db
      → (other : Text) → 0 < count (is_finished other) db.jobs
      → 0 < count (is_finished other) moved_jobs
  unfolding advance
  still_finished t other h = ground (
    arith,
    allowed_pending row.state requested may,
    count-update_unique (has_id id) (advance now requested receipt error) (is_finished other)
        db.jobs row found (t.unique_id id),
  )

  abbrev moved_tables : List OutboxRow → Database
  moved_tables outbox = record { jobs = moved_jobs; outbox = outbox }

  -- The outbox after the transition: a new message identifier, about a finished job.
  insert_optional_unique :
      (status : Option OutboxRow) (outbox : List OutboxRow)
      → insert_optional moved_jobs status db.outbox ≡ ok outbox
      → ((m : Text) → count (has_message m) db.outbox ≤ 1)
      → (m : Text) → count (has_message m) outbox ≤ 1
  unfolding insert_optional insert_status
  insert_optional_unique none outbox h u m = ground (arith, u m)
  insert_optional_unique (some status) outbox h u m = ground (
    arith,
    u m,
    count-append (has_message m) db.outbox (status ∷ []),
    text_eq→eq status.message_id m,
    any-false (has_message status.message_id) db.outbox,
  )

  insert_optional_finished :
      (status : Option OutboxRow) (outbox : List OutboxRow)
      → insert_optional moved_jobs status db.outbox ≡ ok outbox
      → Reports id requested status
      → AreTables db
      → (other : Text) → 0 < count (about_job other) outbox
      → 0 < count (is_finished other) moved_jobs
  unfolding insert_optional insert_status
  insert_optional_finished none outbox h about t other some_report =
      still_finished t other (reported_finished t other (ground arith))
  insert_optional_finished (some status) outbox h about t other some_report =
      elim (Bool-cases (text_eq status.job_id other)) [
        | inl same ↦ rw (← text_eq→eq status.job_id other same, about.0) (moved_finished t about.1)
        | inr differs ↦ still_finished t other (
            reported_finished t other
              (ground (arith, count-append (about_job other) db.outbox (status ∷ []))))
      ]

  count-moved :
      (q : JobRow → Bool)
      → AreTables db
      → count q moved_jobs + (if q row then 1 else 0)
        ≡ count q db.jobs + (if q (advance now requested receipt error row) then 1 else 0)
  count-moved q t =
      count-update_unique (has_id id) (advance now requested receipt error) q db.jobs row found
        (t.unique_id id)

  pub moved-AreTables :
      (status : Option OutboxRow) (outbox : List OutboxRow)
      → insert_optional moved_jobs status db.outbox ≡ ok outbox
      → Suits requested (is_some receipt) (is_some error)
      → Reports id requested status
      → AreTables db
      → AreTables (moved_tables outbox)
  unfolding advance
  moved-AreTables status outbox h suits about t = record {
    unique_id = λ i. omega (
      arith,
      count-update_where (has_id id) (has_id i) (advance now requested receipt error) db.jobs
          (λ _ _. refl),
      t.unique_id i,
    );
    unique_key = λ k. omega (
      arith,
      count-update_where (has_id id) (has_key k) (advance now requested receipt error) db.jobs
          (λ _ _. refl),
      t.unique_key k,
    );
    unique_message = insert_optional_unique status outbox h t.unique_message;
    reports_finished =
        λ id. min_of_implication _ _ (insert_optional_finished status outbox h about t id);
    rows_sound =
        All-update_unique RowIsSound (has_id id) (advance now requested receipt error) db.jobs row
          found (t.unique_id id) (advance_sound suits) t.rows_sound;
  }

  -- Without retention: the move to submitting.
  pub moved-IsConsistent :
      (limits : StorageLimits) (outbox : List OutboxRow)
      → is_terminal requested ≡ false
      → AreTables (moved_tables outbox)
      → IsConsistent limits db
      → IsConsistent limits (moved_tables outbox)
  unfolding advance
  moved-IsConsistent limits outbox open_state tables c = record {
    tables = tables;
    pending_bounded = ground (
      arith,
      allowed_pending row.state requested may,
      count-moved row_is_pending c.tables,
      c.pending_bounded,
    );
    terminal_bounded = ground (
      arith,
      allowed_pending row.state requested may,
      count-moved row_is_terminal c.tables,
      c.terminal_bounded,
    );
    all_pruned = ground (
      arith,
      allowed_pending row.state requested may,
      count-moved needs_pruning c.tables,
      c.all_pruned,
    );
  }

  -- With retention: the moves to a terminal state.
  pub finished-IsConsistent :
      (limits : StorageLimits) (outbox : List OutboxRow)
      → 0 < limits.max_terminal_jobs
      → is_terminal requested ≡ true
      → AreTables (moved_tables outbox)
      → IsConsistent limits db
      → IsConsistent limits
          (enforce_terminal_retention limits.max_terminal_jobs (some id) (moved_tables outbox)).1
  unfolding advance
  finished-IsConsistent limits outbox positive final tables c =
      let maximum = limits.max_terminal_jobs in
      let after = moved_tables outbox in
      record {
        tables = retention-AreTables maximum (some id) after tables;
        pending_bounded = ground (
          arith,
          allowed_pending row.state requested may,
          count-moved row_is_pending c.tables,
          count-retention maximum (some id) after row_is_pending (λ _. refl),
          c.pending_bounded,
        );
        terminal_bounded = retention_bound maximum (some id) after tables.unique_id positive;
        all_pruned = retention-all_pruned maximum (some id) after;
      }
