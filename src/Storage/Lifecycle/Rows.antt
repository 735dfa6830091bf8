-- ===== src/Storage/Lifecycle/Rows.antt =====
-- The row of one identifier before and after retention, transitions and recovery.
use oppa.Common.{
  ℕ, ◌-◌, ◌≡◌, ◌⊎◌, Bool, true, false, not, ◌&&◌, Option, some, none, List, [], ◌∷◌, arith, find,
  filter, update_where, if◌then◌else◌, Bool-cases, inl, inr,
}
use oppa.Common.Text.{Text, text_eq, text_eq→eq}
use oppa.Common.Counting.{count, find-filter, count-filter_drop, count-zero-find, count-filter_keep}
use oppa.Storage.Schema.{JobRow, Database, has_id, has_message, about_job, row_is_terminal}
use oppa.Storage.Retention.{
  needs_pruning, prune, is_among, victims, delete_jobs, enforce_terminal_retention,
}
use oppa.Storage.Retention.Victims.{victims_spare}

abbrev pub pruned_row : JobRow → JobRow
pruned_row row = if needs_pruning row then prune row else row

find-prune :
    (id : Text) (jobs : List JobRow) (row : JobRow)
    → find (has_id id) jobs ≡ some row
    → find (has_id id) (update_where needs_pruning prune jobs) ≡ some (pruned_row row)
find-prune id [] row h = cc
find-prune id (x ∷ xs) row h = ground (arith, find-prune id xs row)

module _ (ids : List Text) (id : Text) where
  same_fate : (a : Text) → text_eq a id ≡ true → is_among ids a ≡ is_among ids id
  same_fate a h = rw (text_eq→eq a id h)

  find-delete :
      (jobs : List JobRow)
      → find (has_id id) (filter (λ row. not (is_among ids row.job_id)) jobs)
        ≡ (if is_among ids id then none else find (has_id id) jobs)
  find-delete jobs = elim (Bool-cases (is_among ids id)) [
    | inl gone ↦ rw gone (
        count-zero-find (has_id id) (filter (λ row. not (is_among ids row.job_id)) jobs) (
          count-filter_drop (has_id id) (λ row. not (is_among ids row.job_id)) jobs
            (λ row e. ground (arith, same_fate row.job_id e))))
    | inr kept ↦ rw kept (
        find-filter (has_id id) (λ row. not (is_among ids row.job_id)) jobs
          (λ row e. ground (arith, same_fate row.job_id e)))
  ]

module _ (maximum : ℕ) (protected : Option Text) (db : Database) (id : Text) (row : JobRow) where
  -- Retention evicts a row or keeps it pruned.
  pub find-retention :
      find (has_id id) db.jobs ≡ some row
      → let after = (enforce_terminal_retention maximum protected db).1.jobs in
        (find (has_id id) after ≡ none) ⊎ (find (has_id id) after ≡ some (pruned_row row))
  unfolding enforce_terminal_retention delete_jobs
  find-retention h =
      let jobs = update_where needs_pruning prune db.jobs in
      let excess = count row_is_terminal jobs - maximum in
      ground
        (arith, find-prune id db.jobs row h, find-delete (victims protected excess jobs) id jobs)

module _ (maximum : ℕ) (db : Database) (id : Text) where
  spared : (excess : ℕ) (jobs : List JobRow) → is_among (victims (some id) excess jobs) id ≡ false
  spared excess jobs = victims_spare (some id) excess jobs id (λ row h. ground (arith, h))

  -- It keeps the row that it protects.
  pub find-retention_protected :
      (row : JobRow)
      → find (has_id id) db.jobs ≡ some row
      → find (has_id id) (enforce_terminal_retention maximum (some id) db).1.jobs
        ≡ some (pruned_row row)
  unfolding enforce_terminal_retention delete_jobs
  find-retention_protected row h =
      let jobs = update_where needs_pruning prune db.jobs in
      let excess = count row_is_terminal jobs - maximum in
      ground (
        arith,
        find-prune id db.jobs row h,
        find-delete (victims (some id) excess jobs) id jobs,
        spared excess jobs,
      )

  -- And every report about it.
  pub reports-retention_protected :
      (message_id : Text)
      → count
          (λ report. has_message message_id report && about_job id report)
          (enforce_terminal_retention maximum (some id) db).1.outbox
        ≡ count (λ report. has_message message_id report && about_job id report) db.outbox
  unfolding enforce_terminal_retention delete_jobs
  reports-retention_protected message_id =
      let jobs = update_where needs_pruning prune db.jobs in
      let excess = count row_is_terminal jobs - maximum in
      let ids = victims (some id) excess jobs in
      ground (
        arith,
        count-filter_keep (λ report. has_message message_id report && about_job id report)
            (λ report. not (is_among ids report.job_id)) db.outbox
            (λ report e. ground (arith, same_fate ids id report.job_id, spared excess jobs)),
      )

-- A consistent table has nothing left to prune, so a row that stays is untouched.
pub pruned_row-eq :
    (p : JobRow → Bool) (jobs : List JobRow) (row : JobRow)
    → count needs_pruning jobs ≡ 0
    → find p jobs ≡ some row
    → pruned_row row ≡ row
pruned_row-eq p [] row c h = cc
pruned_row-eq p (x ∷ xs) row c h = ground (arith, pruned_row-eq p xs row)

-- An update of another row.
pub find-update_ne :
    (p q : JobRow → Bool) (f : JobRow → JobRow) (jobs : List JobRow) (row : JobRow)
    → ((r : JobRow) → p r ≡ true → q (f r) ≡ q r)
    → find q jobs ≡ some row
    → find q (update_where p f jobs) ≡ some (if p row then f row else row)
find-update_ne p q f [] row k h = cc
find-update_ne p q f (x ∷ xs) row k h = ground (arith, k x, find-update_ne p q f xs row k)
