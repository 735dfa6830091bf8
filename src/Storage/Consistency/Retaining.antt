-- ===== src/Storage/Consistency/Retaining.antt =====
-- Retention keeps the tables, prunes every finished payload and meets the bound.
use oppa.Common.{
  ℕ, ◌-◌, ◌≤◌, ◌<◌, ◌≡◌, refl, Bool, true, not, ◌==◌, Option, List, [], ◌∷◌, arith, update_where,
  Bool-cases, inl, inr,
}
use oppa.Common.Text.{Text, text_eq, text_eq→eq}
use oppa.Common.Counting.{
  count, count-update_where, count-filter_le, count-filter_drop, count-filter_keep,
}
use oppa.Common.Everywhere.{All-filter, All-update_where}
use oppa.Storage.Schema.{JobRow, Database, has_id, has_key, has_message, about_job, row_is_terminal}
use oppa.Storage.Retention.{
  needs_pruning, prune, is_among, victims, delete_jobs, enforce_terminal_retention,
}
use oppa.Storage.Invariant.{
  RowIsSound, is_finished, AreTables, reported_finished, min_of_implication,
}

count-prune :
    (q : JobRow → Bool) (jobs : List JobRow)
    → ((row : JobRow) → q (prune row) ≡ q row)
    → count q (update_where needs_pruning prune jobs) ≡ count q jobs
count-prune q jobs h = count-update_where needs_pruning q prune jobs (λ row _. h row)

prune-AreTables :
    (db : Database)
    → AreTables db
    → AreTables (record db { jobs = update_where needs_pruning prune db.jobs })
prune-AreTables db t = record {
  unique_id = λ id. omega (arith, count-prune (has_id id) db.jobs (λ _. refl), t.unique_id id);
  unique_key =
      λ key. omega (arith, count-prune (has_key key) db.jobs (λ _. refl), t.unique_key key);
  unique_message = t.unique_message;
  reports_finished =
      λ id. omega (arith, count-prune (is_finished id) db.jobs (λ _. refl), t.reports_finished id);
  rows_sound = All-update_where RowIsSound needs_pruning prune db.jobs (λ _ _ r. r) t.rows_sound;
}

prune-all_pruned :
    (jobs : List JobRow) → count needs_pruning (update_where needs_pruning prune jobs) ≡ 0
prune-all_pruned [] = refl
prune-all_pruned (x ∷ xs) = ground (arith, prune-all_pruned xs)

module _ (ids : List Text) where
  same_fate : (a b : Text) → text_eq a b ≡ true → is_among ids a ≡ is_among ids b
  same_fate a b h = rw (text_eq→eq a b h)

  -- The cascade takes the reports about the rows that go, and no others.
  reports-delete :
      (db : Database) (id : Text)
      → AreTables db
      → 0 < count (about_job id) (delete_jobs ids db).outbox
      → 0 < count (is_finished id) (delete_jobs ids db).jobs
  unfolding delete_jobs
  reports-delete db id t h = elim (Bool-cases (is_among ids id)) [
    | inl gone ↦ absurd (
        omega (
          arith,
          h,
          count-filter_drop (about_job id) (λ row. not (is_among ids row.job_id)) db.outbox
              (λ row e. ground (arith, same_fate row.job_id id e)),
        ))
    | inr kept ↦ omega (
      arith,
      reported_finished t id,
      count-filter_keep (about_job id) (λ row. not (is_among ids row.job_id)) db.outbox
          (λ row e. ground (arith, same_fate row.job_id id e)),
      count-filter_keep (is_finished id) (λ row. not (is_among ids row.job_id)) db.jobs
          (λ row e. ground (arith, same_fate row.job_id id)),
    )
  ]

  delete_jobs-AreTables : (db : Database) → AreTables db → AreTables (delete_jobs ids db)
  unfolding delete_jobs
  delete_jobs-AreTables db t = record {
    unique_id = λ id. omega (arith, count-filter_le (has_id id) kept db.jobs, t.unique_id id);
    unique_key = λ key. omega (arith, count-filter_le (has_key key) kept db.jobs, t.unique_key key);
    unique_message = λ id. omega (
      arith,
      count-filter_le (has_message id) (λ row. not (is_among ids row.job_id)) db.outbox,
      t.unique_message id,
    );
    reports_finished = λ id. min_of_implication _ _ (reports-delete db id t);
    rows_sound = All-filter RowIsSound kept db.jobs t.rows_sound;
  }
    where
      kept : JobRow → Bool
      kept row = not (is_among ids row.job_id)

module _ (maximum : ℕ) (protected : Option Text) (db : Database) where
  pub retention-AreTables :
      AreTables db → AreTables (enforce_terminal_retention maximum protected db).1
  unfolding enforce_terminal_retention
  retention-AreTables t =
      let jobs = update_where needs_pruning prune db.jobs in
      let excess = count row_is_terminal jobs - maximum in
      let tables = prune-AreTables db t in
      elim (Bool-cases (excess == 0)) [
        | inl e ↦ rw e tables
        | inr e ↦ rw e (
            delete_jobs-AreTables (victims protected excess jobs) (record db { jobs = jobs })
              tables)
      ]

  -- No count grows, of a test that pruning keeps.
  pub count-retention :
      (q : JobRow → Bool)
      → ((row : JobRow) → q (prune row) ≡ q row)
      → count q (enforce_terminal_retention maximum protected db).1.jobs ≤ count q db.jobs
  unfolding enforce_terminal_retention delete_jobs
  count-retention q h =
      let jobs = update_where needs_pruning prune db.jobs in
      let excess = count row_is_terminal jobs - maximum in
      ground (
        arith,
        count-prune q db.jobs h,
        count-filter_le q (λ row. not (is_among (victims protected excess jobs) row.job_id)) jobs,
      )

  pub retention-all_pruned :
      count needs_pruning (enforce_terminal_retention maximum protected db).1.jobs ≡ 0
  unfolding enforce_terminal_retention delete_jobs
  retention-all_pruned =
      let jobs = update_where needs_pruning prune db.jobs in
      let excess = count row_is_terminal jobs - maximum in
      ground (
        arith,
        prune-all_pruned db.jobs,
        count-filter_le needs_pruning
            (λ row. not (is_among (victims protected excess jobs) row.job_id)) jobs,
      )
