-- ===== src/Storage/Retention/Bounds.antt =====
-- After retention the finished rows are within their bound.
use oppa.Common.{
  ℕ, ◌+◌, ◌-◌, ◌≤◌, ◌<◌, ◌≡◌, refl, Bool, not, ◌&&◌, Option, none, some, List, arith, update_where,
}
use oppa.Common.Text.{Text}
use oppa.Common.Counting.{count, count_mono, count_split, count-filter, count-update_where}
use oppa.Storage.Schema.{JobRow, Database, has_id, row_is_terminal}
use oppa.Storage.Retention.{
  needs_pruning, prune, is_evictable, is_among, victims, delete_jobs, enforce_terminal_retention,
}
use oppa.Storage.Retention.Victims.{victims_cover}

-- Every finished row but the protected one may go.
count-evictable :
    (protected : Option Text) (jobs : List JobRow)
    → ((id : Text) → count (has_id id) jobs ≤ 1)
    → count row_is_terminal jobs ≤ count (is_evictable protected) jobs + 1
count-evictable none jobs u =
    omega (arith, count_mono row_is_terminal (is_evictable none) jobs (λ row h. ground arith))
count-evictable (some id) jobs u = omega (
  arith,
  u id,
  count_split row_is_terminal (has_id id) jobs,
  count_mono (λ row. row_is_terminal row && has_id id row) (has_id id) jobs (λ row. ground arith),
)

abbrev pruned_jobs : Database → List JobRow
pruned_jobs db = update_where needs_pruning prune db.jobs

module _ (maximum : ℕ) (protected : Option Text) (db : Database) where
  pub count-pruned :
      (q : JobRow → Bool)
      → ((row : JobRow) → q (prune row) ≡ q row)
      → count q (update_where needs_pruning prune db.jobs) ≡ count q db.jobs
  count-pruned q h = count-update_where needs_pruning q prune db.jobs (λ row _. h row)

  -- Finished rows over the bound go, down to the bound.
  pub retention_bound :
      ((id : Text) → count (has_id id) db.jobs ≤ 1)
      → 0 < maximum
      → count row_is_terminal (enforce_terminal_retention maximum protected db).1.jobs ≤ maximum
  unfolding enforce_terminal_retention delete_jobs
  retention_bound u m =
      let jobs = pruned_jobs db in
      let excess = count row_is_terminal jobs - maximum in
      let named : JobRow → Bool = λ row. is_among (victims protected excess jobs) row.job_id in
      ground (
        arith,
        count-filter row_is_terminal (λ row. not (named row)) jobs,
        count_split row_is_terminal named jobs,
        victims_cover protected excess jobs,
        count-evictable protected jobs
            (λ id. omega (arith, count-pruned (has_id id) (λ _. refl), u id)),
      )
