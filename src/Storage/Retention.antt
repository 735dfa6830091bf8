-- ===== src/Storage/Retention.antt =====
-- crates/oppa-storage/src/lib.rs: pruning of finished payloads and eviction of the oldest rows.
-- A count of rows is an i64 that is not negative, so `usize_from_database` and `i64::try_from` do
-- not fail on it where usize has 64 bits.
pub mod Victims
pub mod Bounds
pub mod Order
use oppa.Common.{
  ℕ, ◌-◌, Bool, false, not, ◌&&◌, ◌||◌, Option, none, some, List, map, ltb, ◌==◌, take, filter, any,
  update_where, if◌then◌else◌,
}
use oppa.Common.Text.{Text, text, text_eq, text_le}
use oppa.Common.Counting.{count}
use oppa.Common.Sorting.{order_by}
use oppa.Storage.Schema.{JobRow, OutboxRow, Database, StorageLimits, row_is_terminal}

pub record TerminalRetentionResult : Type 0 where
  pub payloads_pruned : ℕ
  pub jobs_deleted : ℕ
  pub jobs_retained : ℕ

-- state is terminal AND payload_json <> 'null'
abbrev pub needs_pruning : JobRow → Bool
needs_pruning row = row_is_terminal row && not (text_eq row.payload_json (text "null"))

abbrev pub prune : JobRow → JobRow
prune row = record row { payload_json = text "null" }

abbrev pub is_protected : Option Text → JobRow → Bool
is_protected none row = false
is_protected (some id) row = text_eq row.job_id id

-- state is terminal AND (?1 IS NULL OR job_id <> ?1)
abbrev pub is_evictable : Option Text → JobRow → Bool
is_evictable protected row = row_is_terminal row && not (is_protected protected row)

-- ORDER BY updated_at_ms, job_id
abbrev pub updated_first : JobRow → JobRow → Bool
updated_first a b =
    ltb a.updated_at_ms b.updated_at_ms
    || a.updated_at_ms == b.updated_at_ms && text_le a.job_id b.job_id

abbrev pub is_among : List Text → Text → Bool
is_among ids id = any (λ other. text_eq id other) ids

-- The inner SELECT with its LIMIT.
unfoldable pub victims : Option Text → ℕ → List JobRow → List Text
victims protected excess jobs =
    map (λ (row : JobRow). row.job_id)
      (take excess (order_by updated_first (filter (is_evictable protected) jobs)))

-- DELETE, with ON DELETE CASCADE into the outbox.
unfoldable pub delete_jobs : List Text → Database → Database
delete_jobs ids db = record {
  jobs = filter (λ row. not (is_among ids row.job_id)) db.jobs;
  outbox = filter (λ row. not (is_among ids row.job_id)) db.outbox;
}

unfoldable pub enforce_terminal_retention :
    ℕ → Option Text → Database → TerminalRetentionResult × Database
enforce_terminal_retention maximum protected db =
    let pruned = update_where needs_pruning prune db.jobs in
    let excess = count row_is_terminal pruned - maximum in
    let ids = victims protected excess pruned in
    let evicted = delete_jobs ids (record db { jobs = pruned }) in
    let final = if excess == 0 then record db { jobs = pruned } else evicted in
    (
      record {
        payloads_pruned = count needs_pruning db.jobs;
        jobs_deleted = if excess == 0 then 0 else count (λ row. is_among ids row.job_id) pruned;
        jobs_retained = count row_is_terminal final.jobs;
      },
      final,
    )

-- `SqliteStorage::maintain_terminal_jobs`
unfoldable pub maintain_terminal_jobs :
    StorageLimits → Database → TerminalRetentionResult × Database
maintain_terminal_jobs limits db = enforce_terminal_retention limits.max_terminal_jobs none db
