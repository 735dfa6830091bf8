-- ===== src/Storage/Consistency/Inserting.antt =====
-- An insertion keeps the tables consistent.
use oppa.Common.{
  ◌<◌, ◌≡◌, ◌≢◌, ◌⊎◌, refl, true, [], ◌∷◌, ◌++◌, arith, ok, >>=-eq-ok, All-append, inl, inr,
}
use oppa.Common.Text.{Text, text_eq, text_eq→eq}
use oppa.Common.Counting.{count, count-append, find-none}
use oppa.Core.{received}
use oppa.Storage.Schema.{
  JobRow, Database, StorageLimits, has_id, has_key, row_is_terminal, row_is_pending,
  max_job_payload_bytes, validate_key,
}
use oppa.Storage.Payload.{JsonCodec, bounded_json, payload_fingerprint}
use oppa.Storage.Retention.{needs_pruning}
use oppa.Storage.Insert.{
  ReceivedPrintJob, InsertResult, inserted, new_row, insert_row, redelivered, enqueue,
  insert_transaction, insert_received,
}
use oppa.Storage.Invariant.{RowIsSound, is_finished, AreTables, IsConsistent}

-- A row of an unknown identifier and key that is received and sound.
record IsFresh (row : JobRow) (db : Database) : Type 0 where
  pub new_id : count (has_id row.job_id) db.jobs ≡ 0
  pub new_key : count (has_key row.idempotency_key) db.jobs ≡ 0
  pub is_received : row.state ≡ received
  pub sound : RowIsSound row

module _ (row : JobRow) (db : Database) (fresh : IsFresh row db) where
  same_id : (id : Text) → text_eq row.job_id id ≡ true → count (has_id id) db.jobs ≡ 0
  same_id id h = rw (← text_eq→eq row.job_id id h) fresh.new_id

  same_key : (key : Text) → text_eq row.idempotency_key key ≡ true → count (has_key key) db.jobs ≡ 0
  same_key key h = rw (← text_eq→eq row.idempotency_key key h) fresh.new_key

  append-AreTables : AreTables db → AreTables (record db { jobs = db.jobs ++ row ∷ [] })
  append-AreTables t = record {
    unique_id = λ id.
        ground (arith, count-append (has_id id) db.jobs (row ∷ []), t.unique_id id, same_id id);
    unique_key = λ key.
        ground
          (arith, count-append (has_key key) db.jobs (row ∷ []), t.unique_key key, same_key key);
    unique_message = t.unique_message;
    reports_finished = λ id.
        omega (arith, count-append (is_finished id) db.jobs (row ∷ []), t.reports_finished id);
    rows_sound = All-append RowIsSound db.jobs (row ∷ []) t.rows_sound (fresh.sound, tt);
  }

  append-IsConsistent :
      (limits : StorageLimits)
      → count row_is_pending db.jobs < limits.max_pending_jobs
      → IsConsistent limits db
      → IsConsistent limits (record db { jobs = db.jobs ++ row ∷ [] })
  append-IsConsistent limits room c = record {
    tables = append-AreTables c.tables;
    pending_bounded =
        ground (arith, count-append row_is_pending db.jobs (row ∷ []), c.pending_bounded);
    terminal_bounded = ground (
      arith,
      count-append row_is_terminal db.jobs (row ∷ []),
      c.terminal_bounded,
      fresh.is_received,
    );
    all_pruned =
        ground
          (arith, count-append needs_pruning db.jobs (row ∷ []), c.all_pruned, fresh.is_received);
  }

module _ {Value : Type 0} ⦃codec : JsonCodec Value⦄ (limits : StorageLimits) where
  -- What an accepted insertion of a new job has done.
  pub enqueue-ok :
      (job : ReceivedPrintJob Value) (payload sha256 : Text) (db : Database) {r : InsertResult}
      {db' : Database}
      → enqueue limits job payload sha256 db ≡ ok (r, db')
      → (r ≡ inserted)
        × (db' ≡ record db { jobs = db.jobs ++ new_row job payload sha256 ∷ [] })
        × (count row_is_pending db.jobs < limits.max_pending_jobs)
  unfolding enqueue insert_row
  enqueue-ok job payload sha256 db h = ground arith

  -- Either nothing was written, or a job of a new identifier and key was appended.
  abbrev pub Inserts :
      ReceivedPrintJob Value → Text → Text → Database → InsertResult → Database → Type 0
  Inserts job payload sha256 db r db' =
      (r ≡ inserted)
      × (count (has_id job.id) db.jobs ≡ 0)
      × (count (has_key job.idempotency_key) db.jobs ≡ 0)
      × (count row_is_pending db.jobs < limits.max_pending_jobs)
      × (db' ≡ record db { jobs = db.jobs ++ new_row job payload sha256 ∷ [] })

  pub insert_transaction-outcome :
      (job : ReceivedPrintJob Value) (payload sha256 : Text) (db : Database) (r : InsertResult)
      (db' : Database)
      → insert_transaction limits job payload sha256 db ≡ ok (r, db')
      → ((r ≢ inserted) × (db' ≡ db)) ⊎ Inserts job payload sha256 db r db'
  unfolding insert_transaction redelivered
  insert_transaction-outcome job payload sha256 db r db' h = ground (
    arith,
    enqueue-ok job payload sha256 db {r = r} {db' = db'},
    find-none (has_id job.id) db.jobs,
    find-none (has_key job.idempotency_key) db.jobs,
  )

  new_row-IsFresh :
      (job : ReceivedPrintJob Value) (payload sha256 : Text) (db : Database)
      → count (has_id job.id) db.jobs ≡ 0
      → count (has_key job.idempotency_key) db.jobs ≡ 0
      → IsFresh (new_row job payload sha256) db
  unfolding new_row
  new_row-IsFresh job payload sha256 db h k = record {
    new_id = h;
    new_key = k;
    is_received = refl;
    sound = (refl, refl);
  }

  insert_transaction-IsConsistent :
      (job : ReceivedPrintJob Value) (payload sha256 : Text) (db : Database) (r : InsertResult)
      (db' : Database)
      → IsConsistent limits db
      → insert_transaction limits job payload sha256 db ≡ ok (r, db')
      → IsConsistent limits db'
  insert_transaction-IsConsistent job payload sha256 db r db' c h =
      elim (insert_transaction-outcome job payload sha256 db r db' h) [
        | inl same ↦ rw (same.1) c
        | inr (_, new, free, room, e) ↦ rw e (
            append-IsConsistent (new_row job payload sha256) db
              (new_row-IsFresh job payload sha256 db new free) limits room c)
      ]

  -- An accepted delivery, new or not, keeps the tables consistent.
  pub insert_received-IsConsistent :
      (job : ReceivedPrintJob Value) (db : Database) (r : InsertResult) (db' : Database)
      → IsConsistent limits db
      → insert_received limits job db ≡ ok (r, db')
      → IsConsistent limits db'
  unfolding insert_received
  insert_received-IsConsistent job db r db' c h =
      let (_, _, h1) = >>=-eq-ok (validate_key job.idempotency_key 256) _ h in
      let (_, _, h2) = >>=-eq-ok (validate_key job.source_message_id 128) _ h1 in
      let (payload, _, h3) = >>=-eq-ok (bounded_json job.payload max_job_payload_bytes) _ h2 in
      let (sha256, _, h4) = >>=-eq-ok (payload_fingerprint job.payload) _ h3 in
      insert_transaction-IsConsistent job payload sha256 db r db' c h4
