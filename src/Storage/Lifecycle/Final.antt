-- ===== src/Storage/Lifecycle/Final.antt =====
-- A finished row is evicted whole or stays as it is, whatever the repository does.
use oppa.Common.{
  ℕ, ◌≡◌, ◌⊎◌, refl, sym, ap, ◌∙◌, Bool, true, false, Option, some, none, ok, arith, >>=-eq-ok,
  ensure, find, update_where, Bool-cases, inl, inr, ◌∷◌, [],
}
use oppa.Common.Text.{Text, text_eq→eq}
use oppa.Common.Counting.{count, find-some, find-append_some}
use oppa.Core.{JobState, submitting, submitted, failed, cancelled, is_terminal}
use oppa.Storage.Schema.{
  timestamp, SubmissionReceipt, StoredJobError, JobRow, OutboxRow, Database, StorageLimits, has_id,
  row_is_terminal, max_job_payload_bytes, validate_key, validate_error, now_millis,
}
use oppa.Storage.Payload.{JsonCodec, bounded_json, payload_fingerprint}
use oppa.Storage.Retention.{needs_pruning, enforce_terminal_retention, maintain_terminal_jobs}
use oppa.Storage.Insert.{ReceivedPrintJob, InsertResult, new_row, insert_received}
use oppa.Storage.Transition.{
  allowed, advance, transition, prepare_outbound_status, mark_submitting, mark_submitted,
  mark_submitted_with_status, mark_failed, mark_failed_with_status, mark_cancelled,
}
use oppa.Storage.Outbox.{acknowledge_outbound_status}
use oppa.Storage.Recovery.{RecoveryResult, is_submitting, requeue, recover_interrupted}
use oppa.Storage.Operations.{
  Operation, receive, claim, submit, submit_reported, fail, fail_reported, cancel, recover,
  acknowledge, maintain, perform,
}
use oppa.Storage.Consistency.Inserting.{insert_transaction-outcome}
use oppa.Storage.Consistency.Moving.{transition-Moves}
use oppa.Storage.Consistency.Running.{settle_unit-keeps, settle-keeps}
use oppa.Storage.Lifecycle.Rows.{pruned_row, find-retention, pruned_row-eq, find-update_ne}

-- The row is gone, or it is the same.
abbrev pub StaysOrGoes : Text → JobRow → Database → Type 0
StaysOrGoes id row db = (find (has_id id) db.jobs ≡ none) ⊎ (find (has_id id) db.jobs ≡ some row)

module _ (id : Text) (row : JobRow) (db : Database) (found : find (has_id id) db.jobs ≡ some row)
    (final : row_is_terminal row ≡ true) (pruned : count needs_pruning db.jobs ≡ 0) where
  untouched : pruned_row row ≡ row
  untouched = pruned_row-eq (has_id id) db.jobs row pruned found

  -- A retained table that still has the row.
  retained :
      (maximum : ℕ) (protected : Option Text) (middle : Database)
      → find (has_id id) middle.jobs ≡ some row
      → StaysOrGoes id row (enforce_terminal_retention maximum protected middle).1
  retained maximum protected middle h =
      ground (arith, untouched, find-retention maximum protected middle id row h)

  final_moves_nowhere : (requested : JobState) → allowed row.state requested ≡ false
  unfolding allowed
  final_moves_nowhere requested = ground arith

  module _ (limits : StorageLimits) (clock : Option ℕ) (other : Text) (requested : JobState)
      (receipt : Option SubmissionReceipt) (error : Option StoredJobError)
      (status : Option OutboxRow) (db' : Database) where
    not_this_row :
        (moving : JobRow)
        → find (has_id other) db.jobs ≡ some moving
        → allowed moving.state requested ≡ true
        → has_id other row ≡ false
    not_this_row moving h may = elim (Bool-cases (has_id other row)) [
      | inr differs ↦ differs
      | inl same ↦
          let e : id ≡ other =
            sym (text_eq→eq row.job_id id (find-some (has_id id) db.jobs found))
            ∙ text_eq→eq row.job_id other same in
          let m : moving ≡ row = ground (arith, rw (← e) at h) in
          cc (final_moves_nowhere requested, may, ap (λ (r : JobRow). allowed r.state requested) m)
    ]

    transition-StaysOrGoes :
        transition limits clock other requested receipt error status db ≡ ok db'
        → StaysOrGoes id row db'
    unfolding advance
    transition-StaysOrGoes h =
        let m = transition-Moves limits clock other requested receipt error status db db' h in
        let move = advance m.now requested receipt error in
        let middle : Database = record {
          jobs = update_where (has_id other) move db.jobs;
          outbox = m.outbox;
        } in
        let here : find (has_id id) middle.jobs ≡ some row = ground (
          arith,
          find-update_ne (has_id other) (has_id id) move db.jobs row (λ r _. refl) found,
          not_this_row m.row m.found m.may,
        ) in
        elim (Bool-cases (is_terminal requested)) [
          | inl last ↦
              rw (m.result, last) (retained limits.max_terminal_jobs (some other) middle here)
          | inr open_state ↦ rw (m.result, open_state) (inr here)
        ]

  recover-StaysOrGoes :
      (representable : ℕ → Bool) (clock : Option ℕ) (r : RecoveryResult) (db' : Database)
      → recover_interrupted representable clock db ≡ ok (r, db')
      → StaysOrGoes id row db'
  unfolding recover_interrupted
  recover-StaysOrGoes representable clock r db' h =
      let (now, _, h1) = >>=-eq-ok (now_millis clock) _ h in
      let (_, _, h2) = >>=-eq-ok (ensure (representable now) (timestamp now)) _ h1 in
      ground (
        arith,
        h2,
        find-update_ne is_submitting (has_id id) (requeue now) db.jobs row (λ r _. refl) found,
      )

  acknowledge-StaysOrGoes :
      (message_id : Text) (removed : Bool) (db' : Database)
      → acknowledge_outbound_status message_id db ≡ ok (removed, db')
      → StaysOrGoes id row db'
  unfolding acknowledge_outbound_status
  acknowledge-StaysOrGoes message_id removed db' h =
      let (_, _, h1) = >>=-eq-ok (validate_key message_id 128) _ h in
      let same : db'.jobs ≡ db.jobs = ground arith in rw same (inr found)

  module _ {Value : Type 0} ⦃codec : JsonCodec Value⦄ (limits : StorageLimits)
      (representable : ℕ → Bool) where
    insert-StaysOrGoes :
        (job : ReceivedPrintJob Value) (r : InsertResult) (db' : Database)
        → insert_received limits job db ≡ ok (r, db')
        → StaysOrGoes id row db'
    unfolding insert_received
    insert-StaysOrGoes job r db' h =
        let (_, _, h1) = >>=-eq-ok (validate_key job.idempotency_key 256) _ h in
        let (_, _, h2) = >>=-eq-ok (validate_key job.source_message_id 128) _ h1 in
        let (payload, _, h3) = >>=-eq-ok (bounded_json job.payload max_job_payload_bytes) _ h2 in
        let (sha256, _, h4) = >>=-eq-ok (payload_fingerprint job.payload) _ h3 in
        elim (insert_transaction-outcome limits job payload sha256 db r db' h4) [
          | inl same ↦ rw (same.1) (inr found)
          | inr (_, _, _, _, e) ↦ rw e (
              inr
                (find-append_some (has_id id) db.jobs (new_row job payload sha256 ∷ []) row found))
        ]

    -- In a table whose finished payloads are pruned, a finished row survives every operation
    -- unchanged, or is evicted: nothing resubmits, fails or cancels it, and its receipt, error and
    -- counters stay.
    pub perform-StaysOrGoes :
        (op : Operation Value) → StaysOrGoes id row (perform limits representable op db)
    unfolding perform mark_submitting mark_submitted mark_submitted_with_status mark_failed
        mark_failed_with_status mark_cancelled maintain_terminal_jobs
    perform-StaysOrGoes (receive job) =
        settle-keeps (StaysOrGoes id row) db (insert_received limits job db) (inr found)
          (λ r db' h. insert-StaysOrGoes job r db' h)
    perform-StaysOrGoes (claim clock other) =
        settle_unit-keeps (StaysOrGoes id row) db (mark_submitting limits clock other db)
          (inr found)
          (λ db' h. transition-StaysOrGoes limits clock other submitting none none none db' h)
    perform-StaysOrGoes (submit clock other receipt) =
        settle_unit-keeps (StaysOrGoes id row) db (mark_submitted limits clock other receipt db)
          (inr found)
          (λ db' h.
            transition-StaysOrGoes limits clock other submitted (some receipt) none none db' h)
    perform-StaysOrGoes (submit_reported clock other receipt status) =
        settle_unit-keeps (StaysOrGoes id row) db
          (mark_submitted_with_status limits clock other receipt status db) (inr found)
          (λ db' h.
            let (report, _, h1) = >>=-eq-ok (prepare_outbound_status other status) _ h in
            transition-StaysOrGoes limits clock other submitted (some receipt) none (some report)
              db' h1)
    perform-StaysOrGoes (fail clock other error) =
        settle_unit-keeps (StaysOrGoes id row) db (mark_failed limits clock other error db)
          (inr found)
          (λ db' h.
            let (_, _, h1) = >>=-eq-ok (validate_error error) _ h in
            transition-StaysOrGoes limits clock other failed none (some error) none db' h1)
    perform-StaysOrGoes (fail_reported clock other error status) =
        settle_unit-keeps (StaysOrGoes id row) db
          (mark_failed_with_status limits clock other error status db) (inr found)
          (λ db' h.
            let (_, _, h0) = >>=-eq-ok (validate_error error) _ h in
            let (report, _, h1) = >>=-eq-ok (prepare_outbound_status other status) _ h0 in
            transition-StaysOrGoes limits clock other failed none (some error) (some report) db' h1)
    perform-StaysOrGoes (cancel clock other) =
        settle_unit-keeps (StaysOrGoes id row) db (mark_cancelled limits clock other db) (inr found)
          (λ db' h. transition-StaysOrGoes limits clock other cancelled none none none db' h)
    perform-StaysOrGoes (recover clock) =
        settle-keeps (StaysOrGoes id row) db (recover_interrupted representable clock db)
          (inr found) (λ r db' h. recover-StaysOrGoes representable clock r db' h)
    perform-StaysOrGoes (acknowledge message_id) =
        settle-keeps (StaysOrGoes id row) db (acknowledge_outbound_status message_id db) (inr found)
          (λ r db' h. acknowledge-StaysOrGoes message_id r db' h)
    perform-StaysOrGoes maintain = retained limits.max_terminal_jobs none db found
