-- ===== src/Storage/Lifecycle/Carrying.antt =====
-- What survives the life of a row: a property that pruning, a transition and a requeue keep.
use oppa.Common.{
  ℕ, ◌≡◌, refl, Bool, true, false, Option, some, none, List, [], ◌∷◌, ok, arith, >>=-eq-ok, ensure,
  find, update_where, if◌then◌else◌, Bool-cases, inl, inr, not, filter,
}
use oppa.Common.Text.{Text}
use oppa.Common.Counting.{find-append_some}
use oppa.Core.{JobState, submitting, submitted, failed, cancelled, is_terminal}
use oppa.Storage.Schema.{
  timestamp, SubmissionReceipt, StoredJobError, JobRow, OutboxRow, Database, StorageLimits, has_id,
  has_message, max_job_payload_bytes, validate_key, validate_error, now_millis,
}
use oppa.Storage.Payload.{JsonCodec, bounded_json, payload_fingerprint}
use oppa.Storage.Retention.{
  needs_pruning, prune, enforce_terminal_retention, maintain_terminal_jobs,
}
use oppa.Storage.Insert.{ReceivedPrintJob, InsertResult, new_row, insert_received}
use oppa.Storage.Transition.{
  advance, transition, prepare_outbound_status, mark_submitting, mark_submitted,
  mark_submitted_with_status, mark_failed, mark_failed_with_status, mark_cancelled,
}
use oppa.Storage.Outbox.{acknowledge_outbound_status}
use oppa.Storage.Recovery.{RecoveryResult, is_submitting, requeue, recover_interrupted}
use oppa.Storage.Operations.{
  Operation, receive, claim, submit, submit_reported, fail, fail_reported, cancel, recover,
  acknowledge, maintain, perform,
}
use oppa.Storage.Consistency.Inserting.{insert_transaction-outcome}
use oppa.Storage.Consistency.Moving.{transition-Moves}
use oppa.Storage.Consistency.Running.{settle_unit-keeps, settle-keeps}
use oppa.Storage.Lifecycle.Rows.{pruned_row, find-retention, find-update_ne}

module _ (P : JobRow → Type 0) (id : Text) where
  pub record IsHeld (db : Database) : Type 0 where
    pub row : JobRow
    pub found : find (has_id id) db.jobs ≡ some row
    pub holds : P row

  pub data Carries (db : Database) : Type 0 where
    evicted : find (has_id id) db.jobs ≡ none → Carries db
    held : IsHeld db → Carries db

module _ (P : JobRow → Type 0) (prune_keeps : (row : JobRow) → P row → P (prune row))
    (advance_keeps : (now : ℕ) (requested : JobState) (receipt : Option SubmissionReceipt)
        (error : Option StoredJobError) (row : JobRow)
      → P row
      → P (advance now requested receipt error row))
    (requeue_keeps : (now : ℕ) (row : JobRow) → P row → P (requeue now row)) (id : Text)
    (db : Database) where
  if-keeps :
      (f : JobRow → JobRow) (b : Bool) (row : JobRow)
      → P row
      → (P row → P (f row))
      → P (if b then f row else row)
  if-keeps f true row p k = k p
  if-keeps f false row p k = p

  retention-Carries :
      (maximum : ℕ) (protected : Option Text) (middle : Database)
      → IsHeld P id middle
      → Carries P id (enforce_terminal_retention maximum protected middle).1
  retention-Carries maximum protected middle h =
      elim (find-retention maximum protected middle id h.row h.found) [
        | inl gone ↦ evicted gone
        | inr kept ↦ held (record {
          row = pruned_row h.row;
          found = kept;
          holds = if-keeps prune (needs_pruning h.row) h.row h.holds (prune_keeps h.row);
        })
      ]

  update-IsHeld :
      (p : JobRow → Bool) (f : JobRow → JobRow) (outbox : List OutboxRow)
      → ((row : JobRow) → has_id id (f row) ≡ has_id id row)
      → ((row : JobRow) → P row → P (f row))
      → IsHeld P id db
      → IsHeld P id (record { jobs = update_where p f db.jobs; outbox = outbox })
  update-IsHeld p f outbox same keeps h = record {
    row = if p h.row then f h.row else h.row;
    found = find-update_ne p (has_id id) f db.jobs h.row (λ r _. same r) h.found;
    holds = if-keeps f (p h.row) h.row h.holds (keeps h.row);
  }

  transition-Carries :
      (limits : StorageLimits) (clock : Option ℕ) (other : Text) (requested : JobState)
      (receipt : Option SubmissionReceipt) (error : Option StoredJobError)
      (status : Option OutboxRow) (db' : Database)
      → IsHeld P id db
      → transition limits clock other requested receipt error status db ≡ ok db'
      → Carries P id db'
  unfolding advance
  transition-Carries limits clock other requested receipt error status db' held_before h =
      let m = transition-Moves limits clock other requested receipt error status db db' h in
      let move = advance m.now requested receipt error in
      let middle : Database = record {
        jobs = update_where (has_id other) move db.jobs;
        outbox = m.outbox;
      } in
      let here =
        update-IsHeld (has_id other) move m.outbox (λ _. refl)
          (advance_keeps m.now requested receipt error) held_before in
      elim (Bool-cases (is_terminal requested)) [
        | inl last ↦
            rw (m.result, last)
              (retention-Carries limits.max_terminal_jobs (some other) middle here)
        | inr open_state ↦ rw (m.result, open_state) (held here)
      ]

  recover-Carries :
      (representable : ℕ → Bool) (clock : Option ℕ) (r : RecoveryResult) (db' : Database)
      → IsHeld P id db
      → recover_interrupted representable clock db ≡ ok (r, db')
      → Carries P id db'
  unfolding recover_interrupted
  recover-Carries representable clock r db' here h =
      let (now, _, h1) = >>=-eq-ok (now_millis clock) _ h in
      let (_, _, h2) = >>=-eq-ok (ensure (representable now) (timestamp now)) _ h1 in
      let e : db' ≡ record db { jobs = update_where is_submitting (requeue now) db.jobs } =
        ground arith in
      rw e (
        held (
          update-IsHeld is_submitting (requeue now) db.outbox (λ _. refl) (requeue_keeps now) here))

  acknowledge-Carries :
      (message_id : Text) (removed : Bool) (db' : Database)
      → IsHeld P id db
      → acknowledge_outbound_status message_id db ≡ ok (removed, db')
      → Carries P id db'
  unfolding acknowledge_outbound_status
  acknowledge-Carries message_id removed db' here h =
      let (_, _, h1) = >>=-eq-ok (validate_key message_id 128) _ h in
      let e : db' ≡ record db {
        outbox = filter (λ report. not (has_message message_id report)) db.outbox;
      } =
        ground arith in
      rw e (held (record { row = here.row; found = here.found; holds = here.holds }))

  module _ {Value : Type 0} ⦃codec : JsonCodec Value⦄ (limits : StorageLimits)
      (representable : ℕ → Bool) (here : IsHeld P id db) where
    insert-Carries :
        (job : ReceivedPrintJob Value) (r : InsertResult) (db' : Database)
        → insert_received limits job db ≡ ok (r, db')
        → Carries P id db'
    unfolding insert_received
    insert-Carries job r db' h =
        let (_, _, h1) = >>=-eq-ok (validate_key job.idempotency_key 256) _ h in
        let (_, _, h2) = >>=-eq-ok (validate_key job.source_message_id 128) _ h1 in
        let (payload, _, h3) = >>=-eq-ok (bounded_json job.payload max_job_payload_bytes) _ h2 in
        let (sha256, _, h4) = >>=-eq-ok (payload_fingerprint job.payload) _ h3 in
        elim (insert_transaction-outcome limits job payload sha256 db r db' h4) [
          | inl same ↦ rw (same.1) (held here)
          | inr (_, _, _, _, e) ↦ rw e (
              held (record {
                row = here.row;
                found =
                    find-append_some (has_id id) db.jobs (new_row job payload sha256 ∷ []) here.row
                      here.found;
                holds = here.holds;
              }))
        ]

    pub perform-Carries : (op : Operation Value) → Carries P id (perform limits representable op db)
    unfolding perform mark_submitting mark_submitted mark_submitted_with_status mark_failed
        mark_failed_with_status mark_cancelled maintain_terminal_jobs
    perform-Carries (receive job) =
        settle-keeps (Carries P id) db (insert_received limits job db) (held here)
          (λ r db' h. insert-Carries job r db' h)
    perform-Carries (claim clock other) =
        settle_unit-keeps (Carries P id) db (mark_submitting limits clock other db) (held here)
          (λ db' h. transition-Carries limits clock other submitting none none none db' here h)
    perform-Carries (submit clock other receipt) =
        settle_unit-keeps (Carries P id) db (mark_submitted limits clock other receipt db)
          (held here)
          (λ db' h.
            transition-Carries limits clock other submitted (some receipt) none none db' here h)
    perform-Carries (submit_reported clock other receipt status) =
        settle_unit-keeps (Carries P id) db
          (mark_submitted_with_status limits clock other receipt status db) (held here)
          (λ db' h.
            let (report, _, h1) = >>=-eq-ok (prepare_outbound_status other status) _ h in
            transition-Carries limits clock other submitted (some receipt) none (some report) db'
              here h1)
    perform-Carries (fail clock other error) =
        settle_unit-keeps (Carries P id) db (mark_failed limits clock other error db) (held here)
          (λ db' h.
            let (_, _, h1) = >>=-eq-ok (validate_error error) _ h in
            transition-Carries limits clock other failed none (some error) none db' here h1)
    perform-Carries (fail_reported clock other error status) =
        settle_unit-keeps (Carries P id) db
          (mark_failed_with_status limits clock other error status db) (held here)
          (λ db' h.
            let (_, _, h0) = >>=-eq-ok (validate_error error) _ h in
            let (report, _, h1) = >>=-eq-ok (prepare_outbound_status other status) _ h0 in
            transition-Carries limits clock other failed none (some error) (some report) db' here
              h1)
    perform-Carries (cancel clock other) =
        settle_unit-keeps (Carries P id) db (mark_cancelled limits clock other db) (held here)
          (λ db' h. transition-Carries limits clock other cancelled none none none db' here h)
    perform-Carries (recover clock) =
        settle-keeps (Carries P id) db (recover_interrupted representable clock db) (held here)
          (λ r db' h. recover-Carries representable clock r db' here h)
    perform-Carries (acknowledge message_id) =
        settle-keeps (Carries P id) db (acknowledge_outbound_status message_id db) (held here)
          (λ r db' h. acknowledge-Carries message_id r db' here h)
    perform-Carries maintain = retention-Carries limits.max_terminal_jobs none db here
