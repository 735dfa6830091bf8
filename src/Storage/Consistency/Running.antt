-- ===== src/Storage/Consistency/Running.antt =====
-- The repository stays consistent whatever is asked of it.
use oppa.Common.{
  ℕ, ◌<◌, ◌≡◌, refl, Bool, some, none, List, [], ◌∷◌, arith, Result, ok, err, ensure, >>=-eq-ok,
}
use oppa.Common.Text.{Text, text_eq, text_eq→eq}
use oppa.Core.{submitting, submitted, failed, cancelled}
use oppa.Storage.Schema.{
  StorageError, OutboxRow, Database, StorageLimits, invalid_input, max_outbound_status_bytes,
  validate_key, validate_error,
}
use oppa.Storage.Payload.{JsonCodec, bounded_json}
use oppa.Storage.Insert.{insert_received}
use oppa.Storage.Transition.{
  NewOutboundStatus, prepare_outbound_status, mark_submitting, mark_submitted,
  mark_submitted_with_status, mark_failed, mark_failed_with_status, mark_cancelled,
}
use oppa.Storage.Outbox.{acknowledge_outbound_status}
use oppa.Storage.Recovery.{recover_interrupted}
use oppa.Storage.Operations.{
  Operation, receive, claim, submit, submit_reported, fail, fail_reported, cancel, recover,
  acknowledge, maintain, settle, settle_unit, empty_database, perform, perform_all,
}
use oppa.Storage.Invariant.{IsConsistent}
use oppa.Storage.Consistency.Inserting.{insert_received-IsConsistent}
use oppa.Storage.Consistency.Moving.{transition-IsConsistent}
use oppa.Storage.Consistency.Recovering.{
  recover_interrupted-IsConsistent, acknowledge-IsConsistent, maintain-IsConsistent,
}

pub settle_unit-keeps :
    (P : Database → Type 0) (db : Database) (r : Result StorageError Database)
    → P db
    → ((db' : Database) → r ≡ ok db' → P db')
    → P (settle_unit db r)
settle_unit-keeps P db (ok db') p h = h db' refl
settle_unit-keeps P db (err e) p h = p

pub settle-keeps {ℓ} :
    {A : Type ℓ} (P : Database → Type 0) (db : Database) (r : Result StorageError (A × Database))
    → P db
    → ((a : A) (db' : Database) → r ≡ ok (a, db') → P db')
    → P (settle db r)
settle-keeps P db (ok (a, db')) p h = h a db' refl
settle-keeps P db (err e) p h = p

module _ {Value : Type 0} ⦃codec : JsonCodec Value⦄ where
  pub prepared_job :
      (id : Text) (status : NewOutboundStatus Value) (row : OutboxRow)
      → prepare_outbound_status id status ≡ ok row
      → row.job_id ≡ id
  unfolding prepare_outbound_status
  prepared_job id status row h =
      let (_, _, h1) = >>=-eq-ok (validate_key status.message_id 128) _ h in
      let (_, same, h2) = >>=-eq-ok (ensure (text_eq status.job_id id) invalid_input) _ h1 in
      let (json, _, h3) = >>=-eq-ok (bounded_json status.payload max_outbound_status_bytes) _ h2 in
      ground (arith, text_eq→eq status.job_id id)

module _ {Value : Type 0} ⦃codec : JsonCodec Value⦄ (limits : StorageLimits)
    (representable : ℕ → Bool) (positive : 0 < limits.max_terminal_jobs) where
  perform-IsConsistent :
      (op : Operation Value) (db : Database)
      → IsConsistent limits db
      → IsConsistent limits (perform limits representable op db)
  unfolding perform mark_submitting mark_submitted mark_submitted_with_status mark_failed
      mark_failed_with_status mark_cancelled
  perform-IsConsistent (receive job) db c =
      settle-keeps (IsConsistent limits) db (insert_received limits job db) c
        (λ r db' h. insert_received-IsConsistent limits job db r db' c h)
  perform-IsConsistent (claim clock id) db c =
      settle_unit-keeps (IsConsistent limits) db (mark_submitting limits clock id db) c (λ db' h.
        transition-IsConsistent limits clock id submitting none none none db db' positive
          (refl, refl) tt c h)
  perform-IsConsistent (submit clock id receipt) db c =
      settle_unit-keeps (IsConsistent limits) db (mark_submitted limits clock id receipt db) c
        (λ db' h.
          transition-IsConsistent limits clock id submitted (some receipt) none none db db' positive
            (refl, refl) tt c h)
  perform-IsConsistent (submit_reported clock id receipt status) db c =
      settle_unit-keeps (IsConsistent limits) db
        (mark_submitted_with_status limits clock id receipt status db) c
        (λ db' h.
          let (row, prepared, h1) = >>=-eq-ok (prepare_outbound_status id status) _ h in
          transition-IsConsistent limits clock id submitted (some receipt) none (some row) db db'
            positive (refl, refl) (prepared_job id status row prepared, refl) c h1)
  perform-IsConsistent (fail clock id error) db c =
      settle_unit-keeps (IsConsistent limits) db (mark_failed limits clock id error db) c (λ db' h.
        let (_, _, h1) = >>=-eq-ok (validate_error error) _ h in
        transition-IsConsistent limits clock id failed none (some error) none db db' positive
          (refl, refl) tt c h1)
  perform-IsConsistent (fail_reported clock id error status) db c =
      settle_unit-keeps (IsConsistent limits) db
        (mark_failed_with_status limits clock id error status db) c
        (λ db' h.
          let (_, _, h0) = >>=-eq-ok (validate_error error) _ h in
          let (row, prepared, h1) = >>=-eq-ok (prepare_outbound_status id status) _ h0 in
          transition-IsConsistent limits clock id failed none (some error) (some row) db db'
            positive (refl, refl) (prepared_job id status row prepared, refl) c h1)
  perform-IsConsistent (cancel clock id) db c =
      settle_unit-keeps (IsConsistent limits) db (mark_cancelled limits clock id db) c (λ db' h.
        transition-IsConsistent limits clock id cancelled none none none db db' positive
          (refl, refl) tt c h)
  perform-IsConsistent (recover clock) db c =
      settle-keeps (IsConsistent limits) db (recover_interrupted representable clock db) c
        (λ r db' h. recover_interrupted-IsConsistent limits representable clock db r db' c h)
  perform-IsConsistent (acknowledge message_id) db c =
      settle-keeps (IsConsistent limits) db (acknowledge_outbound_status message_id db) c
        (λ r db' h. acknowledge-IsConsistent limits message_id db r db' c h)
  perform-IsConsistent maintain db c =
      maintain-IsConsistent limits db positive c.tables c.pending_bounded

  perform_all-IsConsistent :
      (ops : List (Operation Value)) (db : Database)
      → IsConsistent limits db
      → IsConsistent limits (perform_all limits representable ops db)
  unfolding perform_all
  perform_all-IsConsistent [] db c = c
  perform_all-IsConsistent (op ∷ ops) db c =
      perform_all-IsConsistent ops (perform limits representable op db)
        (perform-IsConsistent op db c)

  -- Whatever operations run on a new database, in any order and with any failures, its identifiers,
  -- keys and report identifiers stay unique, reports are about finished jobs that are still stored,
  -- the pending and finished jobs stay within their limits, finished payloads are pruned, and each
  -- row's counters, receipt and error fit its state.
  pub runs-IsConsistent :
      (ops : List (Operation Value))
      → IsConsistent limits (perform_all limits representable ops empty_database)
  runs-IsConsistent ops = perform_all-IsConsistent ops empty_database (record {
    tables = record {
      unique_id = λ _. omega arith;
      unique_key = λ _. omega arith;
      unique_message = λ _. omega arith;
      reports_finished = λ _. omega arith;
      rows_sound = tt;
    };
    pending_bounded = omega arith;
    terminal_bounded = omega arith;
    all_pruned = refl;
  })
