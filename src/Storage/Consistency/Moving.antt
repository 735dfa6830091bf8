-- ===== src/Storage/Consistency/Moving.antt =====
-- Every lifecycle transition keeps the tables consistent.
use oppa.Common.{
  ℕ, ◌<◌, ◌≡◌, true, Option, some, none, List, arith, ok, ensure, ok_or, >>=-eq-ok, find,
  update_where, if◌then◌else◌, Bool-cases, inl, inr, is_some,
}
use oppa.Common.Text.{Text}
use oppa.Core.{JobState, is_terminal}
use oppa.Storage.Schema.{
  SubmissionReceipt, StoredJobError, JobRow, OutboxRow, Database, StorageLimits, has_id, now_millis,
  job_not_found, invalid_transition,
}
use oppa.Storage.Retention.{enforce_terminal_retention}
use oppa.Storage.Transition.{allowed, advance, insert_optional, transition}
use oppa.Storage.Invariant.{IsConsistent}
use oppa.Storage.Consistency.Suiting.{Suits, Reports}
use oppa.Storage.Consistency.Advancing.{moved-AreTables, moved-IsConsistent, finished-IsConsistent}

-- The shape of every accepted transition.
pub record Moves (limits : StorageLimits) (id : Text) (requested : JobState)
    (receipt : Option SubmissionReceipt) (error : Option StoredJobError) (status : Option OutboxRow)
    (db db' : Database) : Type 0 where
  pub now : ℕ
  pub row : JobRow
  pub outbox : List OutboxRow
  pub found : find (has_id id) db.jobs ≡ some row
  pub may : allowed row.state requested ≡ true
  pub inserted :
      insert_optional
        (update_where (has_id id) (advance now requested receipt error) db.jobs)
        status
        db.outbox
      ≡ ok outbox
  pub result : db' ≡ (
      if is_terminal requested
      then (enforce_terminal_retention limits.max_terminal_jobs (some id) (record {
        jobs = update_where (has_id id) (advance now requested receipt error) db.jobs;
        outbox = outbox;
      })).1
      else record {
        jobs = update_where (has_id id) (advance now requested receipt error) db.jobs;
        outbox = outbox;
      })

ok_or-inv {ℓ κ} :
    {E : Type ℓ} {A : Type κ} (o : Option A) (e : E) {a : A} → ok_or o e ≡ ok a → o ≡ some a
ok_or-inv none e h = cc
ok_or-inv (some a) e h = cc

module _ (limits : StorageLimits) (clock : Option ℕ) (id : Text) (requested : JobState)
    (receipt : Option SubmissionReceipt) (error : Option StoredJobError) (status : Option OutboxRow)
    (db db' : Database) where
  pub transition-Moves :
      transition limits clock id requested receipt error status db ≡ ok db'
      → Moves limits id requested receipt error status db db'
  unfolding transition
  transition-Moves h =
      let (now, _, h1) = >>=-eq-ok (now_millis clock) _ h in
      let (row, found, h2) = >>=-eq-ok (ok_or (find (has_id id) db.jobs) (job_not_found id)) _ h1 in
      let (_, may, h3) =
        >>=-eq-ok (ensure (allowed row.state requested) (invalid_transition id row.state requested))
          _ h2 in
      let (outbox, inserted, h4) =
        >>=-eq-ok
          (insert_optional (update_where (has_id id) (advance now requested receipt error) db.jobs)
            status db.outbox)
          _ h3 in
      record {
        now = now;
        row = row;
        outbox = outbox;
        found = ok_or-inv (find (has_id id) db.jobs) (job_not_found id) found;
        may = ground arith;
        inserted = inserted;
        result = ground arith;
      }

  -- An accepted transition whose arguments suit its state keeps the tables consistent.
  pub transition-IsConsistent :
      0 < limits.max_terminal_jobs
      → Suits requested (is_some receipt) (is_some error)
      → Reports id requested status
      → IsConsistent limits db
      → transition limits clock id requested receipt error status db ≡ ok db'
      → IsConsistent limits db'
  transition-IsConsistent positive suits about c h =
      let m = transition-Moves h in
      let tables =
        moved-AreTables m.now id requested receipt error db m.row m.found m.may status m.outbox
          m.inserted suits about c.tables in
      elim (Bool-cases (is_terminal requested)) [
        | inl final ↦
            rw (m.result, final)
              (finished-IsConsistent m.now id requested receipt error db m.row m.found m.may limits
                m.outbox positive final tables c)
        | inr open_state ↦
            rw (m.result, open_state)
              (moved-IsConsistent m.now id requested receipt error db m.row m.found m.may limits
                m.outbox open_state tables c)
      ]
