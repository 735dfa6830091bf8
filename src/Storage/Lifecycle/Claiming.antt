-- ===== src/Storage/Lifecycle/Claiming.antt =====
-- One submission at a time, and what a restart does to the claimed jobs.
use oppa.Common.{
  ℕ, ◌+◌, ◌^◌, ◌≡◌, ◌<◌, refl, ◌∙◌, Bool, Option, some, none, List, [], ◌∷◌, ok, err, ensure, arith,
  >>=-eq-ok, length, find, filter, update_where, if◌then◌else◌,
}
use mathlib.Core.Option
use oppa.Common.Text.{Text}
use oppa.Common.Counting.{count, find-update_where, length-filter}
use oppa.Common.Sorting.{length-order_by}
use oppa.Core.{received, submitting, state_eq}
use oppa.Storage.Schema.{
  invalid_transition, timestamp, JobRow, Database, StorageLimits, has_id, now_millis,
}
use oppa.Storage.Insert.{is_received, received_first, pending}
use oppa.Storage.Transition.{allowed, advance, transition, mark_submitting}
use oppa.Storage.Recovery.{
  RecoveryResult, is_submitting, recovery_error, requeue, recover_interrupted,
}
use oppa.Storage.Consistency.Moving.{transition-Moves}

pub claimed_row :
    (limits : StorageLimits) (clock : Option ℕ) (id : Text) (db db' : Database)
    → mark_submitting limits clock id db ≡ ok db'
    → (before after : JobRow) × (find (has_id id) db.jobs ≡ some before)
      × (before.state ≡ received)
      × (find (has_id id) db'.jobs ≡ some after)
      × (after.state ≡ submitting)
      × (after.retry_attempts ≡ before.retry_attempts + 1)
unfolding mark_submitting allowed advance
claimed_row limits clock id db db' h =
    let m = transition-Moves limits clock id submitting none none none db db' h in
    let move = advance m.now submitting none none in
    (
      m.row,
      move m.row,
      m.found,
      ground (arith, m.may),
      rw m.result (find-update_where (has_id id) move db.jobs m.row (λ r k. k) m.found),
      refl,
      refl,
    )

-- A claim succeeds only on a received job and counts one attempt, and another claim of the job on the
-- tables that it leaves, with a clock that fits an i64, fails with the error that names its state.
pub mark_submitting_exclusive :
    (limits : StorageLimits) (clock : Option ℕ) (ms : ℕ) (id : Text) (db db' : Database)
    → mark_submitting limits clock id db ≡ ok db'
    → ms < 2 ^ 63
    → (before after : JobRow) × (find (has_id id) db.jobs ≡ some before)
      × (before.state ≡ received)
      × (find (has_id id) db'.jobs ≡ some after)
      × (after.retry_attempts ≡ before.retry_attempts + 1)
      × (mark_submitting limits (some ms) id db'
          ≡ err (invalid_transition id submitting submitting))
unfolding mark_submitting transition now_millis allowed
mark_submitting_exclusive limits clock ms id db db' h fits =
    let (before, after, found, was, now_found, now_state, attempts) =
      claimed_row limits clock id db db' h in
    (before, after, found, was, now_found, attempts, ground (arith, now_found, now_state))

module _ (now : ℕ) where
  none_submitting :
      (jobs : List JobRow) → count is_submitting (update_where is_submitting (requeue now) jobs) ≡ 0
  none_submitting [] = refl
  none_submitting (x ∷ xs) = ground (arith, none_submitting xs)

  count-received_requeued :
      (jobs : List JobRow)
      → count is_received (update_where is_submitting (requeue now) jobs)
        ≡ count is_received jobs + count is_submitting jobs
  count-received_requeued [] = refl
  count-received_requeued (x ∷ xs) = ground (arith, count-received_requeued xs)

pub length-pending : (db : Database) → length (pending db) ≡ count is_received db.jobs
unfolding pending
length-pending db =
    length-order_by received_first (filter is_received db.jobs) ∙ length-filter is_received db.jobs

-- What recovery makes of one row: an interrupted submission waits again, uncharged, with one
-- recovery more.
abbrev pub recovered_row : ℕ → JobRow → JobRow
recovered_row now row =
    if state_eq row.state submitting
    then record row {
      state = received;
      updated_at_ms = now;
      recovery_count = row.recovery_count + 1;
      error = some (recovery_error now);
    }
    else row

find-requeued :
    (now : ℕ) (id : Text) (jobs : List JobRow)
    → find (has_id id) (update_where is_submitting (requeue now) jobs)
      ≡ Option.map (recovered_row now) (find (has_id id) jobs)
find-requeued now id [] = refl
find-requeued now id (x ∷ xs) = ground (arith, find-requeued now id xs)

-- What recovery has done: no job is being submitted any more, the interrupted ones were counted and
-- wait again with one recovery more, the counts agree with the list of pending jobs, and every
-- other row and the outbox are as they were.
pub record IsRecovered (r : RecoveryResult) (db db' : Database) : Type 0 where
  pub none_left : count is_submitting db'.jobs ≡ 0
  pub recovered : r.recovered_submissions ≡ count is_submitting db.jobs
  pub pending_counted : r.pending_jobs ≡ length (pending db')
  pub all_waiting : r.pending_jobs ≡ length (pending db) + r.recovered_submissions
  pub requeued_at : ℕ
  pub rows_kept :
      (id : Text)
      → find (has_id id) db'.jobs
        ≡ Option.map (recovered_row requeued_at) (find (has_id id) db.jobs)
  pub outbox_kept : db'.outbox ≡ db.outbox

requeued-IsRecovered :
    (now : ℕ) (db : Database)
    → let jobs = update_where is_submitting (requeue now) db.jobs in
      IsRecovered
        (record {
          recovered_submissions = count is_submitting db.jobs;
          pending_jobs = count is_received jobs;
        })
        db
        (record db { jobs = jobs })
requeued-IsRecovered now db =
    let jobs = update_where is_submitting (requeue now) db.jobs in
    record {
      none_left = none_submitting now db.jobs;
      recovered = refl;
      pending_counted = omega (arith, length-pending (record db { jobs = jobs }));
      all_waiting = omega (arith, length-pending db, count-received_requeued now db.jobs);
      requeued_at = now;
      rows_kept = λ id. find-requeued now id db.jobs;
      outbox_kept = refl;
    }

-- A successful recovery requeues exactly the interrupted submissions.
pub recover_interrupted-IsRecovered :
    (representable : ℕ → Bool) (clock : Option ℕ) (db : Database) (r : RecoveryResult)
    (db' : Database)
    → recover_interrupted representable clock db ≡ ok (r, db')
    → IsRecovered r db db'
unfolding recover_interrupted
recover_interrupted-IsRecovered representable clock db r db' h =
    let (now, _, h1) = >>=-eq-ok (now_millis clock) _ h in
    let (_, _, h2) = >>=-eq-ok (ensure (representable now) (timestamp now)) _ h1 in
    let jobs = update_where is_submitting (requeue now) db.jobs in
    let er : r ≡ record {
      recovered_submissions = count is_submitting db.jobs;
      pending_jobs = count is_received jobs;
    } =
      ground (arith, h2) in
    let ed : db' ≡ record db { jobs = jobs } = ground (arith, h2) in
    rw (er, ed) (requeued-IsRecovered now db)
