-- ===== src/Storage/Consistency/Suiting.antt =====
-- What the arguments of an accepted transition make of one row.
use oppa.Common.{
  ℕ, ◌+◌, ◌≡◌, ◌⊎◌, Bool, true, false, Option, some, none, arith, if◌then◌else◌, is_some,
}
use oppa.Common.Text.{Text}
use oppa.Core.{
  JobState, received, submitting, submitted, failed, cancelled, state_eq, is_terminal, is_pending,
}
use oppa.Storage.Schema.{SubmissionReceipt, OutboxRow}
use oppa.Storage.Transition.{allowed, coalesce}
use oppa.Storage.Invariant.{Claims, Evidence}

-- The receipt and the error that each call of `transition` gives with its requested state.
abbrev pub Suits : JobState → Bool → Bool → Type 0
Suits received receipt error = ⊥
Suits submitting receipt error = (receipt ≡ false) × (error ≡ false)
Suits submitted receipt error = (receipt ≡ true) × (error ≡ false)
Suits failed receipt error = (receipt ≡ false) × (error ≡ true)
Suits cancelled receipt error = (receipt ≡ false) × (error ≡ false)

-- A report goes out only about the job itself and only with a terminal state.
abbrev pub Reports : Text → JobState → Option OutboxRow → Type 0
Reports id requested none = Unit
Reports id requested (some status) = (status.job_id ≡ id) × (is_terminal requested ≡ true)

pub Claims-advance :
    (current requested : JobState) (attempts recoveries : ℕ)
    → allowed current requested ≡ true
    → Claims current attempts recoveries
    → Claims requested (attempts + (if state_eq requested submitting then 1 else 0)) recoveries
unfolding allowed
Claims-advance received requested attempts recoveries may c = ground arith
Claims-advance submitting requested attempts recoveries may c = ground arith
Claims-advance _ requested attempts recoveries may c = ground arith

-- Before it is allowed to move, a job has no receipt.
pub no_receipt :
    (current requested : JobState) (receipt error : Bool)
    → allowed current requested ≡ true
    → Evidence current receipt error
    → receipt ≡ false
unfolding allowed
no_receipt current requested receipt error may e = ground arith

pub Evidence-advance :
    (requested : JobState) (old new : Option SubmissionReceipt) (error : Bool)
    → is_some old ≡ false
    → Suits requested (is_some new) error
    → Evidence requested (is_some (coalesce new old)) error
Evidence-advance requested old new error o s = ground arith

pub allowed_pending :
    (current requested : JobState)
    → allowed current requested ≡ true
    → (is_pending current ≡ true)
      × (is_terminal current ≡ false)
      × ((is_terminal requested ≡ true) ⊎ (requested ≡ submitting))
unfolding allowed
allowed_pending current requested may = ground arith
