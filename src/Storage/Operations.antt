-- ===== src/Storage/Operations.antt =====
-- The operations of the repository as values, and their runs in any order. A failed operation has
-- dropped its transaction, so the database stays.
use oppa.Common.{ℕ, Bool, Option, List, [], ◌∷◌, Result, ok, err}
use oppa.Common.Text.{Text}
use oppa.Storage.Schema.{StorageError, SubmissionReceipt, StoredJobError, Database, StorageLimits}
use oppa.Storage.Payload.{JsonCodec}
use oppa.Storage.Retention.{maintain_terminal_jobs}
use oppa.Storage.Insert.{ReceivedPrintJob, insert_received}
use oppa.Storage.Transition.{
  NewOutboundStatus, mark_submitting, mark_submitted, mark_submitted_with_status, mark_failed,
  mark_failed_with_status, mark_cancelled,
}
use oppa.Storage.Outbox.{acknowledge_outbound_status}
use oppa.Storage.Recovery.{recover_interrupted}

pub data Operation (Value : Type 0) : Type 0 where
  receive : ReceivedPrintJob Value → Operation Value
  claim : (clock : Option ℕ) (id : Text) → Operation Value
  submit : (clock : Option ℕ) (id : Text) → SubmissionReceipt → Operation Value
  submit_reported :
      (clock : Option ℕ) (id : Text) → SubmissionReceipt → NewOutboundStatus Value → Operation Value
  fail : (clock : Option ℕ) (id : Text) → StoredJobError → Operation Value
  fail_reported :
      (clock : Option ℕ) (id : Text) → StoredJobError → NewOutboundStatus Value → Operation Value
  cancel : (clock : Option ℕ) (id : Text) → Operation Value
  recover : (clock : Option ℕ) → Operation Value
  acknowledge : (message_id : Text) → Operation Value
  maintain : Operation Value

-- The database after a call, with its other result dropped.
abbrev pub settle {ℓ} : {A : Type ℓ} → Database → Result StorageError (A × Database) → Database
settle db (ok (_, db')) = db'
settle db (err _) = db

abbrev pub settle_unit : Database → Result StorageError Database → Database
settle_unit db (ok db') = db'
settle_unit db (err _) = db

abbrev pub empty_database : Database
empty_database = record { jobs = []; outbox = [] }

module _ {Value : Type 0} ⦃codec : JsonCodec Value⦄ (limits : StorageLimits)
    (representable : ℕ → Bool) where
  unfoldable pub perform : Operation Value → Database → Database
  perform (receive job) db = settle db (insert_received limits job db)
  perform (claim clock id) db = settle_unit db (mark_submitting limits clock id db)
  perform (submit clock id receipt) db = settle_unit db (mark_submitted limits clock id receipt db)
  perform (submit_reported clock id receipt status) db =
      settle_unit db (mark_submitted_with_status limits clock id receipt status db)
  perform (fail clock id error) db = settle_unit db (mark_failed limits clock id error db)
  perform (fail_reported clock id error status) db =
      settle_unit db (mark_failed_with_status limits clock id error status db)
  perform (cancel clock id) db = settle_unit db (mark_cancelled limits clock id db)
  perform (recover clock) db = settle db (recover_interrupted representable clock db)
  perform (acknowledge message_id) db = settle db (acknowledge_outbound_status message_id db)
  perform maintain db = (maintain_terminal_jobs limits db).1

  unfoldable pub perform_all : List (Operation Value) → Database → Database
  unfolding perform
  perform_all [] db = db
  perform_all (op ∷ ops) db = perform_all ops (perform op db)
