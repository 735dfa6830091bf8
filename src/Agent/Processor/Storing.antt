-- ===== src/Agent/Processor/Storing.antt =====
-- crates/oppa-agent/src/processor.rs: the failures of process_stored_job against the repository's
-- check of an error.
use oppa.Common.{ℕ, Bool, false, Option, some, none, ok, err}
use oppa.Common.Text.{Text, text}
use oppa.Storage.Schema.{StorageLimits}
use oppa.Storage.Payload.{JsonCodec}
use oppa.Storage.Loading.{StoredPrintJob}
use oppa.Agent.Failure
use oppa.Agent.Failure.{JobFailure, spooler_failure}
use oppa.Agent.Failure.Storable.{IsStorable}
use oppa.Agent.Services.{Services}
use oppa.Agent.Processor.{prepare}

module _ {Value Rendered : Type 0} ⦃codec : JsonCodec Value⦄ (services : Services Value Rendered)
    (limits : StorageLimits) (representable : ℕ → Bool) (stored : StoredPrintJob Value) where
  -- The failure that process_stored_job has for a job that its collaborators answer so: an undecodable
  -- payload, a failed preparation, or the spooler's error.
  abbrev pub failure_of : Option JobFailure
  failure_of = elim (services.decode_job stored.payload) [
    | err message ↦ some (Failure.new (text "job.invalid_persisted") message false)
    | ok job ↦ elim (prepare services limits representable stored job) [
      | err failure ↦ some failure
      | ok (printer, rendered) ↦ elim (services.submit stored.id printer rendered) [
        | err (e, message) ↦ some (spooler_failure e message)
        | ok submission ↦ none
      ]
    ]
  ]

  abbrev IsStorableIfAny : Option JobFailure → Type 0
  IsStorableIfAny none = Unit
  IsStorableIfAny (some failure) = IsStorable failure
