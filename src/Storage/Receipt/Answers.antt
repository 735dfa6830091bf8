-- ===== src/Storage/Receipt/Answers.antt =====
-- crates/oppa-storage/src/lib.rs: the answers of insert_received.
use oppa.Common.{
  ℕ, ◌≡◌, refl, ap, ◌∙◌, Bool, false, none, List, [], ◌∷◌, ◌++◌, ok, err, arith, find, any, ltb,
  leb, Bool-cases, Result-cases, Option-cases, inl, inr,
}
use oppa.Common.Text.{Text, byte_len}
use oppa.Common.Counting.{count}
use oppa.Core
use oppa.Core.{JobState, received}
use oppa.Storage.Schema.{
  StorageError, json, invalid_input, identifier, queue_full, JobRow, Database, StorageLimits,
  has_id, has_key, row_is_pending, validate_key, max_job_payload_bytes,
}
use oppa.Storage.Payload.{JsonCodec, bounded_json}
use oppa.Storage.Insert.{
  ReceivedPrintJob, inserted, duplicate_idempotency, stored_id, new_row, insert_row, redelivered,
  enqueue, insert_transaction, insert_received,
}
use oppa.Storage.Delivery.{IsDeliverable, insert-deliverable}
use oppa.Storage.Receipt.{IsUnknown, IsAnswered, IsAnswered-eq}
use oppa.Storage.Receipt.Redelivered.{answered, redelivered-IsAnswered}

pub identifier-same : (value id : Text) → Core.identifier value ≡ ok id → value ≡ id
unfolding Core.identifier Core.validate_identifier
identifier-same value id h = ground (arith, h)

any-none : (p : JobRow → Bool) (jobs : List JobRow) → find p jobs ≡ none → any p jobs ≡ false
any-none p [] h = refl
any-none p (x ∷ xs) h = ground (arith, any-none p xs)

module _ {Value : Type 0} ⦃codec : JsonCodec Value⦄ (limits : StorageLimits)
    (job : ReceivedPrintJob Value) (db : Database) where
  module _ (d : IsDeliverable job) where
    abbrev digest : Text
    digest = codec.digest d.payload

    enqueue-IsAnswered :
        IsUnknown limits job db → IsAnswered limits job db (enqueue limits job d.payload digest db)
    unfolding enqueue insert_row new_row
    enqueue-IsAnswered (new, free) =
        elim (Bool-cases (ltb (count row_is_pending db.jobs) limits.max_pending_jobs)) [
          | inr full ↦
              IsAnswered-eq limits job db (err (queue_full limits.max_pending_jobs)) _
                (rw (full, enqueue) refl) (refl, (new, free), ground (arith, full))
          | inl room ↦
              let row = new_row job d.payload digest in
              IsAnswered-eq limits job db (ok (inserted, record db { jobs = db.jobs ++ row ∷ [] }))
                _
                (ground (
                  arith,
                  room,
                  any-none (has_id job.id) db.jobs new,
                  any-none (has_key job.idempotency_key) db.jobs free,
                ))
                (
                  (new, free),
                  ground (arith, room),
                  row,
                  record {
                    same_id = refl;
                    same_key = refl;
                    same_printer = refl;
                    same_source = refl;
                    encodes = d.payload_ok;
                    fingerprinted = refl;
                    is_received = refl;
                    never_tried = (refl, refl);
                    arrived = (refl, refl);
                    no_outcome = (refl, refl);
                  },
                  refl,
                )
        ]

    transaction-IsAnswered :
        IsAnswered limits job db (insert_transaction limits job d.payload digest db)
    unfolding insert_transaction stored_id
    transaction-IsAnswered = elim (Option-cases (find (has_id job.id) db.jobs)) [
      | inr (row, found) ↦
          IsAnswered-eq limits job db (answered limits job db d (redelivered job digest row)) _
            (rw (insert_transaction, found) refl) (redelivered-IsAnswered limits job db d row found)
      | inl new ↦ elim (Option-cases (find (has_key job.idempotency_key) db.jobs)) [
        | inl free ↦
            IsAnswered-eq limits job db (enqueue limits job d.payload digest db) _
              (rw (insert_transaction, new, free) refl) (enqueue-IsAnswered (new, free))
        | inr (owner, taken) ↦ elim (Result-cases (Core.identifier owner.job_id)) [
          | inr (e, invalid) ↦
              IsAnswered-eq limits job db (err (identifier e)) _
                (rw (insert_transaction, stored_id, new, taken, invalid) refl)
                (new, owner, taken, invalid)
          | inl (id, valid) ↦
              IsAnswered-eq limits job db (ok (duplicate_idempotency id owner.state, db)) _
                (rw (insert_transaction, stored_id, new, taken, valid) refl)
                (refl, new, owner, taken, identifier-same owner.job_id id valid, refl)
        ]
      ]
    ]

  validate_key-eq-err :
      (value : Text) (maximum : ℕ) (e : StorageError)
      → validate_key value maximum ≡ err e
      → e ≡ invalid_input
  unfolding validate_key
  validate_key-eq-err value maximum e h = ground (arith, h)

  -- Whatever delivery comes and whatever the tables hold: a new job is stored to wait for its first
  -- submission only under an unknown identifier and key and while the queue has room, a duplicate is
  -- answered with the row that has its identifier, key, printer and content or with the owner of
  -- its key and writes nothing, and every error names its cause: a conflict of keys or of content
  -- with the row, a full queue, an invalid identifier of the owner, a payload that cannot be encoded
  -- or a stored one that cannot be decoded, or a delivery that is not valid. No constraint of the
  -- tables fails.
  pub insert_received-IsAnswered : IsAnswered limits job db (insert_received limits job db)
  unfolding insert_received bounded_json
  insert_received-IsAnswered = elim (Result-cases (validate_key job.idempotency_key 256)) [
    | inr (e, refused) ↦ unkeyed job.idempotency_key 256 e refused (rw refused refl) (λ d. d.key_ok)
    | inl (tt, key_ok) ↦ elim (Result-cases (validate_key job.source_message_id 128)) [
      | inr (e, refused) ↦
          unkeyed job.source_message_id 128 e refused (rw (key_ok, refused) refl) (λ d. d.source_ok)
      | inl (tt, source_ok) ↦ elim (Option-cases (codec.to_string job.payload)) [
        | inl unwritten ↦
            IsAnswered-eq limits job db (err json) _ (rw (key_ok, source_ok, unwritten) refl)
              (inl unwritten)
        | inr (payload, written) ↦
            elim (Bool-cases (leb (byte_len payload) max_job_payload_bytes)) [
              | inr large ↦
                  IsAnswered-eq limits job db (err invalid_input) _
                    (rw (key_ok, source_ok, written, large) refl)
                    λ d.
                      let same : d.payload ≡ payload = cc (d.payload_ok, written) in
                      absurd (ground (arith, rw same at d.payload_fits, large))
              | inl fits ↦
                  let d : IsDeliverable job = record {
                    key_ok = key_ok;
                    source_ok = source_ok;
                    payload = payload;
                    payload_ok = written;
                    payload_fits = fits;
                  } in
                  IsAnswered-eq limits job db _ _ (insert-deliverable limits job db d)
                    (transaction-IsAnswered d)
            ]
      ]
    ]
  ]
    where
      unkeyed :
          (value : Text) (maximum : ℕ) (e : StorageError)
          → validate_key value maximum ≡ err e
          → insert_received limits job db ≡ err e
          → (IsDeliverable job → validate_key value maximum ≡ ok tt)
          → IsAnswered limits job db (insert_received limits job db)
      unkeyed value maximum e refused answer needs =
          IsAnswered-eq limits job db (err invalid_input) _
            (answer ∙ ap err (validate_key-eq-err value maximum e refused))
            λ d. absurd (ground (arith, needs d, refused))
