-- ===== src/Storage/Receipt/Redelivered.antt =====
-- crates/oppa-storage/src/lib.rs: the answers to a delivery of a known identifier.
use oppa.Common.{
  ◌≡◌, ◌≢◌, refl, ap, ◌∙◌, ◌>>=◌, Bool, true, false, some, none, Result, ok, err, arith, find,
  Bool-cases, Option-cases, inl, inr,
}
use oppa.Common.Text.{Text, text, text_eq, text_eq→eq, eq→text_eq}
use oppa.Storage.Schema.{
  StorageError, json, job_identity_conflict, job_content_conflict, JobRow, Database, StorageLimits,
  has_id,
}
use oppa.Storage.Payload.{JsonCodec, payload_matches}
use oppa.Storage.Insert.{ReceivedPrintJob, InsertResult, duplicate_job, redelivered}
use oppa.Storage.Delivery.{IsDeliverable}
use oppa.Storage.Receipt.{IsSameContent, IsAnswered, IsAnswered-eq}

module _ {Value : Type 0} ⦃codec : JsonCodec Value⦄ (limits : StorageLimits)
    (job : ReceivedPrintJob Value) (db : Database) (d : IsDeliverable job) where
  abbrev digest : Text
  digest = codec.digest d.payload

  -- The comparison with a stored payload decides whether the content is the same.
  abbrev IsCompared : JobRow → Result StorageError Bool → Type 0
  IsCompared row (ok true) = IsSameContent limits job db row
  IsCompared row (ok false) = IsSameContent limits job db row → ⊥
  IsCompared row (err json) = codec.from_str row.payload_json ≡ none
  IsCompared row (err _) = ⊥

  fingerprint-IsCompared :
      (row : JobRow) (same : Bool)
      → row.payload_json ≡ text "null"
      → text_eq row.payload_sha256 digest ≡ same
      → IsCompared row (ok same)
  fingerprint-IsCompared row true pruned h =
      inl (pruned, d.payload, d.payload_ok, text_eq→eq row.payload_sha256 digest h)
  fingerprint-IsCompared row false pruned h = λ content. elim content [
    | inl (_, encoded, encodes, e) ↦
        let same : encoded ≡ d.payload = cc (encodes, d.payload_ok) in
        absurd (ground (arith, h, eq→text_eq row.payload_sha256 digest (e ∙ ap codec.digest same)))
    | inr (whole, _) ↦ whole pruned
  ]

  value-IsCompared :
      (row : JobRow) (existing : Value) (same : Bool)
      → row.payload_json ≢ text "null"
      → codec.from_str row.payload_json ≡ some existing
      → codec.value_eq existing job.payload ≡ same
      → IsCompared row (ok same)
  value-IsCompared row existing true whole read h =
      inr (whole, rw (← (codec.value_eq_iff existing job.payload).0 h) read)
  value-IsCompared row existing false whole read h = λ content. elim content [
    | inl (pruned, _, _, _) ↦ whole pruned
    | inr (_, read') ↦
        let same : existing ≡ job.payload = cc (read, read') in
        absurd (ground (arith, h, (codec.value_eq_iff existing job.payload).1 same))
  ]

  IsCompared-eq :
      (row : JobRow) (r r' : Result StorageError Bool)
      → r' ≡ r
      → IsCompared row r
      → IsCompared row r'
  IsCompared-eq row r r' e c = rw e c

  payload_matches-IsCompared :
      (row : JobRow) → IsCompared row (payload_matches row digest job.payload)
  unfolding payload_matches
  payload_matches-IsCompared row = elim (Bool-cases (text_eq row.payload_json (text "null"))) [
    | inl pruned ↦
        IsCompared-eq row (ok (text_eq row.payload_sha256 digest)) _ (rw pruned refl)
          (fingerprint-IsCompared row _ (text_eq→eq row.payload_json (text "null") pruned) refl)
    | inr whole ↦
        let differs : row.payload_json ≢ text "null" =
          λ e. absurd (ground (arith, whole, eq→text_eq row.payload_json (text "null") e)) in
        elim (Option-cases (codec.from_str row.payload_json)) [
          | inl unread ↦ IsCompared-eq row (err json) _ (rw (whole, unread) refl) unread
          | inr (existing, read) ↦
              IsCompared-eq row (ok (codec.value_eq existing job.payload)) _ (rw (whole, read) refl)
                (value-IsCompared row existing _ differs read refl)
        ]
  ]

  abbrev pub answered :
      Result StorageError InsertResult → Result StorageError (InsertResult × Database)
  answered r = do answer ← r; ok (answer, db)

  judged-IsAnswered :
      (row : JobRow) (r : Result StorageError Bool)
      → find (has_id job.id) db.jobs ≡ some row
      → text_eq row.idempotency_key job.idempotency_key ≡ true
      → payload_matches row digest job.payload ≡ r
      → IsCompared row r
      → IsAnswered limits job db (answered (redelivered job digest row))
  unfolding redelivered
  judged-IsAnswered row (err json) found keyed h c =
      IsAnswered-eq limits job db (err json) _ (rw (keyed, h) refl) (inr (row, found, c))
  judged-IsAnswered row (err _) found keyed h c = absurd c
  judged-IsAnswered row (ok matches) found keyed h c =
      elim (Bool-cases (text_eq row.printer_id job.printer_id)) [
        | inr elsewhere ↦
            IsAnswered-eq limits job db (err (job_content_conflict job.id)) _
              (rw (keyed, h, elsewhere) refl)
              (
                refl,
                row,
                found,
                text_eq→eq row.idempotency_key job.idempotency_key keyed,
                λ (printer, _).
                    absurd
                      (ground (arith, elsewhere, eq→text_eq row.printer_id job.printer_id printer)),
              )
        | inl printer ↦ same_printer matches h c printer
      ]
    where
      same_printer :
          (matches : Bool)
          → payload_matches row digest job.payload ≡ ok matches
          → IsCompared row (ok matches)
          → text_eq row.printer_id job.printer_id ≡ true
          → IsAnswered limits job db (answered (redelivered job digest row))
      same_printer true h c printed =
          IsAnswered-eq limits job db (ok (duplicate_job row.state, db)) _
            (rw (keyed, h, printed) refl)
            (
              refl,
              row,
              found,
              text_eq→eq row.idempotency_key job.idempotency_key keyed,
              text_eq→eq row.printer_id job.printer_id printed,
              c,
              refl,
            )
      same_printer false h c printed =
          IsAnswered-eq limits job db (err (job_content_conflict job.id)) _
            (rw (keyed, h, printed) refl)
            (
              refl,
              row,
              found,
              text_eq→eq row.idempotency_key job.idempotency_key keyed,
              λ (_, content). c content,
            )

  pub redelivered-IsAnswered :
      (row : JobRow)
      → find (has_id job.id) db.jobs ≡ some row
      → IsAnswered limits job db (answered (redelivered job digest row))
  unfolding redelivered
  redelivered-IsAnswered row found =
      elim (Bool-cases (text_eq row.idempotency_key job.idempotency_key)) [
        | inl key ↦
            judged-IsAnswered row (payload_matches row digest job.payload) found key refl
              (payload_matches-IsCompared row)
        | inr other ↦
            IsAnswered-eq limits job db (err (job_identity_conflict job.id)) _ (rw other refl) (
              refl,
              row,
              found,
              λ e.
                  absurd
                    (ground (arith, other, eq→text_eq row.idempotency_key job.idempotency_key e)),
            )
      ]
