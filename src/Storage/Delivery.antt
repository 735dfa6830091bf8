-- ===== src/Storage/Delivery.antt =====
-- At-least-once delivery: what a second delivery of a job finds.
use oppa.Common.{
  ℕ, ◌≡◌, ◌⊎◌, refl, ◌∙◌, Bool, true, some, List, [], ◌∷◌, ok, ok_or, ensure, arith, >>=-eq-ok,
  find, leb, is_some, Bool-cases, inl, inr,
}
use oppa.Common.Text.{Text, text, text_eq, byte_len, text_eq_refl}
use oppa.Common.Counting.{find-append_none, count-zero-find}
use oppa.Storage.Schema.{
  json, invalid_input, JobRow, Database, StorageLimits, has_id, max_job_payload_bytes, validate_key,
}
use oppa.Storage.Payload.{JsonCodec, bounded_json, payload_fingerprint, payload_matches}
use oppa.Storage.Retention.{prune}
use oppa.Storage.Insert.{
  ReceivedPrintJob, inserted, duplicate_job, new_row, redelivered, insert_transaction,
  insert_received,
}
use oppa.Storage.Transition.{advance}
use oppa.Storage.Operations.{Operation, perform, perform_all}
use oppa.Storage.Lifecycle.Carrying.{IsHeld, evicted, held, perform-Carries}
use oppa.Storage.Recovery.{requeue}
use oppa.Storage.Consistency.Inserting.{insert_transaction-outcome}

module _ {Value : Type 0} ⦃codec : JsonCodec Value⦄ where
  -- A row that came of this job: its key, printer and fingerprint, and its payload or the mark of a
  -- pruned one.
  pub record StoredFrom (job : ReceivedPrintJob Value) (row : JobRow) : Type 0 where
    pub same_key : row.idempotency_key ≡ job.idempotency_key
    pub same_printer : row.printer_id ≡ job.printer_id
    pub encoded : Text
    pub encodes : codec.to_string job.payload ≡ some encoded
    pub same_digest : row.payload_sha256 ≡ codec.digest encoded
    pub same_payload : (row.payload_json ≡ encoded) ⊎ (row.payload_json ≡ text "null")

  -- The checks that a delivery passes before the tables are read.
  pub record IsDeliverable (job : ReceivedPrintJob Value) : Type 0 where
    pub key_ok : validate_key job.idempotency_key 256 ≡ ok tt
    pub source_ok : validate_key job.source_message_id 128 ≡ ok tt
    pub payload : Text
    pub payload_ok : codec.to_string job.payload ≡ some payload
    pub payload_fits : leb (byte_len payload) max_job_payload_bytes ≡ true

  payload_matches-StoredFrom :
      (job : ReceivedPrintJob Value) (row : JobRow) (s : StoredFrom job row)
      → payload_matches row (codec.digest s.encoded) job.payload ≡ ok true
  unfolding payload_matches
  payload_matches-StoredFrom job row s =
      elim (Bool-cases (text_eq row.payload_json (text "null"))) [
        | inl pruned ↦ rw (pruned, s.same_digest) (rw text_eq_refl)
        | inr whole ↦ ground (
          arith,
          text_eq_refl (text "null"),
          codec.from_str-to_string job.payload s.encoded s.encodes,
          (codec.value_eq_iff job.payload job.payload).1 refl,
        )
      ]

  pub insert-deliverable :
      (limits : StorageLimits) (job : ReceivedPrintJob Value) (db : Database)
      (d : IsDeliverable job)
      → insert_received limits job db
        ≡ insert_transaction limits job d.payload (codec.digest d.payload) db
  unfolding insert_received bounded_json payload_fingerprint
  insert-deliverable limits job db d = rw (d.key_ok, d.source_ok, d.payload_ok, d.payload_fits)

  -- A row that came of the job answers the job's delivery, and nothing is written.
  pub insert-StoredFrom :
      (limits : StorageLimits) (job : ReceivedPrintJob Value) (db : Database) (row : JobRow)
      → IsDeliverable job
      → find (has_id job.id) db.jobs ≡ some row
      → StoredFrom job row
      → insert_received limits job db ≡ ok (duplicate_job row.state, db)
  unfolding insert_transaction redelivered
  insert-StoredFrom limits job db row d found s =
      let same : s.encoded ≡ d.payload = cc (s.encodes, d.payload_ok) in
      let matches : payload_matches row (codec.digest d.payload) job.payload ≡ ok true =
        rw (← same) (payload_matches-StoredFrom job row s) in
      rw (insert-deliverable limits job db d) (
        ground (
          arith,
          found,
          matches,
          s.same_key,
          s.same_printer,
          text_eq_refl job.idempotency_key,
          text_eq_refl job.printer_id,
        ))

  -- What an accepted new delivery leaves: the checks passed, and the row that came of it.
  pub inserted-StoredFrom :
      (limits : StorageLimits) (job : ReceivedPrintJob Value) (db db' : Database)
      → insert_received limits job db ≡ ok (inserted, db')
      → IsDeliverable job × IsHeld (StoredFrom job) job.id db'
  unfolding insert_received bounded_json payload_fingerprint new_row
  inserted-StoredFrom limits job db db' h =
      let (_, key_ok, h1) = >>=-eq-ok (validate_key job.idempotency_key 256) _ h in
      let (_, source_ok, h2) = >>=-eq-ok (validate_key job.source_message_id 128) _ h1 in
      let (payload, bounded, h3) =
        >>=-eq-ok (bounded_json job.payload max_job_payload_bytes) _ h2 in
      let (encoded, encodes, b1) = >>=-eq-ok (ok_or (codec.to_string job.payload) json) _ bounded in
      let (_, fits, b2) =
        >>=-eq-ok (ensure (leb (byte_len encoded) max_job_payload_bytes) invalid_input) _ b1 in
      let e : payload ≡ encoded = ground arith in
      let (sha256, digested, h4) = >>=-eq-ok (payload_fingerprint job.payload) _ h3 in
      let encoding : codec.to_string job.payload ≡ some encoded = ground arith in
      let d : sha256 ≡ codec.digest encoded = ground (arith, digested, encoding) in
      elim (insert_transaction-outcome limits job payload sha256 db inserted db' h4) [
        | inl same ↦ absurd (same.0 refl)
        | inr (_, new, _, _, after) ↦ (
          record {
            key_ok = ground arith;
            source_ok = ground arith;
            payload = encoded;
            payload_ok = encoding;
            payload_fits = ground (arith, fits);
          },
          rw after (record {
            row = new_row job payload sha256;
            found =
                find-append_none (has_id job.id) db.jobs (new_row job payload sha256 ∷ [])
                  (count-zero-find (has_id job.id) db.jobs new)
                ∙ ground (arith, text_eq_refl job.id);
            holds = record {
              same_key = refl;
              same_printer = refl;
              encoded = encoded;
              encodes = encoding;
              same_digest = d;
              same_payload = inl e;
            };
          }),
        )
      ]

  -- The row is there after every operation of the run.
  abbrev pub Stays : StorageLimits → (ℕ → Bool) → Text → List (Operation Value) → Database → Type 0
  Stays limits representable id [] db = Unit
  Stays limits representable id (op ∷ ops) db =
      (is_some (find (has_id id) (perform limits representable op db).jobs) ≡ true)
      × Stays limits representable id ops (perform limits representable op db)

  StoredFrom-prune :
      (job : ReceivedPrintJob Value) (row : JobRow)
      → StoredFrom job row
      → StoredFrom job (prune row)
  StoredFrom-prune job row s = record {
    same_key = s.same_key;
    same_printer = s.same_printer;
    encoded = s.encoded;
    encodes = s.encodes;
    same_digest = s.same_digest;
    same_payload = inr refl;
  }

  StoredFrom-same :
      (job : ReceivedPrintJob Value) (row row' : JobRow)
      → row'.idempotency_key ≡ row.idempotency_key
      → row'.printer_id ≡ row.printer_id
      → row'.payload_sha256 ≡ row.payload_sha256
      → row'.payload_json ≡ row.payload_json
      → StoredFrom job row
      → StoredFrom job row'
  StoredFrom-same job row row' k p d j s = record {
    same_key = k ∙ s.same_key;
    same_printer = p ∙ s.same_printer;
    encoded = s.encoded;
    encodes = s.encodes;
    same_digest = d ∙ s.same_digest;
    same_payload = rw j s.same_payload;
  }

  module _ (limits : StorageLimits) (representable : ℕ → Bool) (job : ReceivedPrintJob Value) where
    step-IsHeld :
        (op : Operation Value) (db : Database)
        → IsHeld (StoredFrom job) job.id db
        → is_some (find (has_id job.id) (perform limits representable op db).jobs) ≡ true
        → IsHeld (StoredFrom job) job.id (perform limits representable op db)
    unfolding advance
    step-IsHeld op db here there =
        elim (perform-Carries (StoredFrom job) (StoredFrom-prune job)
          (λ now requested receipt error row s.
            StoredFrom-same job row (advance now requested receipt error row) refl refl refl refl s)
          (λ now row s. StoredFrom-same job row (requeue now row) refl refl refl refl s) job.id db
          limits representable here op) [
            | evicted gone ↦ absurd (ground (arith, gone, there))
            | held still ↦ still
          ]

    run-IsHeld :
        (ops : List (Operation Value)) (db : Database)
        → Stays limits representable job.id ops db
        → IsHeld (StoredFrom job) job.id db
        → IsHeld (StoredFrom job) job.id (perform_all limits representable ops db)
    unfolding perform_all
    run-IsHeld [] db stays here = here
    run-IsHeld (op ∷ ops) db stays here =
        run-IsHeld ops (perform limits representable op db) stays.1 (step-IsHeld op db here stays.0)

    -- After a job was accepted as new, and as long as its row is retained, the same delivery is
    -- answered as a duplicate with the row's present state and writes nothing, whatever the
    -- repository did in between, also where the payload has been pruned.
    pub redelivery :
        (db db' : Database) (ops : List (Operation Value))
        → insert_received limits job db ≡ ok (inserted, db')
        → Stays limits representable job.id ops db'
        → let later = perform_all limits representable ops db' in
          (row : JobRow) × (find (has_id job.id) later.jobs ≡ some row)
          × (insert_received limits job later ≡ ok (duplicate_job row.state, later))
    redelivery db db' ops h stays =
        let (deliverable, first) = inserted-StoredFrom limits job db db' h in
        let still = run-IsHeld ops db' stays first in
        (
          still.row,
          still.found,
          insert-StoredFrom limits job (perform_all limits representable ops db') still.row
              deliverable still.found still.holds,
        )
