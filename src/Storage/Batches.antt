-- ===== src/Storage/Batches.antt =====
-- The reports that are sent next: a batch of the oldest.
use oppa.Common.{
  ℕ, zero, suc, ◌≡◌, ◌⊎◌, refl, sym, ◌∙◌, Bool, true, false, not, ◌&&◌, ◌||◌, some, List, [], ◌∷◌,
  ok, ok-inj, ok_or, ensure, arith, >>=-eq-ok, ltb, ◌==◌, ◌^◌, length, take, drop, All, inl, inr,
}
use oppa.Common.Text.{text_le, text_le_total, text_le_trans}
use oppa.Common.Everywhere.{In, In-take_or_drop, In-drop, All-In}
use oppa.Common.Sorting.{order_by, IsOrdered, order_by-IsOrdered, In-order_by}
use oppa.Storage.Schema.{OutboxRow, Database, json, invalid_input}
use oppa.Storage.Payload.{JsonCodec}
use oppa.Storage.Insert.{stored_id}
use oppa.Storage.Loading.{timestamp_from_millis}
use oppa.Storage.Receipt.Answers.{identifier-same}
use oppa.Storage.Outbox.{
  created_first, outbound_rows, StoredOutboundStatus, load_status, load_statuses,
  pending_outbound_statuses,
}

created_first_total : (a b : OutboxRow) → created_first a b ≡ false → created_first b a ≡ true
created_first_total a b h = ground (arith, text_le_total a.message_id b.message_id)

created_first_trans :
    (a b c : OutboxRow)
    → created_first a b ≡ true
    → created_first b c ≡ true
    → created_first a c ≡ true
created_first_trans a b c h k = ground (arith, text_le_trans a.message_id b.message_id c.message_id)

-- A row after the first n of an ordered list: there are n before it, and each is ordered before it.
take_before_drop :
    (n : ℕ) (rows : List OutboxRow) (b : OutboxRow)
    → IsOrdered created_first rows
    → In b (drop n rows)
    → All (λ a. created_first a b ≡ true) (take n rows) × (length (take n rows) ≡ n)
take_before_drop zero rows b o i = (tt, refl)
take_before_drop (suc n) [] b o i = absurd i
take_before_drop (suc n) (x ∷ xs) b o i =
    let (all, full) = take_before_drop n xs b o.1 i in
    ((All-In (λ r. created_first x r ≡ true) b xs o.0 (In-drop n b xs i), all), omega (arith, full))

outbound_rows_oldest :
    (limit : ℕ) (db : Database) (batch : List OutboxRow) (report : OutboxRow)
    → outbound_rows limit db ≡ ok batch
    → In report db.outbox
    → In report batch
      ⊎ ((length batch ≡ limit) × All (λ sent. created_first sent report ≡ true) batch)
unfolding outbound_rows
outbound_rows_oldest limit db batch report h stored =
    let (_, _, h1) = >>=-eq-ok (ensure (not (limit == 0)) invalid_input) _ h in
    let (_, _, h2) = >>=-eq-ok (ensure (ltb limit (2 ^ 63)) invalid_input) _ h1 in
    let rows = order_by created_first db.outbox in
    let e : batch ≡ take limit rows = ground (arith, h2) in
    let ordered =
      order_by-IsOrdered created_first created_first_total created_first_trans db.outbox in
    elim (In-take_or_drop limit report rows (In-order_by created_first report db.outbox stored)) [
      | inl early ↦ inl (rw e early)
      | inr late ↦
          let (all, full) = take_before_drop limit rows report ordered late in
          rw e (inr (full, all))
    ]

module _ {Value : Type 0} ⦃codec : JsonCodec Value⦄ where
  -- The report that a row holds.
  pub record IsStatusOf (row : OutboxRow) (status : StoredOutboundStatus Value) : Type 0 where
    pub same_message : status.message_id ≡ row.message_id
    pub same_job : status.job_id ≡ row.job_id
    pub decodes : codec.from_str row.payload_json ≡ some status.payload
    pub same_time : status.created_at ≡ row.created_at_ms

  -- Created earlier, or at the same time with a message identifier that is not greater.
  abbrev pub is_earlier : OutboxRow → StoredOutboundStatus Value → Bool
  is_earlier row status =
      ltb status.created_at row.created_at_ms
      || status.created_at == row.created_at_ms && text_le status.message_id row.message_id

  module _ (representable : ℕ → Bool) where
    load_status-IsStatusOf :
        (row : OutboxRow) (status : StoredOutboundStatus Value)
        → load_status representable row ≡ ok status
        → IsStatusOf row status
    unfolding load_status timestamp_from_millis stored_id
    load_status-IsStatusOf row status h =
        let (id, valid, h1) = >>=-eq-ok (stored_id row.job_id) _ h in
        let (payload, read, h2) = >>=-eq-ok (ok_or (codec.from_str row.payload_json) json) _ h1 in
        let (ms, timed, h3) =
          >>=-eq-ok (timestamp_from_millis representable row.created_at_ms) _ h2 in
        let same_id : row.job_id ≡ id = identifier-same row.job_id id (ground (arith, valid)) in
        let same_ms : ms ≡ row.created_at_ms = ground (arith, timed) in
        let decoded : codec.from_str row.payload_json ≡ some payload = ground (arith, read) in
        rw (← ok-inj h3) (record {
          same_message = refl;
          same_job = sym same_id;
          decodes = decoded;
          same_time = same_ms;
        })

    load_statuses-step :
        (row : OutboxRow) (rows : List OutboxRow) (batch : List (StoredOutboundStatus Value))
        → load_statuses representable (row ∷ rows) ≡ ok batch
        → (status : StoredOutboundStatus Value) × (rest : List (StoredOutboundStatus Value))
          × IsStatusOf row status
          × (load_statuses representable rows ≡ ok rest)
          × (batch ≡ status ∷ rest)
    unfolding load_statuses
    load_statuses-step row rows batch h =
        let (status, loaded, h1) = >>=-eq-ok (load_status representable row) _ h in
        let (rest, others, h2) = >>=-eq-ok (load_statuses representable rows) _ h1 in
        (status, rest, load_status-IsStatusOf row status loaded, others, sym (ok-inj h2))

    length-load_statuses :
        (rows : List OutboxRow) (batch : List (StoredOutboundStatus Value))
        → load_statuses representable rows ≡ ok batch
        → length batch ≡ length rows
    unfolding load_statuses
    length-load_statuses [] batch h = rw (← ok-inj h) refl
    length-load_statuses (row ∷ rows) batch h =
        let (status, rest, of, others, e) = load_statuses-step row rows batch h in
        rw e (omega (arith, length-load_statuses rows rest others))

    In-load_statuses :
        (report : OutboxRow) (rows : List OutboxRow) (batch : List (StoredOutboundStatus Value))
        → load_statuses representable rows ≡ ok batch
        → In report rows
        → (status : StoredOutboundStatus Value) × In status batch × IsStatusOf report status
    In-load_statuses report [] batch h i = absurd i
    In-load_statuses report (row ∷ rows) batch h (inl same) =
        let (status, rest, of, others, e) = load_statuses-step row rows batch h in
        (status, rw e (inl refl), rw same of)
    In-load_statuses report (row ∷ rows) batch h (inr later) =
        let (status, rest, of, others, e) = load_statuses-step row rows batch h in
        let (found, there, of') = In-load_statuses report rows rest others later in
        (found, rw e (inr there), of')

    earlier-load_statuses :
        (report : OutboxRow) (rows : List OutboxRow) (batch : List (StoredOutboundStatus Value))
        → load_statuses representable rows ≡ ok batch
        → All (λ sent. created_first sent report ≡ true) rows
        → All (λ sent. is_earlier report sent ≡ true) batch
    unfolding load_statuses
    earlier-load_statuses report [] batch h a = rw (← ok-inj h) tt
    earlier-load_statuses report (row ∷ rows) batch h (first, rest_before) =
        let (status, rest, of, others, e) = load_statuses-step row rows batch h in
        rw e (
          rw (of.same_time, of.same_message) first,
          earlier-load_statuses report rows rest others rest_before,
        )

    -- After a successful read, a stored report is in the batch with its message, job, payload and
    -- time, or the batch is full of reports that were created earlier, or at the same time with a
    -- message identifier that is not greater.
    pub pending_outbound_statuses_oldest :
        (limit : ℕ) (db : Database) (batch : List (StoredOutboundStatus Value)) (report : OutboxRow)
        → pending_outbound_statuses representable limit db ≡ ok batch
        → In report db.outbox
        → ((status : StoredOutboundStatus Value) × In status batch × IsStatusOf report status)
          ⊎ ((length batch ≡ limit) × All (λ sent. is_earlier report sent ≡ true) batch)
    unfolding pending_outbound_statuses
    pending_outbound_statuses_oldest limit db batch report h stored =
        let (rows, read, loaded) = >>=-eq-ok (outbound_rows limit db) _ h in
        elim (outbound_rows_oldest limit db rows report read stored) [
          | inl early ↦ inl (In-load_statuses report rows batch loaded early)
          | inr (full, all) ↦ inr (
            length-load_statuses rows batch loaded ∙ full,
            earlier-load_statuses report rows batch loaded all,
          )
        ]
