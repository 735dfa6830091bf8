-- ===== src/Storage/Outbox.antt =====
-- crates/oppa-storage/src/lib.rs: reading and acknowledging the durable reports, and the lookup of
-- finished idempotency keys.
use oppa.Common.{
  ℕ, ◌^◌, Bool, not, ◌&&◌, ◌||◌, List, [], ◌∷◌, Result, ok, ensure, ok_or, ◌>>=◌, ◌>>◌, ltb, ◌==◌,
  take, filter, any,
}
use oppa.Common.Text.{Text, text_le}
use oppa.Common.Counting.{count}
use oppa.Common.Sorting.{order_by}
use oppa.Storage.Schema.{
  StorageError, json, invalid_input, OutboxRow, Database, has_key, has_message, row_is_terminal,
  validate_key,
}
use oppa.Storage.Payload.{JsonCodec}
use oppa.Storage.Insert.{stored_id}
use oppa.Storage.Loading.{timestamp_from_millis}

-- ORDER BY created_at_ms, message_id
abbrev pub created_first : OutboxRow → OutboxRow → Bool
created_first a b =
    ltb a.created_at_ms b.created_at_ms
    || a.created_at_ms == b.created_at_ms && text_le a.message_id b.message_id

-- The guards and the SELECT of `pending_outbound_statuses`.
unfoldable pub outbound_rows : ℕ → Database → Result StorageError (List OutboxRow)
outbound_rows limit db = do
  ensure (not (limit == 0)) invalid_input
  ensure (ltb limit (2 ^ 63)) invalid_input
  ok (take limit (order_by created_first db.outbox))

-- `StoredOutboundStatus`
pub record StoredOutboundStatus (Value : Type 0) : Type 0 where
  pub message_id : Text
  pub job_id : Text
  pub payload : Value
  pub created_at : ℕ

module _ {Value : Type 0} ⦃codec : JsonCodec Value⦄ (representable : ℕ → Bool) where
  -- One turn of the loop on the rows.
  unfoldable pub load_status : OutboxRow → Result StorageError (StoredOutboundStatus Value)
  unfolding timestamp_from_millis
  load_status row = do
    job_id ← stored_id row.job_id
    payload ← ok_or (codec.from_str row.payload_json) json
    created_at ← timestamp_from_millis representable row.created_at_ms
    ok (record {
      message_id = row.message_id;
      job_id = job_id;
      payload = payload;
      created_at = created_at;
    })

  unfoldable pub load_statuses :
      List OutboxRow → Result StorageError (List (StoredOutboundStatus Value))
  unfolding load_status
  load_statuses [] = ok []
  load_statuses (row ∷ rows) = do
    status ← load_status row
    statuses ← load_statuses rows
    ok (status ∷ statuses)

  unfoldable pub pending_outbound_statuses :
      ℕ → Database → Result StorageError (List (StoredOutboundStatus Value))
  unfolding outbound_rows load_statuses
  pending_outbound_statuses limit db = do rows ← outbound_rows limit db; load_statuses rows

-- DELETE FROM outbound_status_outbox; whether exactly one row went.
unfoldable pub acknowledge_outbound_status : Text → Database → Result StorageError (Bool × Database)
acknowledge_outbound_status message_id db = do
  validate_key message_id 128
  ok (
    count (has_message message_id) db.outbox == 1,
    record db { outbox = filter (λ row. not (has_message message_id row)) db.outbox },
  )

unfoldable pub has_completed_idempotency_key : Text → Database → Result StorageError Bool
has_completed_idempotency_key key db = do
  validate_key key 256
  ok (any (λ row. has_key key row && row_is_terminal row) db.jobs)
