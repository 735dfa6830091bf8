-- ===== src/Storage/Reports.antt =====
-- The durable outbox: acknowledging a report is idempotent and touches nothing else.
use oppa.Common.{
  ◌≡◌, refl, ap, Bool, false, not, List, [], ◌∷◌, ok, arith, >>=-eq-ok, ◌==◌, any, filter,
  if◌then◌else◌, Bool-cases, inl, inr,
}
use oppa.Common.Text.{Text, text_eq, text_eq→eq}
use oppa.Common.Counting.{count, count-filter_keep, count-filter_drop, any-true, any-false}
use oppa.Storage.Schema.{OutboxRow, Database, StorageLimits, has_message, validate_key}
use oppa.Storage.Outbox.{acknowledge_outbound_status}
use oppa.Storage.Invariant.{IsConsistent}

filter_twice :
    (p : OutboxRow → Bool) (rows : List OutboxRow) → filter p (filter p rows) ≡ filter p rows
filter_twice p [] = refl
filter_twice p (x ∷ xs) = ground (arith, filter_twice p xs)

others_counted :
    (id other : Text) (outbox : List OutboxRow)
    → count (has_message other) (filter (λ row. not (has_message id row)) outbox)
      ≡ (if text_eq other id then 0 else count (has_message other) outbox)
others_counted id other outbox = elim (Bool-cases (text_eq other id)) [
  | inl same ↦
      let e = text_eq→eq other id same in
      rw (same, e)
        (count-filter_drop (has_message id) (λ row. not (has_message id row)) outbox
          (λ row k. ground arith))
  | inr differs ↦ rw differs (
      count-filter_keep (has_message other) (λ row. not (has_message id row)) outbox
        (λ row e. elim (Bool-cases (has_message id row)) [
          | inr apart ↦ ground arith
          | inl same ↦ ground (
            arith,
            text_eq→eq row.message_id other e,
            text_eq→eq row.message_id id same,
            differs,
            same,
          )
        ]))
]

-- On consistent tables an acknowledgement answers whether the report was there, removes it, leaves
-- the jobs and every other report, and a second one answers false and changes nothing.
pub acknowledge_twice :
    (limits : StorageLimits) (id other : Text) (db : Database) (removed : Bool) (db' : Database)
    → IsConsistent limits db
    → acknowledge_outbound_status id db ≡ ok (removed, db')
    → (removed ≡ any (has_message id) db.outbox)
      × (count (has_message other) db'.outbox
          ≡ (if text_eq other id then 0 else count (has_message other) db.outbox))
      × (db'.jobs ≡ db.jobs)
      × (acknowledge_outbound_status id db' ≡ ok (false, db'))
unfolding acknowledge_outbound_status
acknowledge_twice limits id other db removed db' c h =
    let (_, valid, h1) = >>=-eq-ok (validate_key id 128) _ h in
    let kept : OutboxRow → Bool = λ row. not (has_message id row) in
    let er : removed ≡ (count (has_message id) db.outbox == 1) = ground (arith, h1) in
    let ed : db' ≡ record db { outbox = filter kept db.outbox } = ground (arith, h1) in
    let none_left : count (has_message id) (filter kept db.outbox) ≡ 0 =
      count-filter_drop (has_message id) kept db.outbox (λ row e. ground arith) in
    (
      elim (Bool-cases (any (has_message id) db.outbox)) [
        | inl there ↦
            ground
              (arith, er, any-true (has_message id) db.outbox there, c.tables.unique_message id)
        | inr absent ↦ ground (arith, er, any-false (has_message id) db.outbox absent)
      ],
      rw ed (others_counted id other db.outbox),
      ap (λ (d : Database). d.jobs) ed,
      rw ed (ground (arith, valid, none_left, filter_twice kept db.outbox)),
    )
