-- ===== src/Storage.antt =====
-- crates/oppa-storage: the durable job repository and its theorems.
pub mod Schema
pub mod Payload
pub mod Retention
pub mod Insert
pub mod Transition
pub mod Outbox
pub mod Recovery
pub mod Invariant
pub mod Consistency
pub mod Operations
pub mod Delivery
pub mod Receipt
pub mod Reports
pub mod Batches
pub mod Loading
pub mod Lifecycle
