-- ===== src/Protocol.antt =====
-- crates/oppa-protocol: version negotiation.
pub mod Negotiation
