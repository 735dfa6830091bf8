-- ===== src/Agent.antt =====
-- crates/oppa-agent: the host-facing lifecycle and the job processor.
pub mod Resolver
pub mod Sanitize
pub mod Lifecycle
pub mod Failure
pub mod Services
pub mod Processor
