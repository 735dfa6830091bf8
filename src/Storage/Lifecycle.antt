-- ===== src/Storage/Lifecycle.antt =====
-- What happens to one job: how its row is found after each operation.
pub mod Rows
pub mod Finishing
pub mod Reporting
pub mod Final
pub mod Carrying
pub mod Claiming
