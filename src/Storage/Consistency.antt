-- ===== src/Storage/Consistency.antt =====
-- Every operation of the repository keeps its tables consistent.
pub mod Retaining
pub mod Inserting
pub mod Suiting
pub mod Advancing
pub mod Moving
pub mod Recovering
pub mod Running
