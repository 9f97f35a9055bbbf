-- ===== src/Scan.antt =====
-- crates/app/src/scan: the counts of a scan and the prefix of it that a checkpoint confirms.
pub mod Counts
pub mod Progress
mod Examples
