-- ===== src/ByteResume.antt =====
-- crates/app/src/byte_resume.rs: which bytes of a large file are confirmed at the destination.
pub mod Intervals
pub mod Store
mod Examples
