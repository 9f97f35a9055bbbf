-- ===== src/Diagnostics.antt =====
-- crates/app/src/consumer/stats/diagnostics.rs: the bounded outbox of diagnostic events, and the
-- redaction of their texts.
pub mod Text
pub mod Outbox
pub mod Recovery
mod Examples
