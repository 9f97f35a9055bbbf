-- ===== src/SyncDelta.antt =====
-- crates/sync-delta/src: the rsync-style delta algorithm, a pure crate. One child for each file.
pub mod Rolling
pub mod Tokens
pub mod Signature
pub mod Matcher
pub mod Reconstruct
pub mod Roundtrip
mod Examples
