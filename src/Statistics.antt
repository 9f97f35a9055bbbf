-- ===== src/Statistics.antt =====
-- crates/app/src/consumer/stats/accumulator.rs and crates/app/src/scan/statistics.rs: the counters of
-- a job. A counter of 64 bits wraps around, as in a release build; a signed one is its bit pattern.
pub mod Ranges
pub mod Counters
pub mod Full
pub mod Incremental
mod Examples
use terrasync_rs.Base.{ℕ, ◌+◌, ◌%◌, ◌^◌, Bool, Option, List, u64}

-- The trait `EntryStatistics`, which the observed entries and their versions implement. The name and
-- the path are there by what is asked of them: the bytes of the name, the components of the path.
pub record EntryStatistics : Type 0 where
  pub size : ℕ
  pub name_len : ℕ
  pub components : ℕ
  pub extension : Option (List ℕ)
  pub is_dir : Bool
  pub is_symlink : Bool
  pub is_regular_file : Bool
  pub mtime : ℕ

-- `a += b` on 64 bits.
abbrev pub wrapping_add : ℕ → ℕ → ℕ
wrapping_add a b = (a + b) % 2 ^ 64
