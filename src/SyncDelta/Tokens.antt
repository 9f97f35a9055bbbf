-- ===== src/SyncDelta/Tokens.antt =====
-- crates/sync-delta/src/lib.rs: the shared types, the truncated strong hash and the block size.
-- BLAKE3 is not part of the repository: it is the parameter `blake3`.
use terrasync_rs.Base.{ℕ, ◌*◌, List, take, ltb, if◌then◌else◌}

abbrev pub strong_hash_len : ℕ
strong_hash_len = 16

unfoldable pub blake3_truncated : (List ℕ → List ℕ) → List ℕ → List ℕ
blake3_truncated blake3 bytes = take strong_hash_len (blake3 bytes)

-- `data_bytes` is `Data(Bytes)`; `data` is a reserved word.
pub data DeltaToken : Type 0 where
  match_block : ℕ → DeltaToken
  data_bytes : List ℕ → DeltaToken

pub record BlockSignature : Type 0 where
  pub rolling : ℕ
  pub strong : List ℕ

-- `(file_size as f64).sqrt() as u32` is the parameter `sqrt_u32`; the clamp is to [700, 128 KiB].
pub calculate_block_size : (ℕ → ℕ) → ℕ → ℕ
calculate_block_size sqrt_u32 file_size =
    let raw = sqrt_u32 file_size in
    if ltb raw 700 then 700 else if ltb (128 * 1024) raw then 128 * 1024 else raw
