-- ===== src/SyncDelta/Signature.antt =====
-- crates/sync-delta/src/signature.rs: block signatures of a basis file, fed in pieces.
-- The proofs are in `Signature/Stream`.
pub mod Stream
use terrasync_rs.Base.{
  ℕ, zero, suc, ◌-◌, min, List, [], ◌∷◌, ◌++◌, length, take, drop, ◌==◌, if◌then◌else◌,
}
use terrasync_rs.SyncDelta.Rolling.{checksum}
use terrasync_rs.SyncDelta.Tokens.{BlockSignature, blake3_truncated}

pub record SignatureCalculator : Type 0 where
  pub block_size : ℕ
  pub buffer : List ℕ
  pub signatures : List BlockSignature

unfoldable pub new : ℕ → SignatureCalculator
new block_size = record { block_size = block_size; buffer = []; signatures = [] }

module _ (blake3 : List ℕ → List ℕ) where
  -- What `flush_block` pushes for one block.
  unfoldable pub sign : List ℕ → BlockSignature
  unfolding checksum blake3_truncated
  sign block = record { rolling = checksum block; strong = blake3_truncated blake3 block }

  unfoldable pub flush_block : SignatureCalculator → SignatureCalculator
  unfolding sign
  flush_block c = record c { buffer = []; signatures = c.signatures ++ sign c.buffer ∷ [] }

  -- One round of the loop in `push` on the rest of the bytes.
  unfoldable pub push_round : SignatureCalculator → List ℕ → SignatureCalculator
  push_round c bytes =
      let need = c.block_size - length c.buffer in
      let n = min need (length bytes) in
      let filled = record c { buffer = c.buffer ++ take n bytes } in
      if length filled.buffer == filled.block_size then flush_block filled else filled

  -- The bytes that the round leaves.
  unfoldable pub push_rest : SignatureCalculator → List ℕ → List ℕ
  push_rest c bytes = drop (min (c.block_size - length c.buffer) (length bytes)) bytes

  -- `while !bytes.is_empty()`. Fuel: a round takes a byte at least.
  unfoldable pub push_loop : ℕ → SignatureCalculator → List ℕ → SignatureCalculator
  push_loop zero c bytes = c
  push_loop (suc fuel) c [] = c
  push_loop (suc fuel) c (x ∷ xs) = push_loop fuel (push_round c (x ∷ xs)) (push_rest c (x ∷ xs))

  unfoldable pub push : SignatureCalculator → List ℕ → SignatureCalculator
  unfolding push_loop push_round push_rest flush_block
  push c bytes = if c.block_size == 0 then c else push_loop (length bytes) c bytes

  flush_rest : SignatureCalculator → List ℕ → SignatureCalculator
  flush_rest c [] = c
  flush_rest c (x ∷ xs) = flush_block c

  -- The signatures, and the calculator that is left.
  unfoldable pub finish : SignatureCalculator → List BlockSignature × SignatureCalculator
  unfolding flush_rest flush_block
  finish c = let d = flush_rest c c.buffer in (d.signatures, record d { signatures = [] })

  unfoldable pub compute_block_signatures : List ℕ → ℕ → List BlockSignature
  unfolding push finish new
  compute_block_signatures bytes block_size = (finish (push (new block_size) bytes)).0
