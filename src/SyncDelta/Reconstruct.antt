-- ===== src/SyncDelta/Reconstruct.antt =====
-- crates/sync-delta/src/reconstruct.rs: the receiver's side, from a basis file and tokens to the
-- new file. `Reconstruct/Blocks` says which bytes a token stands for.
pub mod Blocks
use terrasync_rs.Base.{
  ℕ, ◌+◌, ◌-◌, ◌*◌, min, List, [], ◌∷◌, ◌++◌, length, slice, leb, if◌then◌else◌, u32, u64,
}
use terrasync_rs.SyncDelta.Tokens.{DeltaToken, match_block, data_bytes}

pub data ReconstructStep : Type 0 where
  ready : List ℕ → ReconstructStep
  need_basis : (offset len : ℕ) → ReconstructStep

pub record Reconstructor : Type 0 where
  pub block_size : ℕ
  pub basis_size : ℕ

unfoldable pub push : Reconstructor → DeltaToken → ReconstructStep
push r (data_bytes bytes) = ready bytes
push r (match_block block_index) =
    let offset = u64 (block_index * r.block_size) in
    if leb r.basis_size offset
    then ready []
    else let end = min (u64 (offset + r.block_size)) r.basis_size in
      need_basis offset (u32 (end - offset))

-- The bytes that the caller appends for one step.
unfoldable pub resolve : List ℕ → ReconstructStep → List ℕ
resolve basis_data (ready bytes) = bytes
resolve basis_data (need_basis offset len) = slice offset (offset + len) basis_data

-- The loop over the tokens.
unfoldable pub reconstruct_loop : Reconstructor → List ℕ → List DeltaToken → List ℕ → List ℕ
unfolding push resolve
reconstruct_loop r basis_data [] result = result
reconstruct_loop r basis_data (token ∷ rest) result =
    reconstruct_loop r basis_data rest (result ++ resolve basis_data (push r token))

unfoldable pub reconstruct : List ℕ → List DeltaToken → ℕ → List ℕ
unfolding reconstruct_loop
reconstruct basis_data tokens block_size =
    reconstruct_loop (record { block_size = block_size; basis_size = length basis_data }) basis_data
      tokens []
