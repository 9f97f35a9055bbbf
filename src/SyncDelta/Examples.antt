-- ===== src/SyncDelta/Examples.antt =====
-- Runs and instances of the theorems about crates/sync-delta, with a hash that keeps the bytes.
use terrasync_rs.Base.{
  ℕ, ◌*◌, ◌%◌, ◌≤◌, ◌≡◌, refl, sym, ap, ◌∙◌, List, [], ◌∷◌, map, take, drop, concat, chunks,
  take_all, length-take, arith,
}
use terrasync_rs.SyncDelta.Rolling.{new, init, update, digest, checksum, sums, modulus}
use terrasync_rs.SyncDelta.Rolling.Sums.{plain, weighted, sums_lem}
use terrasync_rs.SyncDelta.Rolling.Window.{update-checksum}
use terrasync_rs.SyncDelta.Tokens.{match_block, data_bytes, blake3_truncated}
use terrasync_rs.SyncDelta.Signature.{sign, finish, compute_block_signatures}
use terrasync_rs.SyncDelta.Signature
use terrasync_rs.SyncDelta.Signature.Stream.{push_all, push_all-finish}
use terrasync_rs.SyncDelta.Matcher.{delta_match}
use terrasync_rs.SyncDelta.Matcher
use terrasync_rs.SyncDelta.Matcher.Stream.{stream}
use terrasync_rs.SyncDelta.Matcher.Pieces.{stream-delta_match}
use terrasync_rs.SyncDelta.Reconstruct.{reconstruct}
use terrasync_rs.SyncDelta.Reconstruct.Blocks.{tokens_bytes, reconstruct_lem, chunks-block}
use terrasync_rs.SyncDelta.Roundtrip.{NoCollision, Fits, stream-reconstruct}

abbrev keep : List ℕ → List ℕ
keep bytes = bytes

abbrev basis : List ℕ
basis = 1 ∷ 2 ∷ 3 ∷ 4 ∷ 5 ∷ []

-- The second block, a new byte, and the first block, cut in the middle of a window.
abbrev pieces : List (List ℕ)
pieces = (3 ∷ 4 ∷ 9 ∷ 1 ∷ []) ∷ (2 ∷ []) ∷ []

tokens_run :
    stream keep pieces (compute_block_signatures keep basis 2) 2
    ≡ match_block 1 ∷ data_bytes (9 ∷ []) ∷ match_block 0 ∷ []
unfolding stream compute_block_signatures Matcher.push Matcher.new Matcher.finish
tokens_run = refl

reconstruct_run :
    reconstruct basis (match_block 2 ∷ data_bytes (7 ∷ []) ∷ match_block 9 ∷ []) 2 ≡ 5 ∷ 7 ∷ []
unfolding reconstruct
reconstruct_run = refl

basis-Fits : Fits keep 2 basis
unfolding compute_block_signatures
basis-Fits = record { word = omega arith; few = omega arith; short = omega arith }

short_block : (n : ℕ) (xs : List ℕ) → n ≤ 16 → take 16 (take n xs) ≡ take n xs
short_block n xs h = take_all 16 (take n xs) (omega (arith, length-take n xs))

basis-NoCollision : (src : List ℕ) → NoCollision keep 2 basis src
unfolding blake3_truncated
basis-NoCollision src k i b e t =
    let at : b ≡ take 2 (drop (i * 2) basis) = (chunks-block 2 basis i b (omega arith) e).0 in
    at
    ∙ sym (short_block 2 (drop (i * 2) basis) (omega arith))
    ∙ ap (take 16) (sym at)
    ∙ t
    ∙ short_block 2 (drop k src) (omega arith)

stream-reconstruct_example :
    reconstruct basis (stream keep pieces (compute_block_signatures keep basis 2) 2) 2
    ≡ 3 ∷ 4 ∷ 9 ∷ 1 ∷ 2 ∷ []
stream-reconstruct_example =
    stream-reconstruct keep 2 basis pieces basis-Fits (omega arith)
      (basis-NoCollision (concat pieces))

stream-delta_match_example :
    stream keep pieces (compute_block_signatures keep basis 2) 2
    ≡ delta_match keep (concat pieces) (compute_block_signatures keep basis 2) 2
stream-delta_match_example =
    stream-delta_match keep pieces (compute_block_signatures keep basis 2) 2 (omega arith)

push_all-finish_example :
    (finish keep (push_all keep (Signature.new 2) pieces)).0
    ≡ map (sign keep) (chunks 2 (concat pieces))
push_all-finish_example = push_all-finish keep 2 pieces (omega arith)

sums_lem_example :
    sums (250 ∷ 255 ∷ [])
    ≡ record { a = plain (250 ∷ 255 ∷ []) % modulus; b = weighted (250 ∷ 255 ∷ []) % modulus }
sums_lem_example = sums_lem (250 ∷ 255 ∷ []) (omega arith)

update-checksum_example :
    digest (update (init new (97 ∷ 98 ∷ 99 ∷ [])) 97 100 3) ≡ checksum (98 ∷ 99 ∷ 100 ∷ [])
update-checksum_example =
    update-checksum new 97 100 (98 ∷ 99 ∷ []) (omega arith) (omega arith) (omega arith)

reconstruct_lem_example :
    reconstruct basis (match_block 2 ∷ data_bytes (7 ∷ []) ∷ []) 2
    ≡ tokens_bytes 2 basis (match_block 2 ∷ data_bytes (7 ∷ []) ∷ [])
reconstruct_lem_example =
    reconstruct_lem 2 basis (match_block 2 ∷ data_bytes (7 ∷ []) ∷ []) (omega arith) (omega arith)
