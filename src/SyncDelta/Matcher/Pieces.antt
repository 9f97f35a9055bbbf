-- ===== src/SyncDelta/Matcher/Pieces.antt =====
-- crates/sync-delta/src/matcher.rs: a source file in pieces against the whole file.
use terrasync_rs.Base.{
  ℕ, zero, suc, ◌<◌, ◌≡◌, sym, ap, subst, ◌∙◌, List, [], ◌∷◌, ◌++◌, map, append_assoc, append-nil,
  All, chunks, concat, arith,
}
use terrasync_rs.SyncDelta.Rolling.Sums.{IsByte}
use terrasync_rs.SyncDelta.Tokens.{BlockSignature, data_bytes}
use terrasync_rs.SyncDelta.Matcher.{
  DeltaMatcher, literal_limit, new, push, finish, finish_literal, delta_match,
}
use terrasync_rs.SyncDelta.Matcher.Stream.{push_all, stream, scan_file, stream-scan_file}

-- A matcher for blocks of no bytes, which only collects literals.
abbrev collecting : List BlockSignature → List ℕ → DeltaMatcher
collecting signatures literal = record m { literal_buf = literal }
  where
    m : DeltaMatcher
    m = new signatures 0

module _ (blake3 : List ℕ → List ℕ) where
  push_all_zero :
      (signatures : List BlockSignature) (literal : List ℕ) (pieces : List (List ℕ))
      → push_all blake3 (collecting signatures literal) pieces
        ≡ ([], collecting signatures (literal ++ concat pieces))
  unfolding push_all push new
  push_all_zero signatures literal [] =
      ap (λ l. ([], collecting signatures l)) (sym (append-nil literal))
  push_all_zero signatures literal (piece ∷ rest) =
      push_all_zero signatures (literal ++ piece) rest
      ∙ ap (λ l. ([], collecting signatures l)) (append_assoc literal piece (concat rest))

  -- With blocks of no bytes the file is sent as literals of 1 MiB.
  stream_zero :
      (pieces : List (List ℕ)) (signatures : List BlockSignature)
      → stream blake3 pieces signatures 0 ≡ map data_bytes (chunks literal_limit (concat pieces))
  unfolding stream finish finish_literal new
  stream_zero pieces signatures =
      ap (λ r. r.0 ++ (finish blake3 r.1).0) (push_all_zero signatures [] pieces)

  delta_match-stream :
      (src : List ℕ) (signatures : List BlockSignature) (bs : ℕ)
      → delta_match blake3 src signatures bs ≡ stream blake3 (src ∷ []) signatures bs
  unfolding delta_match stream push_all
  delta_match-stream src signatures bs =
      ap (λ l. l ++ (finish blake3 (push blake3 (new signatures bs) src).1).0)
        (sym (append-nil (push blake3 (new signatures bs) src).0))

  pub delta_match-scan_file :
      (src : List ℕ) (signatures : List BlockSignature) (bs : ℕ)
      → 0 < bs
      → All IsByte src
      → delta_match blake3 src signatures bs ≡ scan_file blake3 src signatures bs
  delta_match-scan_file src signatures bs pos b =
      delta_match-stream src signatures bs
      ∙ stream-scan_file blake3 (src ∷ []) signatures bs pos
          (subst (All IsByte) (sym (append-nil src)) b)
      ∙ ap (λ l. scan_file blake3 l signatures bs) (append-nil src)

  pub delta_match_zero :
      (src : List ℕ) (signatures : List BlockSignature)
      → delta_match blake3 src signatures 0 ≡ map data_bytes (chunks literal_limit src)
  delta_match_zero src signatures =
      delta_match-stream src signatures 0
      ∙ stream_zero (src ∷ []) signatures
      ∙ ap (λ l. map data_bytes (chunks literal_limit l)) (append-nil src)

  -- For every table of signatures and every block size, zero included, the tokens of a file of
  -- bytes do not depend on the pieces in which it arrives: pushing the pieces and finishing gives
  -- the tokens of the whole file in one call.
  pub stream-delta_match :
      (pieces : List (List ℕ)) (signatures : List BlockSignature) (bs : ℕ)
      → All IsByte (concat pieces)
      → stream blake3 pieces signatures bs ≡ delta_match blake3 (concat pieces) signatures bs
  stream-delta_match pieces signatures zero b =
      stream_zero pieces signatures
      ∙ sym (
          delta_match-stream (concat pieces) signatures 0
          ∙ stream_zero (concat pieces ∷ []) signatures
          ∙ ap (λ l. map data_bytes (chunks literal_limit l)) (append-nil (concat pieces)))
  stream-delta_match pieces signatures (suc bs) b =
      stream-scan_file blake3 pieces signatures (suc bs) (omega arith) b
      ∙ sym (delta_match-scan_file (concat pieces) signatures (suc bs) (omega arith) b)
