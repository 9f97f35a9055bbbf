-- ===== src/SyncDelta/Roundtrip.antt =====
-- The whole of crates/sync-delta: signatures of the basis file, tokens of the source file,
-- reconstruction. The strong hash is the parameter `blake3`.
use terrasync_rs.Base.{
  ℕ, zero, suc, ◌+◌, ◌*◌, ◌^◌, ◌≤◌, ◌<◌, ◌≡◌, refl, sym, ap, ◌∙◌, subst, inl, inr, List, [], ◌∷◌,
  ◌++◌, map, append_assoc, append-nil, Option, none, some, All, length, take, drop, get_elem?,
  get_or, leb, leb→le, leb-false, Bool-cases, chunks, concat, concat-chunks, take-append-drop,
  drop-drop, some_eq, arith,
}
use terrasync_rs.SyncDelta.Rolling.Sums.{IsByte}
use terrasync_rs.SyncDelta.Tokens.{
  BlockSignature, DeltaToken, match_block, data_bytes, blake3_truncated,
}
use terrasync_rs.SyncDelta.Signature.{sign, compute_block_signatures}
use terrasync_rs.SyncDelta.Signature.Stream.{compute_block_signatures_lem}
use terrasync_rs.SyncDelta.Matcher.{literal_limit, flush_literal, push_literal, delta_match}
use terrasync_rs.SyncDelta.Matcher.Table.{SigTable, build_sig_table, selected-Chosen}
use terrasync_rs.SyncDelta.Matcher.Scan.{
  Cursor, Scanned, scan_decide, choose, scan_round, scan_all, scan_all-step, scan_all-stop, shorter,
}
use terrasync_rs.SyncDelta.Matcher.Stream.{stream, scan_file, scan_finish, start}
use terrasync_rs.SyncDelta.Matcher.Pieces.{
  delta_match-scan_file, delta_match_zero, stream-delta_match,
}
use terrasync_rs.SyncDelta.Reconstruct.{reconstruct}
use terrasync_rs.SyncDelta.Reconstruct.Blocks.{
  block, tokens_bytes, tokens_bytes-append, AllInRange, reconstruct_lem, chunks-block,
}

module _ (blake3 : List ℕ → List ℕ) (bs : ℕ) (basis : List ℕ) where
  -- No window of `src` has the truncated hash of another block of the basis file.
  abbrev pub NoCollision : List ℕ → Type 0
  NoCollision src =
      (k i : ℕ) (b : List ℕ)
      → get_elem? (chunks bs basis) i ≡ some b
      → blake3_truncated blake3 b ≡ blake3_truncated blake3 (take bs (drop k src))
      → b ≡ take bs (drop k src)

  NoCollision-drop : (n : ℕ) (src : List ℕ) → NoCollision src → NoCollision (drop n src)
  NoCollision-drop n src h k i b e t =
      let at : drop k (drop n src) ≡ drop (n + k) src = drop-drop n k (n + k) src refl in
      h (n + k) i b e (t ∙ ap (λ l. blake3_truncated blake3 (take bs l)) at) ∙ ap (take bs) (sym at)

  signature_at :
      (blocks : List (List ℕ)) (i : ℕ) (sig : BlockSignature)
      → get_elem? (map (sign blake3) blocks) i ≡ some sig
      → (b : List ℕ) × (get_elem? blocks i ≡ some b) × (sign blake3 b ≡ sig)
  signature_at [] i sig e = absurd (ground arith)
  signature_at (b ∷ blocks) zero sig e = (b, refl, some_eq e)
  signature_at (b ∷ blocks) (suc i) sig e = signature_at blocks i sig e

  abbrev signatures : List BlockSignature
  signatures = map (sign blake3) (chunks bs basis)

  abbrev table : SigTable
  table = build_sig_table signatures

  abbrev bytes_of : List DeltaToken → List ℕ
  bytes_of = tokens_bytes bs basis

  module _ (pos : 0 < bs) (few : length signatures ≤ 2 ^ 32) where
    -- A chosen block has the bytes of the window, and lies in the basis file.
    choose-block :
        (c : Cursor) (i : ℕ)
        → NoCollision c.rest
        → choose blake3 table signatures bs c.position c.rest ≡ some i
        → (block bs basis i ≡ take bs c.rest) × (i * bs < length basis)
    unfolding sign
    choose-block c i h e =
        let (sig, found, same) =
          selected-Chosen signatures blake3 bs c.position _ (take bs c.rest) i few e in
        let (b, at, signed) = signature_at (chunks bs basis) i sig found in
        let (cut, inside) = chunks-block bs basis i b pos at in
        (sym cut ∙ h 0 i b at (ap (λ s. s.strong) signed ∙ same), inside)

    flush-bytes :
        (literal : List ℕ) (ts : List DeltaToken)
        → bytes_of (flush_literal literal ++ ts) ≡ literal ++ bytes_of ts
    unfolding flush_literal
    flush-bytes [] ts = refl
    flush-bytes (x ∷ xs) ts = refl

    -- A token for the literals, or none yet: no byte is lost.
    push-bytes :
        (literal rest : List ℕ) (x : ℕ)
        → bytes_of (push_literal literal x).0 ++ ((push_literal literal x).1 ++ rest)
          ≡ literal ++ (x ∷ rest)
    unfolding push_literal
    push-bytes literal rest x = elim (Bool-cases (leb literal_limit (length (literal ++ x ∷ [])))) [
      | inl full ↦ rw (full, append-nil (literal ++ x ∷ [])) (append_assoc literal (x ∷ []) rest)
      | inr room ↦ rw room (append_assoc literal (x ∷ []) rest)
    ]

    -- One round: the bytes of its tokens and those still held are those that were held before.
    decide-bytes :
        (c : Cursor) (o : Option ℕ)
        → bs ≤ length c.rest
        → ((i : ℕ) → o ≡ some i → block bs basis i ≡ take bs c.rest)
        → bytes_of (scan_decide bs c o).0
            ++ ((scan_decide bs c o).1.literal ++ (scan_decide bs c o).1.rest)
          ≡ c.literal ++ c.rest
    unfolding scan_decide
    decide-bytes c none room h = skipped c.rest (omega arith)
      where
        skipped :
            (rest : List ℕ)
            → 0 < length rest
            → bytes_of (push_literal c.literal (get_or rest 0 0)).0
                ++ ((push_literal c.literal (get_or rest 0 0)).1 ++ drop 1 rest)
              ≡ c.literal ++ rest
        skipped [] p = absurd (omega arith)
        skipped (x ∷ r) p = push-bytes c.literal r x
    decide-bytes c (some i) room h =
        ap (λ l. l ++ drop bs c.rest)
          (flush-bytes c.literal (match_block i ∷ [])
            ∙ ap (◌++◌ c.literal) (append-nil (block bs basis i) ∙ h i refl))
        ∙ append_assoc c.literal (take bs c.rest) (drop bs c.rest)
        ∙ ap (◌++◌ c.literal) (take-append-drop bs c.rest)

    rest-drop :
        (c : Cursor) (o : Option ℕ) → NoCollision c.rest → NoCollision (scan_decide bs c o).1.rest
    unfolding scan_decide
    rest-drop c none h = NoCollision-drop 1 c.rest h
    rest-drop c (some i) h = NoCollision-drop bs c.rest h

    -- All the bytes of a scan: those of its tokens, and those that are still held.
    abbrev total : Scanned → List ℕ
    total r = bytes_of r.0 ++ (r.1.literal ++ r.1.rest)

    step-bytes :
        (c : Cursor)
        → bs ≤ length c.rest
        → NoCollision c.rest
        → let n = scan_round blake3 table signatures bs c in
          total (scan_all blake3 table signatures bs n.1) ≡ n.1.literal ++ n.1.rest
          → total (scan_all blake3 table signatures bs c) ≡ c.literal ++ c.rest
    unfolding scan_round
    step-bytes c room nc ih =
        ap total (scan_all-step blake3 table signatures bs pos c room)
        ∙ ap (λ l. l ++ (later.1.literal ++ later.1.rest))
            (tokens_bytes-append bs basis n.0 later.0)
        ∙ append_assoc (bytes_of n.0) (bytes_of later.0) (later.1.literal ++ later.1.rest)
        ∙ ap (◌++◌ (bytes_of n.0)) ih
        ∙ decide-bytes c (choose blake3 table signatures bs c.position c.rest) room
            (λ i e. (choose-block c i nc e).0)
      where
        n : Scanned
        n = scan_round blake3 table signatures bs c

        later : Scanned
        later = scan_all blake3 table signatures bs n.1

    scan-bytes :
        (fuel : ℕ) (c : Cursor)
        → length c.rest ≤ fuel
        → NoCollision c.rest
        → total (scan_all blake3 table signatures bs c) ≡ c.literal ++ c.rest
    scan-bytes zero c h nc = rw (scan_all-stop blake3 table signatures bs pos c (omega arith))
    scan-bytes (suc fuel) c h nc = elim (Bool-cases (leb bs (length c.rest))) [
      | inl go ↦
          let room : bs ≤ length c.rest = leb→le _ _ go in
          step-bytes c room nc (
            scan-bytes fuel (scan_round blake3 table signatures bs c).1
              (shorter blake3 table signatures bs pos fuel c room h)
              (unfold scan_round in
                rest-drop c (choose blake3 table signatures bs c.position c.rest) nc))
      | inr stop ↦ rw (scan_all-stop blake3 table signatures bs pos c (leb-false _ _ stop))
    ]

    -- The offsets of the matches are those of blocks of the basis file.
    module _ (short : length basis + bs < 2 ^ 64) where
      AllInRange-append :
          (xs ys : List DeltaToken) → AllInRange bs xs → AllInRange bs ys → AllInRange bs (xs ++ ys)
      AllInRange-append [] ys hx hy = hy
      AllInRange-append (x ∷ xs) ys hx hy = (hx.0, AllInRange-append xs ys hx.1 hy)

      flush-InRange :
          (literal : List ℕ) (ts : List DeltaToken)
          → AllInRange bs ts
          → AllInRange bs (flush_literal literal ++ ts)
      unfolding flush_literal
      flush-InRange [] ts h = h
      flush-InRange (x ∷ xs) ts h = (tt, h)

      push-InRange : (literal : List ℕ) (x : ℕ) → AllInRange bs (push_literal literal x).0
      unfolding push_literal
      push-InRange literal x = elim (Bool-cases (leb literal_limit (length (literal ++ x ∷ [])))) [
        | inl full ↦ rw full (tt, tt)
        | inr room ↦ rw room tt
      ]

      decide-InRange :
          (c : Cursor) (o : Option ℕ)
          → ((i : ℕ) → o ≡ some i → i * bs < length basis)
          → AllInRange bs (scan_decide bs c o).0
      unfolding scan_decide
      decide-InRange c none h = push-InRange c.literal (get_or c.rest 0 0)
      decide-InRange c (some i) h =
          flush-InRange c.literal (match_block i ∷ []) (omega (arith, h i refl), tt)

      scan-InRange :
          (fuel : ℕ) (c : Cursor)
          → length c.rest ≤ fuel
          → NoCollision c.rest
          → AllInRange bs (scan_all blake3 table signatures bs c).0
      scan-InRange zero c h nc =
          rw (scan_all-stop blake3 table signatures bs pos c (omega arith)) tt
      scan-InRange (suc fuel) c h nc = elim (Bool-cases (leb bs (length c.rest))) [
        | inl go ↦
            let room : bs ≤ length c.rest = leb→le _ _ go in
            rw (scan_all-step blake3 table signatures bs pos c room) (
              AllInRange-append (scan_round blake3 table signatures bs c).0
                (scan_all blake3 table signatures bs (scan_round blake3 table signatures bs c).1).0
                (unfold scan_round in
                  decide-InRange c (choose blake3 table signatures bs c.position c.rest)
                    (λ i e. (choose-block c i nc e).1))
                (scan-InRange fuel (scan_round blake3 table signatures bs c).1
                  (shorter blake3 table signatures bs pos fuel c room h)
                  (unfold scan_round in
                    rest-drop c (choose blake3 table signatures bs c.position c.rest) nc)))
        | inr stop ↦ rw (scan_all-stop blake3 table signatures bs pos c (leb-false _ _ stop)) tt
      ]

  data-bytes : (ls : List (List ℕ)) → bytes_of (map data_bytes ls) ≡ concat ls
  data-bytes [] = refl
  data-bytes (l ∷ ls) = ap (◌++◌ l) (data-bytes ls)

  data-InRange : (ls : List (List ℕ)) → AllInRange bs (map data_bytes ls)
  data-InRange [] = tt
  data-InRange (l ∷ ls) = (tt, data-InRange ls)

  literals-bytes : (l : List ℕ) → bytes_of (map data_bytes (chunks literal_limit l)) ≡ l
  literals-bytes l =
      data-bytes (chunks literal_limit l)
      ∙ concat-chunks (length l) literal_limit l (omega arith) (omega arith)

  scan_file-bytes :
      (src : List ℕ)
      → 0 < bs
      → length signatures ≤ 2 ^ 32
      → NoCollision src
      → bytes_of (scan_file blake3 src signatures bs) ≡ src
  unfolding scan_file scan_finish
  scan_file-bytes src pos few nc =
      tokens_bytes-append bs basis r.0 (scan_finish r.1)
      ∙ ap (◌++◌ (bytes_of r.0)) (literals-bytes (r.1.literal ++ r.1.rest))
      ∙ scan-bytes pos few (length src) (start src) (omega arith) nc
    where
      r : Scanned
      r = scan_all blake3 table signatures bs (start src)

  scan_file-InRange :
      (src : List ℕ)
      → 0 < bs
      → length signatures ≤ 2 ^ 32
      → length basis + bs < 2 ^ 64
      → NoCollision src
      → AllInRange bs (scan_file blake3 src signatures bs)
  unfolding scan_file scan_finish
  scan_file-InRange src pos few short nc =
      AllInRange-append pos few short r.0 (scan_finish r.1)
        (scan-InRange pos few short (length src) (start src) (omega arith) nc)
        (data-InRange (chunks literal_limit (r.1.literal ++ r.1.rest)))
    where
      r : Scanned
      r = scan_all blake3 table signatures bs (start src)

  -- What is assumed of the sizes: `bs` is a `u32`, block indices fit one, offsets fit a `u64`.
  pub record Fits : Type 0 where
    pub word : bs < 2 ^ 32
    pub few : length (compute_block_signatures blake3 basis bs) ≤ 2 ^ 32
    pub short : length basis + bs < 2 ^ 64

-- For every block size, a source file is had back from the basis file and the tokens, if no block
-- of the basis file shares its truncated hash with a different window of the source file.
pub delta_match-reconstruct :
    (blake3 : List ℕ → List ℕ) (bs : ℕ) (basis src : List ℕ)
    → Fits blake3 bs basis
    → All IsByte src
    → NoCollision blake3 bs basis src
    → reconstruct basis (delta_match blake3 src (compute_block_signatures blake3 basis bs) bs) bs
      ≡ src
delta_match-reconstruct blake3 zero basis src f b nc =
    ap (λ ts. reconstruct basis ts 0)
      (delta_match_zero blake3 src (compute_block_signatures blake3 basis 0))
    ∙ reconstruct_lem 0 basis (map data_bytes (chunks literal_limit src)) (omega arith)
        (data-InRange blake3 0 basis (chunks literal_limit src))
    ∙ literals-bytes blake3 0 basis src
delta_match-reconstruct blake3 (suc n) basis src f b nc =
    ap (λ sigs. reconstruct basis (delta_match blake3 src sigs (suc n)) (suc n)) signed
    ∙ ap (λ ts. reconstruct basis ts (suc n))
        (delta_match-scan_file blake3 src (signatures blake3 (suc n) basis) (suc n) pos b)
    ∙ reconstruct_lem (suc n) basis _ f.word
        (scan_file-InRange blake3 (suc n) basis src pos few f.short nc)
    ∙ scan_file-bytes blake3 (suc n) basis src pos few nc
  where
    pos : 0 < suc n
    pos = omega arith

    signed : compute_block_signatures blake3 basis (suc n) ≡ signatures blake3 (suc n) basis
    signed = compute_block_signatures_lem blake3 (suc n) basis pos

    few : length (signatures blake3 (suc n) basis) ≤ 2 ^ 32
    few = subst (λ l. length l ≤ 2 ^ 32) signed f.few

-- The delta of a source file that arrives in any pieces, made against the signatures of a basis
-- file, reconstructs the source file from the basis file. It is assumed that the block size and
-- the block numbers fit in 32 bits and the length of the basis file and one block more in 64,
-- that the source consists of bytes, and that no window of the source and block of the basis file
-- that differ share the truncated strong hash.
pub stream-reconstruct :
    (blake3 : List ℕ → List ℕ) (bs : ℕ) (basis : List ℕ) (pieces : List (List ℕ))
    → Fits blake3 bs basis
    → All IsByte (concat pieces)
    → NoCollision blake3 bs basis (concat pieces)
    → reconstruct basis (stream blake3 pieces (compute_block_signatures blake3 basis bs) bs) bs
      ≡ concat pieces
stream-reconstruct blake3 bs basis pieces f b nc =
    ap (λ ts. reconstruct basis ts bs)
      (stream-delta_match blake3 pieces (compute_block_signatures blake3 basis bs) bs b)
    ∙ delta_match-reconstruct blake3 bs basis (concat pieces) f b nc
