-- ===== src/SyncDelta/Signature/Stream.antt =====
-- crates/sync-delta/src/signature.rs: a calculator that is fed a basis file in pieces.
use terrasync_rs.Base.{
  ℕ, zero, suc, ◌-◌, ◌≤◌, ◌<◌, min, ◌≡◌, refl, sym, ap, ◌∙◌, inl, inr, List, [], ◌∷◌, ◌++◌, map,
  append-nil, append_assoc, length, take, drop, ◌==◌, ==_iff, Bool-cases, chunks, chunks-append,
  chunks_short, concat, length-append, length-take, length-drop, take-append-drop, arith,
}
use terrasync_rs.SyncDelta.Tokens.{BlockSignature}
use terrasync_rs.SyncDelta.Signature.{
  SignatureCalculator, new, sign, flush_block, push_round, push_rest, push_loop, push, flush_rest,
  finish, compute_block_signatures,
}

module _ (blake3 : List ℕ → List ℕ) where
  -- The calculator fed one piece after another.
  unfoldable pub push_all : SignatureCalculator → List (List ℕ) → SignatureCalculator
  push_all c [] = c
  push_all c (piece ∷ rest) = push_all (push blake3 c piece) rest

  -- The signatures that `c` ends with if `rest` is still to come.
  pub meaning : SignatureCalculator → List ℕ → List BlockSignature
  meaning c rest = c.signatures ++ map (sign blake3) (chunks c.block_size (c.buffer ++ rest))

  -- Between rounds the staging buffer is shorter than a block.
  pub record IsStaged (bs : ℕ) (c : SignatureCalculator) : Type 0 where
    pub size : c.block_size ≡ bs
    pub room : length c.buffer < bs

  round-IsStaged :
      (bs : ℕ) (c : SignatureCalculator) (bytes : List ℕ)
      → IsStaged bs c
      → IsStaged bs (push_round blake3 c bytes)
  unfolding push_round flush_block
  round-IsStaged bs c bytes v = ground (
    arith,
    length-append c.buffer (take (min (c.block_size - length c.buffer) (length bytes)) bytes),
    length-take (min (c.block_size - length c.buffer) (length bytes)) bytes,
  )

  regroup :
      (buf t bytes rest : List ℕ) {all : List ℕ}
      → t ++ bytes ≡ all
      → (buf ++ t) ++ (bytes ++ rest) ≡ buf ++ (all ++ rest)
  regroup buf t bytes rest e =
      append_assoc buf t (bytes ++ rest)
      ∙ ap (◌++◌ buf) (sym (append_assoc t bytes rest) ∙ ap (λ l. l ++ rest) e)

  -- A flushed block is the first of those that the calculator has yet to sign.
  flushed :
      (n : ℕ) (done : List BlockSignature) (block rest : List ℕ)
      → 0 < n
      → length block ≡ n
      → (done ++ sign blake3 block ∷ []) ++ map (sign blake3) (chunks n rest)
        ≡ done ++ map (sign blake3) (chunks n (block ++ rest))
  flushed n done block rest p e =
      append_assoc done (sign blake3 block ∷ []) _
      ∙ ap (λ l. done ++ map (sign blake3) l) (sym (chunks-append n block rest p e))

  meaning-round :
      (bs : ℕ) (c : SignatureCalculator) (bytes rest : List ℕ)
      → IsStaged bs c
      → meaning (push_round blake3 c bytes) (push_rest blake3 c bytes ++ rest)
        ≡ meaning c (bytes ++ rest)
  unfolding push_round push_rest flush_block meaning
  meaning-round bs c bytes rest v = elim (Bool-cases (length (c.buffer ++ t) == c.block_size)) [
    | inl full ↦ rw full (
        flushed c.block_size c.signatures (c.buffer ++ t) (drop n bytes ++ rest) (omega arith)
          ((==_iff _ _).0 full)
        ∙ same)
    | inr partial ↦ rw partial same
  ]
    where
      n : ℕ
      n = min (c.block_size - length c.buffer) (length bytes)

      t : List ℕ
      t = take n bytes

      same :
          c.signatures
            ++ map (sign blake3) (chunks c.block_size ((c.buffer ++ t) ++ (drop n bytes ++ rest)))
          ≡ c.signatures ++ map (sign blake3) (chunks c.block_size (c.buffer ++ (bytes ++ rest)))
      same =
          ap (λ l. c.signatures ++ map (sign blake3) (chunks c.block_size l))
            (regroup c.buffer t (drop n bytes) rest (take-append-drop n bytes))

  rest-shorter :
      (bs : ℕ) (c : SignatureCalculator) (x : ℕ) (xs : List ℕ)
      → IsStaged bs c
      → length (push_rest blake3 c (x ∷ xs)) ≤ length xs
  unfolding push_rest
  rest-shorter bs c x xs v =
      omega (arith, length-drop (min (c.block_size - length c.buffer) (length (x ∷ xs))) (x ∷ xs))

  -- The loop runs to the end of the bytes.
  push_loop_lem :
      (fuel bs : ℕ) (c : SignatureCalculator) (bytes rest : List ℕ)
      → length bytes ≤ fuel
      → IsStaged bs c
      → IsStaged bs (push_loop blake3 fuel c bytes)
        × (meaning (push_loop blake3 fuel c bytes) rest ≡ meaning c (bytes ++ rest))
  unfolding push_loop
  push_loop_lem zero bs c [] rest h v = (v, refl)
  push_loop_lem zero bs c (x ∷ xs) rest h v = absurd (omega arith)
  push_loop_lem (suc fuel) bs c [] rest h v = (v, refl)
  push_loop_lem (suc fuel) bs c (x ∷ xs) rest h v =
      let (staged, same) =
        push_loop_lem fuel bs (push_round blake3 c (x ∷ xs)) (push_rest blake3 c (x ∷ xs)) rest
          (omega (arith, rest-shorter bs c x xs v)) (round-IsStaged bs c (x ∷ xs) v) in
      (staged, same ∙ meaning-round bs c (x ∷ xs) rest v)

  push_lem :
      (bs : ℕ) (c : SignatureCalculator) (bytes rest : List ℕ)
      → IsStaged bs c
      → IsStaged bs (push blake3 c bytes)
        × (meaning (push blake3 c bytes) rest ≡ meaning c (bytes ++ rest))
  unfolding push
  push_lem bs c bytes rest v = ground (arith, push_loop_lem (length bytes) bs c bytes rest)

  push_all_lem :
      (bs : ℕ) (c : SignatureCalculator) (pieces : List (List ℕ))
      → IsStaged bs c
      → IsStaged bs (push_all c pieces)
        × (meaning (push_all c pieces) [] ≡ meaning c (concat pieces))
  unfolding push_all
  push_all_lem bs c [] v = (v, refl)
  push_all_lem bs c (piece ∷ rest) v =
      let (staged, same) = push_lem bs c piece (concat rest) v in
      let (staged', same') = push_all_lem bs (push blake3 c piece) rest staged in
      (staged', same' ∙ same)

  finish-buffer :
      (c : SignatureCalculator) (buf : List ℕ)
      → c.buffer ≡ buf
      → length buf ≤ c.block_size
      → (flush_rest blake3 c buf).signatures
        ≡ c.signatures ++ map (sign blake3) (chunks c.block_size buf)
  unfolding flush_rest flush_block
  finish-buffer c [] e h = unfold chunks in sym (append-nil c.signatures)
  finish-buffer c (x ∷ xs) e h =
      ap (λ b. c.signatures ++ sign blake3 b ∷ []) e
      ∙ ap (λ l. c.signatures ++ map (sign blake3) l) (sym (chunks_short c.block_size x xs h))

  finish-meaning :
      (bs : ℕ) (c : SignatureCalculator) → IsStaged bs c → (finish blake3 c).0 ≡ meaning c []
  unfolding finish meaning
  finish-meaning bs c v =
      finish-buffer c c.buffer refl (omega arith)
      ∙ ap (λ l. c.signatures ++ map (sign blake3) (chunks c.block_size l))
          (sym (append-nil c.buffer))

  -- A basis file that is fed in any pieces, with a block size above zero, ends with the
  -- signatures of its blocks, in order, the last of which may be short.
  pub push_all-finish :
      (bs : ℕ) (pieces : List (List ℕ))
      → 0 < bs
      → (finish blake3 (push_all (new bs) pieces)).0 ≡ map (sign blake3) (chunks bs (concat pieces))
  push_all-finish bs pieces p =
      let (staged, same) = push_all_lem bs (new bs) pieces start in
      finish-meaning bs (push_all (new bs) pieces) staged ∙ same ∙ (unfold meaning new in refl)
    where
      start : IsStaged bs (new bs)
      start = unfold new in record { size = refl; room = p }

  -- The staging buffer holds less than one block after any pieces.
  pub push_all-buffer :
      (bs : ℕ) (pieces : List (List ℕ)) → 0 < bs → length (push_all (new bs) pieces).buffer < bs
  push_all-buffer bs pieces p =
      (push_all_lem bs (new bs) pieces (unfold new in record { size = refl; room = p })).0.room

  pub compute_block_signatures_lem :
      (bs : ℕ) (bytes : List ℕ)
      → 0 < bs
      → compute_block_signatures blake3 bytes bs ≡ map (sign blake3) (chunks bs bytes)
  unfolding compute_block_signatures push_all
  compute_block_signatures_lem bs bytes p =
      push_all-finish bs (bytes ∷ []) p
      ∙ ap (λ l. map (sign blake3) (chunks bs l)) (append-nil bytes)

  -- With blocks of no bytes there are no signatures.
  pub compute_block_signatures_zero :
      (bytes : List ℕ) → compute_block_signatures blake3 bytes 0 ≡ []
  unfolding compute_block_signatures push finish flush_rest new
  compute_block_signatures_zero bytes = refl
