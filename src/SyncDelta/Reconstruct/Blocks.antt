-- ===== src/SyncDelta/Reconstruct/Blocks.antt =====
-- crates/sync-delta/src/reconstruct.rs: which bytes a token stands for.
use terrasync_rs.Base.{
  ℕ, zero, suc, ◌+◌, ◌-◌, ◌*◌, ◌^◌, ◌<◌, min, ◌≡◌, refl, sym, ap, ◌∙◌, List, [], ◌∷◌, ◌++◌,
  append_assoc, append-nil, some, length, take, drop, slice, get_elem?, leb, leb→le, leb-false,
  take-min, take-nil, Bool-cases, inl, inr, chunks, chunks-cons, length-drop, drop-drop, drop_all,
  u32, u64, some_eq, arith,
}
use terrasync_rs.SyncDelta.Tokens.{DeltaToken, match_block, data_bytes}
use terrasync_rs.SyncDelta.Reconstruct.{push, resolve, reconstruct_loop, reconstruct}

-- Block `i` of a file, the last one shorter, and nothing behind the end.
abbrev pub block : ℕ → List ℕ → ℕ → List ℕ
block bs basis i = take bs (drop (i * bs) basis)

-- The bytes of one token.
abbrev pub token_bytes : ℕ → List ℕ → DeltaToken → List ℕ
token_bytes bs basis (data_bytes bytes) = bytes
token_bytes bs basis (match_block i) = block bs basis i

abbrev pub tokens_bytes : ℕ → List ℕ → List DeltaToken → List ℕ
tokens_bytes bs basis [] = []
tokens_bytes bs basis (t ∷ ts) = token_bytes bs basis t ++ tokens_bytes bs basis ts

pub tokens_bytes-append :
    (bs : ℕ) (basis : List ℕ) (xs ys : List DeltaToken)
    → tokens_bytes bs basis (xs ++ ys) ≡ tokens_bytes bs basis xs ++ tokens_bytes bs basis ys
tokens_bytes-append bs basis [] ys = refl
tokens_bytes-append bs basis (x ∷ xs) ys =
    ap (◌++◌ (token_bytes bs basis x)) (tokens_bytes-append bs basis xs ys)
    ∙ sym (append_assoc (token_bytes bs basis x) _ _)

-- The offsets of a token do not overflow a `u64`.
abbrev pub InRange : ℕ → DeltaToken → Type 0
InRange bs (data_bytes bytes) = Unit
InRange bs (match_block i) = i * bs + bs < 2 ^ 64

abbrev pub AllInRange : ℕ → List DeltaToken → Type 0
AllInRange bs [] = Unit
AllInRange bs (t ∷ ts) = InRange bs t × AllInRange bs ts

-- A slice that is cut at the end of the file is a block.
cut_block :
    (bs offset : ℕ) (basis : List ℕ)
    → bs < 2 ^ 32
    → offset + bs < 2 ^ 64
    → offset < length basis
    → slice offset (offset + u32 (min (u64 (offset + bs)) (length basis) - offset)) basis
      ≡ take bs (drop offset basis)
cut_block bs offset basis small fits inside =
    ap (λ n. take n (drop offset basis)) cut ∙ take-min bs (drop offset basis)
  where
    cut :
        offset + u32 (min (u64 (offset + bs)) (length basis) - offset) - offset
        ≡ min bs (length (drop offset basis))
    cut = omega (arith, length-drop offset basis)

push-token_bytes :
    (bs : ℕ) (basis : List ℕ) (t : DeltaToken)
    → bs < 2 ^ 32
    → InRange bs t
    → resolve basis (push (record { block_size = bs; basis_size = length basis }) t)
      ≡ token_bytes bs basis t
unfolding push resolve
push-token_bytes bs basis (data_bytes bytes) small h = refl
push-token_bytes bs basis (match_block i) small h =
    elim (Bool-cases (leb (length basis) (i * bs))) [
      | inl outside ↦
          rw (same, outside)
            (sym (ap (take bs) (drop_all (i * bs) basis (leb→le _ _ outside)) ∙ take-nil bs))
      | inr inside ↦ rw (same, inside) (cut_block bs (i * bs) basis small h (leb-false _ _ inside))
    ]
  where
    same : u64 (i * bs) ≡ i * bs
    same = omega arith

reconstruct_loop_lem :
    (bs : ℕ) (basis : List ℕ) (ts : List DeltaToken) (result : List ℕ)
    → bs < 2 ^ 32
    → AllInRange bs ts
    → reconstruct_loop (record { block_size = bs; basis_size = length basis }) basis ts result
      ≡ result ++ tokens_bytes bs basis ts
unfolding reconstruct_loop
reconstruct_loop_lem bs basis [] result small h = sym (append-nil result)
reconstruct_loop_lem bs basis (t ∷ ts) result small h =
    reconstruct_loop_lem bs basis ts _ small h.1
    ∙ append_assoc result _ (tokens_bytes bs basis ts)
    ∙ ap (λ l. result ++ (l ++ tokens_bytes bs basis ts)) (push-token_bytes bs basis t small h.0)

-- For a block size and block offsets in the range of the machine words, the reconstruction is the
-- bytes of its tokens, one after another: a data token's own bytes, and for a match the block of
-- the basis file, cut at its end and empty behind it.
pub reconstruct_lem :
    (bs : ℕ) (basis : List ℕ) (ts : List DeltaToken)
    → bs < 2 ^ 32
    → AllInRange bs ts
    → reconstruct basis ts bs ≡ tokens_bytes bs basis ts
unfolding reconstruct
reconstruct_lem bs basis ts small h = reconstruct_loop_lem bs basis ts [] small h

-- Piece `i` of a file is its block `i`, which lies in the file.
pub chunks-block :
    (bs : ℕ) (basis : List ℕ) (i : ℕ) (c : List ℕ)
    → 0 < bs
    → get_elem? (chunks bs basis) i ≡ some c
    → (c ≡ block bs basis i) × (i * bs < length basis)
unfolding chunks
chunks-block bs [] i c p e = absurd (ground arith)
chunks-block bs (x ∷ xs) zero c p e =
    let none_before : zero ≡ 0 * bs = omega arith in
    (
      sym (some_eq (ap (λ l. get_elem? l 0) (sym (chunks-cons bs x xs p)) ∙ e))
          ∙ ap (λ n. take bs (drop n (x ∷ xs))) none_before,
      omega arith,
    )
chunks-block bs (x ∷ xs) (suc i) c p e =
    let later : get_elem? (chunks bs (drop bs (x ∷ xs))) i ≡ some c =
      ap (λ l. get_elem? l (suc i)) (sym (chunks-cons bs x xs p)) ∙ e in
    let (same, inside) = chunks-block bs (drop bs (x ∷ xs)) i c p later in
    (
      same ∙ ap (take bs) (drop-drop bs (i * bs) (suc i * bs) (x ∷ xs) (omega arith)),
      omega (arith, length-drop bs (x ∷ xs), inside),
    )
