-- ===== src/SyncDelta/Matcher/Scan.antt =====
-- The matcher without its buffers: a scan over the bytes that are still to be looked at, which
-- sums every window afresh. `Matcher/Process` is about the matcher against it.
use terrasync_rs.Base.{
  ℕ, zero, suc, ◌+◌, ◌≤◌, ◌<◌, ◌≡◌, refl, sym, ap, ap₂, ◌∙◌, inl, inr, true, false, List, [], ◌∷◌,
  ◌++◌, append_assoc, Option, none, some, length, take, drop, get_or, take-append, drop-append,
  length-drop, length-append, leb, Bool-cases, leb→le, le→leb, leb-false, lt→leb-false, u64, arith,
}
use terrasync_rs.SyncDelta.Rolling.{checksum}
use terrasync_rs.SyncDelta.Tokens.{BlockSignature, DeltaToken, match_block}
use terrasync_rs.SyncDelta.Matcher.{flush_literal, push_literal}
use terrasync_rs.SyncDelta.Matcher.Table.{SigTable, selected}

pub record Cursor : Type 0 where
  pub position : ℕ
  pub rest : List ℕ
  pub literal : List ℕ

abbrev pub Scanned : Type 0
Scanned = List DeltaToken × Cursor

-- More bytes at the end.
abbrev pub extend : Cursor → List ℕ → Cursor
extend c more = record c { rest = c.rest ++ more }

-- Tokens in front of a result.
abbrev pub prepend : List DeltaToken → Scanned → Scanned
prepend tokens r = (tokens ++ r.0, r.1)

prepend-prepend :
    (xs ys : List DeltaToken) (r : Scanned) → prepend xs (prepend ys r) ≡ prepend (xs ++ ys) r
prepend-prepend xs ys r = λ i. (sym (append_assoc xs ys r.0) i, r.1)

unfoldable pub scan_decide : ℕ → Cursor → Option ℕ → Scanned
scan_decide bs c none =
    let (tokens, literal) = push_literal c.literal (get_or c.rest 0 0) in
    (tokens, record { position = u64 (c.position + 1); rest = drop 1 c.rest; literal = literal })
scan_decide bs c (some block_idx) = (
  flush_literal c.literal ++ match_block block_idx ∷ [],
  record { position = u64 (c.position + bs); rest = drop bs c.rest; literal = [] },
)

scan_decide-extend :
    (bs : ℕ) (c : Cursor) (more : List ℕ) (o : Option ℕ)
    → 0 < bs
    → bs ≤ length c.rest
    → scan_decide bs (extend c more) o
      ≡ ((scan_decide bs c o).0, extend (scan_decide bs c o).1 more)
unfolding scan_decide
scan_decide-extend bs c more none p h =
    ap₂
      (λ x rest. (
        (push_literal c.literal x).0,
        record {
          position = u64 (c.position + 1);
          rest = rest;
          literal = (push_literal c.literal x).1;
        },
      ))
      (head c.rest (omega arith)) (drop-append 1 c.rest more (omega arith))
  where
    head : (xs : List ℕ) → 0 < length xs → get_or (xs ++ more) 0 0 ≡ get_or xs 0 0
    head [] h = absurd (omega arith)
    head (x ∷ xs) h = refl
scan_decide-extend bs c more (some i) p h =
    ap
      (λ rest. (
        flush_literal c.literal ++ match_block i ∷ [],
        record { position = u64 (c.position + bs); rest = rest; literal = [] },
      ))
      (drop-append bs c.rest more h)

scan_decide-shorter :
    (bs : ℕ) (c : Cursor) (o : Option ℕ)
    → 0 < bs
    → bs ≤ length c.rest
    → suc (length (scan_decide bs c o).1.rest) ≤ length c.rest
unfolding scan_decide
scan_decide-shorter bs c none p h = omega (arith, length-drop 1 c.rest)
scan_decide-shorter bs c (some i) p h = omega (arith, length-drop bs c.rest)

module _ (blake3 : List ℕ → List ℕ) (table : SigTable) (signatures : List BlockSignature)
    (bs : ℕ) where
  -- The block that the next window matches.
  abbrev pub choose : ℕ → List ℕ → Option ℕ
  choose position rest =
      selected blake3 table signatures bs position (checksum (take bs rest)) (take bs rest)

  unfoldable pub scan_round : Cursor → Scanned
  scan_round c = scan_decide bs c (choose c.position c.rest)

  unfoldable pub scan : ℕ → Cursor → Scanned
  scan zero c = ([], c)
  scan (suc fuel) c = elim (leb bs (length c.rest)) [
    | true ↦ prepend (scan_round c).0 (scan fuel (scan_round c).1)
    | false ↦ ([], c)
  ]

  unfoldable pub scan_all : Cursor → Scanned
  unfolding scan
  scan_all c = scan (length c.rest) c

  -- Enough fuel, with windows of one byte at least, is any fuel.
  module _ (pos : 0 < bs) where
    scan_fuel : (f g : ℕ) (c : Cursor) → length c.rest ≤ f → length c.rest ≤ g → scan f c ≡ scan g c
    unfolding scan
    scan_fuel zero zero c hf hg = refl
    scan_fuel zero (suc g) c hf hg = rw (lt→leb-false bs (length c.rest) (omega arith), scan)
    scan_fuel (suc f) zero c hf hg = rw (lt→leb-false bs (length c.rest) (omega arith), scan)
    scan_fuel (suc f) (suc g) c hf hg = elim (Bool-cases (leb bs (length c.rest))) [
      | inl more ↦
          rw (more, scan)
            (ap (prepend (scan_round c).0)
              (scan_fuel f g (scan_round c).1 (smaller f more hf) (smaller g more hg)))
      | inr done ↦ rw (done, scan)
    ]
      where
        smaller :
            (k : ℕ)
            → leb bs (length c.rest) ≡ true
            → length c.rest ≤ suc k
            → length (scan_round c).1.rest ≤ k
        smaller k more h =
            unfold scan_round in
            omega (arith, scan_decide-shorter bs c (choose c.position c.rest) pos (leb→le _ _ more))

    pub scan_all-step :
        (c : Cursor)
        → bs ≤ length c.rest
        → scan_all c ≡ prepend (scan_round c).0 (scan_all (scan_round c).1)
    unfolding scan_all scan_round scan
    scan_all-step c h =
        scan_fuel (length c.rest) (suc (length c.rest)) c (omega arith) (omega arith)
        ∙ rw (le→leb bs (length c.rest) h, scan)
            (ap (prepend _) (
              scan_fuel _ _ _
                (omega (arith, scan_decide-shorter bs c (choose c.position c.rest) pos h))
                (omega arith)))

    pub scan_all-stop : (c : Cursor) → length c.rest < bs → scan_all c ≡ ([], c)
    unfolding scan_all scan
    scan_all-stop c h =
        scan_fuel (length c.rest) (suc (length c.rest)) c (omega arith) (omega arith)
        ∙ rw (lt→leb-false bs (length c.rest) h, scan)

    scan_round-extend :
        (c : Cursor) (more : List ℕ)
        → bs ≤ length c.rest
        → scan_round (extend c more) ≡ ((scan_round c).0, extend (scan_round c).1 more)
    unfolding scan_round
    scan_round-extend c more h =
        ap
          (λ w.
            scan_decide bs (extend c more)
              (selected blake3 table signatures bs c.position (checksum w) w))
          (take-append bs c.rest more h)
        ∙ scan_decide-extend bs c more (choose c.position c.rest) pos h

    pub shorter :
        (fuel : ℕ) (c : Cursor)
        → bs ≤ length c.rest
        → length c.rest ≤ suc fuel
        → length (scan_round c).1.rest ≤ fuel
    unfolding scan_round
    shorter fuel c e h = omega (arith, scan_decide-shorter bs c (choose c.position c.rest) pos e)

    -- Bytes that arrive later: the scan goes on from where it stopped.
    pub scan_append :
        (fuel : ℕ) (c : Cursor) (more : List ℕ)
        → length c.rest ≤ fuel
        → scan_all (extend c more) ≡ prepend (scan_all c).0 (scan_all (extend (scan_all c).1 more))
    scan_append zero c more h = rw (scan_all-stop c (omega arith))
    scan_append (suc fuel) c more h = elim (Bool-cases (leb bs (length c.rest))) [
      | inl go ↦
          let enough : bs ≤ length c.rest = leb→le _ _ go in
          let later = scan_append fuel (scan_round c).1 more (shorter fuel c enough h) in
          scan_all-step (extend c more) (omega (arith, length-append c.rest more))
          ∙ ap (λ r. prepend r.0 (scan_all r.1)) (scan_round-extend c more enough)
          ∙ ap (prepend (scan_round c).0) later
          ∙ prepend-prepend (scan_round c).0 (scan_all (scan_round c).1).0 _
          ∙ ap (λ r. prepend r.0 (scan_all (extend r.1 more))) (sym (scan_all-step c enough))
      | inr stop ↦ rw (scan_all-stop c (leb-false _ _ stop))
    ]

    -- The scan ends with less than a window before it.
    pub scan_all-rest :
        (fuel : ℕ) (c : Cursor) → length c.rest ≤ fuel → length (scan_all c).1.rest < bs
    scan_all-rest zero c h = rw (scan_all-stop c (omega arith)) (omega arith)
    scan_all-rest (suc fuel) c h = elim (Bool-cases (leb bs (length c.rest))) [
      | inl go ↦
          let enough : bs ≤ length c.rest = leb→le _ _ go in
          rw (scan_all-step c enough)
            (scan_all-rest fuel (scan_round c).1 (shorter fuel c enough h))
      | inr stop ↦ rw (scan_all-stop c (leb-false _ _ stop)) (leb-false _ _ stop)
    ]
