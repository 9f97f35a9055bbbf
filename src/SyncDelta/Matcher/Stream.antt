-- ===== src/SyncDelta/Matcher/Stream.antt =====
-- crates/sync-delta/src/matcher.rs: a matcher that is fed a source file in pieces.
use terrasync_rs.Base.{
  ℕ, ◌<◌, ◌≡◌, refl, sym, ap, ap₂, ◌∙◌, subst, inl, inr, false, List, [], ◌∷◌, ◌++◌, map,
  append_assoc, append-nil, All, All-left, All-right, length, drop, drop_all, ltb, ◌==◌, Bool-cases,
  ltb-false, chunks, concat, arith,
}
use terrasync_rs.SyncDelta.Rolling.Sums.{IsByte}
use terrasync_rs.SyncDelta.Tokens.{BlockSignature, DeltaToken, data_bytes}
use terrasync_rs.SyncDelta.Matcher.{
  DeltaMatcher, literal_limit, new, process, compact, push, finish, finish_literal,
}
use terrasync_rs.SyncDelta.Matcher.Table.{SigTable, build_sig_table}
use terrasync_rs.SyncDelta.Matcher.Scan.{
  Cursor, Scanned, extend, prepend, scan_all, scan_all-stop, scan_all-rest, scan_append,
}
use terrasync_rs.SyncDelta.Matcher.Slide.{cursor, IsConfigured, IsCurrent}
use terrasync_rs.SyncDelta.Matcher.Process.{Agrees, process-Agrees}
use terrasync_rs.SyncDelta.Matcher.Feed.{
  feed, cursor-feed, feed-IsCurrent, cursor-compact, compact-IsCurrent, compact-IsConfigured,
}

-- The scan's last tokens.
unfoldable pub scan_finish : Cursor → List DeltaToken
scan_finish c = map data_bytes (chunks literal_limit (c.literal ++ c.rest))

abbrev pub start : List ℕ → Cursor
start src = record { position = 0; rest = src; literal = [] }

module _ (blake3 : List ℕ → List ℕ) where
  -- The matcher fed one piece after another, with all the tokens that come out.
  unfoldable pub push_all : DeltaMatcher → List (List ℕ) → List DeltaToken × DeltaMatcher
  push_all m [] = ([], m)
  push_all m (piece ∷ rest) =
      let (tokens, next) = push blake3 m piece in
      let (later, last) = push_all next rest in (tokens ++ later, last)

  -- The tokens of a file that arrives in pieces, `finish` included.
  unfoldable pub stream : List (List ℕ) → List BlockSignature → ℕ → List DeltaToken
  unfolding push_all
  stream pieces signatures bs =
      let (tokens, last) = push_all (new signatures bs) pieces in tokens ++ (finish blake3 last).0

  -- The tokens of a whole file by the scan.
  unfoldable pub scan_file : List ℕ → List BlockSignature → ℕ → List DeltaToken
  scan_file src signatures bs =
      let (tokens, last) = scan_all blake3 (build_sig_table signatures) signatures bs (start src) in
      tokens ++ scan_finish last

  finish_literal_lem : (m : DeltaMatcher) → (finish_literal m).0 ≡ scan_finish (cursor m)
  unfolding finish_literal scan_finish
  finish_literal_lem m = elim (Bool-cases (ltb m.pos (length m.carry))) [
    | inl e ↦ rw e
    | inr e ↦
        rw (e, drop_all m.pos m.carry (ltb-false _ _ e))
          (ap (λ l. map data_bytes (chunks literal_limit l)) (sym (append-nil m.literal_buf)))
  ]

  module _ (table : SigTable) (signatures : List BlockSignature) (bs : ℕ) (pos : 0 < bs) where
    -- The state between calls: everything that could be matched has been.
    pub record IsSettled (m : DeltaMatcher) : Type 0 where
      pub configured : IsConfigured table signatures bs m
      pub current : IsCurrent m
      pub settled : length (drop m.pos m.carry) < bs

    not_zero : (n : ℕ) → n ≡ bs → (n == 0) ≡ false
    not_zero n e = ground arith

    push_lem :
        (m : DeltaMatcher) (bytes : List ℕ)
        → IsSettled m
        → All IsByte bytes
        → Agrees table signatures bs
            (push blake3 m bytes)
            (scan_all blake3 table signatures bs (extend (cursor m) bytes))
          × IsSettled (push blake3 m bytes).1
    unfolding push feed
    push_lem m bytes v b = rw (not_zero m.bs v.configured.bs_eq, push) (agrees, settled)
      where
        scanned : Scanned
        scanned = scan_all blake3 table signatures bs (extend (cursor m) bytes)

        next : DeltaMatcher
        next = (process blake3 (feed m bytes)).1

        k : IsConfigured table signatures bs (feed m bytes)
        k =
            unfold feed in
            record {
              table_eq = v.configured.table_eq;
              signatures_eq = v.configured.signatures_eq;
              bs_eq = v.configured.bs_eq;
            }

        a : Agrees table signatures bs (process blake3 (feed m bytes)) scanned
        a =
            subst
              (λ c.
                Agrees table signatures bs (process blake3 (feed m bytes))
                  (scan_all blake3 table signatures bs c))
              (cursor-feed m bytes v.current.within)
              (process-Agrees blake3 table signatures bs pos (feed m bytes) k
                (feed-IsCurrent m bytes v.current b))

        agrees :
            Agrees table signatures bs ((process blake3 (feed m bytes)).0, compact next) scanned
        agrees = record {
          tokens = a.tokens;
          at = cursor-compact next ∙ a.at;
          current = compact-IsCurrent next a.current;
          configured = compact-IsConfigured table signatures bs next a.configured;
        }

        settled : IsSettled (compact next)
        settled = record {
          configured = agrees.configured;
          current = agrees.current;
          settled =
              subst (λ c. length c.rest < bs) (sym agrees.at)
                (scan_all-rest blake3 table signatures bs pos
                  (length (extend (cursor m) bytes).rest) (extend (cursor m) bytes) (omega arith));
        }

    pub push_all_lem :
        (m : DeltaMatcher) (pieces : List (List ℕ))
        → IsSettled m
        → All IsByte (concat pieces)
        → Agrees table signatures bs
            (push_all m pieces)
            (scan_all blake3 table signatures bs (extend (cursor m) (concat pieces)))
          × IsSettled (push_all m pieces).1
    unfolding push_all
    push_all_lem m [] v b = (subst (Agrees table signatures bs ([], m)) (sym done) unmoved, v)
      where
        unmoved : Agrees table signatures bs ([], m) ([], cursor m)
        unmoved = record {
          tokens = refl;
          at = refl;
          current = v.current;
          configured = v.configured;
        }

        done : scan_all blake3 table signatures bs (extend (cursor m) []) ≡ ([], cursor m)
        done =
            ap (λ l. scan_all blake3 table signatures bs (record (cursor m) { rest = l }))
              (append-nil (drop m.pos m.carry))
            ∙ scan_all-stop blake3 table signatures bs pos (cursor m) v.settled
    push_all_lem m (piece ∷ rest) v b =
        let (a, next) = push_lem m piece v (All-left IsByte piece (concat rest) b) in
        let (later, last) =
          push_all_lem (push blake3 m piece).1 rest next (All-right IsByte piece (concat rest) b) in
        (
          subst (Agrees table signatures bs _) (sym total) (record {
            tokens = ap₂ ◌++◌ a.tokens (
                later.tokens
                ∙ ap (λ c. (scan_all blake3 table signatures bs (extend c (concat rest))).0) a.at);
            at =
                later.at
                ∙ ap (λ c. (scan_all blake3 table signatures bs (extend c (concat rest))).1) a.at;
            current = later.current;
            configured = later.configured;
          }),
          last,
        )
      where
        first : Scanned
        first = scan_all blake3 table signatures bs (extend (cursor m) piece)

        total :
            scan_all blake3 table signatures bs (extend (cursor m) (piece ++ concat rest))
            ≡ prepend first.0 (scan_all blake3 table signatures bs (extend first.1 (concat rest)))
        total =
            ap (λ l. scan_all blake3 table signatures bs (record (cursor m) { rest = l }))
              (sym (append_assoc (drop m.pos m.carry) piece (concat rest)))
            ∙ scan_append blake3 table signatures bs pos (length (extend (cursor m) piece).rest)
                (extend (cursor m) piece) (concat rest) (omega arith)

    -- What `finish` does once everything has been matched.
    finish-settled : (m : DeltaMatcher) → IsSettled m → (finish blake3 m).0 ≡ scan_finish (cursor m)
    unfolding finish
    finish-settled m v =
        rw (not_zero m.bs v.configured.bs_eq, finish)
          (ap₂ ◌++◌ (a.tokens ∙ ap (λ r. r.0) idle)
            (finish_literal_lem (process blake3 m).1 ∙ ap scan_finish (a.at ∙ ap (λ r. r.1) idle)))
      where
        a :
            Agrees table signatures bs
              (process blake3 m)
              (scan_all blake3 table signatures bs (cursor m))
        a = process-Agrees blake3 table signatures bs pos m v.configured v.current

        idle : scan_all blake3 table signatures bs (cursor m) ≡ ([], cursor m)
        idle = scan_all-stop blake3 table signatures bs pos (cursor m) v.settled

  pub new-IsSettled :
      (signatures : List BlockSignature) (bs : ℕ) (pos : 0 < bs)
      → IsSettled (build_sig_table signatures) signatures bs pos (new signatures bs)
  unfolding new
  new-IsSettled signatures bs pos = record {
    configured = record { table_eq = refl; signatures_eq = refl; bs_eq = refl };
    current = record { within = omega arith; bytes = tt; fresh = λ t. absurd (ground arith) };
    settled = pos;
  }

  -- With blocks of a byte at least, the tokens of a stream are those of the scan of the whole file.
  pub stream-scan_file :
      (pieces : List (List ℕ)) (signatures : List BlockSignature) (bs : ℕ)
      → 0 < bs
      → All IsByte (concat pieces)
      → stream pieces signatures bs ≡ scan_file (concat pieces) signatures bs
  unfolding stream scan_file
  stream-scan_file pieces signatures bs pos b =
      ap₂ ◌++◌
        (a.tokens
          ∙ ap (λ c. (scan_all blake3 (build_sig_table signatures) signatures bs c).0) begin)
        (finish-settled (build_sig_table signatures) signatures bs pos _ both.1
          ∙ ap scan_finish (
              a.at
              ∙ ap (λ c. (scan_all blake3 (build_sig_table signatures) signatures bs c).1) begin))
    where
      both :
          Agrees (build_sig_table signatures) signatures bs (push_all (new signatures bs) pieces) (
            scan_all blake3
              (build_sig_table signatures)
              signatures
              bs
              (extend (cursor (new signatures bs)) (concat pieces)))
          × IsSettled
              (build_sig_table signatures)
              signatures
              bs
              pos
              (push_all (new signatures bs) pieces).1
      both =
          push_all_lem (build_sig_table signatures) signatures bs pos (new signatures bs) pieces
            (new-IsSettled signatures bs pos) b

      a : Agrees (build_sig_table signatures) signatures bs (push_all (new signatures bs) pieces) (
          scan_all blake3
            (build_sig_table signatures)
            signatures
            bs
            (extend (cursor (new signatures bs)) (concat pieces)))
      a = both.0

      begin : extend (cursor (new signatures bs)) (concat pieces) ≡ start (concat pieces)
      begin = unfold new in refl
