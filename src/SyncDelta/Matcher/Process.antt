-- ===== src/SyncDelta/Matcher/Process.antt =====
-- crates/sync-delta/src/matcher.rs: `process` against the scan, round by round.
use terrasync_rs.Base.{
  ℕ, zero, suc, ◌+◌, ◌≤◌, ◌<◌, ◌≡◌, refl, sym, ap, ap₂, ◌∙◌, subst, inl, inr, true, List, [], ◌++◌,
  Option, none, some, length, take, drop, get_or, length-drop, drop-drop, leb, Bool-cases, leb→le,
  leb-false, u64, arith,
}
use terrasync_rs.SyncDelta.Rolling.{digest, sums, checksum}
use terrasync_rs.SyncDelta.Tokens.{BlockSignature, DeltaToken}
use terrasync_rs.SyncDelta.Matcher.{
  DeltaMatcher, window, accept, push_literal, skip, decide, process_round, process_loop, process,
}
use terrasync_rs.SyncDelta.Matcher.Table.{SigTable, selected}
use terrasync_rs.SyncDelta.Matcher.Scan.{
  Cursor, Scanned, scan_decide, scan_round, scan_all, scan_all-step, scan_all-stop, shorter,
}
use terrasync_rs.SyncDelta.Matcher.Slide.{
  cursor, IsConfigured, IsCurrent, window_lem, get_or-drop, init_window_lem, slide-cursor,
  slide-IsConfigured, IsReady, slide-IsCurrent,
}

-- What one round promises of its result against the scan's.
pub record Agrees (table : SigTable) (signatures : List BlockSignature) (bs : ℕ)
    (r : List DeltaToken × DeltaMatcher) (s : Scanned) : Type 0 where
  pub tokens : r.0 ≡ s.0
  pub at : cursor r.1 ≡ s.1
  pub current : IsCurrent r.1
  pub configured : IsConfigured table signatures bs r.1

cursor_path :
    {p q : ℕ} {a b c d : List ℕ}
    → p ≡ q
    → a ≡ b
    → c ≡ d
    → ◌≡◌ {A = Cursor}
        (record { position = p; rest = a; literal = c })
        (record { position = q; rest = b; literal = d })
cursor_path e f g = λ i. record { position = e i; rest = f i; literal = g i }

module _ (blake3 : List ℕ → List ℕ) where
  decide-Agrees :
      (m : DeltaMatcher) (o : Option ℕ)
      → IsReady m
      → 0 < m.bs
      → Agrees m.sig_table m.signatures m.bs (decide m o) (scan_decide m.bs (cursor m) o)
  unfolding decide skip accept scan_decide
  decide-Agrees m none v p = record {
    tokens = ap (λ x. (push_literal m.literal_buf x).0) head;
    at =
        slide-cursor _
        ∙ cursor_path (omega arith) (sym (drop-drop m.pos 1 (m.pos + 1) m.carry refl))
            (ap (λ x. (push_literal m.literal_buf x).1) head);
    current = slide-IsCurrent m _ v p;
    configured = slide-IsConfigured (record m {
      literal_buf = (push_literal m.literal_buf (get_or m.carry m.pos 0)).1;
      pos = m.pos + 1;
    });
  }
    where
      head : get_or m.carry m.pos 0 ≡ get_or (drop m.pos m.carry) 0 0
      head = sym (get_or-drop m.pos 0 m.pos m.carry (omega arith))
  decide-Agrees m (some i) v p = record {
    tokens = refl;
    at = cursor_path (omega arith) (sym (drop-drop m.pos m.bs (m.pos + m.bs) m.carry refl)) refl;
    current = record { within = v.room; bytes = v.bytes; fresh = λ t. absurd (ground arith) };
    configured = record { table_eq = refl; signatures_eq = refl; bs_eq = refl };
  }

  -- The body of the loop from the state that `init_window` leaves.
  abbrev round_from : DeltaMatcher → List DeltaToken × DeltaMatcher
  round_from w = decide w (
      selected blake3 w.sig_table w.signatures w.bs (u64 (w.consumed + w.pos)) (digest w.rc)
        (window w))

  round_from-Agrees :
      (m : DeltaMatcher)
      → IsCurrent m
      → 0 < m.bs
      → m.pos + m.bs ≤ length m.carry
      → Agrees m.sig_table m.signatures m.bs
          (round_from (record m { rc = sums (window m); window_init = true }))
          (scan_round blake3 m.sig_table m.signatures m.bs (cursor m))
  unfolding scan_round checksum
  round_from-Agrees m v p h =
      subst
        (λ l.
          Agrees m.sig_table m.signatures m.bs
            (decide w (
              selected blake3 m.sig_table m.signatures m.bs (u64 (m.consumed + m.pos))
                (digest (sums l)) l))
            (scan_decide m.bs (cursor m) (
              selected blake3 m.sig_table m.signatures m.bs (u64 (m.consumed + m.pos))
                (digest (sums ahead)) ahead)))
        (sym (window_lem m.pos m.bs m.carry))
        (decide-Agrees w _
          (record { room = h; bytes = v.bytes; summed = ap sums (window_lem m.pos m.bs m.carry) })
          p)
    where
      ahead : List ℕ
      ahead = take m.bs (drop m.pos m.carry)

      w : DeltaMatcher
      w = record m { rc = sums (window m); window_init = true }

  process_round-Agrees :
      (m : DeltaMatcher)
      → IsCurrent m
      → 0 < m.bs
      → m.pos + m.bs ≤ length m.carry
      → Agrees m.sig_table m.signatures m.bs
          (process_round blake3 m)
          (scan_round blake3 m.sig_table m.signatures m.bs (cursor m))
  unfolding process_round
  process_round-Agrees m v p h =
      subst
        (λ w.
          Agrees m.sig_table m.signatures m.bs (round_from w)
            (scan_round blake3 m.sig_table m.signatures m.bs (cursor m)))
        (sym (init_window_lem m v)) (round_from-Agrees m v p h)

  -- The loop, for a matcher with the given configuration.
  module _ (table : SigTable) (signatures : List BlockSignature) (bs : ℕ) (pos : 0 < bs) where
    round-Agrees :
        (m : DeltaMatcher)
        → IsConfigured table signatures bs m
        → IsCurrent m
        → m.pos + m.bs ≤ length m.carry
        → Agrees table signatures bs
            (process_round blake3 m)
            (scan_round blake3 table signatures bs (cursor m))
    round-Agrees m k v h =
        subst
          (λ t.
            Agrees t signatures bs (process_round blake3 m)
              (scan_round blake3 t signatures bs (cursor m)))
          k.table_eq
          (subst
            (λ s.
              Agrees m.sig_table s bs (process_round blake3 m)
                (scan_round blake3 m.sig_table s bs (cursor m)))
            k.signatures_eq
            (subst
              (λ n.
                Agrees m.sig_table m.signatures n (process_round blake3 m)
                  (scan_round blake3 m.sig_table m.signatures n (cursor m)))
              k.bs_eq (process_round-Agrees m v (omega arith) h)))

    stop-Agrees :
        (m : DeltaMatcher)
        → length (drop m.pos m.carry) < bs
        → IsConfigured table signatures bs m
        → IsCurrent m
        → Agrees table signatures bs ([], m) (scan_all blake3 table signatures bs (cursor m))
    stop-Agrees m h k v =
        subst (Agrees table signatures bs ([], m))
          (sym (scan_all-stop blake3 table signatures bs pos (cursor m) h))
          (record { tokens = refl; at = refl; current = v; configured = k })

    -- A round, and what the loop does after it.
    next-Agrees :
        (m : DeltaMatcher) (r later : List DeltaToken × DeltaMatcher)
        → bs ≤ length (drop m.pos m.carry)
        → Agrees table signatures bs r (scan_round blake3 table signatures bs (cursor m))
        → Agrees table signatures bs later (scan_all blake3 table signatures bs (cursor r.1))
        → Agrees table signatures bs
            (r.0 ++ later.0, later.1)
            (scan_all blake3 table signatures bs (cursor m))
    next-Agrees m r later h a b =
        subst (Agrees table signatures bs (r.0 ++ later.0, later.1))
          (sym (scan_all-step blake3 table signatures bs pos (cursor m) h))
          (record {
            tokens =
                ap₂ ◌++◌ a.tokens
                  (b.tokens ∙ ap (λ c. (scan_all blake3 table signatures bs c).0) a.at);
            at = b.at ∙ ap (λ c. (scan_all blake3 table signatures bs c).1) a.at;
            current = b.current;
            configured = b.configured;
          })

    process_loop-Agrees :
        (fuel : ℕ) (m : DeltaMatcher)
        → length (drop m.pos m.carry) ≤ fuel
        → IsConfigured table signatures bs m
        → IsCurrent m
        → Agrees table signatures bs
            (process_loop blake3 fuel m)
            (scan_all blake3 table signatures bs (cursor m))
    unfolding process_loop
    process_loop-Agrees zero m h k v = stop-Agrees m (omega arith) k v
    process_loop-Agrees (suc fuel) m h k v =
        elim (Bool-cases (leb (m.pos + m.bs) (length m.carry))) [
          | inl go ↦
              let room : m.pos + m.bs ≤ length m.carry = leb→le _ _ go in
              let enough : bs ≤ length (drop m.pos m.carry) =
                omega (arith, length-drop m.pos m.carry, k.bs_eq) in
              let a = round-Agrees m k v room in
              let less : length
                    (drop (process_round blake3 m).1.pos (process_round blake3 m).1.carry)
                  ≤ fuel =
                subst (λ c. length c.rest ≤ fuel) (sym a.at)
                  (shorter blake3 table signatures bs pos fuel (cursor m) enough h) in
              rw (go, process_loop)
                (next-Agrees m (process_round blake3 m)
                  (process_loop blake3 fuel (process_round blake3 m).1) enough a
                  (process_loop-Agrees fuel (process_round blake3 m).1 less a.configured a.current))
          | inr stop ↦
              let short : length (drop m.pos m.carry) < bs =
                omega (arith, length-drop m.pos m.carry, leb-false _ _ stop, k.bs_eq, v.within) in
              rw (stop, process_loop) (stop-Agrees m short k v)
        ]

    -- `process` with its fuel: the whole scan.
    pub process-Agrees :
        (m : DeltaMatcher)
        → IsConfigured table signatures bs m
        → IsCurrent m
        → Agrees table signatures bs
            (process blake3 m)
            (scan_all blake3 table signatures bs (cursor m))
    unfolding process
    process-Agrees m k v =
        process_loop-Agrees (length m.carry) m (omega (arith, length-drop m.pos m.carry)) k v
