-- ===== src/SyncDelta/Matcher/Feed.antt =====
-- crates/sync-delta/src/matcher.rs: the two ends of `push`, the bytes that arrive and `compact`.
use terrasync_rs.Base.{
  ℕ, ◌+◌, ◌≤◌, ◌≡◌, refl, sym, ap, ◌∙◌, inl, inr, List, ◌++◌, All, All-append, All-drop, length,
  take, drop, length-drop, length-append, take-append, drop-append, ltb, Bool-cases, u64, arith,
}
use terrasync_rs.SyncDelta.Rolling.{sums}
use terrasync_rs.SyncDelta.Rolling.Sums.{IsByte}
use terrasync_rs.SyncDelta.Tokens.{BlockSignature}
use terrasync_rs.SyncDelta.Matcher.{DeltaMatcher, compact}
use terrasync_rs.SyncDelta.Matcher.Table.{SigTable}
use terrasync_rs.SyncDelta.Matcher.Scan.{extend}
use terrasync_rs.SyncDelta.Matcher.Slide.{cursor, IsConfigured, IsCurrent, window_lem}

-- The bytes that arrive stand behind those in `carry`.
unfoldable pub feed : DeltaMatcher → List ℕ → DeltaMatcher
feed m bytes = record m { carry = m.carry ++ bytes }

pub cursor-feed :
    (m : DeltaMatcher) (bytes : List ℕ)
    → m.pos ≤ length m.carry
    → cursor (feed m bytes) ≡ extend (cursor m) bytes
unfolding feed
cursor-feed m bytes h =
    ap (λ l. record { position = u64 (m.consumed + m.pos); rest = l; literal = m.literal_buf })
      (drop-append m.pos m.carry bytes h)

pub feed-IsCurrent :
    (m : DeltaMatcher) (bytes : List ℕ) → IsCurrent m → All IsByte bytes → IsCurrent (feed m bytes)
unfolding feed
feed-IsCurrent m bytes v b = record {
  within = omega (arith, length-append m.carry bytes);
  bytes = All-append IsByte m.carry bytes v.bytes b;
  fresh = λ t. (
    omega (arith, length-append m.carry bytes, (v.fresh t).0),
    (v.fresh t).1
        ∙ ap sums (
            window_lem m.pos m.bs m.carry
            ∙ sym (
                window_lem m.pos m.bs (m.carry ++ bytes)
                ∙ ap (take m.bs) (drop-append m.pos m.carry bytes v.within)
                ∙ take-append m.bs (drop m.pos m.carry) bytes
                    (omega (arith, length-drop m.pos m.carry, (v.fresh t).0)))),
  );
}

-- What `compact` makes of a matcher with something to drop.
compacted : DeltaMatcher → DeltaMatcher
compacted m = record m { consumed = u64 (m.consumed + m.pos); carry = drop m.pos m.carry; pos = 0 }

compact_cases {ℓ} :
    (P : DeltaMatcher → Type ℓ) (m : DeltaMatcher) → P m → P (compacted m) → P (compact m)
unfolding compact compacted
compact_cases P m a b = elim (Bool-cases (ltb 0 m.pos)) [
  | inl e ↦ rw (e, compact) b
  | inr e ↦ rw (e, compact) a
]

pub cursor-compact : (m : DeltaMatcher) → cursor (compact m) ≡ cursor m
cursor-compact m = compact_cases (λ n. cursor n ≡ cursor m) m refl same
  where
    same : cursor (compacted m) ≡ cursor m
    same =
        unfold compacted in
        λ i. record {
          position =
              (let e : u64 (u64 (m.consumed + m.pos) + 0) ≡ u64 (m.consumed + m.pos) =
                    omega arith in
                  e)
                i;
          rest = drop m.pos m.carry;
          literal = m.literal_buf;
        }

pub compact-IsCurrent : (m : DeltaMatcher) → IsCurrent m → IsCurrent (compact m)
compact-IsCurrent m v = compact_cases IsCurrent m v made
  where
    made : IsCurrent (compacted m)
    made =
        unfold compacted in
        record {
          within = omega arith;
          bytes = All-drop IsByte m.pos m.carry v.bytes;
          fresh = λ t. (
            omega (arith, length-drop m.pos m.carry, (v.fresh t).0),
            (v.fresh t).1
                ∙ ap sums
                    (window_lem m.pos m.bs m.carry ∙ sym (window_lem 0 m.bs (drop m.pos m.carry))),
          );
        }

pub compact-IsConfigured :
    (table : SigTable) (signatures : List BlockSignature) (bs : ℕ) (m : DeltaMatcher)
    → IsConfigured table signatures bs m
    → IsConfigured table signatures bs (compact m)
compact-IsConfigured table signatures bs m k =
    compact_cases (IsConfigured table signatures bs) m k (
      unfold compacted in
      record { table_eq = k.table_eq; signatures_eq = k.signatures_eq; bs_eq = k.bs_eq })
