-- ===== src/SyncDelta/Matcher/Slide.antt =====
-- crates/sync-delta/src/matcher.rs: the window of `process` and its slide, on the bytes ahead.
use terrasync_rs.Base.{
  ℕ, zero, suc, ◌+◌, ◌-◌, ◌≤◌, ◌<◌, ◌≡◌, refl, sym, ap, ap₂, ◌∙◌, inl, inr, true, List, [], ◌∷◌,
  ◌++◌, All, length, take, drop, get_or, slice, length-drop, length-take, drop-drop, All-drop,
  All-take, leb, Bool-cases, leb→le, u64, arith,
}
use terrasync_rs.SyncDelta.Rolling.{sums, init, update}
use terrasync_rs.SyncDelta.Rolling.Sums.{IsByte}
use terrasync_rs.SyncDelta.Rolling.Window.{update-sums}
use terrasync_rs.SyncDelta.Tokens.{BlockSignature}
use terrasync_rs.SyncDelta.Matcher.{DeltaMatcher, window, init_window, slide}
use terrasync_rs.SyncDelta.Matcher.Table.{SigTable}
use terrasync_rs.SyncDelta.Matcher.Scan.{Cursor}

-- Where the matcher stands in the stream.
abbrev pub cursor : DeltaMatcher → Cursor
cursor m = record {
  position = u64 (m.consumed + m.pos);
  rest = drop m.pos m.carry;
  literal = m.literal_buf;
}

-- The parts of the matcher's state that only `new` writes.
pub record IsConfigured (table : SigTable) (signatures : List BlockSignature) (bs : ℕ)
    (m : DeltaMatcher) : Type 0 where
  pub table_eq : m.sig_table ≡ table
  pub signatures_eq : m.signatures ≡ signatures
  pub bs_eq : m.bs ≡ bs

-- `rc` stands for the current window whenever `window_init` says so.
pub record IsCurrent (m : DeltaMatcher) : Type 0 where
  pub within : m.pos ≤ length m.carry
  pub bytes : All IsByte m.carry
  pub fresh : m.window_init ≡ true → (m.pos + m.bs ≤ length m.carry) × (m.rc ≡ sums (window m))

-- The window at the front of the bytes ahead.
pub window_lem :
    (pos bs : ℕ) (carry : List ℕ) → slice pos (pos + bs) carry ≡ take bs (drop pos carry)
window_lem pos bs carry =
    let e : pos + bs - pos ≡ bs = omega arith in ap (λ n. take n (drop pos carry)) e

pub get_or-drop : (i j k : ℕ) (xs : List ℕ) → i + j ≡ k → get_or (drop i xs) j 0 ≡ get_or xs k 0
get_or-drop zero j k xs e = let e' : j ≡ k = omega arith in ap (λ n. get_or xs n 0) e'
get_or-drop (suc i) j k [] e = refl
get_or-drop (suc i) j zero (x ∷ xs) e = absurd (omega arith)
get_or-drop (suc i) j (suc k) (x ∷ xs) e = get_or-drop i j k xs (omega arith)

-- Once initialised, `rc` is the sum of the window.
pub init_window_lem :
    (m : DeltaMatcher)
    → IsCurrent m
    → init_window m ≡ record m { rc = sums (window m); window_init = true }
unfolding init_window init
init_window_lem m v = elim (Bool-cases m.window_init) [
  | inl e ↦ rw e (λ i. record m { rc = (v.fresh e).1 i; window_init = true })
  | inr e ↦ rw e
]

take-suc :
    (k : ℕ) (xs : List ℕ) → suc k ≤ length xs → take (suc k) xs ≡ take k xs ++ get_or xs k 0 ∷ []
take-suc k [] h = absurd (omega arith)
take-suc zero (x ∷ xs) h = refl
take-suc (suc k) (x ∷ xs) h = ap (◌∷◌ x) (take-suc k xs (omega arith))

get_or-IsByte : (k : ℕ) (xs : List ℕ) → All IsByte xs → IsByte (get_or xs k 0)
get_or-IsByte k [] h = omega arith
get_or-IsByte zero (x ∷ xs) h = h.0
get_or-IsByte (suc k) (x ∷ xs) h = get_or-IsByte k xs h.1

-- The slide from one window to the next, on the bytes ahead.
slide-sums :
    (bs : ℕ) (rest : List ℕ)
    → All IsByte rest
    → 0 < bs
    → suc bs ≤ length rest
    → update (sums (take bs rest)) (get_or rest 0 0) (get_or rest bs 0) bs
      ≡ sums (take bs (drop 1 rest))
slide-sums zero rest h p l = absurd (omega arith)
slide-sums (suc k) [] h p l = absurd (omega arith)
slide-sums (suc k) (x ∷ r) h p l =
    ap (update (sums (x ∷ take k r)) x (get_or r k 0)) full
    ∙ update-sums x (get_or r k 0) (take k r) h.0 (get_or-IsByte k r h.1) (All-take IsByte k r h.1)
    ∙ ap sums (sym (take-suc k r (omega arith)))
  where
    full : suc k ≡ suc (length (take k r))
    full = omega (arith, length-take k r)

-- A slide moves nothing.
pub slide-cursor : (m : DeltaMatcher) → cursor (slide m) ≡ cursor m
unfolding slide
slide-cursor m = elim (Bool-cases (leb (m.pos + m.bs) (length m.carry))) [
  | inl e ↦ rw e
  | inr e ↦ rw e
]

pub slide-IsConfigured : (m : DeltaMatcher) → IsConfigured m.sig_table m.signatures m.bs (slide m)
unfolding slide
slide-IsConfigured m = elim (Bool-cases (leb (m.pos + m.bs) (length m.carry))) [
  | inl e ↦ rw e (record { table_eq = refl; signatures_eq = refl; bs_eq = refl })
  | inr e ↦ rw e (record { table_eq = refl; signatures_eq = refl; bs_eq = refl })
]

-- The state at the top of the loop's body once the window is initialised.
pub record IsReady (m : DeltaMatcher) : Type 0 where
  pub room : m.pos + m.bs ≤ length m.carry
  pub bytes : All IsByte m.carry
  pub summed : m.rc ≡ sums (take m.bs (drop m.pos m.carry))

-- After the slide `rc` is the sum of the next window.
slid-sums :
    (m : DeltaMatcher)
    → IsReady m
    → 0 < m.bs
    → m.pos + 1 + m.bs ≤ length m.carry
    → update m.rc (get_or m.carry (m.pos + 1 - 1) 0) (get_or m.carry (m.pos + 1 + m.bs - 1) 0) m.bs
      ≡ sums (slice (m.pos + 1) (m.pos + 1 + m.bs) m.carry)
slid-sums m v p h =
    ap₂ (λ s x. update s x (get_or m.carry (m.pos + 1 + m.bs - 1) 0) m.bs) v.summed
      (sym (get_or-drop m.pos 0 (m.pos + 1 - 1) m.carry (omega arith)))
    ∙ ap (λ y. update (sums (take m.bs rest)) (get_or rest 0 0) y m.bs)
        (sym (get_or-drop m.pos m.bs (m.pos + 1 + m.bs - 1) m.carry (omega arith)))
    ∙ slide-sums m.bs rest (All-drop IsByte m.pos m.carry v.bytes) p
        (omega (arith, length-drop m.pos m.carry))
    ∙ ap (λ l. sums (take m.bs l)) (drop-drop m.pos 1 (m.pos + 1) m.carry refl)
    ∙ ap sums (sym (window_lem (m.pos + 1) m.bs m.carry))
  where
    rest : List ℕ
    rest = drop m.pos m.carry

pub slide-IsCurrent :
    (m : DeltaMatcher) (literal : List ℕ)
    → IsReady m
    → 0 < m.bs
    → IsCurrent (slide (record m { literal_buf = literal; pos = m.pos + 1 }))
unfolding slide
slide-IsCurrent m literal v p = elim (Bool-cases (leb (m.pos + 1 + m.bs) (length m.carry))) [
  | inl e ↦
      let h : m.pos + 1 + m.bs ≤ length m.carry = leb→le _ _ e in
      rw e (record { within = omega arith; bytes = v.bytes; fresh = λ _. (h, slid-sums m v p h) })
  | inr e ↦ rw e (record {
    within = omega (arith, v.room);
    bytes = v.bytes;
    fresh = λ t. absurd (ground arith);
  })
]
