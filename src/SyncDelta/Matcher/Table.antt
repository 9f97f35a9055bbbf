-- ===== src/SyncDelta/Matcher/Table.antt =====
-- crates/sync-delta/src/matcher.rs: the table from rolling checksums to blocks, and the choice of
-- the block that a window matches. A `HashMap` is an association list.
use terrasync_rs.Base.{
  ℕ, ◌+◌, ◌/◌, ◌%◌, ◌^◌, ◌≤◌, ◌<◌, ◌≡◌, refl, inl, inr, ◌∙◌, ◌&&◌, List, [], ◌∷◌, ◌++◌, Option,
  none, some, length, get_elem?, All, All-append, length-append, append_assoc, get_elem?-append,
  sym, ap, subst, ltb, ◌==◌, if◌then◌else◌, bytes_eq, bytes_eq→eq, Bool-cases, &&-true, some_eq,
  ==_iff, u32, arith,
}
use terrasync_rs.SyncDelta.Tokens.{BlockSignature, blake3_truncated}

abbrev pub Candidates : Type 0
Candidates = List (ℕ × BlockSignature)

abbrev pub SigTable : Type 0
SigTable = List (ℕ × Candidates)

unfoldable pub table_get : ℕ → SigTable → Option Candidates
table_get key [] = none
table_get key ((k, v) ∷ rest) = if k == key then some v else table_get key rest

-- `table.entry(key).or_default().push(c)`.
unfoldable pub table_push : ℕ → ℕ × BlockSignature → SigTable → SigTable
table_push key c [] = (key, c ∷ []) ∷ []
table_push key c ((k, v) ∷ rest) =
    if k == key then (k, v ++ c ∷ []) ∷ rest else (k, v) ∷ table_push key c rest

-- The loop over `signatures.iter().enumerate()`; the index is cast to `u32`.
unfoldable pub build_from : ℕ → List BlockSignature → SigTable → SigTable
unfolding table_push
build_from idx [] table = table
build_from idx (sig ∷ rest) table =
    build_from (idx + 1) rest (table_push sig.rolling (u32 idx, sig) table)

unfoldable pub build_sig_table : List BlockSignature → SigTable
unfolding build_from
build_sig_table signatures = build_from 0 signatures []

-- `signatures.get(index).is_some_and(..)` as a filter on the index.
unfoldable pub same_signature : List BlockSignature → ℕ → List ℕ → ℕ → Option ℕ
unfolding bytes_eq
same_signature signatures rolling strong index = elim (get_elem? signatures index) [
  | none ↦ none
  | some sig ↦ if sig.rolling == rolling && bytes_eq sig.strong strong then some index else none
]

-- The block of the basis file that stands where the window stands, if it has the same content.
unfoldable pub preferred : List BlockSignature → ℕ → ℕ → ℕ → List ℕ → Option ℕ
unfolding same_signature
preferred signatures bs position rolling strong =
    if position % bs == 0 && ltb (position / bs) (2 ^ 32)
    then same_signature signatures rolling strong (position / bs)
    else none

-- The first candidate with the strong hash.
unfoldable pub find_strong : List ℕ → Candidates → Option ℕ
unfolding bytes_eq
find_strong strong [] = none
find_strong strong ((index, sig) ∷ rest) =
    if bytes_eq sig.strong strong then some index else find_strong strong rest

abbrev or_else : Option ℕ → Option ℕ → Option ℕ
or_else none o = o
or_else (some a) o = some a

-- The block that a window at `position` matches.
unfoldable pub selected :
    (List ℕ → List ℕ) → SigTable → List BlockSignature → ℕ → ℕ → ℕ → List ℕ → Option ℕ
unfolding table_get preferred find_strong blake3_truncated
selected blake3 sig_table signatures bs position rolling window =
    elim (table_get rolling sig_table) [
      | none ↦ none
      | some candidates ↦
          let strong = blake3_truncated blake3 window in
          or_else (preferred signatures bs position rolling strong) (find_strong strong candidates)
    ]

module _ (signatures : List BlockSignature) where
  -- A candidate under `key` is a signature of the basis file with that rolling checksum.
  abbrev Entry : ℕ → ℕ × BlockSignature → Type 0
  Entry key c = (get_elem? signatures c.0 ≡ some c.1) × (c.1.rolling ≡ key)

  abbrev IsTable : SigTable → Type 0
  IsTable [] = Unit
  IsTable ((k, v) ∷ rest) = All (Entry k) v × IsTable rest

  table_push-IsTable :
      (key : ℕ) (c : ℕ × BlockSignature) (table : SigTable)
      → Entry key c
      → IsTable table
      → IsTable (table_push key c table)
  unfolding table_push
  table_push-IsTable key c [] e t = ((e, tt), tt)
  table_push-IsTable key c ((k, v) ∷ rest) e t = elim (Bool-cases (k == key)) [
    | inl hit ↦
        let same : key ≡ k = sym ((==_iff k key).0 hit) in
        rw hit (All-append (Entry k) v (c ∷ []) t.0 (subst (λ j. Entry j c) same e, tt), t.1)
    | inr miss ↦ rw miss (t.0, table_push-IsTable key c rest e t.1)
  ]

  build_from-IsTable :
      (seen rest : List BlockSignature) (idx : ℕ) (table : SigTable)
      → signatures ≡ seen ++ rest
      → idx ≡ length seen
      → length signatures ≤ 2 ^ 32
      → IsTable table
      → IsTable (build_from idx rest table)
  unfolding build_from
  build_from-IsTable seen [] idx table e i h t = t
  build_from-IsTable seen (sig ∷ rest) idx table e i h t =
      build_from-IsTable (seen ++ sig ∷ []) rest (idx + 1) _
        (e ∙ sym (append_assoc seen (sig ∷ []) rest)) (omega (arith, length-append seen (sig ∷ [])))
        h (table_push-IsTable sig.rolling (u32 idx, sig) table (found, refl) t)
    where
      in_range : idx < 2 ^ 32
      in_range =
          let total : length signatures ≡ length seen + length (sig ∷ rest) =
            ap length e ∙ length-append seen (sig ∷ rest) in
          omega arith

      found : get_elem? signatures (u32 idx) ≡ some sig
      found =
          let same : u32 idx ≡ idx = omega (arith, in_range) in
          rw same (ap (λ l. get_elem? l idx) e ∙ get_elem?-append seen sig rest idx i)

  table_get-Entry :
      (key : ℕ) (table : SigTable) (v : Candidates)
      → IsTable table
      → table_get key table ≡ some v
      → All (Entry key) v
  unfolding table_get
  table_get-Entry key [] v t e = absurd (ground arith)
  table_get-Entry key ((k, w) ∷ rest) v t e = elim (Bool-cases (k == key)) [
    | inl hit ↦
        subst (λ j. All (Entry j) v) ((==_iff k key).0 hit)
          (subst (All (Entry k)) (some_eq (rw hit at e)) t.0)
    | inr miss ↦ table_get-Entry key rest v t.1 (rw miss at e)
  ]

  -- The block that is chosen has the strong hash of the window.
  abbrev pub Chosen : List ℕ → ℕ → Type 0
  Chosen strong i =
      (sig : BlockSignature) × (get_elem? signatures i ≡ some sig) × (sig.strong ≡ strong)

  find_strong-Chosen :
      (key : ℕ) (strong : List ℕ) (v : Candidates) (i : ℕ)
      → All (Entry key) v
      → find_strong strong v ≡ some i
      → Chosen strong i
  unfolding find_strong
  find_strong-Chosen key strong [] i h e = absurd (ground arith)
  find_strong-Chosen key strong ((index, sig) ∷ rest) i h e =
      elim (Bool-cases (bytes_eq sig.strong strong)) [
        | inl hit ↦ (
          sig,
          subst (λ j. get_elem? signatures j ≡ some sig) (some_eq (rw hit at e)) h.0.0,
          bytes_eq→eq _ _ hit,
        )
        | inr miss ↦ find_strong-Chosen key strong rest i h.1 (rw miss at e)
      ]

  same_signature-Chosen :
      (rolling : ℕ) (strong : List ℕ) (index i : ℕ)
      → same_signature signatures rolling strong index ≡ some i
      → Chosen strong i
  unfolding same_signature
  same_signature-Chosen rolling strong index i e = go (get_elem? signatures index) refl e
    where
      go :
          (o : Option BlockSignature)
          → get_elem? signatures index ≡ o
          → (elim o [
            | none ↦ none
            | some sig ↦
                if sig.rolling == rolling && bytes_eq sig.strong strong then some index else none
          ])
            ≡ some i
          → Chosen strong i
      go none missing e' = absurd (ground arith)
      go (some sig) found e' =
          elim (Bool-cases (sig.rolling == rolling && bytes_eq sig.strong strong)) [
            | inl hit ↦ (
              sig,
              subst (λ j. get_elem? signatures j ≡ some sig) (some_eq (rw hit at e')) found,
              bytes_eq→eq _ _ (&&-true _ _ hit).1,
            )
            | inr miss ↦ absurd (ground arith)
          ]

  preferred-Chosen :
      (bs position rolling : ℕ) (strong : List ℕ) (i : ℕ)
      → preferred signatures bs position rolling strong ≡ some i
      → Chosen strong i
  unfolding preferred
  preferred-Chosen bs position rolling strong i e =
      elim (Bool-cases (position % bs == 0 && ltb (position / bs) (2 ^ 32))) [
        | inl aligned ↦ same_signature-Chosen rolling strong (position / bs) i (rw aligned at e)
        | inr other ↦ absurd (ground arith)
      ]

  or_else-Chosen :
      (strong : List ℕ) (a b : Option ℕ) (i : ℕ)
      → ((j : ℕ) → a ≡ some j → Chosen strong j)
      → ((j : ℕ) → b ≡ some j → Chosen strong j)
      → or_else a b ≡ some i
      → Chosen strong i
  or_else-Chosen strong none b i ha hb e = hb i e
  or_else-Chosen strong (some a) b i ha hb e = ha i e

  selected-table :
      (blake3 : List ℕ → List ℕ) (table : SigTable) (bs position rolling : ℕ) (window : List ℕ)
      (i : ℕ)
      → IsTable table
      → selected blake3 table signatures bs position rolling window ≡ some i
      → Chosen (blake3_truncated blake3 window) i
  unfolding selected
  selected-table blake3 table bs position rolling window i t e = go (table_get rolling table) refl e
    where
      strong : List ℕ
      strong = blake3_truncated blake3 window

      go :
          (o : Option Candidates)
          → table_get rolling table ≡ o
          → (elim o [
            | none ↦ none
            | some candidates ↦
                or_else
                  (preferred signatures bs position rolling strong)
                  (find_strong strong candidates)
          ])
            ≡ some i
          → Chosen strong i
      go none missing e' = absurd (ground arith)
      go (some candidates) found e' =
          or_else-Chosen strong _ _ i (λ j p. preferred-Chosen bs position rolling strong j p)
            (λ j p.
              find_strong-Chosen rolling strong candidates j
                (table_get-Entry rolling table candidates t found) p)
            e'

  -- A block that is chosen from the built table exists and has the strong hash of the window.
  pub selected-Chosen :
      (blake3 : List ℕ → List ℕ) (bs position rolling : ℕ) (window : List ℕ) (i : ℕ)
      → length signatures ≤ 2 ^ 32
      → selected blake3 (build_sig_table signatures) signatures bs position rolling window ≡ some i
      → Chosen (blake3_truncated blake3 window) i
  unfolding build_sig_table
  selected-Chosen blake3 bs position rolling window i h e =
      selected-table blake3 (build_sig_table signatures) bs position rolling window i
        (build_from-IsTable [] signatures 0 [] refl refl h tt) e
