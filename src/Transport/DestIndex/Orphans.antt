-- ===== src/Transport/DestIndex/Orphans.antt =====
-- crates/transport/src/message.rs: which entries are left as orphans after a source's directory
-- has been checked.
use terrasync_rs.Base.{
  ℕ, ◌≡◌, refl, ap, ap₂, sym, ◌∙◌, ◌&&◌, ◌||◌, Bool, true, false, List, [], ◌∷◌, ◌++◌, Option, none,
  some, not, if◌then◌else◌, Bool-cases, inl, inr, arith,
}
use terrasync_rs.Transport.DestIndex.{
  Observed, DestIndex, has_path, slot, get_key_value, mark, decided, check, unmatched,
  orphaned_entries,
}

unfoldable pub filter : {A : Type 0} → (A → Bool) → List A → List A
filter p [] = []
filter p (x ∷ xs) = let rest = filter p xs in if p x then x ∷ rest else rest

filter_both :
    {A : Type 0} (p q : A → Bool) (xs : List A)
    → filter (λ x. not (q x)) (filter (λ x. not (p x)) xs) ≡ filter (λ x. not (p x || q x)) xs
unfolding filter
filter_both p q [] = refl
filter_both p q (x ∷ xs) = elim (Bool-cases (p x)) [
  | inl first ↦ rw first (filter_both p q xs)
  | inr later ↦ elim (Bool-cases (q x)) [
    | inl second ↦ rw (later, second) (filter_both p q xs)
    | inr neither ↦ rw (later, neither) (ap (λ r. x ∷ r) (filter_both p q xs))
  ]
]

filter_all : {A : Type 0} (xs : List A) → xs ≡ filter (λ x. true) xs
unfolding filter
filter_all [] = refl
filter_all (x ∷ xs) = ap (λ r. x ∷ r) (filter_all xs)

module _ {E : Type 0} (observed : Observed E) where
  -- A source of the given kind, directory or not, that has an entry's path.
  unfoldable pub names : Bool → E → E → Bool
  names directory source e =
      (if directory then observed.is_directory source else not (observed.is_directory source))
      && has_path observed e (observed.path source)

  -- Whether any of the sources does.
  unfoldable pub named : Bool → List E → E → Bool
  unfolding names
  named directory [] e = false
  named directory (s ∷ ss) e = names directory s e || named directory ss e

  unfoldable pub check_all : DestIndex E → List E → DestIndex E
  unfolding check
  check_all index [] = index
  check_all index (s ∷ ss) = check_all (check observed index s).1 ss

  unmatched-mark :
      (path : List ℕ) (l : List (E × Bool))
      → unmatched observed (mark observed path l)
        ≡ filter (λ e. not (has_path observed e path)) (unmatched observed l)
  unfolding unmatched mark filter
  unmatched-mark path [] = refl
  unmatched-mark path ((e, true) ∷ l) = elim (Bool-cases (has_path observed e path)) [
    | inl same ↦ rw same (unmatched-mark path l)
    | inr other ↦ rw other (unmatched-mark path l)
  ]
  unmatched-mark path ((e, false) ∷ l) = elim (Bool-cases (has_path observed e path)) [
    | inl same ↦ rw same (unmatched-mark path l)
    | inr other ↦ rw other (ap (λ r. e ∷ r) (unmatched-mark path l))
  ]

  -- Without an entry of the path there is nothing to mark.
  mark-none :
      (path : List ℕ) (l : List (E × Bool))
      → get_key_value observed path l ≡ none
      → mark observed path l ≡ l
  unfolding mark get_key_value
  mark-none path [] h = refl
  mark-none path ((e, matched) ∷ l) h = elim (Bool-cases (has_path observed e path)) [
    | inl same ↦ absurd (ground arith)
    | inr other ↦ rw other (ap (λ r. (e, matched) ∷ r) (mark-none path l (rw other at h)))
  ]

  marked_when : Bool → List ℕ → List (E × Bool) → List (E × Bool)
  marked_when b path l = if b then mark observed path l else l

  abbrev Marked : DestIndex E → E → DestIndex E → Type 0
  Marked index s after =
      (after.others ≡ marked_when (not (observed.is_directory s)) (observed.path s) index.others)
      × (after.directories
          ≡ marked_when (observed.is_directory s) (observed.path s) index.directories)

  decided-Marked :
      (index : DestIndex E) (s : E) (o : Option E)
      → get_key_value observed (observed.path s) (slot observed index s) ≡ o
      → Marked index s (decided observed index s o).1
  unfolding decided marked_when
  decided-Marked index s none missing = elim (Bool-cases (observed.is_directory s)) [
    | inl directory ↦
        rw directory
          (refl, sym (mark-none (observed.path s) index.directories (rw directory at missing)))
    | inr other ↦
        rw other (sym (mark-none (observed.path s) index.others (rw other at missing)), refl)
  ]
  decided-Marked index s (some e) found = elim (Bool-cases (observed.is_directory s)) [
    | inl directory ↦ rw directory (refl, refl)
    | inr other ↦ rw other (refl, refl)
  ]

  -- A check marks in the slot of the source's kind.
  check-Marked : (index : DestIndex E) (s : E) → Marked index s (check observed index s).1
  unfolding check
  check-Marked index s =
      decided-Marked index s (get_key_value observed (observed.path s) (slot observed index s)) refl

  unmatched-marked :
      (b : Bool) (path : List ℕ) (l : List (E × Bool))
      → unmatched observed (marked_when b path l)
        ≡ filter (λ e. not (b && has_path observed e path)) (unmatched observed l)
  unfolding marked_when
  unmatched-marked true path l = unmatched-mark path l
  unmatched-marked false path l = filter_all (unmatched observed l)

  -- After any sources have been checked, the orphans of an index are exactly those that it had
  -- before less, in each slot, the entries whose path is that of a checked source of the slot's
  -- kind.
  pub orphaned_entries-check_all :
      (index : DestIndex E) (sources : List E)
      → orphaned_entries observed (check_all index sources)
        ≡ filter (λ e. not (named false sources e)) (unmatched observed index.others)
          ++ filter (λ e. not (named true sources e)) (unmatched observed index.directories)
  unfolding orphaned_entries check_all named names
  orphaned_entries-check_all index [] =
      ap₂ (λ k l. k ++ l) (filter_all (unmatched observed index.others))
        (filter_all (unmatched observed index.directories))
  orphaned_entries-check_all index (s ∷ ss) =
      let (others, directories) = check-Marked index s in
      orphaned_entries-check_all (check observed index s).1 ss
      ∙ ap₂
          (λ k l.
            filter (λ e. not (named false ss e)) (unmatched observed k)
            ++ filter (λ e. not (named true ss e)) (unmatched observed l))
          others directories
      ∙ ap₂ (λ k l. filter (λ e. not (named false ss e)) k ++ filter (λ e. not (named true ss e)) l)
          (unmatched-marked (not (observed.is_directory s)) (observed.path s) index.others)
          (unmatched-marked (observed.is_directory s) (observed.path s) index.directories)
      ∙ ap₂ (λ k l. k ++ l)
          (filter_both (names false s) (named false ss) (unmatched observed index.others))
          (filter_both (names true s) (named true ss) (unmatched observed index.directories))
