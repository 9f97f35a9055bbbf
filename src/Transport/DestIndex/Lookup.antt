-- ===== src/Transport/DestIndex/Lookup.antt =====
-- crates/transport/src/message.rs: what a check finds after an insertion.
use terrasync_rs.Base.{
  ℕ, ◌≡◌, refl, ap, sym, ◌∙◌, Bool, true, false, List, [], ◌∷◌, Option, none, some, bytes_eq,
  bytes_eq→eq, if◌then◌else◌, Bool-cases, inl, inr,
}
use terrasync_rs.Transport.DestIndex.{
  Observed, DestIndex, has_path, slot, remove, get_key_value, insert, decision, decided, check,
}

module _ {E : Type 0} (observed : Observed E) where
  -- The removal of one path leaves what is found for another.
  get-remove :
      (old new : List ℕ) (l : List (E × Bool))
      → bytes_eq old new ≡ false
      → get_key_value observed new (remove observed old l) ≡ get_key_value observed new l
  unfolding get_key_value remove
  get-remove old new [] h = refl
  get-remove old new ((e, matched) ∷ l) h = elim (Bool-cases (has_path observed e old)) [
    | inl gone ↦
        let other : has_path observed e new ≡ false =
          ap (λ p. bytes_eq p new) (bytes_eq→eq (observed.path e) old gone) ∙ h in
        rw (gone, other) (get-remove old new l h)
    | inr kept ↦
        rw kept (ap (λ r. if has_path observed e new then some e else r) (get-remove old new l h))
  ]

  slot-insert :
      (index : DestIndex E) (e s : E)
      → observed.is_directory e ≡ observed.is_directory s
      → slot observed (insert observed e index) s
        ≡ (e, false) ∷ remove observed (observed.path e) (slot observed index s)
  unfolding insert
  slot-insert index e s kind = elim (Bool-cases (observed.is_directory s)) [
    | inl directory ↦
        let same : observed.is_directory e ≡ true = kind ∙ directory in rw (same, directory) refl
    | inr other ↦ let same : observed.is_directory e ≡ false = kind ∙ other in rw (same, other) refl
  ]

  decided-index :
      (i j : DestIndex E) (s : E) (o : Option E)
      → (decided observed i s o).0 ≡ (decided observed j s o).0
  unfolding decided
  decided-index i j s none = refl
  decided-index i j s (some e) = refl

  get-insert :
      (old new : List ℕ) (e : E) (l : List (E × Bool))
      → observed.path e ≡ old
      → get_key_value observed new ((e, false) ∷ remove observed old l)
        ≡ (if has_path observed e new then some e else get_key_value observed new l)
  unfolding get_key_value
  get-insert old new e l at = elim (Bool-cases (has_path observed e new)) [
    | inl same ↦ rw same refl
    | inr other ↦
        let apart : bytes_eq old new ≡ false = ap (λ p. bytes_eq p new) (sym at) ∙ other in
        rw other (get-remove old new l apart)
  ]

  decided-if :
      (i : DestIndex E) (s e : E) (b : Bool) (o : Option E)
      → (decided observed i s (if b then some e else o)).0
        ≡ (if b then decision observed s e else (decided observed i s o).0)
  unfolding decided
  decided-if i s e true o = refl
  decided-if i s e false o = refl

  -- A check after the insertion of an entry of the source's kind decides by that entry if it has
  -- the source's path, and as before the insertion otherwise.
  pub check-insert :
      (index : DestIndex E) (e s : E)
      → observed.is_directory e ≡ observed.is_directory s
      → (check observed (insert observed e index) s).0 ≡ (
          if has_path observed e (observed.path s)
          then decision observed s e
          else (check observed index s).0)
  unfolding check
  check-insert index e s kind =
      decided-index (insert observed e index) index s
        (get_key_value observed (observed.path s) (slot observed (insert observed e index) s))
      ∙ ap (λ l. (decided observed index s (get_key_value observed (observed.path s) l)).0)
          (slot-insert index e s kind)
      ∙ ap (λ o. (decided observed index s o).0)
          (get-insert (observed.path e) (observed.path s) e (slot observed index s) refl)
      ∙ decided-if index s e (has_path observed e (observed.path s))
          (get_key_value observed (observed.path s) (slot observed index s))
