-- ===== src/Advertisement/Pending.antt =====
-- crates/app/src/remote_advertisement.rs: a page of entries, and what the validator decodes of it.
use terrasync_rs.Base.{
  ℕ, suc, ◌+◌, ◌^◌, ◌<◌, true, some, List, [], ◌∷◌, ◌++◌, length, lt→ltb, ◌==◌, ==_iff, ◌≡◌, refl,
  sym, ap, ◌∙◌, subst, arith,
}
use terrasync_rs.Advertisement.{AdvertisedObservation, ok, Numbered, Snapshots, checked_next}
use terrasync_rs.Advertisement.Receiver.{with_entry, decoded_entry, decode_entries, extend}

pub checked_next-some : (n : ℕ) → n + 1 < 2 ^ 64 → checked_next n ≡ some (n + 1)
unfolding checked_next
checked_next-some n h = rw (lt→ltb (n + 1) (2 ^ 64) h) refl

module _ {E : Type 0} (snapshots : Snapshots E) where
  -- Observations with the numbers from `lo` on, and the entries that they are the snapshots of.
  abbrev pub IsPending : ℕ → List AdvertisedObservation → List (Numbered E) → Type 0
  IsPending lo [] [] = Unit
  IsPending lo [] (n ∷ ns) = ⊥
  IsPending lo (a ∷ pending) [] = ⊥
  IsPending lo (a ∷ pending) (n ∷ ns) =
      (a.ndx ≡ lo)
      × (n.ndx ≡ lo)
      × (a.snapshot ≡ snapshots.encode_snapshot n.entry)
      × IsPending (suc lo) pending ns

  pub IsPending-append :
      (lo : ℕ) (pending : List AdvertisedObservation) (held : List (Numbered E)) (e : E) (n : ℕ)
      → IsPending lo pending held
      → lo + length pending ≡ n
      → IsPending lo
          (pending ++ record { ndx = n; snapshot = snapshots.encode_snapshot e } ∷ [])
          (held ++ record { ndx = n; entry = e } ∷ [])
  IsPending-append lo [] [] e n is at = (omega (arith, at), omega (arith, at), refl, tt)
  IsPending-append lo [] (m ∷ ms) e n is at = absurd is
  IsPending-append lo (a ∷ pending) [] e n is at = absurd is
  IsPending-append lo (a ∷ pending) (m ∷ ms) e n is at =
      (is.0, is.1, is.2, IsPending-append (suc lo) pending ms e n is.3 (omega (arith, at)))

  pub extend-append :
      (held : List (Numbered E)) (n : Numbered E) (entries : List (Numbered E))
      → extend snapshots (held ++ n ∷ []) entries ≡ n ∷ extend snapshots held entries
  unfolding extend
  extend-append [] n entries = refl
  extend-append (m ∷ held) n entries = extend-append held n (m ∷ entries)

  module _ (back : (e : E) → snapshots.decode_snapshot (snapshots.encode_snapshot e) ≡ some e) where
    pub decode_entries-held :
        (lo : ℕ) (pending : List AdvertisedObservation) (held : List (Numbered E))
        → IsPending lo pending held
        → lo + length pending < 2 ^ 64
        → ((decode_entries snapshots pending lo).expected_ndx ≡ lo + length pending)
          × ((decode_entries snapshots pending lo).entries ≡ ok held)
    unfolding decode_entries decoded_entry
    decode_entries-held lo [] [] is below = (omega arith, refl)
    decode_entries-held lo [] (n ∷ ns) is below = absurd is
    decode_entries-held lo (a ∷ pending) [] is below = absurd is
    decode_entries-held lo (a ∷ pending) (n ∷ ns) is below =
        let rest =
          decode_entries-held (lo + 1) pending ns
            (subst (λ m. IsPending m pending ns) (omega arith) is.3) (omega (arith, below)) in
        let here : (a.ndx == lo) ≡ true = (==_iff a.ndx lo).1 is.0 in
        let reads : snapshots.decode_snapshot a.snapshot ≡ some n.entry =
          ap snapshots.decode_snapshot is.2 ∙ back n.entry in
        let same : record { ndx = lo; entry = n.entry } ≡ n =
          ap (λ m. record { ndx = m; entry = n.entry }) (sym is.1) in
        rw (here, reads, checked_next-some lo (omega (arith, below)))
          (rest.0 ∙ omega arith, ap (with_entry snapshots _) rest.1 ∙ ap (λ m. ok (m ∷ ns)) same)
