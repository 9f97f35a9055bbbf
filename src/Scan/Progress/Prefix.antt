-- ===== src/Scan/Progress/Prefix.antt =====
-- crates/app/src/scan/progress.rs: proofs about the counts of the finished directories, those of the
-- active ones and the snapshot.
use terrasync_rs.Base.{
  ℕ, ◌+◌, ◌≤◌, true, false, not, ◌&&◌, Option, none, some, List, [], ◌∷◌, length, ◌==◌, bytes_eq,
  if-cases, Bool-cases, ◌≡◌, refl, sym, ap, ◌∙◌, subst, inl, inr, arith,
}
use terrasync_rs.Scan.Counts.{
  Kinds, KindLaws, max_u64, ScanCounts, complete, interrupted, unreadable, ListingOutcome,
  DirectoryStatistics, from_directory, ScanSnapshot, default, with_counts, snapshot_replace,
  restore_scan_counts, Counter, read, read-replace, read-default,
}
use terrasync_rs.Scan.Progress.{
  TraversalOrder, inside_a_block, unordered_checkpoint, Active, ScanProgress, is_blocks, other_key,
  active_get, active_remove, is_out_of_order, Outcome, Checked, ok, err, new, previous_counts,
  settled, push, is_idle, checkpoint_counts, confirm, finish, restored, resumed, checkpoint_eq,
  some_checkpoint,
}

module _ {K : Type 0} {kinds : Kinds K} (laws : KindLaws kinds) where
  -- One counter, over the active directories.
  abbrev pub active_sum : Counter → List (Active K) → ℕ
  active_sum k [] = 0
  active_sum k (a ∷ active) = read laws k a.counts + active_sum k active

  -- Taking a path out takes what it had counted, which is nothing if it was not there.
  active_sum-remove :
      (k : Counter) (key : List ℕ) (active : List (Active K))
      → active_sum k active
        ≡ read laws k (previous_counts kinds (active_get key active))
          + active_sum k (active_remove key active)
  unfolding active_get active_remove previous_counts
  active_sum-remove k key [] = omega (arith, read-default laws k)
  active_sum-remove k key (a ∷ active) = elim (Bool-cases (bytes_eq a.path key)) [
    | inl here ↦ rw here refl
    | inr there ↦ rw there (omega (arith, active_sum-remove k key active))
  ]

  -- The counts after a directory has been pushed are still numbers of 64 bits.
  abbrev pub Fits : ScanProgress K → DirectoryStatistics K → Type 0
  Fits p value =
      (k : Counter)
      → read laws k p.complete_prefix
          + active_sum k (active_remove value.path p.active)
          + read laws k (from_directory value)
        ≤ max_u64

  -- A scan that begins with the counts of its initial checkpoint, and the calls that return no error.
  pub data Reachable : ScanProgress K → ScanSnapshot K → Type 0 where
    starts :
        (order : TraversalOrder) (cursor : Option (List ℕ)) (snapshot : ScanSnapshot K)
        → Reachable (new kinds order snapshot.counts cursor) snapshot
    pushes :
        (p q : ScanProgress K) (s t : ScanSnapshot K) (value : DirectoryStatistics K)
        → Reachable p s
        → Fits p value
        → push kinds value p s ≡ record { progress = q; snapshot = t; error = none }
        → Reachable q t
    confirms :
        (p : ScanProgress K) (s : ScanSnapshot K) (cursor : List ℕ)
        → Reachable p s
        → Reachable (confirm kinds cursor p) s
    resumes :
        (p q : ScanProgress K) (s t : ScanSnapshot K) (selected : Option (List ℕ))
        → Reachable p s
        → resumed kinds selected p s ≡ record { progress = q; snapshot = t; error = none }
        → Reachable q t

  abbrev Sound : ScanProgress K → ScanSnapshot K → Type 0
  Sound p s =
      (k : Counter) → read laws k s.counts ≡ read laws k p.complete_prefix + active_sum k p.active

  -- A call that returns an error is free to leave any state.
  abbrev SoundOutcome : Outcome K → Type 0
  SoundOutcome o = o.error ≡ none → Sound o.progress o.snapshot

  settled-Sound :
      (outcome : Option ListingOutcome) (value : DirectoryStatistics K) (p : ScanProgress K)
      (s : ScanSnapshot K)
      → ((k : Counter)
          → read laws k s.counts
            ≡ read laws k p.complete_prefix
              + active_sum k p.active
              + read laws k (from_directory value))
      → ((k : Counter)
          → read laws k p.complete_prefix
              + active_sum k p.active
              + read laws k (from_directory value)
            ≤ max_u64)
      → SoundOutcome (settled kinds outcome value p s)
  unfolding settled
  settled-Sound (some complete) value p s h fits e k =
      if-cases SoundOutcome (kinds.total value.failed == 0) _ _
        (λ clean none_yet j.
          h j
          ∙ omega (
            arith,
            fits j,
            read-default laws j,
            read-replace laws j p.complete_prefix (default kinds) (from_directory value),
          ))
        (λ failures bad. absurd (ground (arith, bad))) e k
  settled-Sound (some interrupted) value p s h fits e k = absurd (ground (arith, e))
  settled-Sound (some unreadable) value p s h fits e k = absurd (ground (arith, e))
  settled-Sound none value p s h fits e k = omega (arith, h k)

  push-Sound :
      (value : DirectoryStatistics K) (p : ScanProgress K) (s : ScanSnapshot K)
      → Sound p s
      → Fits p value
      → SoundOutcome (push kinds value p s)
  unfolding push snapshot_replace with_counts
  push-Sound value p s sound fits =
      if-cases SoundOutcome (is_blocks p.order && other_key value.path p.active) _ _
        (λ mixed e. absurd (ground (arith, e)))
        (λ alone.
          if-cases SoundOutcome (is_out_of_order value (active_get value.path p.active)) _ _
            (λ late e. absurd (ground (arith, e)))
            (λ next.
              settled-Sound value.outcome value
                (record p { active = active_remove value.path p.active }) _
                (λ k.
                  read-replace laws k s.counts
                    (previous_counts kinds (active_get value.path p.active)) (from_directory value)
                  ∙ omega (arith, sound k, fits k, active_sum-remove k value.path p.active))
                fits))

  restored-Sound :
      (counts : ScanCounts K) (p : ScanProgress K) (s : ScanSnapshot K)
      → SoundOutcome (restored kinds counts p s)
  unfolding restored restore_scan_counts
  restored-Sound counts p s e k = omega arith

  resumed-Sound :
      (selected : Option (List ℕ)) (p : ScanProgress K) (s : ScanSnapshot K)
      → SoundOutcome (resumed kinds selected p s)
  unfolding resumed
  resumed-Sound selected p s =
      if-cases SoundOutcome (is_blocks p.order) _ _
        (λ in_blocks.
          if-cases SoundOutcome (not (checkpoint_eq selected p.cursor)) _ _
            (λ differs e. absurd (ground (arith, e))) (λ same. restored-Sound p.confirmed p s))
        (λ freely.
          if-cases SoundOutcome (some_checkpoint kinds selected) _ _
            (λ given e. absurd (ground (arith, e))) (λ root. restored-Sound (default kinds) p s))

  -- Every counter of the snapshot is that of the complete prefix and those of the active directories
  -- together.
  pub Reachable-prefix :
      (p : ScanProgress K) (s : ScanSnapshot K)
      → Reachable p s
      → (k : Counter) → read laws k s.counts ≡ read laws k p.complete_prefix + active_sum k p.active
  unfolding new confirm
  Reachable-prefix p s (starts order cursor snapshot) k = omega arith
  Reachable-prefix p s (pushes p0 q s0 t value r fits e) k =
      subst SoundOutcome e (push-Sound value p0 s0 (Reachable-prefix p0 s0 r) fits) refl k
  Reachable-prefix p s (confirms p0 s0 cursor r) k = Reachable-prefix p0 s0 r k
  Reachable-prefix p s (resumes p0 q s0 t selected r e) k =
      subst SoundOutcome e (resumed-Sound selected p0 s0) refl k

  -- In blocks, one directory at most is active.
  Alone : ScanProgress K → Type 0
  Alone p = is_blocks p.order ≡ true → length p.active ≤ 1

  abbrev AloneOutcome : Outcome K → Type 0
  AloneOutcome o = Alone o.progress

  remove-alone :
      (key : List ℕ) (active : List (Active K))
      → length active ≤ 1
      → other_key key active ≡ false
      → length (active_remove key active) ≡ 0
  unfolding active_remove other_key
  remove-alone key [] le h = refl
  remove-alone key (a ∷ []) le h = elim (Bool-cases (bytes_eq a.path key)) [
    | inl same ↦ rw same refl
    | inr other ↦ absurd (let clash : true ≡ false = rw other at h in ground arith)
  ]
  remove-alone key (a ∷ b ∷ active) le h = absurd (omega arith)

  remove-length :
      (key : List ℕ) (active : List (Active K)) → length (active_remove key active) ≤ length active
  unfolding active_remove
  remove-length key [] = omega arith
  remove-length key (a ∷ active) = elim (Bool-cases (bytes_eq a.path key)) [
    | inl same ↦ rw same (omega arith)
    | inr other ↦ rw other (omega (arith, remove-length key active))
  ]

  settled-Alone :
      (outcome : Option ListingOutcome) (value : DirectoryStatistics K) (p : ScanProgress K)
      (s : ScanSnapshot K)
      → (is_blocks p.order ≡ true → length p.active ≡ 0)
      → AloneOutcome (settled kinds outcome value p s)
  unfolding settled Alone
  settled-Alone (some complete) value p s none_yet in_blocks =
      if-cases AloneOutcome (kinds.total value.failed == 0) _ _
        (λ clean b. omega (arith, none_yet b)) (λ failures b. omega (arith, none_yet b)) in_blocks
  settled-Alone (some interrupted) value p s none_yet in_blocks = omega (arith, none_yet in_blocks)
  settled-Alone (some unreadable) value p s none_yet in_blocks = omega (arith, none_yet in_blocks)
  settled-Alone none value p s none_yet in_blocks = omega (arith, none_yet in_blocks)

  push-Alone :
      (value : DirectoryStatistics K) (p : ScanProgress K) (s : ScanSnapshot K)
      → Alone p
      → AloneOutcome (push kinds value p s)
  unfolding push Alone
  push-Alone value p s alone =
      if-cases AloneOutcome (is_blocks p.order && other_key value.path p.active) _ _
        (λ mixed. alone)
        (λ single.
          let emptied : is_blocks p.order ≡ true → length (active_remove value.path p.active) ≡ 0 =
            λ in_blocks.
              remove-alone value.path p.active (alone in_blocks) (ground (arith, single)) in
          if-cases AloneOutcome (is_out_of_order value (active_get value.path p.active)) _ _
            (λ late in_blocks. omega (arith, emptied in_blocks))
            (λ next.
              settled-Alone value.outcome value
                (record p { active = active_remove value.path p.active }) _ emptied))

  resumed-Alone :
      (selected : Option (List ℕ)) (p : ScanProgress K) (s : ScanSnapshot K)
      → Alone p
      → AloneOutcome (resumed kinds selected p s)
  unfolding resumed restored Alone
  resumed-Alone selected p s alone =
      if-cases AloneOutcome (is_blocks p.order) _ _
        (λ in_blocks.
          if-cases AloneOutcome (not (checkpoint_eq selected p.cursor)) _ _ (λ differs. alone)
            (λ same b. omega arith))
        (λ freely.
          if-cases AloneOutcome (some_checkpoint kinds selected) _ _ (λ given. alone)
            (λ root b. omega arith))

  pub Reachable-length :
      (p : ScanProgress K) (s : ScanSnapshot K)
      → Reachable p s
      → is_blocks p.order ≡ true
      → length p.active ≤ 1
  unfolding new confirm Alone
  Reachable-length p s (starts order cursor snapshot) in_blocks = omega arith
  Reachable-length p s (pushes p0 q s0 t value r fits e) in_blocks =
      subst AloneOutcome e (push-Alone value p0 s0 (Reachable-length p0 s0 r)) in_blocks
  Reachable-length p s (confirms p0 s0 cursor r) in_blocks = Reachable-length p0 s0 r in_blocks
  Reachable-length p s (resumes p0 q s0 t selected r e) in_blocks =
      subst AloneOutcome e (resumed-Alone selected p0 s0 (Reachable-length p0 s0 r)) in_blocks

  is_idle-nil : (active : List (Active K)) → is_idle kinds active ≡ true → active ≡ []
  unfolding is_idle
  is_idle-nil [] h = refl
  is_idle-nil (a ∷ active) h = absurd (ground arith)

  checked_or : ScanCounts K → Checked (ScanCounts K) → ScanCounts K
  checked_or c (ok d) = d
  checked_or c (err e) = c

  checkpoint-parts :
      (p : ScanProgress K) (c : ScanCounts K)
      → checkpoint_counts kinds p ≡ ok c
      → (is_blocks p.order ≡ true) × (is_idle kinds p.active ≡ true) × (p.complete_prefix ≡ c)
  unfolding checkpoint_counts checked_or
  checkpoint-parts p c e = elim (Bool-cases (is_blocks p.order)) [
    | inl in_blocks ↦ elim (Bool-cases (is_idle kinds p.active)) [
      | inl idle ↦ (in_blocks, idle, ap (checked_or c) (rw (in_blocks, idle) at e))
      | inr busy ↦
          absurd (let clash : err inside_a_block ≡ ok c = rw (in_blocks, busy) at e in ground arith)
    ]
    | inr freely ↦
        absurd (let clash : err unordered_checkpoint ≡ ok c = rw freely at e in ground arith)
  ]

  -- After any calls without an error, from a scan that starts with the counts of its snapshot,
  -- and as long as no counter exceeds 64 bits, when checkpoint_counts returns counts they are,
  -- counter by counter, those of the snapshot, and finish finds no unfinished directory: a
  -- checkpoint never holds half a directory.
  pub Reachable-checkpoint :
      (p : ScanProgress K) (s : ScanSnapshot K) (c : ScanCounts K) (k : Counter)
      → Reachable p s
      → checkpoint_counts kinds p ≡ ok c
      → (read laws k c ≡ read laws k s.counts) × (finish kinds p ≡ none)
  unfolding finish
  Reachable-checkpoint p s c k r e =
      let parts = checkpoint-parts p c e in
      let none_left = ap (active_sum k) (is_idle-nil p.active parts.1) in
      (
        ap (read laws k) (sym parts.2) ∙ omega (arith, none_left, Reachable-prefix p s r k),
        rw (parts.1) refl,
      )
