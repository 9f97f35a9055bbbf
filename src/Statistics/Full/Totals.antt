-- ===== src/Statistics/Full/Totals.antt =====
-- crates/app/src/consumer/stats/accumulator.rs: what `FullStats` holds after any entries, against a
-- plain count of them.
use terrasync_rs.Base.{
  ℕ, suc, ◌+◌, List, [], ◌∷◌, ◌++◌, length, All, Bool, true, false, ◌==◌, ◌≡◌, refl, sym, ap, ◌∙◌,
  subst, inl, inr, Bool-cases, u64, arith,
}
use terrasync_rs.Statistics.{EntryStatistics, wrapping_add}
use terrasync_rs.Statistics.Ranges.{size_index, time_index}
use terrasync_rs.Statistics.Counters.{error_total}
use terrasync_rs.Statistics.Full.{
  Share, observe, FullStats, new_stats, full_count, full_size, update_name, update_kind, Observer,
  update_distributions, update, update_all,
}

-- A whole distribution: the sum of its counts, and that of its sizes.
abbrev pub share_count : {K : Type 0} → List (Share K) → ℕ
share_count [] = 0
share_count (x ∷ xs) = wrapping_add x.count (share_count xs)

abbrev pub share_size : {K : Type 0} → List (Share K) → ℕ
share_size [] = 0
share_size (x ∷ xs) = wrapping_add x.size (share_size xs)

observe-share :
    {K : Type 0} (same : K → K → Bool) (k : K) (size : ℕ) (xs : List (Share K))
    → (share_count (observe same k size xs) ≡ wrapping_add (share_count xs) 1)
      × (share_size (observe same k size xs) ≡ wrapping_add (share_size xs) size)
unfolding observe
observe-share same k size [] = (omega arith, omega arith)
observe-share same k size (x ∷ xs) = elim (Bool-cases (same x.key k)) [
  | inl here ↦ rw here (omega arith, omega arith)
  | inr there ↦
      let later = observe-share same k size xs in
      rw there (omega (arith, later.0), omega (arith, later.1))
]

abbrev pub sum_sizes : List EntryStatistics → ℕ
sum_sizes [] = 0
sum_sizes (entry ∷ entries) = entry.size + sum_sizes entries

pub sum_sizes-append :
    (xs ys : List EntryStatistics) → sum_sizes (xs ++ ys) ≡ sum_sizes xs + sum_sizes ys
sum_sizes-append [] ys = omega arith
sum_sizes-append (a ∷ xs) ys = omega (arith, sum_sizes-append xs ys)

-- A regular file is neither a directory nor a symbolic link.
abbrev pub IsKind : EntryStatistics → Type 0
IsKind entry = entry.is_regular_file ≡ true → (entry.is_dir ≡ false) × (entry.is_symlink ≡ false)

-- The counters of a job against the number and the sizes of the entries that it saw.
pub record Tally (seen sizes errors : ℕ) (s : FullStats) : Type 0 where
  pub count : full_count s ≡ u64 seen
  pub size : full_size s ≡ u64 sizes
  pub time_count : share_count s.time_range_stats ≡ u64 seen
  pub time_size : share_size s.time_range_stats ≡ u64 sizes
  pub regular_count : share_count s.file_size_range_stats ≡ s.regular_file_count
  pub regular_size : share_size s.file_size_range_stats ≡ s.regular_file_size
  pub error_count : error_total s.error_stats ≡ u64 errors

pub new_stats-Tally : Tally 0 0 0 new_stats
unfolding new_stats full_count full_size error_total
new_stats-Tally = record {
  count = refl;
  size = refl;
  time_count = refl;
  time_size = refl;
  regular_count = refl;
  regular_size = refl;
  error_count = refl;
}

-- The counters by kind go up by one entry; the distributions and the errors stay.
update_kind-counts :
    (entry : EntryStatistics) (s : FullStats)
    → (full_count (update_kind entry s) ≡ wrapping_add (full_count s) 1)
      × (full_size (update_kind entry s) ≡ wrapping_add (full_size s) entry.size)
unfolding update_kind full_count full_size
update_kind-counts entry s = elim (Bool-cases entry.is_dir) [
  | inl dir ↦ rw dir (omega arith, omega arith)
  | inr other ↦ elim (Bool-cases entry.is_symlink) [
    | inl link ↦ rw (other, link) (omega arith, omega arith)
    | inr neither ↦ elim (Bool-cases entry.is_regular_file) [
      | inl regular ↦ rw (other, neither, regular) (omega arith, omega arith)
      | inr special ↦ rw (other, neither, special) (omega arith, omega arith)
    ]
  ]
]

update_kind-keeps :
    (entry : EntryStatistics) (s : FullStats)
    → ((update_kind entry s).time_range_stats ≡ s.time_range_stats)
      × ((update_kind entry s).file_size_range_stats ≡ s.file_size_range_stats)
      × ((update_kind entry s).error_stats ≡ s.error_stats)
unfolding update_kind
update_kind-keeps entry s = elim (Bool-cases entry.is_dir) [
  | inl dir ↦ rw dir (refl, refl, refl)
  | inr other ↦ elim (Bool-cases entry.is_symlink) [
    | inl link ↦ rw (other, link) (refl, refl, refl)
    | inr neither ↦ elim (Bool-cases entry.is_regular_file) [
      | inl regular ↦ rw (other, neither, regular) (refl, refl, refl)
      | inr special ↦ rw (other, neither, special) (refl, refl, refl)
    ]
  ]
]

update_kind-regular :
    (entry : EntryStatistics) (s : FullStats)
    → IsKind entry
    → entry.is_regular_file ≡ true
    → ((update_kind entry s).regular_file_count ≡ wrapping_add s.regular_file_count 1)
      × ((update_kind entry s).regular_file_size ≡ wrapping_add s.regular_file_size entry.size)
unfolding update_kind
update_kind-regular entry s kind regular =
    rw ((kind regular).0, (kind regular).1, regular) (refl, refl)

update_kind-irregular :
    (entry : EntryStatistics) (s : FullStats)
    → entry.is_regular_file ≡ false
    → ((update_kind entry s).regular_file_count ≡ s.regular_file_count)
      × ((update_kind entry s).regular_file_size ≡ s.regular_file_size)
unfolding update_kind
update_kind-irregular entry s irregular = elim (Bool-cases entry.is_dir) [
  | inl dir ↦ rw dir (refl, refl)
  | inr other ↦ elim (Bool-cases entry.is_symlink) [
    | inl link ↦ rw (other, link) (refl, refl)
    | inr neither ↦ rw (other, neither, irregular) (refl, refl)
  ]
]

pub Tally-at :
    {seen sizes errors : ℕ} (seen' sizes' errors' : ℕ) (s : FullStats)
    → seen ≡ seen'
    → sizes ≡ sizes'
    → errors ≡ errors'
    → Tally seen sizes errors s
    → Tally seen' sizes' errors' s
Tally-at {seen = seen} {sizes = sizes} seen' sizes' errors' s p q r t =
    subst (λ n. Tally n sizes' errors' s) p
      (subst (λ k. Tally seen k errors' s) q (subst (λ e. Tally seen sizes e s) r t))

module _ (observer : Observer) where
  -- What the two ways through `update_distributions` do to the counters and the distributions.
  distributions-keep :
      (entry : EntryStatistics) (regular : Bool) (s : FullStats)
      → (full_count (update_distributions observer entry regular s) ≡ full_count s)
        × (full_size (update_distributions observer entry regular s) ≡ full_size s)
        × ((update_distributions observer entry regular s).regular_file_count
            ≡ s.regular_file_count)
        × ((update_distributions observer entry regular s).regular_file_size ≡ s.regular_file_size)
        × ((update_distributions observer entry regular s).error_stats ≡ s.error_stats)
  unfolding update_distributions full_count full_size
  distributions-keep entry true s = (refl, refl, refl, refl, refl)
  distributions-keep entry false s = (refl, refl, refl, refl, refl)

  distributions-time :
      (entry : EntryStatistics) (regular : Bool) (s : FullStats)
      → (share_count (update_distributions observer entry regular s).time_range_stats
          ≡ wrapping_add (share_count s.time_range_stats) 1)
        × (share_size (update_distributions observer entry regular s).time_range_stats
            ≡ wrapping_add (share_size s.time_range_stats) entry.size)
  unfolding update_distributions
  distributions-time entry true s =
      observe-share (λ a b. time_index a == time_index b) _ entry.size s.time_range_stats
  distributions-time entry false s =
      observe-share (λ a b. time_index a == time_index b) _ entry.size s.time_range_stats

  distributions-regular :
      (entry : EntryStatistics) (s : FullStats)
      → (share_count (update_distributions observer entry true s).file_size_range_stats
          ≡ wrapping_add (share_count s.file_size_range_stats) 1)
        × (share_size (update_distributions observer entry true s).file_size_range_stats
            ≡ wrapping_add (share_size s.file_size_range_stats) entry.size)
  unfolding update_distributions
  distributions-regular entry s =
      observe-share (λ a b. size_index a == size_index b) _ entry.size s.file_size_range_stats

  distributions-irregular :
      (entry : EntryStatistics) (s : FullStats)
      → (update_distributions observer entry false s).file_size_range_stats
        ≡ s.file_size_range_stats
  unfolding update_distributions
  distributions-irregular entry s = refl

  -- The distribution of the sizes and the counters of regular files go up together.
  Agree : FullStats → Type 0
  Agree s =
      (share_count s.file_size_range_stats ≡ s.regular_file_count)
      × (share_size s.file_size_range_stats ≡ s.regular_file_size)

  update-Agree :
      (entry : EntryStatistics) (s : FullStats) (regular : Bool)
      → IsKind entry
      → entry.is_regular_file ≡ regular
      → Agree s
      → Agree (update_distributions observer entry regular (update_kind entry s))
  unfolding Agree
  update-Agree entry s true kind is agree =
      let keeps = distributions-keep entry true (update_kind entry s) in
      let ups = update_kind-regular entry s kind is in
      let grows = distributions-regular entry (update_kind entry s) in
      let same = (update_kind-keeps entry s).1 in
      (
        grows.0
            ∙ ap (λ d. wrapping_add (share_count d) 1) same
            ∙ ap (λ n. wrapping_add n 1) agree.0
            ∙ sym (keeps.2 ∙ ups.0),
        grows.1
            ∙ ap (λ d. wrapping_add (share_size d) entry.size) same
            ∙ ap (λ n. wrapping_add n entry.size) agree.1
            ∙ sym (keeps.3 ∙ ups.1),
      )
  update-Agree entry s false kind is agree =
      let keeps = distributions-keep entry false (update_kind entry s) in
      let stays = update_kind-irregular entry s is in
      let same =
        distributions-irregular entry (update_kind entry s) ∙ (update_kind-keeps entry s).1 in
      (
        ap share_count same ∙ agree.0 ∙ sym (keeps.2 ∙ stays.0),
        ap share_size same ∙ agree.1 ∙ sym (keeps.3 ∙ stays.1),
      )

  pub update-Tally :
      (seen sizes errors : ℕ) (entry : EntryStatistics) (s : FullStats)
      → IsKind entry
      → Tally seen sizes errors s
      → Tally (suc seen) (entry.size + sizes) errors (update observer entry s)
  unfolding update update_name full_count full_size Agree
  update-Tally seen sizes errors entry s kind t =
      let named = update_name entry s in
      let placed = update_kind entry named in
      let counts = update_kind-counts entry named in
      let keeps = update_kind-keeps entry named in
      let kept = distributions-keep entry entry.is_regular_file placed in
      let time = distributions-time entry entry.is_regular_file placed in
      let agree =
        update-Agree entry named entry.is_regular_file kind refl
          (t.regular_count, t.regular_size) in
      record {
        count = kept.0 ∙ counts.0 ∙ ap (λ n. wrapping_add n 1) t.count ∙ omega arith;
        size = kept.1 ∙ counts.1 ∙ ap (λ n. wrapping_add n entry.size) t.size ∙ omega arith;
        time_count =
            time.0
            ∙ ap (λ n. wrapping_add n 1) (ap share_count keeps.0 ∙ t.time_count)
            ∙ omega arith;
        time_size =
            time.1
            ∙ ap (λ n. wrapping_add n entry.size) (ap share_size keeps.0 ∙ t.time_size)
            ∙ omega arith;
        regular_count = agree.0;
        regular_size = agree.1;
        error_count = ap error_total (kept.4 ∙ keeps.2) ∙ t.error_count;
      }

  pub update_all-Tally :
      (seen sizes errors : ℕ) (entries : List EntryStatistics) (s : FullStats)
      → All IsKind entries
      → Tally seen sizes errors s
      → Tally
          (length entries + seen)
          (sum_sizes entries + sizes)
          errors
          (update_all observer entries s)
  unfolding update_all
  update_all-Tally seen sizes errors [] s kinds t =
      Tally-at _ _ errors s (omega arith) (omega arith) refl t
  update_all-Tally seen sizes errors (entry ∷ entries) s kinds t =
      let up = update-Tally seen sizes errors entry s kinds.0 t in
      let rest =
        update_all-Tally (suc seen) (entry.size + sizes) errors entries (update observer entry s)
          kinds.1 up in
      Tally-at _ _ errors _ (omega arith) (omega arith) refl rest
