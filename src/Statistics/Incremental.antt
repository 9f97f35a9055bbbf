-- ===== src/Statistics/Incremental.antt =====
-- crates/app/src/consumer/stats/accumulator.rs: `IncrementalStats`, the statistics of a job that
-- compares with an earlier run.
use terrasync_rs.Base.{ℕ, ◌+◌, List, [], ◌∷◌, ◌++◌, length, ◌≡◌, refl, sym, ap, ◌∙◌, u64, arith}
use terrasync_rs.TaskModel.{
  StorageEntryMessage, scanned, new, changed, deleted, renamed, integrity_checked, packaged,
  tar_manifest, error,
}
use terrasync_rs.Statistics.{EntryStatistics, wrapping_add}
use terrasync_rs.Statistics.Counters.{
  ErrorStats, no_errors, record_event, error_total, error_total-record_event, DeltaCounts,
  no_entries, total_count, total_size, add, total-add,
}
use terrasync_rs.Statistics.Full.{FullStats, new_stats, Observer, update_all}
use terrasync_rs.Statistics.Full.Totals.{sum_sizes}

pub record IncrementalStats : Type 0 where
  pub walked : FullStats
  pub created : DeltaCounts
  pub altered : DeltaCounts
  pub removed : DeltaCounts
  pub moved : DeltaCounts
  pub error_stats : ErrorStats

unfoldable pub new_incremental : IncrementalStats
new_incremental = record {
  walked = new_stats;
  created = no_entries;
  altered = no_entries;
  removed = no_entries;
  moved = no_entries;
  error_stats = no_errors;
}

unfoldable pub add_all : List EntryStatistics → DeltaCounts → DeltaCounts
add_all [] s = s
add_all (entry ∷ entries) s = add_all entries (add entry s)

add_all-append :
    (xs ys : List EntryStatistics) (d : DeltaCounts)
    → add_all (xs ++ ys) d ≡ add_all ys (add_all xs d)
unfolding add_all
add_all-append [] ys d = refl
add_all-append (x ∷ xs) ys d = add_all-append xs ys (add x d)

add_all-totals :
    (entries : List EntryStatistics) (d : DeltaCounts)
    → (total_count (add_all entries d) ≡ wrapping_add (total_count d) (length entries))
      × (total_size (add_all entries d) ≡ wrapping_add (total_size d) (sum_sizes entries))
unfolding add_all total_count total_size
add_all-totals [] d = (omega arith, omega arith)
add_all-totals (x ∷ xs) d =
    let once = total-add x d in
    let rest = add_all-totals xs (add x d) in
    (
      rest.0 ∙ ap (λ n. wrapping_add n (length xs)) once.0 ∙ omega arith,
      rest.1 ∙ ap (λ n. wrapping_add n (sum_sizes xs)) once.1 ∙ omega arith,
    )

module _ (observer : Observer) {E I : Type 0} (views : E → List EntryStatistics)
    (view : I → EntryStatistics) where
  unfoldable pub update_incremental : StorageEntryMessage E I → IncrementalStats → IncrementalStats
  update_incremental (scanned entry) s = record s {
    walked = update_all observer (views entry) s.walked;
  }
  update_incremental (packaged entry) s = record s {
    walked = update_all observer (views entry) s.walked;
  }
  update_incremental (new item) s = record s { created = add (view item) s.created }
  update_incremental (changed item kind) s = record s { altered = add (view item) s.altered }
  update_incremental (deleted entry) s = record s { removed = add_all (views entry) s.removed }
  update_incremental (renamed from to) s = record s { moved = add_all (views to) s.moved }
  update_incremental (error failure) s = record s {
    error_stats = record_event failure.event s.error_stats;
  }
  update_incremental (integrity_checked entry) s = s
  update_incremental (tar_manifest path entries) s = s

  -- The entries that a message adds to each of the four counters, and the errors that it is.
  abbrev pub created_in : StorageEntryMessage E I → List EntryStatistics
  created_in (scanned entry) = []
  created_in (packaged entry) = []
  created_in (new item) = view item ∷ []
  created_in (changed item kind) = []
  created_in (deleted entry) = []
  created_in (renamed from to) = []
  created_in (error failure) = []
  created_in (integrity_checked entry) = []
  created_in (tar_manifest path entries) = []

  abbrev pub altered_in : StorageEntryMessage E I → List EntryStatistics
  altered_in (scanned entry) = []
  altered_in (packaged entry) = []
  altered_in (new item) = []
  altered_in (changed item kind) = view item ∷ []
  altered_in (deleted entry) = []
  altered_in (renamed from to) = []
  altered_in (error failure) = []
  altered_in (integrity_checked entry) = []
  altered_in (tar_manifest path entries) = []

  abbrev pub removed_in : StorageEntryMessage E I → List EntryStatistics
  removed_in (scanned entry) = []
  removed_in (packaged entry) = []
  removed_in (new item) = []
  removed_in (changed item kind) = []
  removed_in (deleted entry) = views entry
  removed_in (renamed from to) = []
  removed_in (error failure) = []
  removed_in (integrity_checked entry) = []
  removed_in (tar_manifest path entries) = []

  abbrev pub moved_in : StorageEntryMessage E I → List EntryStatistics
  moved_in (scanned entry) = []
  moved_in (packaged entry) = []
  moved_in (new item) = []
  moved_in (changed item kind) = []
  moved_in (deleted entry) = []
  moved_in (renamed from to) = views to
  moved_in (error failure) = []
  moved_in (integrity_checked entry) = []
  moved_in (tar_manifest path entries) = []

  abbrev pub failed_in : StorageEntryMessage E I → ℕ
  failed_in (scanned entry) = 0
  failed_in (packaged entry) = 0
  failed_in (new item) = 0
  failed_in (changed item kind) = 0
  failed_in (deleted entry) = 0
  failed_in (renamed from to) = 0
  failed_in (error failure) = 1
  failed_in (integrity_checked entry) = 0
  failed_in (tar_manifest path entries) = 0

  abbrev pub update_incrementals :
      List (StorageEntryMessage E I) → IncrementalStats → IncrementalStats
  update_incrementals [] s = s
  update_incrementals (m ∷ ms) s = update_incrementals ms (update_incremental m s)

  abbrev pub all_in :
      (StorageEntryMessage E I → List EntryStatistics)
      → List (StorageEntryMessage E I)
      → List EntryStatistics
  all_in part [] = []
  all_in part (m ∷ ms) = part m ++ all_in part ms

  abbrev pub failures_in : List (StorageEntryMessage E I) → ℕ
  failures_in [] = 0
  failures_in (m ∷ ms) = failed_in m + failures_in ms

  created_step :
      (m : StorageEntryMessage E I) (s : IncrementalStats)
      → (update_incremental m s).created ≡ add_all (created_in m) s.created
  unfolding update_incremental add_all
  created_step (scanned entry) s = refl
  created_step (packaged entry) s = refl
  created_step (new item) s = refl
  created_step (changed item kind) s = refl
  created_step (deleted entry) s = refl
  created_step (renamed from to) s = refl
  created_step (error failure) s = refl
  created_step (integrity_checked entry) s = refl
  created_step (tar_manifest path entries) s = refl

  altered_step :
      (m : StorageEntryMessage E I) (s : IncrementalStats)
      → (update_incremental m s).altered ≡ add_all (altered_in m) s.altered
  unfolding update_incremental add_all
  altered_step (scanned entry) s = refl
  altered_step (packaged entry) s = refl
  altered_step (new item) s = refl
  altered_step (changed item kind) s = refl
  altered_step (deleted entry) s = refl
  altered_step (renamed from to) s = refl
  altered_step (error failure) s = refl
  altered_step (integrity_checked entry) s = refl
  altered_step (tar_manifest path entries) s = refl

  removed_step :
      (m : StorageEntryMessage E I) (s : IncrementalStats)
      → (update_incremental m s).removed ≡ add_all (removed_in m) s.removed
  unfolding update_incremental add_all
  removed_step (scanned entry) s = refl
  removed_step (packaged entry) s = refl
  removed_step (new item) s = refl
  removed_step (changed item kind) s = refl
  removed_step (deleted entry) s = refl
  removed_step (renamed from to) s = refl
  removed_step (error failure) s = refl
  removed_step (integrity_checked entry) s = refl
  removed_step (tar_manifest path entries) s = refl

  moved_step :
      (m : StorageEntryMessage E I) (s : IncrementalStats)
      → (update_incremental m s).moved ≡ add_all (moved_in m) s.moved
  unfolding update_incremental add_all
  moved_step (scanned entry) s = refl
  moved_step (packaged entry) s = refl
  moved_step (new item) s = refl
  moved_step (changed item kind) s = refl
  moved_step (deleted entry) s = refl
  moved_step (renamed from to) s = refl
  moved_step (error failure) s = refl
  moved_step (integrity_checked entry) s = refl
  moved_step (tar_manifest path entries) s = refl

  failed_step :
      (m : StorageEntryMessage E I) (s : IncrementalStats)
      → error_total (update_incremental m s).error_stats
        ≡ wrapping_add (error_total s.error_stats) (failed_in m)
  unfolding update_incremental error_total
  failed_step (scanned entry) s = omega arith
  failed_step (packaged entry) s = omega arith
  failed_step (new item) s = omega arith
  failed_step (changed item kind) s = omega arith
  failed_step (deleted entry) s = omega arith
  failed_step (renamed from to) s = omega arith
  failed_step (error failure) s = error_total-record_event failure.event s.error_stats
  failed_step (integrity_checked entry) s = omega arith
  failed_step (tar_manifest path entries) s = omega arith

  -- A counter to which every message adds its part holds, at the end, all the parts.
  runs :
      (field : IncrementalStats → DeltaCounts)
      (part : StorageEntryMessage E I → List EntryStatistics)
      → ((m : StorageEntryMessage E I) (s : IncrementalStats)
          → field (update_incremental m s) ≡ add_all (part m) (field s))
      → (ms : List (StorageEntryMessage E I)) (s : IncrementalStats)
      → field (update_incrementals ms s) ≡ add_all (all_in part ms) (field s)
  unfolding add_all
  runs field part step [] s = refl
  runs field part step (m ∷ ms) s =
      runs field part step ms (update_incremental m s)
      ∙ ap (add_all (all_in part ms)) (step m s)
      ∙ sym (add_all-append (part m) (all_in part ms) (field s))

  failures-run :
      (ms : List (StorageEntryMessage E I)) (s : IncrementalStats)
      → error_total (update_incrementals ms s).error_stats
        ≡ wrapping_add (error_total s.error_stats) (failures_in ms)
  unfolding error_total
  failures-run [] s = omega arith
  failures-run (m ∷ ms) s =
      failures-run ms (update_incremental m s)
      ∙ ap (λ n. wrapping_add n (failures_in ms)) (failed_step m s)
      ∙ omega arith

  -- The counters hold these entries and no other.
  abbrev pub Counts : List EntryStatistics → DeltaCounts → Type 0
  Counts entries d =
      (total_count d ≡ u64 (length entries)) × (total_size d ≡ u64 (sum_sizes entries))

  part-Counts :
      (field : IncrementalStats → DeltaCounts) (entries : List EntryStatistics)
      (s : IncrementalStats)
      → field s ≡ add_all entries no_entries
      → Counts entries (field s)
  unfolding total_count total_size
  part-Counts field entries s e =
      let totals = add_all-totals entries no_entries in
      (ap total_count e ∙ totals.0 ∙ omega arith, ap total_size e ∙ totals.1 ∙ omega arith)

  -- After any messages, from new statistics, each of the four counters of changes holds the
  -- number and the sizes of the entries of its own messages and of no other, and the errors are
  -- the messages of errors, all of them on 64 bits.
  pub update_incrementals-Counts :
      (ms : List (StorageEntryMessage E I))
      → let s = update_incrementals ms new_incremental in
        Counts (all_in created_in ms) s.created
        × Counts (all_in altered_in ms) s.altered
        × Counts (all_in removed_in ms) s.removed
        × Counts (all_in moved_in ms) s.moved
        × (error_total s.error_stats ≡ u64 (failures_in ms))
  unfolding new_incremental error_total
  update_incrementals-Counts ms =
      let s = update_incrementals ms new_incremental in
      (
        part-Counts (λ r. r.created) (all_in created_in ms) s
            (runs (λ r. r.created) created_in created_step ms new_incremental),
        part-Counts (λ r. r.altered) (all_in altered_in ms) s
            (runs (λ r. r.altered) altered_in altered_step ms new_incremental),
        part-Counts (λ r. r.removed) (all_in removed_in ms) s
            (runs (λ r. r.removed) removed_in removed_step ms new_incremental),
        part-Counts (λ r. r.moved) (all_in moved_in ms) s
            (runs (λ r. r.moved) moved_in moved_step ms new_incremental),
        failures-run ms new_incremental ∙ omega arith,
      )
