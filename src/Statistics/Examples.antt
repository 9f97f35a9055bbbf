-- ===== src/Statistics/Examples.antt =====
-- Runs and instances of the theorems about crates/app/src/consumer/stats/accumulator.rs and
-- crates/task-model/src/event.rs.
use terrasync_rs.Base.{◌≡◌, true, false, List, [], ◌∷◌, none, some, ltb, u64, ◌*◌}
use terrasync_rs.TaskModel.{copy, StorageEntryMessage, scanned, new, deleted, error}
use terrasync_rs.Statistics.{EntryStatistics}
use terrasync_rs.Statistics.Counters.{error_total}
use terrasync_rs.Statistics.Full.{Observer}
use terrasync_rs.Statistics.Incremental.{
  new_incremental, update_incrementals, update_incrementals-Counts, Counts,
}

abbrev noon : Observer
noon = record {
  now = 1000;
  days_below = λ diff days. ltb diff (86400000000000 * days);
  to_lowercase = λ t. t;
}

abbrev file : EntryStatistics
file = record {
  size = 5000;
  name_len = 4;
  components = 2;
  extension = some (116 ∷ []);
  is_dir = false;
  is_symlink = false;
  is_regular_file = true;
  mtime = 900;
}

abbrev folder : EntryStatistics
folder = record {
  size = 0;
  name_len = 3;
  components = 1;
  extension = none;
  is_dir = true;
  is_symlink = false;
  is_regular_file = false;
  mtime = 900;
}

-- Entries and items are views here; an entry has two versions.
abbrev twice : EntryStatistics → List EntryStatistics
twice entry = entry ∷ entry ∷ []

abbrev sent : List (StorageEntryMessage EntryStatistics EntryStatistics)
sent =
    scanned folder
    ∷ new file
    ∷ error (record { event = copy; path = []; entry = none; reason = [] })
    ∷ deleted file
    ∷ []

update_incrementals-Counts_example :
    let s = update_incrementals noon twice (λ i. i) sent new_incremental in
    Counts noon twice (λ i. i) (file ∷ []) s.created
    × Counts noon twice (λ i. i) [] s.altered
    × Counts noon twice (λ i. i) (file ∷ file ∷ []) s.removed
    × Counts noon twice (λ i. i) [] s.moved
    × (error_total s.error_stats ≡ u64 1)
update_incrementals-Counts_example = update_incrementals-Counts noon twice (λ i. i) sent
