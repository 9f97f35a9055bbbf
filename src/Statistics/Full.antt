-- ===== src/Statistics/Full.antt =====
-- crates/app/src/consumer/stats/accumulator.rs: `FullStats`, the statistics of a job that looks at every
-- entry. A hash map is an association list, without its order. The clock, the comparison of a
-- quotient in floating point and the lower case of a text are parameters.
pub mod Totals
pub mod Messages
use terrasync_rs.Base.{
  ℕ, ◌+◌, ◌%◌, ◌^◌, ◌≤◌, ◌<◌, max, List, [], ◌∷◌, Bool, true, false, Option, none, some, bytes_eq,
  ltb, ◌==◌, if◌then◌else◌, ◌≡◌, refl, sym, ap, ◌∙◌, inl, inr, Bool-cases, arith,
}
use terrasync_rs.TaskModel.{
  ErrorEvent, Failure, StorageEntryMessage, scanned, new, changed, deleted, renamed,
  integrity_checked, packaged, tar_manifest, error,
}
use terrasync_rs.Statistics.{EntryStatistics, wrapping_add}
use terrasync_rs.Statistics.Ranges.{
  FileSizeRange, TimeRange, calculate_file_size_range, calculate_time_range, size_index, time_index,
}
use terrasync_rs.Statistics.Counters.{ErrorStats, no_errors, record_event}

-- One key of a distribution: the sum of the sizes, and the number of entries.
pub record Share (K : Type 0) : Type 0 where
  pub key : K
  pub size : ℕ
  pub count : ℕ

-- `entry(key).or_insert((0, 0))` and the two additions.
unfoldable pub observe : {K : Type 0} → (K → K → Bool) → K → ℕ → List (Share K) → List (Share K)
observe same k size [] =
    record { key = k; size = wrapping_add 0 size; count = wrapping_add 0 1 } ∷ []
observe same k size (x ∷ xs) =
    let rest = observe same k size xs in
    if same x.key k
    then record x { size = wrapping_add x.size size; count = wrapping_add x.count 1 } ∷ xs
    else x ∷ rest

pub record FullStats : Type 0 where
  pub dir_count : ℕ
  pub dir_size : ℕ
  pub regular_file_count : ℕ
  pub regular_file_size : ℕ
  pub symlink_count : ℕ
  pub symlink_size : ℕ
  pub other_entry_count : ℕ
  pub other_entry_size : ℕ
  pub total_dir_depth : ℕ
  pub max_dir_depth : ℕ
  pub total_name_length : ℕ
  pub max_name_length : ℕ
  pub extension_stats : List (Share (List ℕ))
  pub time_range_stats : List (Share TimeRange)
  pub file_size_range_stats : List (Share FileSizeRange)
  pub error_stats : ErrorStats

-- `FullStats::new`, without the job's own texts and its time.
unfoldable pub new_stats : FullStats
new_stats = record {
  dir_count = 0;
  dir_size = 0;
  regular_file_count = 0;
  regular_file_size = 0;
  symlink_count = 0;
  symlink_size = 0;
  other_entry_count = 0;
  other_entry_size = 0;
  total_dir_depth = 0;
  max_dir_depth = 0;
  total_name_length = 0;
  max_name_length = 0;
  extension_stats = [];
  time_range_stats = [];
  file_size_range_stats = [];
  error_stats = no_errors;
}

unfoldable pub full_count : FullStats → ℕ
full_count s =
    wrapping_add (wrapping_add (wrapping_add s.dir_count s.regular_file_count) s.symlink_count)
      s.other_entry_count

unfoldable pub full_file_count : FullStats → ℕ
full_file_count s =
    wrapping_add (wrapping_add s.regular_file_count s.symlink_count) s.other_entry_count

unfoldable pub full_size : FullStats → ℕ
full_size s =
    wrapping_add (wrapping_add (wrapping_add s.dir_size s.regular_file_size) s.symlink_size)
      s.other_entry_size

unfoldable pub full_file_size : FullStats → ℕ
full_file_size s = wrapping_add (wrapping_add s.regular_file_size s.symlink_size) s.other_entry_size

unfoldable pub calculate_depth : EntryStatistics → ℕ
calculate_depth entry = max entry.components 1

unfoldable pub update_name : EntryStatistics → FullStats → FullStats
update_name entry s = record s {
  total_name_length = wrapping_add s.total_name_length entry.name_len;
  max_name_length =
      if ltb s.max_name_length entry.name_len then entry.name_len else s.max_name_length;
}

unfoldable pub update_kind : EntryStatistics → FullStats → FullStats
unfolding calculate_depth
update_kind entry s =
    if entry.is_dir
    then record s {
      dir_count = wrapping_add s.dir_count 1;
      dir_size = wrapping_add s.dir_size entry.size;
      total_dir_depth = wrapping_add s.total_dir_depth (calculate_depth entry);
      max_dir_depth =
          if ltb s.max_dir_depth (calculate_depth entry)
          then calculate_depth entry
          else s.max_dir_depth;
    }
    else if entry.is_symlink
    then record s {
      symlink_count = wrapping_add s.symlink_count 1;
      symlink_size = wrapping_add s.symlink_size entry.size;
    }
    else if entry.is_regular_file
    then record s {
      regular_file_count = wrapping_add s.regular_file_count 1;
      regular_file_size = wrapping_add s.regular_file_size entry.size;
    }
    else record s {
      other_entry_count = wrapping_add s.other_entry_count 1;
      other_entry_size = wrapping_add s.other_entry_size entry.size;
    }

-- What the clock shows, and the operations of the parameters.
pub record Observer : Type 0 where
  pub now : ℕ
  pub days_below : ℕ → ℕ → Bool
  pub to_lowercase : List ℕ → List ℕ

module _ (observer : Observer) where
  unfoldable pub update_extension :
      Option (List ℕ) → ℕ → List (Share (List ℕ)) → List (Share (List ℕ))
  unfolding observe bytes_eq
  update_extension none size shares = shares
  update_extension (some ext) size shares = observe bytes_eq (observer.to_lowercase ext) size shares

  unfoldable pub update_regular : EntryStatistics → FullStats → FullStats
  unfolding update_extension observe calculate_file_size_range size_index
  update_regular entry s = record s {
    extension_stats = update_extension entry.extension entry.size s.extension_stats;
    file_size_range_stats =
        observe (λ a b. size_index a == size_index b) (calculate_file_size_range entry.size)
          entry.size s.file_size_range_stats;
  }

  unfoldable pub update_distributions : EntryStatistics → Bool → FullStats → FullStats
  unfolding update_regular observe calculate_time_range time_index
  update_distributions entry regular s =
      let sorted = if regular then update_regular entry s else s in
      record sorted {
        time_range_stats =
            observe (λ a b. time_index a == time_index b)
              (calculate_time_range observer.days_below observer.now entry.mtime) entry.size
              sorted.time_range_stats;
      }

  unfoldable pub update : EntryStatistics → FullStats → FullStats
  unfolding update_distributions update_kind update_name
  update entry s =
      update_distributions entry entry.is_regular_file (update_kind entry (update_name entry s))

  unfoldable pub update_all : List EntryStatistics → FullStats → FullStats
  unfolding update
  update_all [] s = s
  update_all (entry ∷ entries) s = update_all entries (update entry s)

  -- `views` are the views of an entry, one for each version of its history; `view` is an item's.
  module _ {E I : Type 0} (views : E → List EntryStatistics) (view : I → EntryStatistics) where
    unfoldable pub update_from_message : StorageEntryMessage E I → FullStats → FullStats
    unfolding update_all update record_event
    update_from_message (scanned entry) s = update_all (views entry) s
    update_from_message (packaged entry) s = update_all (views entry) s
    update_from_message (integrity_checked entry) s = update_all (views entry) s
    update_from_message (new item) s = update (view item) s
    update_from_message (error failure) s = record s {
      error_stats = record_event failure.event s.error_stats;
    }
    update_from_message (changed item kind) s = s
    update_from_message (deleted entry) s = s
    update_from_message (renamed from to) s = s
    update_from_message (tar_manifest path entries) s = s
