-- ===== src/Scan/Counts.antt =====
-- crates/app/src/scan/statistics.rs: `ScanCounts`, what one directory or a whole scan has counted, and
-- `ScanSnapshot`. `EntryKindCounts` is a type of the storage library, one counter of 64 bits for each
-- kind of entry; `Kinds` is what it offers, and `KindLaws` says that its saturating operations work
-- counter by counter.
use terrasync_rs.Base.{
  ℕ, ◌+◌, ◌-◌, ◌^◌, min, Bool, false, ◌&&◌, Option, none, some, ◌==◌, if◌then◌else◌, ◌≡◌, refl, ap,
  ◌∙◌, List,
}

pub record Kinds (K : Type 0) : Type 0 where
  pub zero : K
  pub saturating_sub : K → K → K
  pub saturating_add : K → K → K
  pub total : K → ℕ
  pub same : K → K → Bool

abbrev pub max_u64 : ℕ
max_u64 = 2 ^ 64 - 1

pub record KindLaws {K : Type 0} (kinds : Kinds K) : Type 0 where
  pub component : K → ℕ → ℕ
  pub component-zero : (i : ℕ) → component kinds.zero i ≡ 0
  pub component-sub :
      (a b : K) (i : ℕ) → component (kinds.saturating_sub a b) i ≡ component a i - component b i
  pub component-add :
      (a b : K) (i : ℕ)
      → component (kinds.saturating_add a b) i ≡ min (component a i + component b i) max_u64

pub record ScanCounts (K : Type 0) : Type 0 where
  pub scanned : K
  pub filtered : K
  pub retained : K
  pub failed : K
  pub vanished : K
  pub pruned_directories : ℕ
  pub truncated_directories : ℕ
  pub regular_file_bytes : ℕ
  pub unknown_file_sizes : ℕ
  pub versions : ℕ
  pub delete_markers : ℕ
  pub all_versions_bytes : ℕ
  pub completed_listings : ℕ
  pub interrupted_listings : ℕ
  pub unreadable_listings : ℕ
  pub vanished_listings : ℕ

pub data ListingOutcome : Type 0 where
  complete interrupted unreadable : ListingOutcome

-- What is read of the storage library's `DirectoryStatistics`.
pub record DirectoryStatistics (K : Type 0) : Type 0 where
  pub path : List ℕ
  pub pass_start : Bool
  pub revision : ℕ
  pub scanned : K
  pub filtered : K
  pub retained : K
  pub failed : K
  pub vanished : K
  pub pruned_dirs : ℕ
  pub truncated_dirs : ℕ
  pub regular_file_bytes : ℕ
  pub unknown_file_sizes : ℕ
  pub versions : ℕ
  pub delete_markers : ℕ
  pub all_versions_bytes : ℕ
  pub outcome : Option ListingOutcome
  pub vanished_listing : Bool

-- `u64::from(outcome == Some(wanted))`, the derived equality.
unfoldable pub is_outcome : ListingOutcome → Option ListingOutcome → ℕ
is_outcome complete (some complete) = 1
is_outcome interrupted (some interrupted) = 1
is_outcome unreadable (some unreadable) = 1
is_outcome complete (some interrupted) = 0
is_outcome complete (some unreadable) = 0
is_outcome interrupted (some complete) = 0
is_outcome interrupted (some unreadable) = 0
is_outcome unreadable (some complete) = 0
is_outcome unreadable (some interrupted) = 0
is_outcome complete none = 0
is_outcome interrupted none = 0
is_outcome unreadable none = 0

unfoldable pub from_directory : {K : Type 0} → DirectoryStatistics K → ScanCounts K
unfolding is_outcome
from_directory value = record {
  scanned = value.scanned;
  filtered = value.filtered;
  retained = value.retained;
  failed = value.failed;
  vanished = value.vanished;
  pruned_directories = value.pruned_dirs;
  truncated_directories = value.truncated_dirs;
  regular_file_bytes = value.regular_file_bytes;
  unknown_file_sizes = value.unknown_file_sizes;
  versions = value.versions;
  delete_markers = value.delete_markers;
  all_versions_bytes = value.all_versions_bytes;
  completed_listings = is_outcome complete value.outcome;
  interrupted_listings = is_outcome interrupted value.outcome;
  unreadable_listings = is_outcome unreadable value.outcome;
  vanished_listings = if value.vanished_listing then 1 else 0;
}

-- `current.saturating_sub(old).saturating_add(new)` on 64 bits.
abbrev pub exchanged : ℕ → ℕ → ℕ → ℕ
exchanged current old new = min (current - old + new) max_u64

pub record ScanSnapshot (K : Type 0) : Type 0 where
  pub scanned_entries : ℕ
  pub filtered_entries : ℕ
  pub retained_entries : ℕ
  pub counts : ScanCounts K
  pub complete : Bool
  pub restarts : ℕ
  pub distributions_complete : Bool
  pub distributions_reconciled : Bool

module _ {K : Type 0} (kinds : Kinds K) where
  unfoldable pub default : ScanCounts K
  default = record {
    scanned = kinds.zero;
    filtered = kinds.zero;
    retained = kinds.zero;
    failed = kinds.zero;
    vanished = kinds.zero;
    pruned_directories = 0;
    truncated_directories = 0;
    regular_file_bytes = 0;
    unknown_file_sizes = 0;
    versions = 0;
    delete_markers = 0;
    all_versions_bytes = 0;
    completed_listings = 0;
    interrupted_listings = 0;
    unreadable_listings = 0;
    vanished_listings = 0;
  }

  unfoldable pub exchanged_kinds : K → K → K → K
  exchanged_kinds current old new = kinds.saturating_add (kinds.saturating_sub current old) new

  unfoldable pub replace : ScanCounts K → ScanCounts K → ScanCounts K → ScanCounts K
  unfolding exchanged_kinds
  replace s old new = record {
    scanned = exchanged_kinds s.scanned old.scanned new.scanned;
    filtered = exchanged_kinds s.filtered old.filtered new.filtered;
    retained = exchanged_kinds s.retained old.retained new.retained;
    failed = exchanged_kinds s.failed old.failed new.failed;
    vanished = exchanged_kinds s.vanished old.vanished new.vanished;
    pruned_directories =
        exchanged s.pruned_directories old.pruned_directories new.pruned_directories;
    truncated_directories =
        exchanged s.truncated_directories old.truncated_directories new.truncated_directories;
    regular_file_bytes =
        exchanged s.regular_file_bytes old.regular_file_bytes new.regular_file_bytes;
    unknown_file_sizes =
        exchanged s.unknown_file_sizes old.unknown_file_sizes new.unknown_file_sizes;
    versions = exchanged s.versions old.versions new.versions;
    delete_markers = exchanged s.delete_markers old.delete_markers new.delete_markers;
    all_versions_bytes =
        exchanged s.all_versions_bytes old.all_versions_bytes new.all_versions_bytes;
    completed_listings =
        exchanged s.completed_listings old.completed_listings new.completed_listings;
    interrupted_listings =
        exchanged s.interrupted_listings old.interrupted_listings new.interrupted_listings;
    unreadable_listings =
        exchanged s.unreadable_listings old.unreadable_listings new.unreadable_listings;
    vanished_listings = exchanged s.vanished_listings old.vanished_listings new.vanished_listings;
  }

  -- The three totals of a snapshot, read off its counts.
  unfoldable pub with_counts : ScanCounts K → ScanSnapshot K → ScanSnapshot K
  with_counts counts s = record s {
    counts = counts;
    scanned_entries = kinds.total counts.scanned;
    filtered_entries = kinds.total counts.filtered;
    retained_entries = kinds.total counts.retained;
  }

  unfoldable pub snapshot_replace : ScanCounts K → ScanCounts K → ScanSnapshot K → ScanSnapshot K
  unfolding replace with_counts
  snapshot_replace old new s = with_counts (replace s.counts old new) s

  -- The part of `restore_scan_counts` that concerns the snapshot.
  unfoldable pub restore_scan_counts : ScanCounts K → ScanSnapshot K → ScanSnapshot K
  unfolding with_counts
  restore_scan_counts counts s = record (with_counts counts s) {
    distributions_complete = kinds.total counts.retained == 0;
    restarts = min (s.restarts + 1) max_u64;
    complete = false;
    distributions_reconciled = false;
  }

  unfoldable pub valid_checkpoint : ℕ → ScanSnapshot K → Bool
  valid_checkpoint observed s =
      let accounted =
        kinds.saturating_add
          (kinds.saturating_add (kinds.saturating_add s.counts.filtered s.counts.retained)
            s.counts.failed)
          s.counts.vanished in
      kinds.same s.counts.scanned accounted
      && s.scanned_entries == kinds.total s.counts.scanned
      && s.scanned_entries == observed
      && s.filtered_entries == kinds.total s.counts.filtered
      && s.retained_entries == kinds.total s.counts.retained

-- One of the counters of `ScanCounts`: of a kind of entry, or a number.
pub data Counter : Type 0 where
  of_scanned of_filtered of_retained of_failed of_vanished : ℕ → Counter
  of_pruned of_truncated of_bytes of_unknown of_versions of_markers : Counter
  of_all_bytes of_completed of_interrupted of_unreadable of_vanished_listings : Counter

module _ {K : Type 0} {kinds : Kinds K} (laws : KindLaws kinds) where
  abbrev pub read : Counter → ScanCounts K → ℕ
  read (of_scanned i) s = laws.component s.scanned i
  read (of_filtered i) s = laws.component s.filtered i
  read (of_retained i) s = laws.component s.retained i
  read (of_failed i) s = laws.component s.failed i
  read (of_vanished i) s = laws.component s.vanished i
  read of_pruned s = s.pruned_directories
  read of_truncated s = s.truncated_directories
  read of_bytes s = s.regular_file_bytes
  read of_unknown s = s.unknown_file_sizes
  read of_versions s = s.versions
  read of_markers s = s.delete_markers
  read of_all_bytes s = s.all_versions_bytes
  read of_completed s = s.completed_listings
  read of_interrupted s = s.interrupted_listings
  read of_unreadable s = s.unreadable_listings
  read of_vanished_listings s = s.vanished_listings

  exchanged_kinds_lem :
      (i : ℕ) (a b c : K)
      → laws.component (exchanged_kinds kinds a b c) i
        ≡ exchanged (laws.component a i) (laws.component b i) (laws.component c i)
  unfolding exchanged_kinds
  exchanged_kinds_lem i a b c =
      laws.component-add (kinds.saturating_sub a b) c i
      ∙ ap (λ n. min (n + laws.component c i) max_u64) (laws.component-sub a b i)

  pub read-replace :
      (k : Counter) (s old new : ScanCounts K)
      → read k (replace kinds s old new) ≡ exchanged (read k s) (read k old) (read k new)
  unfolding replace
  read-replace (of_scanned i) s old new = exchanged_kinds_lem i s.scanned old.scanned new.scanned
  read-replace (of_filtered i) s old new =
      exchanged_kinds_lem i s.filtered old.filtered new.filtered
  read-replace (of_retained i) s old new =
      exchanged_kinds_lem i s.retained old.retained new.retained
  read-replace (of_failed i) s old new = exchanged_kinds_lem i s.failed old.failed new.failed
  read-replace (of_vanished i) s old new =
      exchanged_kinds_lem i s.vanished old.vanished new.vanished
  read-replace of_pruned s old new = refl
  read-replace of_truncated s old new = refl
  read-replace of_bytes s old new = refl
  read-replace of_unknown s old new = refl
  read-replace of_versions s old new = refl
  read-replace of_markers s old new = refl
  read-replace of_all_bytes s old new = refl
  read-replace of_completed s old new = refl
  read-replace of_interrupted s old new = refl
  read-replace of_unreadable s old new = refl
  read-replace of_vanished_listings s old new = refl

  pub read-default : (k : Counter) → read k (default kinds) ≡ 0
  unfolding default
  read-default (of_scanned i) = laws.component-zero i
  read-default (of_filtered i) = laws.component-zero i
  read-default (of_retained i) = laws.component-zero i
  read-default (of_failed i) = laws.component-zero i
  read-default (of_vanished i) = laws.component-zero i
  read-default of_pruned = refl
  read-default of_truncated = refl
  read-default of_bytes = refl
  read-default of_unknown = refl
  read-default of_versions = refl
  read-default of_markers = refl
  read-default of_all_bytes = refl
  read-default of_completed = refl
  read-default of_interrupted = refl
  read-default of_unreadable = refl
  read-default of_vanished_listings = refl
