-- ===== src/Scan/Examples.antt =====
-- Runs and instances of the theorems about crates/app/src/scan/progress.rs.
use terrasync_rs.Base.{
  ℕ, ◌+◌, ◌-◌, ◌≤◌, min, Bool, true, false, Option, none, some, List, [], ◌∷◌, ◌==◌, ◌≡◌, refl,
  length, arith,
}
use terrasync_rs.Scan.Counts.{
  Kinds, KindLaws, max_u64, complete, ListingOutcome, DirectoryStatistics, ScanSnapshot, default,
  from_directory, replace, of_scanned, of_filtered, of_retained, of_failed, of_vanished, of_pruned,
  of_truncated, of_bytes, of_unknown, of_versions, of_markers, of_all_bytes, of_completed,
  of_interrupted, of_unreadable, of_vanished_listings, read,
}
use terrasync_rs.Scan.Progress.{
  blocks, is_blocks, ScanProgress, Outcome, new, push, settled, checkpoint_counts, finish,
  active_remove, confirm, resumed,
}
use terrasync_rs.Scan.Progress.Prefix.{
  Reachable, starts, pushes, confirms, resumes, Fits, Reachable-length, Reachable-checkpoint,
}
use terrasync_rs.Scan.Progress.Account.{Reachable-Sound}

-- One kind of entry only, and its counter.
abbrev one_kind : Kinds ℕ
one_kind = record {
  zero = 0;
  saturating_sub = λ a b. a - b;
  saturating_add = λ a b. min (a + b) max_u64;
  total = λ a. a;
  same = λ a b. a == b;
}

abbrev one_kind_laws : KindLaws one_kind
one_kind_laws = record {
  component = λ a i. a;
  component-zero = λ i. refl;
  component-sub = λ a b i. refl;
  component-add = λ a b i. refl;
}

-- The directory of the given name with `n` files so far.
abbrev listing_of : List ℕ → ℕ → ℕ → Bool → Option ListingOutcome → DirectoryStatistics ℕ
listing_of name n revision start outcome = record {
  path = name;
  pass_start = start;
  revision = revision;
  scanned = n;
  filtered = 0;
  retained = n;
  failed = 0;
  vanished = 0;
  pruned_dirs = 0;
  truncated_dirs = 0;
  regular_file_bytes = n;
  unknown_file_sizes = 0;
  versions = 0;
  delete_markers = 0;
  all_versions_bytes = 0;
  outcome = outcome;
  vanished_listing = false;
}

abbrev listing : ℕ → ℕ → Bool → Option ListingOutcome → DirectoryStatistics ℕ
listing = listing_of (97 ∷ [])

abbrev empty : ScanSnapshot ℕ
unfolding default
empty = record {
  scanned_entries = 0;
  filtered_entries = 0;
  retained_entries = 0;
  counts = default one_kind;
  complete = false;
  restarts = 0;
  distributions_complete = true;
  distributions_reconciled = false;
}

begun : ScanProgress ℕ
unfolding new
begun = new one_kind blocks empty.counts none

begun-Fits : Fits one_kind_laws begun (listing 3 1 true (some complete))
unfolding begun active_remove from_directory empty
begun-Fits (of_scanned i) = omega arith
begun-Fits (of_filtered i) = omega arith
begun-Fits (of_retained i) = omega arith
begun-Fits (of_failed i) = omega arith
begun-Fits (of_vanished i) = omega arith
begun-Fits of_pruned = omega arith
begun-Fits of_truncated = omega arith
begun-Fits of_bytes = omega arith
begun-Fits of_unknown = omega arith
begun-Fits of_versions = omega arith
begun-Fits of_markers = omega arith
begun-Fits of_all_bytes = omega arith
begun-Fits of_completed = omega arith
begun-Fits of_interrupted = omega arith
begun-Fits of_unreadable = omega arith
begun-Fits of_vanished_listings = omega arith

after : ScanProgress ℕ
unfolding begun push replace from_directory default
after = (push one_kind (listing 3 1 true (some complete)) begun empty).progress

seen : ScanSnapshot ℕ
unfolding begun push replace from_directory default
seen = (push one_kind (listing 3 1 true (some complete)) begun empty).snapshot

after-Reachable : Reachable one_kind_laws after seen
unfolding after seen begun push settled
after-Reachable =
    pushes begun after empty seen (listing 3 1 true (some complete)) (starts blocks none empty)
      begun-Fits refl

-- The directory "a" is confirmed, and "b" is half listed when the traversal recovers.
kept : ScanProgress ℕ
unfolding after confirm
kept = confirm one_kind (1 ∷ []) after

half : DirectoryStatistics ℕ
half = listing_of (98 ∷ []) 2 1 true none

kept-Fits : Fits one_kind_laws kept half
unfolding kept after half begun push settled active_remove from_directory replace default empty
kept-Fits (of_scanned i) = omega arith
kept-Fits (of_filtered i) = omega arith
kept-Fits (of_retained i) = omega arith
kept-Fits (of_failed i) = omega arith
kept-Fits (of_vanished i) = omega arith
kept-Fits of_pruned = omega arith
kept-Fits of_truncated = omega arith
kept-Fits of_bytes = omega arith
kept-Fits of_unknown = omega arith
kept-Fits of_versions = omega arith
kept-Fits of_markers = omega arith
kept-Fits of_all_bytes = omega arith
kept-Fits of_completed = omega arith
kept-Fits of_interrupted = omega arith
kept-Fits of_unreadable = omega arith
kept-Fits of_vanished_listings = omega arith

halfway : Outcome ℕ
unfolding kept seen half push
halfway = push one_kind half kept seen

back : Outcome ℕ
unfolding halfway resumed
back = resumed one_kind (some (1 ∷ [])) halfway.progress halfway.snapshot

back-Reachable : Reachable one_kind_laws back.progress back.snapshot
unfolding after-Reachable back halfway kept half seen after begun push settled confirm resumed
back-Reachable =
    resumes halfway.progress back.progress halfway.snapshot back.snapshot (some (1 ∷ []))
      (pushes kept halfway.progress seen halfway.snapshot half
        (confirms after seen (1 ∷ []) after-Reachable) kept-Fits refl)
      refl

-- The files of "a" are there, and those of "b" are not.
Reachable-Sound_example :
    (read one_kind_laws (of_retained 0) back.snapshot.counts ≡ 3)
    × (read one_kind_laws (of_retained 0) back.progress.complete_prefix ≡ 3)
    × (read one_kind_laws (of_retained 0) back.progress.confirmed ≡ 3)
unfolding back-Reachable after-Reachable kept after begun new half is_blocks default
Reachable-Sound_example =
    Reachable-Sound one_kind_laws back.progress back.snapshot back-Reachable (of_retained 0)

Reachable-checkpoint_example :
    (read one_kind_laws (of_retained 0) after.complete_prefix
      ≡ read one_kind_laws (of_retained 0) seen.counts)
    × (finish one_kind after ≡ none)
unfolding after begun push checkpoint_counts settled
Reachable-checkpoint_example =
    Reachable-checkpoint one_kind_laws after seen after.complete_prefix (of_retained 0)
      after-Reachable refl

Reachable-length_example : length after.active ≤ 1
unfolding after begun push is_blocks settled
Reachable-length_example = Reachable-length one_kind_laws after seen after-Reachable refl
