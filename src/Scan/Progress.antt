-- ===== src/Scan/Progress.antt =====
-- crates/app/src/scan/progress.rs: `ScanProgress`, with the snapshot that it changes. The map of the
-- active directories is an association list, of which a path is taken out before it is put in.
pub mod Prefix
pub mod Account
use terrasync_rs.Base.{
  ℕ, ◌+◌, ◌≤◌, Bool, true, false, not, ◌&&◌, ◌||◌, Option, none, some, List, [], ◌∷◌, leb, ◌==◌,
  bytes_eq, if◌then◌else◌, ◌≡◌, refl, arith,
}
use terrasync_rs.Scan.Counts.{
  Kinds, ScanCounts, complete, interrupted, unreadable, ListingOutcome, DirectoryStatistics,
  from_directory, ScanSnapshot, default, replace, snapshot_replace, restore_scan_counts,
}

pub data TraversalOrder : Type 0 where
  blocks unordered : TraversalOrder

pub data ScanError : Type 0 where
  interleaved_blocks out_of_order incomplete_directory unordered_checkpoint inside_a_block :
      ScanError
  unfinished_block checkpoint_differs must_restart : ScanError

-- One entry of `active`.
pub record Active (K : Type 0) : Type 0 where
  pub path : List ℕ
  pub counts : ScanCounts K
  pub revision : ℕ

pub record ScanProgress (K : Type 0) : Type 0 where
  pub order : TraversalOrder
  pub active : List (Active K)
  pub complete_prefix : ScanCounts K
  pub confirmed : ScanCounts K
  pub cursor : Option (List ℕ)

unfoldable pub is_blocks : TraversalOrder → Bool
is_blocks blocks = true
is_blocks unordered = false

unfoldable pub other_key : {K : Type 0} → List ℕ → List (Active K) → Bool
unfolding bytes_eq
other_key key [] = false
other_key key (a ∷ active) = not (bytes_eq a.path key) || other_key key active

-- What `active.remove` returns, and what it leaves.
unfoldable pub active_get : {K : Type 0} → List ℕ → List (Active K) → Option (Active K)
unfolding bytes_eq
active_get key [] = none
active_get key (a ∷ active) =
    let rest = active_get key active in if bytes_eq a.path key then some a else rest

unfoldable pub active_remove : {K : Type 0} → List ℕ → List (Active K) → List (Active K)
unfolding bytes_eq
active_remove key [] = []
active_remove key (a ∷ active) =
    let rest = active_remove key active in if bytes_eq a.path key then active else a ∷ rest

-- The condition of the second error: `pass_start != previous.is_none()`, or a revision that does not
-- go up.
unfoldable pub is_out_of_order : {K : Type 0} → DirectoryStatistics K → Option (Active K) → Bool
is_out_of_order value none = not value.pass_start
is_out_of_order value (some previous) = value.pass_start || leb value.revision previous.revision

unfoldable pub checkpoint_eq : Option (List ℕ) → Option (List ℕ) → Bool
unfolding bytes_eq
checkpoint_eq none none = true
checkpoint_eq none (some b) = false
checkpoint_eq (some a) none = false
checkpoint_eq (some a) (some b) = bytes_eq a b

-- The progress, the snapshot and the error, if there is one, after a call.
pub record Outcome (K : Type 0) : Type 0 where
  pub progress : ScanProgress K
  pub snapshot : ScanSnapshot K
  pub error : Option ScanError

pub data Checked (A : Type 0) : Type 0 where
  ok : A → Checked A
  err : ScanError → Checked A

module _ {K : Type 0} (kinds : Kinds K) where
  unfoldable pub new : TraversalOrder → ScanCounts K → Option (List ℕ) → ScanProgress K
  new order initial cursor = record {
    order = order;
    active = [];
    complete_prefix = initial;
    confirmed = initial;
    cursor = cursor;
  }

  unfoldable pub previous_counts : Option (Active K) → ScanCounts K
  unfolding default
  previous_counts none = default kinds
  previous_counts (some previous) = previous.counts

  -- The match on the outcome of the listing; the path is not active any more.
  unfoldable pub settled :
      Option ListingOutcome → DirectoryStatistics K → ScanProgress K → ScanSnapshot K → Outcome K
  unfolding replace from_directory default
  settled (some complete) value p snapshot =
      if kinds.total value.failed == 0
      then record {
        progress = record p {
          complete_prefix = replace kinds p.complete_prefix (default kinds) (from_directory value);
        };
        snapshot = snapshot;
        error = none;
      }
      else record { progress = p; snapshot = snapshot; error = some incomplete_directory }
  settled (some interrupted) value p snapshot = record {
    progress = p;
    snapshot = snapshot;
    error = some incomplete_directory;
  }
  settled (some unreadable) value p snapshot = record {
    progress = p;
    snapshot = snapshot;
    error = some incomplete_directory;
  }
  settled none value p snapshot = record {
    progress = record p {
      active =
          record { path = value.path; counts = from_directory value; revision = value.revision }
          ∷ p.active;
    };
    snapshot = snapshot;
    error = none;
  }

  unfoldable pub push : DirectoryStatistics K → ScanProgress K → ScanSnapshot K → Outcome K
  unfolding is_blocks other_key active_get active_remove is_out_of_order previous_counts
  push value p snapshot =
      if is_blocks p.order && other_key value.path p.active
      then record { progress = p; snapshot = snapshot; error = some interleaved_blocks }
      else (let previous = active_get value.path p.active in
          let taken = record p { active = active_remove value.path p.active } in
          if is_out_of_order value previous
          then record { progress = taken; snapshot = snapshot; error = some out_of_order }
          else settled value.outcome value taken
              (snapshot_replace kinds (previous_counts previous) (from_directory value) snapshot))

  unfoldable pub is_idle : List (Active K) → Bool
  is_idle [] = true
  is_idle (a ∷ active) = false

  unfoldable pub checkpoint_counts : ScanProgress K → Checked (ScanCounts K)
  unfolding is_blocks is_idle
  checkpoint_counts p =
      if not (is_blocks p.order)
      then err unordered_checkpoint
      else if not (is_idle p.active)
      then err inside_a_block
      else ok p.complete_prefix

  unfoldable pub confirm : List ℕ → ScanProgress K → ScanProgress K
  confirm cursor p = record p { cursor = some cursor; confirmed = p.complete_prefix }

  unfoldable pub finish : ScanProgress K → Option ScanError
  unfolding is_idle
  finish p = if not (is_idle p.active) then some unfinished_block else none

  restored : ScanCounts K → ScanProgress K → ScanSnapshot K → Outcome K
  restored counts p snapshot = record {
    progress = record p { active = []; complete_prefix = counts; confirmed = counts };
    snapshot = restore_scan_counts kinds counts snapshot;
    error = none;
  }

  some_checkpoint : Option (List ℕ) → Bool
  some_checkpoint none = false
  some_checkpoint (some selected) = true

  -- `selected` is the checkpoint that the traversal resumes from.
  unfoldable pub resumed : Option (List ℕ) → ScanProgress K → ScanSnapshot K → Outcome K
  unfolding is_blocks checkpoint_eq restored some_checkpoint
  resumed selected p snapshot =
      if is_blocks p.order
      then (if not (checkpoint_eq selected p.cursor)
          then record { progress = p; snapshot = snapshot; error = some checkpoint_differs }
          else restored p.confirmed p snapshot)
      else (if some_checkpoint selected
          then record { progress = p; snapshot = snapshot; error = some must_restart }
          else restored (default kinds) p snapshot)
