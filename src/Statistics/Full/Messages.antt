-- ===== src/Statistics/Full/Messages.antt =====
-- crates/app/src/consumer/stats/accumulator.rs: what `FullStats` holds after any messages, against the
-- entries that they carry.
use terrasync_rs.Base.{ℕ, ◌+◌, List, [], ◌∷◌, ◌++◌}
use terrasync_rs.TaskModel.{
  StorageEntryMessage, scanned, new, changed, deleted, renamed, integrity_checked, packaged,
  tar_manifest, error,
}
use terrasync_rs.Statistics.{EntryStatistics}
use terrasync_rs.Statistics.Full.{FullStats, Observer, update_from_message}

module _ (observer : Observer) {E I : Type 0} (views : E → List EntryStatistics)
    (view : I → EntryStatistics) where
  -- The entries that a message counts, and whether it is an error.
  abbrev pub seen_in : StorageEntryMessage E I → List EntryStatistics
  seen_in (scanned entry) = views entry
  seen_in (packaged entry) = views entry
  seen_in (integrity_checked entry) = views entry
  seen_in (new item) = view item ∷ []
  seen_in (error failure) = []
  seen_in (changed item kind) = []
  seen_in (deleted entry) = []
  seen_in (renamed from to) = []
  seen_in (tar_manifest path entries) = []

  abbrev pub errors_in : StorageEntryMessage E I → ℕ
  errors_in (error failure) = 1
  errors_in (scanned entry) = 0
  errors_in (packaged entry) = 0
  errors_in (integrity_checked entry) = 0
  errors_in (new item) = 0
  errors_in (changed item kind) = 0
  errors_in (deleted entry) = 0
  errors_in (renamed from to) = 0
  errors_in (tar_manifest path entries) = 0

  -- The messages of a job, one after the other.
  abbrev pub update_messages : List (StorageEntryMessage E I) → FullStats → FullStats
  update_messages [] s = s
  update_messages (m ∷ ms) s = update_messages ms (update_from_message observer views view m s)

  abbrev pub all_seen : List (StorageEntryMessage E I) → List EntryStatistics
  all_seen [] = []
  all_seen (m ∷ ms) = seen_in m ++ all_seen ms

  abbrev pub all_errors : List (StorageEntryMessage E I) → ℕ
  all_errors [] = 0
  all_errors (m ∷ ms) = errors_in m + all_errors ms
