-- ===== src/Statistics/Counters.antt =====
-- crates/app/src/consumer/stats/accumulator.rs: `ErrorStats` and `DeltaCounts`.
use terrasync_rs.Base.{ℕ, Bool, if◌then◌else◌, ◌==◌, ◌≡◌, inl, inr, Bool-cases, arith}
use terrasync_rs.TaskModel.{
  ErrorEvent, scan, copy, copy_acl, copy_xattr, delete, rename, symlink_op, pack, integrity_check,
}
use terrasync_rs.Statistics.{EntryStatistics, wrapping_add}

-- The counters of `ErrorStats`, one for each event.
pub record ErrorStats : Type 0 where
  pub scans : ℕ
  pub copies : ℕ
  pub copy_acls : ℕ
  pub copy_xattrs : ℕ
  pub deletes : ℕ
  pub renames : ℕ
  pub symlink_ops : ℕ
  pub packs : ℕ
  pub integrity_checks : ℕ

abbrev pub no_errors : ErrorStats
no_errors = record {
  scans = 0;
  copies = 0;
  copy_acls = 0;
  copy_xattrs = 0;
  deletes = 0;
  renames = 0;
  symlink_ops = 0;
  packs = 0;
  integrity_checks = 0;
}

unfoldable pub record_event : ErrorEvent → ErrorStats → ErrorStats
record_event scan s = record s { scans = wrapping_add s.scans 1 }
record_event copy s = record s { copies = wrapping_add s.copies 1 }
record_event copy_acl s = record s { copy_acls = wrapping_add s.copy_acls 1 }
record_event copy_xattr s = record s { copy_xattrs = wrapping_add s.copy_xattrs 1 }
record_event delete s = record s { deletes = wrapping_add s.deletes 1 }
record_event rename s = record s { renames = wrapping_add s.renames 1 }
record_event symlink_op s = record s { symlink_ops = wrapping_add s.symlink_ops 1 }
record_event pack s = record s { packs = wrapping_add s.packs 1 }
record_event integrity_check s = record s { integrity_checks = wrapping_add s.integrity_checks 1 }

unfoldable pub error_total : ErrorStats → ℕ
error_total s =
    wrapping_add
      (wrapping_add
        (wrapping_add
          (wrapping_add
            (wrapping_add
              (wrapping_add (wrapping_add (wrapping_add s.scans s.copies) s.copy_acls)
                s.copy_xattrs)
              s.deletes)
            s.renames)
          s.symlink_ops)
        s.packs)
      s.integrity_checks

unfoldable pub is_empty : ErrorStats → Bool
unfolding error_total
is_empty s = error_total s == 0

pub error_total-record_event :
    (e : ErrorEvent) (s : ErrorStats)
    → error_total (record_event e s) ≡ wrapping_add (error_total s) 1
unfolding error_total record_event
error_total-record_event scan s = omega arith
error_total-record_event copy s = omega arith
error_total-record_event copy_acl s = omega arith
error_total-record_event copy_xattr s = omega arith
error_total-record_event delete s = omega arith
error_total-record_event rename s = omega arith
error_total-record_event symlink_op s = omega arith
error_total-record_event pack s = omega arith
error_total-record_event integrity_check s = omega arith

pub record DeltaCounts : Type 0 where
  pub dir_count : ℕ
  pub dir_size : ℕ
  pub regular_file_count : ℕ
  pub regular_file_size : ℕ
  pub symlink_count : ℕ
  pub symlink_size : ℕ
  pub other_entry_count : ℕ
  pub other_entry_size : ℕ

abbrev pub no_entries : DeltaCounts
no_entries = record {
  dir_count = 0;
  dir_size = 0;
  regular_file_count = 0;
  regular_file_size = 0;
  symlink_count = 0;
  symlink_size = 0;
  other_entry_count = 0;
  other_entry_size = 0;
}

unfoldable pub total_count : DeltaCounts → ℕ
total_count s =
    wrapping_add (wrapping_add (wrapping_add s.dir_count s.regular_file_count) s.symlink_count)
      s.other_entry_count

unfoldable pub total_file_count : DeltaCounts → ℕ
total_file_count s =
    wrapping_add (wrapping_add s.regular_file_count s.symlink_count) s.other_entry_count

unfoldable pub total_size : DeltaCounts → ℕ
total_size s =
    wrapping_add (wrapping_add (wrapping_add s.dir_size s.regular_file_size) s.symlink_size)
      s.other_entry_size

unfoldable pub add : EntryStatistics → DeltaCounts → DeltaCounts
add entry s =
    if entry.is_dir
    then record s {
      dir_count = wrapping_add s.dir_count 1;
      dir_size = wrapping_add s.dir_size entry.size;
    }
    else if entry.is_symlink
    then record s {
      symlink_count = wrapping_add s.symlink_count 1;
      symlink_size = wrapping_add s.symlink_size entry.size;
    }
    else if entry.is_regular_file
    then record s {
      regular_file_count = wrapping_add s.regular_file_count 1;
      regular_file_size = wrapping_add s.regular_file_size entry.size;
    }
    else record s {
      other_entry_count = wrapping_add s.other_entry_count 1;
      other_entry_size = wrapping_add s.other_entry_size entry.size;
    }

pub total-add :
    (entry : EntryStatistics) (s : DeltaCounts)
    → (total_count (add entry s) ≡ wrapping_add (total_count s) 1)
      × (total_size (add entry s) ≡ wrapping_add (total_size s) entry.size)
unfolding total_count total_size add
total-add entry s = elim (Bool-cases entry.is_dir) [
  | inl dir ↦ rw dir (omega arith, omega arith)
  | inr other ↦ elim (Bool-cases entry.is_symlink) [
    | inl link ↦ rw (other, link) (omega arith, omega arith)
    | inr neither ↦ elim (Bool-cases entry.is_regular_file) [
      | inl regular ↦ rw (other, neither, regular) (omega arith, omega arith)
      | inr special ↦ rw (other, neither, special) (omega arith, omega arith)
    ]
  ]
]
