-- ===== src/TaskModel.antt =====
-- crates/task-model/src/event.rs: the events that the stages of a task send each other, and the
-- classification of a change. The observed entries and items are types of the storage library.
use terrasync_rs.Base.{
  ℕ, List, Bool, true, false, not, ◌||◌, Option, none, some, some_eq, ◌==◌, ==_iff, ◌≡◌, ◌↔◌, refl,
  ap, subst, arith,
}

pub data ErrorEvent : Type 0 where
  scan copy copy_acl copy_xattr delete rename symlink_op pack integrity_check : ErrorEvent

pub data ChangeKind : Type 0 where
  directory_marker_removed data_only metadata_only both : ChangeKind

-- A failed entry's event, its path, the entry if there was one, and the reason.
pub record Failure (E : Type 0) : Type 0 where
  pub event : ErrorEvent
  pub path : List ℕ
  pub entry : Option E
  pub reason : List ℕ

-- `E` is the type of the observed entries, `I` that of the items, an entry with a version chosen.
pub data StorageEntryMessage (E I : Type 0) : Type 0 where
  scanned : E → StorageEntryMessage E I
  new : I → StorageEntryMessage E I
  changed : I → ChangeKind → StorageEntryMessage E I
  deleted : E → StorageEntryMessage E I
  renamed : E → E → StorageEntryMessage E I
  integrity_checked : E → StorageEntryMessage E I
  packaged : E → StorageEntryMessage E I
  tar_manifest : List ℕ → List E → StorageEntryMessage E I
  error : Failure E → StorageEntryMessage E I

pub data EntryChange : Type 0 where
  created : EntryChange
  altered : ChangeKind → EntryChange

unfoldable pub message : {E I : Type 0} → EntryChange → I → StorageEntryMessage E I
message created item = new item
message (altered kind) item = changed item kind

-- What `from_entry_diff` reads of an entry: the getters of the extension trait `ObservedEntryExt`.
-- The time of modification is the bit pattern of its 64 bits.
pub record Attributes : Type 0 where
  pub size : ℕ
  pub mtime : ℕ
  pub mode : Option ℕ
  pub uid : Option ℕ
  pub gid : Option ℕ

unfoldable pub option_eq : Option ℕ → Option ℕ → Bool
option_eq none none = true
option_eq none (some b) = false
option_eq (some a) none = false
option_eq (some a) (some b) = a == b

pub option_eq_iff : (a b : Option ℕ) → (option_eq a b ≡ true) ↔ (a ≡ b)
unfolding option_eq
option_eq_iff none none = (λ h. refl, λ e. refl)
option_eq_iff none (some b) = ground arith
option_eq_iff (some a) none = ground arith
option_eq_iff (some a) (some b) = (λ h. ap some ((==_iff a b).0 h), λ e. (==_iff a b).1 (some_eq e))

unfoldable pub classified : Bool → Bool → Option ChangeKind
classified true true = some both
classified true false = some data_only
classified false true = some metadata_only
classified false false = none

unfoldable pub from_entry_diff : Attributes → Attributes → Option ChangeKind
unfolding option_eq classified
from_entry_diff from to = classified (not (from.size == to.size) || not (from.mtime == to.mtime)) (
    not (option_eq from.mode to.mode)
    || not (option_eq from.uid to.uid)
    || not (option_eq from.gid to.gid))

same_fields :
    (a b : Attributes)
    → a.size ≡ b.size
    → a.mtime ≡ b.mtime
    → a.mode ≡ b.mode
    → a.uid ≡ b.uid
    → a.gid ≡ b.gid
    → a ≡ b
same_fields a b size mtime mode uid gid = cc

-- No change is reported between two states of an entry exactly if they have the same size, time
-- of modification, mode, user and group.
pub from_entry_diff-none : (from to : Attributes) → (from_entry_diff from to ≡ none) ↔ (from ≡ to)
unfolding from_entry_diff classified
from_entry_diff-none from to = (
  λ h.
      same_fields from to (ground (arith, h)) (ground (arith, h))
        ((option_eq_iff from.mode to.mode).0 (ground (arith, h)))
        ((option_eq_iff from.uid to.uid).0 (ground (arith, h)))
        ((option_eq_iff from.gid to.gid).0 (ground (arith, h))),
  λ e. subst (λ t. from_entry_diff from t ≡ none) e (same from),
)
  where
    same : (a : Attributes) → from_entry_diff a a ≡ none
    same a =
        rw
          (
            (==_iff a.size a.size).1 refl,
            (==_iff a.mtime a.mtime).1 refl,
            (option_eq_iff a.mode a.mode).1 refl,
            (option_eq_iff a.uid a.uid).1 refl,
            (option_eq_iff a.gid a.gid).1 refl,
          )
          refl
