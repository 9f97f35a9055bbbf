-- ===== src/Transport/DestIndex.antt =====
-- crates/transport/src/message.rs: `DestIndex`, the index of a destination's directory, and
-- `TransferDecision`. A HashMap is a list in which a path occurs once. The entries are
-- data-mover's, so their type and what is read off them are the parameter `Observed`; the objects
-- that stand for directories of an object store are left out.
pub mod Orphans
pub mod Lookup
mod Examples
use terrasync_rs.Base.{
  ℕ, ◌&&◌, Bool, true, false, List, [], ◌∷◌, ◌++◌, Option, none, some, not, ◌==◌, bytes_eq,
  if◌then◌else◌,
}

pub data TransferDecision : Type 0 where
  full_transfer delta_transfer metadata_only skip deleted : TransferDecision

pub record Observed (E : Type 0) : Type 0 where
  pub path : E → List ℕ
  pub is_directory : E → Bool
  pub mtime : E → ℕ
  pub size : E → ℕ
  pub same_backend : E → E → Bool
  pub same_ownership : E → E → Bool
  pub same_tags : E → E → Bool

-- The two slots: other entries, and directories. The flag says that a source has matched.
pub record DestIndex (E : Type 0) : Type 0 where
  pub others : List (E × Bool)
  pub directories : List (E × Bool)

abbrev pub empty : {E : Type 0} → DestIndex E
empty = record { others = []; directories = [] }

module _ {E : Type 0} (observed : Observed E) where
  abbrev pub has_path : E → List ℕ → Bool
  has_path e path = bytes_eq (observed.path e) path

  abbrev pub slot : DestIndex E → E → List (E × Bool)
  slot index e = if observed.is_directory e then index.directories else index.others

  abbrev pub with_slot : DestIndex E → E → List (E × Bool) → DestIndex E
  with_slot index e l =
      if observed.is_directory e
      then record index { directories = l }
      else record index { others = l }

  unfoldable pub remove : List ℕ → List (E × Bool) → List (E × Bool)
  unfolding bytes_eq
  remove path [] = []
  remove path ((e, matched) ∷ rest) =
      let kept = remove path rest in if has_path e path then kept else (e, matched) ∷ kept

  unfoldable pub get_key_value : List ℕ → List (E × Bool) → Option E
  unfolding bytes_eq
  get_key_value path [] = none
  get_key_value path ((e, matched) ∷ rest) =
      let found = get_key_value path rest in if has_path e path then some e else found

  -- `*matched = true` for the entry of a path.
  unfoldable pub mark : List ℕ → List (E × Bool) → List (E × Bool)
  unfolding bytes_eq
  mark path [] = []
  mark path ((e, matched) ∷ rest) =
      let marked = mark path rest in
      if has_path e path then (e, true) ∷ marked else (e, matched) ∷ marked

  unfoldable pub insert : E → DestIndex E → DestIndex E
  unfolding remove
  insert e index = with_slot index e ((e, false) ∷ remove (observed.path e) (slot index e))

  unfoldable pub data_check : E → E → Bool
  data_check src dest =
      observed.mtime src == observed.mtime dest && observed.size src == observed.size dest

  unfoldable pub metadata_check : E → E → Bool
  metadata_check src dest =
      observed.same_backend src dest
      && (observed.same_ownership src dest && observed.same_tags src dest)

  unfoldable pub decision : E → E → TransferDecision
  unfolding data_check metadata_check
  decision source dest =
      if data_check source dest
      then if metadata_check source dest then skip else metadata_only
      else delta_transfer

  unfoldable pub decided : DestIndex E → E → Option E → TransferDecision × DestIndex E
  unfolding decision mark
  decided index source none = (full_transfer, index)
  decided index source (some dest) = (
    decision source dest,
    with_slot index source (mark (observed.path source) (slot index source)),
  )

  unfoldable pub check : DestIndex E → E → TransferDecision × DestIndex E
  unfolding decided get_key_value
  check index source =
      decided index source (get_key_value (observed.path source) (slot index source))

  unfoldable pub unmatched : List (E × Bool) → List E
  unmatched [] = []
  unmatched ((e, matched) ∷ rest) = let es = unmatched rest in if not matched then e ∷ es else es

  unfoldable pub orphaned_entries : DestIndex E → List E
  unfolding unmatched
  orphaned_entries index = unmatched index.others ++ unmatched index.directories
