-- ===== src/Transport/DestIndex/Examples.antt =====
-- Instances of the theorems about the index, on entries that are a path, a kind and a time.
use terrasync_rs.Base.{ℕ, ◌≡◌, refl, Bool, true, false, List, [], ◌∷◌}
use terrasync_rs.Transport.DestIndex.{
  Observed, DestIndex, TransferDecision, delta_transfer, skip, empty, insert, check,
  orphaned_entries,
}
use terrasync_rs.Transport.DestIndex.Orphans.{check_all, orphaned_entries-check_all}
use terrasync_rs.Transport.DestIndex.Lookup.{check-insert}

abbrev Entry : Type 0
Entry = List ℕ × Bool × ℕ

abbrev entries : Observed Entry
entries = record {
  path = λ e. e.0;
  is_directory = λ e. e.1;
  mtime = λ e. e.2;
  size = λ e. 0;
  same_backend = λ a b. true;
  same_ownership = λ a b. true;
  same_tags = λ a b. true;
}

-- A file and a directory of one name, and one more file.
abbrev file : Entry
file = (1 ∷ [], false, 5)

abbrev folder : Entry
folder = (1 ∷ [], true, 5)

abbrev other : Entry
other = (2 ∷ [], false, 6)

abbrev index : DestIndex Entry
index = insert entries other (insert entries folder (insert entries file empty))

check-insert_example :
    (check entries (insert entries other index) (2 ∷ [], false, 7)).0 ≡ delta_transfer
unfolding check
check-insert_example = check-insert entries index other (2 ∷ [], false, 7) refl

orphaned_entries-check_all_example :
    orphaned_entries entries (check_all entries index (file ∷ [])) ≡ other ∷ folder ∷ []
unfolding insert terrasync_rs.Transport.DestIndex.Orphans.filter
    terrasync_rs.Transport.DestIndex.unmatched terrasync_rs.Transport.DestIndex.Orphans.named
orphaned_entries-check_all_example = orphaned_entries-check_all entries index (file ∷ [])
