-- ===== src/Inventory/Examples.antt =====
-- Runs and instances of the theorems about crates/app/src/remote_inventory.rs.
use terrasync_rs.Base.{ℕ, Bool, true, false, none, List, [], ◌∷◌, All, ◌≡◌, refl, arith}
use terrasync_rs.Inventory.{
  Delivery, item, entry, directory_listed, new_walk, directory_pages, new_table, DirPageResult,
  page, done,
}
use terrasync_rs.Inventory.Numbers.{ingest_pages, IsKept, directory_pages-get}

-- An item is its name.
abbrev plain : Bool → List ℕ → Delivery (List ℕ)
plain is_dir name = item (entry (record { versions = none; is_dir = is_dir; item = name }))

-- The file "b", the directory "d" and the file "a" in the root, and the file "c" in "d".
abbrev walked : List (Delivery (List ℕ))
walked =
    plain false (98 ∷ [])
    ∷ plain true (100 ∷ [])
    ∷ plain false (97 ∷ [])
    ∷ item (directory_listed [])
    ∷ plain false (99 ∷ [])
    ∷ item (directory_listed (100 ∷ []))
    ∷ []

abbrev first_page : DirPageResult (List ℕ)
first_page = record {
  dir_path = [];
  ndx_start = 0;
  files = record { ndx = 0; entry = 97 ∷ [] } ∷ record { ndx = 1; entry = 98 ∷ [] } ∷ [];
  subdirs = record { ndx = 2; entry = 100 ∷ [] } ∷ [];
  gap_ndx = 3;
}

abbrev second_page : DirPageResult (List ℕ)
second_page = record {
  dir_path = 100 ∷ [];
  ndx_start = 4;
  files = record { ndx = 4; entry = 99 ∷ [] } ∷ [];
  subdirs = [];
  gap_ndx = 5;
}

walked_pages :
    (directory_pages (λ n. n) none walked new_walk).sent
    ≡ page first_page ∷ page second_page ∷ done ∷ []
unfolding directory_pages
walked_pages = refl

directory_pages-get_example :
    All
      (IsKept (ingest_pages (first_page ∷ second_page ∷ []) new_table))
      (first_page ∷ second_page ∷ [])
unfolding directory_pages
directory_pages-get_example = directory_pages-get (λ n. n) none walked (omega arith)
