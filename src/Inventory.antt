-- ===== src/Inventory.antt =====
-- crates/app/src/remote_inventory.rs, crates/transport/src/directory.rs and `NdxTable` of
-- crates/transport/src/message.rs: the pages of a directory walk, in which every entry gets a number,
-- and the table that finds an entry by its number. The items are of the type `I`, an entry of the
-- storage library with a version chosen, and `name` is an item's file name.
pub mod Numbers
mod Examples
use terrasync_rs.Base.{
  ℕ, zero, suc, ◌+◌, ◌-◌, ◌^◌, ◌≤◌, min, Bool, true, false, Option, none, some, List, [], ◌∷◌, ◌++◌,
  ltb, ◌==◌, if◌then◌else◌, ◌≡◌, refl, arith,
}

pub record NdxEntry (I : Type 0) : Type 0 where
  pub ndx : ℕ
  pub entry : I

pub record DirPageResult (I : Type 0) : Type 0 where
  pub dir_path : List ℕ
  pub ndx_start : ℕ
  pub files : List (NdxEntry I)
  pub subdirs : List (NdxEntry I)
  pub gap_ndx : ℕ

pub data NdxEvent (I : Type 0) : Type 0 where
  page : DirPageResult I → NdxEvent I
  error : (path reason : List ℕ) → NdxEvent I
  done : NdxEvent I

-- What is read of an entry: the items of its versions if it has a history, whether it is a
-- directory, and its own item.
pub record Entry (I : Type 0) : Type 0 where
  pub versions : Option (List I)
  pub is_dir : Bool
  pub item : I

-- What the traversal delivers, with the reasons as texts.
pub data TraversalItem (I : Type 0) : Type 0 where
  entry : Entry I → TraversalItem I
  directory_listed : List ℕ → TraversalItem I
  failure : (path reason : List ℕ) → TraversalItem I
  observation_failure : (path reason : List ℕ) → TraversalItem I
  other : TraversalItem I

pub data Delivery (I : Type 0) : Type 0 where
  item : TraversalItem I → Delivery I
  broken : List ℕ → Delivery I

-- The state of the task that fills the channel, and what it has sent, the first first.
pub record Walk (I : Type 0) : Type 0 where
  pub files : List I
  pub subdirs : List I
  pub next : ℕ
  pub sent : List (NdxEvent I)

abbrev pub new_walk : {I : Type 0} → Walk I
new_walk = record { files = []; subdirs = []; next = 0; sent = [] }

-- i32::MAX
abbrev pub max_i32 : ℕ
max_i32 = 2 ^ 31 - 1

-- `next = next.saturating_add(1)`
abbrev pub counted : ℕ → ℕ
counted next = min (next + 1) max_i32

-- str::cmp: whether `a` comes before `b`, or is the same.
unfoldable pub not_after : List ℕ → List ℕ → Bool
not_after [] b = true
not_after (x ∷ xs) [] = false
not_after (x ∷ xs) (y ∷ ys) =
    let rest = not_after xs ys in if ltb x y then true else if x == y then rest else false

module _ {I : Type 0} where
  -- The entries with their numbers, and the next number.
  unfoldable pub indexed : ℕ → List I → List (NdxEntry I)
  indexed next [] = []
  indexed next (x ∷ xs) = record { ndx = next; entry = x } ∷ indexed (counted next) xs

  unfoldable pub next_index : ℕ → List I → ℕ
  next_index next [] = next
  next_index next (x ∷ xs) = next_index (counted next) xs

  unfoldable pub send : NdxEvent I → Walk I → Walk I
  send event w = record w { sent = w.sent ++ event ∷ [] }

module _ {I : Type 0} (name : I → List ℕ) where
  -- `sort_by` on the names; it is stable.
  unfoldable pub sorted_insert : I → List I → List I
  unfolding not_after
  sorted_insert x [] = x ∷ []
  sorted_insert x (y ∷ ys) =
      let rest = sorted_insert x ys in if not_after (name x) (name y) then x ∷ y ∷ ys else y ∷ rest

  unfoldable pub sort_by_name : List I → List I
  unfolding sorted_insert
  sort_by_name [] = []
  sort_by_name (x ∷ xs) = sorted_insert x (sort_by_name xs)

  unfoldable pub received : Entry I → Option (List I) → Walk I → Walk I
  received e (some versions) w = record w { files = w.files ++ versions }
  received e none w =
      if e.is_dir
      then record w { subdirs = w.subdirs ++ e.item ∷ [] }
      else record w { files = w.files ++ e.item ∷ [] }

  unfoldable pub listed : List ℕ → Walk I → Walk I
  unfolding sort_by_name indexed next_index send
  listed path w =
      let files = sort_by_name w.files in
      let subdirs = sort_by_name w.subdirs in
      let middle = next_index w.next files in
      let gap = next_index middle subdirs in
      send
        (page (record {
          dir_path = path;
          ndx_start = w.next;
          files = indexed w.next files;
          subdirs = indexed middle subdirs;
          gap_ndx = gap;
        }))
        (record w { files = []; subdirs = []; next = counted gap })

  unfoldable pub step : TraversalItem I → Walk I → Walk I
  unfolding received listed send
  step (entry e) w = received e e.versions w
  step (directory_listed path) w = listed path w
  step (failure path reason) w = send (error path reason) w
  step (observation_failure path reason) w = send (error path reason) w
  step other w = w

  unfoldable pub finished : Option (List ℕ) → Walk I → Walk I
  unfolding send
  finished none w = send done w
  finished (some reason) w = send (error [] reason) w

  -- The deliveries until the traversal ends or breaks; `outcome` is the reason for which it did not
  -- complete, if it did not. The receiving end of the channel stays.
  unfoldable pub directory_pages : Option (List ℕ) → List (Delivery I) → Walk I → Walk I
  unfolding step finished
  directory_pages outcome [] w = finished outcome w
  directory_pages outcome (broken reason ∷ deliveries) w = send (error [] reason) w
  directory_pages outcome (item x ∷ deliveries) w = directory_pages outcome deliveries (step x w)

-- A hash map, in which a later entry of a number hides an earlier one.
pub record NdxTable (I : Type 0) : Type 0 where
  pub entries : List (NdxEntry I)

module _ {I : Type 0} where
  unfoldable pub new_table : NdxTable I
  new_table = record { entries = [] }

  unfoldable pub ingest : List (NdxEntry I) → NdxTable I → NdxTable I
  ingest [] t = t
  ingest (e ∷ es) t = ingest es (record { entries = e ∷ t.entries })

  unfoldable pub ingest_page : DirPageResult I → NdxTable I → NdxTable I
  unfolding ingest
  ingest_page p t = ingest p.subdirs (ingest p.files t)

  unfoldable pub find : ℕ → List (NdxEntry I) → Option I
  find ndx [] = none
  find ndx (e ∷ es) = let rest = find ndx es in if e.ndx == ndx then some e.entry else rest

  unfoldable pub get : ℕ → NdxTable I → Option I
  unfolding find
  get ndx t = find ndx t.entries
