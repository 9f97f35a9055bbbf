-- ===== src/ByteResume/Store.antt =====
-- crates/app/src/byte_resume.rs: `ByteResumeStore`. Its state file and its temporary file are the
-- record `Files`; a call takes what its I/O will do as an argument. The JSON form of the state is
-- serde's, so it is the parameter `Json`. Texts and paths are byte strings; an `i64` is its bit
-- pattern, since it is only compared for equality.
pub mod Resume
pub mod Transfer
pub mod History
use terrasync_rs.Base.{
  ℕ, ◌+◌, ◌≡◌, Bool, true, false, ◌&&◌, List, [], ◌∷◌, ◌++◌, Option, none, some, leb, ◌==◌,
  if◌then◌else◌, u64,
}
use terrasync_rs.ByteResume.Intervals.{
  Interval, IntervalSet, empty, insert, from_vec, to_vec, missing, covers,
}

abbrev pub state_version : ℕ
state_version = 1

abbrev pub flush_every_chunks : ℕ
flush_every_chunks = 16

-- ".terrasync-part"
abbrev pub part_suffix : List ℕ
part_suffix =
    46 ∷ 116 ∷ 101 ∷ 114 ∷ 114 ∷ 97 ∷ 115 ∷ 121 ∷ 110 ∷ 99 ∷ 45 ∷ 112 ∷ 97 ∷ 114 ∷ 116 ∷ []

unfoldable pub part_path_for : List ℕ → List ℕ
part_path_for dest_rel = dest_rel ++ part_suffix

pub record ByteResumeState : Type 0 where
  pub version : ℕ
  pub part_path : List ℕ
  pub src_relative_path : List ℕ
  pub src_size : ℕ
  pub src_mtime : ℕ
  pub block_size : ℕ
  pub completed : List Interval

-- serde_json: writing may fail; what it writes is read back.
pub record Json : Type 0 where
  pub to_string : ByteResumeState → Option (List ℕ)
  pub from_str : List ℕ → Option ByteResumeState
  pub from_str-to_string :
      (s : ByteResumeState) (text : List ℕ) → to_string s ≡ some text → from_str text ≡ some s

-- The two files of one store.
pub record Files : Type 0 where
  pub state_file : Option (List ℕ)
  pub tmp_file : Option (List ℕ)

-- What the I/O of one call does. A write that fails may leave anything in the temporary file.
pub record Io : Type 0 where
  pub write_ok : Bool
  pub partial : Option (List ℕ)
  pub rename_ok : Bool
  pub create_dir_ok : Bool
  pub read_ok : Bool
  pub remove_ok : Bool
  pub remove_tmp_ok : Bool

pub data Error : Type 0 where
  io_error checkpoint_error : Error

pub record ByteResumeStore : Type 0 where
  pub part_relative_path : List ℕ
  pub src_relative_path : List ℕ
  pub src_size : ℕ
  pub src_mtime : ℕ
  pub block_size : ℕ
  pub completed : IntervalSet
  pub dirty : ℕ

-- A call's result: its error, if any, and the store and files that it leaves.
pub record Outcome : Type 0 where
  pub error : Option Error
  pub store : ByteResumeStore
  pub files : Files

-- The state that `flush_locked` writes.
unfoldable pub snapshot : ByteResumeStore → ByteResumeState
unfolding to_vec
snapshot s = record {
  version = state_version;
  part_path = s.part_relative_path;
  src_relative_path = s.src_relative_path;
  src_size = s.src_size;
  src_mtime = s.src_mtime;
  block_size = s.block_size;
  completed = to_vec s.completed;
}

-- The test that makes an old state void.
unfoldable pub is_match : ByteResumeState → ℕ → ℕ → ℕ → Bool
is_match state src_size src_mtime block_size =
    state.version == state_version
    && (state.src_size == src_size
        && (state.src_mtime == src_mtime && state.block_size == block_size))

-- The intervals that cover [0, src_size) still to be transferred.
unfoldable pub missing_intervals : ByteResumeStore → List Interval
unfolding missing
missing_intervals s = missing s.completed s.src_size

unfoldable pub is_complete : ByteResumeStore → Bool
unfolding covers
is_complete s = covers s.completed s.src_size

-- Deletes the temporary file, whatever comes of it, and then the state file if it is there.
unfoldable pub finalize_done : Io → ByteResumeStore → Files → Outcome
finalize_done io s files =
    let cleaned = if io.remove_tmp_ok then record files { tmp_file = none } else files in
    elim files.state_file [
      | none ↦ record { error = none; store = s; files = cleaned }
      | some text ↦
          if io.remove_ok
          then record { error = none; store = s; files = record cleaned { state_file = none } }
          else record { error = some io_error; store = s; files = cleaned }
    ]

unfoldable pub write_text : Io → ByteResumeStore → Files → Option (List ℕ) → Outcome
write_text io s files none = record { error = some checkpoint_error; store = s; files = files }
write_text io s files (some text) =
    if io.write_ok
    then if io.rename_ok
      then record {
        error = none;
        store = record s { dirty = 0 };
        files = record { state_file = some text; tmp_file = none };
      }
      else record {
        error = some io_error;
        store = s;
        files = record files { tmp_file = some text };
      }
    else record { error = some io_error; store = s; files = record files { tmp_file = io.partial } }

unfoldable pub check_state : Option ByteResumeState → ℕ → ℕ → ℕ → Option (List Interval)
check_state none src_size src_mtime block_size = none
check_state (some state) src_size src_mtime block_size =
    if is_match state src_size src_mtime block_size then some state.completed else none

unfoldable pub fresh_store : List ℕ → ℕ → ℕ → ℕ → IntervalSet → ByteResumeStore
fresh_store dest_rel src_size src_mtime block_size completed = record {
  part_relative_path = part_path_for dest_rel;
  src_relative_path = dest_rel;
  src_size = src_size;
  src_mtime = src_mtime;
  block_size = block_size;
  completed = completed;
  dirty = 0;
}

-- What `open` does with the intervals that were loaded. The old state file is removed if there
-- were none; a failure of that is ignored.
unfoldable pub open_with :
    Io → Files → List ℕ → ℕ → ℕ → ℕ → Option (List Interval) → ByteResumeStore × Files
open_with io files dest_rel src_size src_mtime block_size (some intervals) =
    (fresh_store dest_rel src_size src_mtime block_size (from_vec intervals), files)
open_with io files dest_rel src_size src_mtime block_size none = (
  fresh_store dest_rel src_size src_mtime block_size empty,
  if io.remove_ok then record files { state_file = none } else files,
)

module _ (json : Json) where
  -- Serialise, write the temporary file, rename it over the state file.
  unfoldable pub flush_locked : Io → ByteResumeStore → Files → Outcome
  unfolding write_text snapshot
  flush_locked io s files = write_text io s files (json.to_string (snapshot s))

  unfoldable pub flush : Io → ByteResumeStore → Files → Outcome
  unfolding flush_locked
  flush io s files = flush_locked io s files

  -- `offset + len` is a `u64`.
  unfoldable pub mark_committed : Io → ByteResumeStore → Files → ℕ → ℕ → Outcome
  unfolding flush_locked insert
  mark_committed io s files offset len =
      let marked = record s {
        completed = insert s.completed offset (u64 (offset + len));
        dirty = s.dirty + 1;
      } in
      if leb flush_every_chunks marked.dirty
      then flush_locked io marked files
      else record { error = none; store = marked; files = files }

  unfoldable pub read_state : Io → Option (List ℕ) → Option ByteResumeState
  read_state io none = none
  read_state io (some text) = if io.read_ok then json.from_str text else none

  unfoldable pub load_if_match : Io → Files → ℕ → ℕ → ℕ → Option (List Interval)
  unfolding check_state read_state is_match
  load_if_match io files src_size src_mtime block_size =
      check_state (read_state io files.state_file) src_size src_mtime block_size

  -- `none` is the error of a directory that cannot be made.
  unfoldable pub open_store : Io → Files → List ℕ → ℕ → ℕ → ℕ → Option (ByteResumeStore × Files)
  unfolding load_if_match open_with fresh_store part_path_for from_vec
  open_store io files dest_rel src_size src_mtime block_size =
      if io.create_dir_ok
      then some (
          open_with io files dest_rel src_size src_mtime block_size
            (load_if_match io files src_size src_mtime block_size))
      else none
