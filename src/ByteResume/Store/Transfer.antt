-- ===== src/ByteResume/Store/Transfer.antt =====
-- crates/app/src/byte_resume.rs: any history of one transfer, as a list of commits, flushes, ends
-- and restarts, each with what its I/O does.
use terrasync_rs.Base.{ℕ, ◌+◌, List, [], ◌∷◌, Option, none, some}
use terrasync_rs.ByteResume.Intervals.{Interval, empty}
use terrasync_rs.ByteResume.Store.{
  ByteResumeStore, Json, Files, Io, flush, mark_committed, finalize_done, fresh_store, open_store,
}

pub data Event : Type 0 where
  commits : Io → (offset len : ℕ) → Event
  flushes : Io → Event
  finishes : Io → Event
  restarts : Io → Event

-- One store, its files, and the intervals that were confirmed so far.
pub record Transfer : Type 0 where
  pub store : ByteResumeStore
  pub files : Files
  pub confirmed : List Interval

module _ (json : Json) (dest_rel : List ℕ) (src_size src_mtime block_size : ℕ) where
  -- A restart opens the same source again; if that fails, nothing has changed.
  unfoldable pub after_open : Transfer → Option (ByteResumeStore × Files) → Transfer
  after_open t none = t
  after_open t (some (store, files)) = record t { store = store; files = files }

  unfoldable pub step : Transfer → Event → Transfer
  unfolding after_open
  step t (commits io offset len) =
      let o = mark_committed json io t.store t.files offset len in
      record { store = o.store; files = o.files; confirmed = (offset, offset + len) ∷ t.confirmed }
  step t (flushes io) =
      let o = flush json io t.store t.files in record t { store = o.store; files = o.files }
  step t (finishes io) =
      let o = finalize_done io t.store t.files in record t { store = o.store; files = o.files }
  step t (restarts io) =
      after_open t (open_store json io t.files dest_rel src_size src_mtime block_size)

  unfoldable pub run : Transfer → List Event → Transfer
  unfolding step
  run t [] = t
  run t (e ∷ es) = run (step t e) es

  -- A transfer before its first commit, with no state file.
  abbrev pub first : Option (List ℕ) → Transfer
  first tmp = record {
    store = fresh_store dest_rel src_size src_mtime block_size empty;
    files = record { state_file = none; tmp_file = tmp };
    confirmed = [];
  }
