-- ===== src/ByteResume/Store/Resume.antt =====
-- crates/app/src/byte_resume.rs: what `open` takes over from the state file.
use terrasync_rs.Base.{ℕ, ◌≡◌, refl, ap, ◌∙◌, true, List, Option, none, some, if◌then◌else◌, arith}
use terrasync_rs.ByteResume.Intervals.{to_vec}
use terrasync_rs.ByteResume.Intervals.Insert.{IsOrdered, from_vec-to_vec}
use terrasync_rs.ByteResume.Store.{
  ByteResumeStore, Json, Files, Io, snapshot, is_match, flush, flush_locked, write_text,
  check_state, read_state, load_if_match, fresh_store, open_with, open_store,
}

-- A store's own snapshot matches its key.
snapshot-is_match :
    (s : ByteResumeStore) → is_match (snapshot s) s.src_size s.src_mtime s.block_size ≡ true
unfolding is_match snapshot
snapshot-is_match s = ground arith

module _ (json : Json) where
  -- A flush that succeeds has written the snapshot.
  pub flush_written :
      (io : Io) (s : ByteResumeStore) (files : Files)
      → (flush json io s files).error ≡ none
      → (text : List ℕ) × (json.to_string (snapshot s) ≡ some text)
        × ((flush json io s files).files ≡ record { state_file = some text; tmp_file = none })
  unfolding flush flush_locked
  flush_written io s files h = go (json.to_string (snapshot s)) refl h
    where
      go :
          (o : Option (List ℕ))
          → json.to_string (snapshot s) ≡ o
          → (write_text io s files o).error ≡ none
          → (text : List ℕ) × (json.to_string (snapshot s) ≡ some text)
            × ((write_text io s files (json.to_string (snapshot s))).files
                ≡ record { state_file = some text; tmp_file = none })
      go none e h' = absurd (unfold write_text in ground arith)
      go (some text) e h' = (text, e, rw e (unfold write_text in ground arith))

  -- A state file that holds a store's snapshot is taken over.
  load_snapshot :
      (io : Io) (s : ByteResumeStore) (files : Files) (text : List ℕ)
      → files.state_file ≡ some text
      → json.to_string (snapshot s) ≡ some text
      → io.read_ok ≡ true
      → load_if_match json io files s.src_size s.src_mtime s.block_size ≡ some (to_vec s.completed)
  unfolding load_if_match read_state check_state
  load_snapshot io s files text held written read =
      ap (λ o. check_state (read_state json io o) s.src_size s.src_mtime s.block_size) held
      ∙ ap
          (λ b.
            check_state (if b then json.from_str text else none) s.src_size s.src_mtime
              s.block_size)
          read
      ∙ ap (λ o. check_state o s.src_size s.src_mtime s.block_size)
          (json.from_str-to_string (snapshot s) text written)
      ∙ ap (λ b. if b then some (snapshot s).completed else none) (snapshot-is_match s)
      ∙ (unfold snapshot in refl)

  -- After a flush that succeeds, a store whose set is in order and merged is found again: a later
  -- opening for the same source, whose directory and state file can be used, takes over exactly
  -- the completed intervals and leaves the files as they are.
  pub open_store-flush :
      (io later : Io) (s : ByteResumeStore) (files : Files) (dest_rel : List ℕ)
      → (flush json io s files).error ≡ none
      → IsOrdered s.completed
      → later.create_dir_ok ≡ true
      → later.read_ok ≡ true
      → open_store json later
          (flush json io s files).files
          dest_rel
          s.src_size
          s.src_mtime
          s.block_size
        ≡ some (
          fresh_store dest_rel s.src_size s.src_mtime s.block_size s.completed,
          (flush json io s files).files,
        )
  unfolding open_store open_with
  open_store-flush io later s files dest_rel h ord dir read =
      let (text, written, made) = flush_written io s files h in
      let loaded = load_snapshot later s after text (ap (λ f. f.state_file) made) written read in
      rw dir (
        ap (λ o. some (open_with later after dest_rel s.src_size s.src_mtime s.block_size o)) loaded
        ∙ ap (λ set. some (fresh_store dest_rel s.src_size s.src_mtime s.block_size set, after))
            (from_vec-to_vec s.completed ord))
    where
      after : Files
      after = (flush json io s files).files
