-- ===== src/ByteResume/Store/History.antt =====
-- crates/app/src/byte_resume.rs: what every history of a transfer keeps.
use terrasync_rs.Base.{
  ℕ, ◌+◌, ◌<◌, ◌≡◌, refl, ap, sym, ◌∙◌, subst, inl, inr, true, false, List, [], ◌∷◌, Option, none,
  some, if◌then◌else◌, leb, Bool-cases, Option-cases, ◌⊎◌, some_eq, u64, arith,
}
use terrasync_rs.ByteResume.Intervals.{Interval, insert, from_vec}
use terrasync_rs.ByteResume.Intervals.Points.{point}
use terrasync_rs.ByteResume.Intervals.Insert.{
  IsOrdered, insert-IsOrdered, insert-point, from_vec-to_vec, from_vec-IsOrdered,
}
use terrasync_rs.ByteResume.Intervals.Missing.{covers_iff, missing-point}
use terrasync_rs.ByteResume.Store.{
  ByteResumeState, ByteResumeStore, Json, Files, Io, Outcome, snapshot, is_match, flush,
  flush_locked, write_text, mark_committed, is_complete, missing_intervals, finalize_done,
  flush_every_chunks, check_state, read_state, load_if_match, fresh_store, open_with, open_store,
}
use terrasync_rs.ByteResume.Store.Transfer.{
  Event, commits, flushes, finishes, restarts, Transfer, step, run, first,
}

-- The state file is gone at the end or left as it was, and the store is as it was.
finalize-state_file :
    (io : Io) (s : ByteResumeStore) (files : Files)
    → ((finalize_done io s files).store ≡ s)
      × (((finalize_done io s files).files.state_file ≡ files.state_file)
          ⊎ ((finalize_done io s files).files.state_file ≡ none))
unfolding finalize_done
finalize-state_file io s files = elim (Bool-cases io.remove_tmp_ok) [
  | inl cleaned ↦ elim (Option-cases files.state_file) [
    | inl missing ↦ rw (missing, cleaned, finalize_done) (refl, inr missing)
    | inr (text, there) ↦ elim (Bool-cases io.remove_ok) [
      | inl removed ↦ rw (there, cleaned, removed, finalize_done) (refl, inr refl)
      | inr left ↦ rw (there, cleaned, left, finalize_done) (refl, inl there)
    ]
  ]
  | inr kept ↦ elim (Option-cases files.state_file) [
    | inl missing ↦ rw (missing, kept, finalize_done) (refl, inr missing)
    | inr (text, there) ↦ elim (Bool-cases io.remove_ok) [
      | inl removed ↦ rw (there, kept, removed, finalize_done) (refl, inr refl)
      | inr left ↦ rw (there, kept, left, finalize_done) (refl, inl there)
    ]
  ]
]

module _ (json : Json) (dest_rel : List ℕ) (src_size src_mtime block_size : ℕ) where
  -- The transfer of these parameters.
  abbrev step_here : Transfer → Event → Transfer
  step_here = step json dest_rel src_size src_mtime block_size

  abbrev run_here : Transfer → List Event → Transfer
  run_here = run json dest_rel src_size src_mtime block_size

  abbrev first_here : Option (List ℕ) → Transfer
  first_here = first json dest_rel src_size src_mtime block_size

  -- The offsets of a set have been confirmed.
  abbrev Confirmed : List Interval → List Interval → Type 0
  Confirmed log xs = (x : ℕ) → point xs x ≡ true → point log x ≡ true

  -- What the state file would bring back has been confirmed.
  abbrev Stored : List Interval → Files → Type 0
  Stored log files =
      (text : List ℕ) (state : ByteResumeState)
      → files.state_file ≡ some text
      → json.from_str text ≡ some state
      → Confirmed log (from_vec state.completed).intervals

  record IsSafe (t : Transfer) : Type 0 where
    pub size : t.store.src_size ≡ src_size
    pub ordered : IsOrdered t.store.completed
    pub completed : Confirmed t.confirmed t.store.completed.intervals
    pub stored : Stored t.confirmed t.files

  abbrev IsSafeOutcome : List Interval → Outcome → Type 0
  IsSafeOutcome log o = IsSafe (record { store = o.store; files = o.files; confirmed = log })

  snapshot-completed :
      (s : ByteResumeStore) → IsOrdered s.completed → from_vec (snapshot s).completed ≡ s.completed
  unfolding snapshot
  snapshot-completed s ord = from_vec-to_vec s.completed ord

  write-IsSafe :
      (io : Io) (s : ByteResumeStore) (files : Files) (log : List Interval) (text : Option (List ℕ))
      → json.to_string (snapshot s) ≡ text
      → IsSafe (record { store = s; files = files; confirmed = log })
      → IsSafeOutcome log (write_text io s files text)
  unfolding write_text
  write-IsSafe io s files log none e v = record {
    size = v.size;
    ordered = v.ordered;
    completed = v.completed;
    stored = v.stored;
  }
  write-IsSafe io s files log (some text) e v = elim (Bool-cases io.write_ok) [
    | inr fails ↦
        rw (fails, write_text)
          (record {
            size = v.size;
            ordered = v.ordered;
            completed = v.completed;
            stored = v.stored;
          })
    | inl writes ↦ elim (Bool-cases io.rename_ok) [
      | inr fails ↦
          rw (writes, fails, write_text)
            (record {
              size = v.size;
              ordered = v.ordered;
              completed = v.completed;
              stored = v.stored;
            })
      | inl renames ↦
          rw (writes, renames, write_text)
            (record {
              size = v.size;
              ordered = v.ordered;
              completed = v.completed;
              stored = written;
            })
    ]
  ]
    where
      written : Stored log (record { state_file = some text; tmp_file = none })
      written text' state at parsed x h =
          let same : state ≡ snapshot s = some_eq (
            sym parsed
            ∙ ap json.from_str (sym (some_eq at))
            ∙ json.from_str-to_string (snapshot s) text e) in
          let back : from_vec state.completed ≡ s.completed =
            ap (λ st. from_vec st.completed) same ∙ snapshot-completed s v.ordered in
          v.completed x (subst (λ set. point set.intervals x ≡ true) back h)

  flush-IsSafe :
      (io : Io) (s : ByteResumeStore) (files : Files) (log : List Interval)
      → IsSafe (record { store = s; files = files; confirmed = log })
      → IsSafeOutcome log (flush_locked json io s files)
  unfolding flush_locked
  flush-IsSafe io s files log v = write-IsSafe io s files log (json.to_string (snapshot s)) refl v

  -- The offsets that a commit adds to the set are among those that it confirms.
  committed :
      (s : ByteResumeStore) (offset len x : ℕ) (log : List Interval)
      → IsOrdered s.completed
      → Confirmed log s.completed.intervals
      → point (insert s.completed offset (u64 (offset + len))).intervals x ≡ true
      → point ((offset, offset + len) ∷ log) x ≡ true
  unfolding point
  committed s offset len x log ord c h =
      ground (arith, insert-point s.completed offset (u64 (offset + len)) x ord, c x)

  weaker : (i : Interval) (log xs : List Interval) → Confirmed log xs → Confirmed (i ∷ log) xs
  unfolding point
  weaker i log xs c x h = ground (arith, c x h)

  commit-IsSafe :
      (io : Io) (t : Transfer) (offset len : ℕ)
      → IsSafe t
      → IsSafeOutcome
          ((offset, offset + len) ∷ t.confirmed)
          (mark_committed json io t.store t.files offset len)
  unfolding mark_committed
  commit-IsSafe io t offset len v = elim (Bool-cases (leb flush_every_chunks (t.store.dirty + 1))) [
    | inl full ↦ rw (full, mark_committed) (flush-IsSafe io marked t.files log safe_marked)
    | inr room ↦
        rw (room, mark_committed)
          (record {
            size = v.size;
            ordered = safe_marked.ordered;
            completed = safe_marked.completed;
            stored = safe_marked.stored;
          })
  ]
    where
      log : List Interval
      log = (offset, offset + len) ∷ t.confirmed

      marked : ByteResumeStore
      marked = record (t.store) {
        completed = insert t.store.completed offset (u64 (offset + len));
        dirty = t.store.dirty + 1;
      }

      safe_marked : IsSafe (record { store = marked; files = t.files; confirmed = log })
      safe_marked = record {
        size = v.size;
        ordered = insert-IsOrdered t.store.completed offset (u64 (offset + len)) v.ordered;
        completed = λ x h. committed t.store offset len x t.confirmed v.ordered v.completed h;
        stored = λ text state at parsed x h.
            weaker (offset, offset + len) t.confirmed (from_vec state.completed).intervals
              (v.stored text state at parsed) x h;
      }

  -- What is loaded comes from the state file.
  loaded_from :
      (io : Io) (files : Files) (intervals : List Interval)
      → load_if_match json io files src_size src_mtime block_size ≡ some intervals
      → (text : List ℕ) × (state : ByteResumeState) × (files.state_file ≡ some text)
        × (json.from_str text ≡ some state)
        × (state.completed ≡ intervals)
  unfolding load_if_match read_state check_state
  loaded_from io files intervals h = file files.state_file refl h
    where
      Found : Type 0
      Found =
          (text : List ℕ) × (state : ByteResumeState) × (files.state_file ≡ some text)
          × (json.from_str text ≡ some state)
          × (state.completed ≡ intervals)

      parsed :
          (text : List ℕ) (o : Option ByteResumeState)
          → files.state_file ≡ some text
          → json.from_str text ≡ o
          → check_state o src_size src_mtime block_size ≡ some intervals
          → Found
      parsed text none at e h' = absurd (ground arith)
      parsed text (some state) at e h' =
          elim (Bool-cases (is_match state src_size src_mtime block_size)) [
            | inl fits ↦ (text, state, at, e, some_eq (rw fits at h'))
            | inr stale ↦ absurd (ground arith)
          ]

      file :
          (o : Option (List ℕ))
          → files.state_file ≡ o
          → check_state (read_state json io o) src_size src_mtime block_size ≡ some intervals
          → Found
      file none at h' = absurd (ground arith)
      file (some text) at h' = elim (Bool-cases io.read_ok) [
        | inl reads ↦ parsed text (json.from_str text) at refl (rw reads at h')
        | inr fails ↦ absurd (ground arith)
      ]

  open-IsSafe :
      (io : Io) (t : Transfer) (o : Option (List Interval))
      → load_if_match json io t.files src_size src_mtime block_size ≡ o
      → IsSafe t
      → let r = open_with io t.files dest_rel src_size src_mtime block_size o in
        IsSafe (record t { store = r.0; files = r.1 })
  unfolding open_with fresh_store
  open-IsSafe io t none e v = record {
    size = refl;
    ordered = tt;
    completed = λ x h. absurd (unfold point in ground arith);
    stored = removed;
  }
    where
      removed :
          Stored t.confirmed
            (if io.remove_ok then record (t.files) { state_file = none } else t.files)
      removed text state at parsed = elim (Bool-cases io.remove_ok) [
        | inl gone ↦ absurd (ground arith)
        | inr kept ↦ v.stored text state (rw kept at at) parsed
      ]
  open-IsSafe io t (some intervals) e v =
      let (text, state, at, parsed, same) = loaded_from io t.files intervals e in
      record {
        size = refl;
        ordered = from_vec-IsOrdered intervals;
        completed =
            subst (λ l. Confirmed t.confirmed (from_vec l).intervals) same
              (v.stored text state at parsed);
        stored = v.stored;
      }

  finalize-IsSafe :
      (io : Io) (t : Transfer)
      → IsSafe t
      → let o = finalize_done io t.store t.files in
        IsSafe (record t { store = o.store; files = o.files })
  finalize-IsSafe io t v =
      let (same, left) = finalize-state_file io t.store t.files in
      record {
        size = ap (λ s. s.src_size) same ∙ v.size;
        ordered = subst (λ s. IsOrdered s.completed) (sym same) v.ordered;
        completed = subst (λ s. Confirmed t.confirmed s.completed.intervals) (sym same) v.completed;
        stored = λ text state at parsed. elim left [
          | inl kept ↦ v.stored text state (sym kept ∙ at) parsed
          | inr gone ↦ absurd (ground arith)
        ];
      }

  step-IsSafe : (t : Transfer) (e : Event) → IsSafe t → IsSafe (step_here t e)
  unfolding step
  step-IsSafe t (commits io offset len) v = commit-IsSafe io t offset len v
  step-IsSafe t (flushes io) v = unfold flush in flush-IsSafe io t.store t.files t.confirmed v
  step-IsSafe t (finishes io) v = finalize-IsSafe io t v
  step-IsSafe t (restarts io) v =
      unfold open_store in
      elim (Bool-cases io.create_dir_ok) [
        | inl made ↦
            rw made (
              open-IsSafe io t (load_if_match json io t.files src_size src_mtime block_size) refl v)
        | inr fails ↦ rw fails v
      ]

  run-IsSafe : (t : Transfer) (es : List Event) → IsSafe t → IsSafe (run_here t es)
  unfolding run
  run-IsSafe t [] v = v
  run-IsSafe t (e ∷ es) v = run-IsSafe (step_here t e) es (step-IsSafe t e v)

  first-IsSafe : (tmp : Option (List ℕ)) → IsSafe (first_here tmp)
  unfolding fresh_store
  first-IsSafe tmp = record {
    size = refl;
    ordered = tt;
    completed = λ x h. h;
    stored = λ text state at. absurd (ground arith);
  }

  -- After any history of commits, flushes, ends, failures of the I/O and restarts, from a
  -- transfer without a state file, a store that calls the file complete has had every offset of
  -- the file confirmed by a commit of that history.
  pub run-is_complete :
      (tmp : Option (List ℕ)) (es : List Event) (x : ℕ)
      → is_complete (run_here (first_here tmp) es).store ≡ true
      → x < src_size
      → point (run_here (first_here tmp) es).confirmed x ≡ true
  unfolding is_complete
  run-is_complete tmp es x done h =
      let v = run-IsSafe (first_here tmp) es (first-IsSafe tmp) in
      v.completed x (
        (covers_iff (run_here (first_here tmp) es).store.completed
            (run_here (first_here tmp) es).store.src_size v.ordered).0
          done x (rw v.size h))

  -- After any such history, an offset of the file that no commit has confirmed is among the
  -- missing intervals of the store.
  pub run-missing :
      (tmp : Option (List ℕ)) (es : List Event) (x : ℕ)
      → x < src_size
      → point (run_here (first_here tmp) es).confirmed x ≡ false
      → point (missing_intervals (run_here (first_here tmp) es).store) x ≡ true
  unfolding missing_intervals
  run-missing tmp es x h fresh =
      let v = run-IsSafe (first_here tmp) es (first-IsSafe tmp) in
      ground (
        arith,
        missing-point (run_here (first_here tmp) es).store.completed
            (run_here (first_here tmp) es).store.src_size x v.ordered,
        v.completed x,
      )
