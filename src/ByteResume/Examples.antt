-- ===== src/ByteResume/Examples.antt =====
-- Runs and instances of the theorems about crates/app/src/byte_resume.rs.
use terrasync_rs.Base.{
  ℕ, ◌<◌, ◌≡◌, refl, sym, ap, ◌∙◌, ◌↔◌, length, take, drop, take-append, drop-append, take_all,
  drop_all, ◌++◌, some_eq, true, ◌&&◌, ◌||◌, not, List, [], ◌∷◌, Option, none, some, ltb, arith,
}
use terrasync_rs.ByteResume.Intervals.{IntervalSet, insert, missing, covers}
use terrasync_rs.ByteResume.Intervals.Points.{inside, point}
use terrasync_rs.ByteResume.Intervals.Insert.{IsOrdered, insert-point, insert-IsOrdered}
use terrasync_rs.ByteResume.Intervals.Missing.{missing-point, covers_iff}
use terrasync_rs.ByteResume.Store.{
  write_text, ByteResumeState, ByteResumeStore, Json, Files, Io, flush, fresh_store, open_store,
  is_complete, missing_intervals,
}
use terrasync_rs.ByteResume.Store.Resume.{open_store-flush}
use terrasync_rs.ByteResume.Store.Transfer.{Event, commits, flushes, restarts, run, first}
use terrasync_rs.ByteResume.Store.History.{run-is_complete, run-missing}

abbrev halves : IntervalSet
halves = record { intervals = (0, 4) ∷ (8, 12) ∷ [] }

-- An interval that touches both sides merges the three.
merged : insert halves 4 8 ≡ record { intervals = (0, 12) ∷ [] }
unfolding insert
merged = refl

gaps : missing halves 20 ≡ (4, 8) ∷ (12, 20) ∷ []
unfolding missing
gaps = refl

insert-IsOrdered_example : IsOrdered (insert halves 2 9)
insert-IsOrdered_example = insert-IsOrdered halves 2 9 (omega arith)

insert-point_example :
    point (insert halves 2 9).intervals 6 ≡ (inside (2, 9) 6 || point halves.intervals 6)
insert-point_example = insert-point halves 2 9 6 (omega arith)

missing-point_example : point (missing halves 20) 6 ≡ (ltb 6 20 && not (point halves.intervals 6))
missing-point_example = missing-point halves 20 6 (omega arith)

covers_iff_example : (covers halves 4 ≡ true) ↔ ((x : ℕ) → x < 4 → point halves.intervals x ≡ true)
covers_iff_example = covers_iff halves 4 (omega arith)

-- A text form of the state: its numbers, and each list after its length.
flat : List (ℕ × ℕ) → List ℕ
flat [] = []
flat ((a, b) ∷ xs) = a ∷ b ∷ flat xs

pairs : List ℕ → List (ℕ × ℕ)
pairs (a ∷ b ∷ xs) = (a, b) ∷ pairs xs
pairs _ = []

pairs-flat : (xs : List (ℕ × ℕ)) → pairs (flat xs) ≡ xs
unfolding pairs flat
pairs-flat [] = refl
pairs-flat ((a, b) ∷ xs) = ap (λ l. (a, b) ∷ l) (pairs-flat xs)

write : ByteResumeState → Option (List ℕ)
unfolding flat
write s = some (
    s.version
    ∷ s.src_size
    ∷ s.src_mtime
    ∷ s.block_size
    ∷ length s.part_path
    ∷ length s.src_relative_path
    ∷ (s.part_path ++ (s.src_relative_path ++ flat s.completed)))

read : List ℕ → Option ByteResumeState
unfolding pairs
read (version ∷ src_size ∷ src_mtime ∷ block_size ∷ n ∷ m ∷ rest) = some (record {
  version = version;
  part_path = take n rest;
  src_relative_path = take m (drop n rest);
  src_size = src_size;
  src_mtime = src_mtime;
  block_size = block_size;
  completed = pairs (drop m (drop n rest));
})
read _ = none

here : (n : ℕ) (xs ys : List ℕ) → n ≡ length xs → take n (xs ++ ys) ≡ xs
here n xs ys h = take-append n xs ys (omega arith) ∙ take_all n xs (omega arith)

rest : (n : ℕ) (xs ys : List ℕ) → n ≡ length xs → drop n (xs ++ ys) ≡ ys
rest n xs ys h = drop-append n xs ys (omega arith) ∙ rw (drop_all n xs (omega arith)) refl

read-write : (s : ByteResumeState) (text : List ℕ) → write s ≡ some text → read text ≡ some s
unfolding write read
read-write s text h =
    ap read (sym (some_eq h))
    ∙ rw
        (
          here (length s.part_path) s.part_path (s.src_relative_path ++ flat s.completed) refl,
          rest (length s.part_path) s.part_path (s.src_relative_path ++ flat s.completed) refl,
          here (length s.src_relative_path) s.src_relative_path (flat s.completed) refl,
          rest (length s.src_relative_path) s.src_relative_path (flat s.completed) refl,
          pairs-flat s.completed,
        )
        refl

abbrev json : Json
unfolding write read
json = record { to_string = write; from_str = read; from_str-to_string = read-write }

abbrev io : Io
io = record {
  write_ok = true;
  partial = none;
  rename_ok = true;
  create_dir_ok = true;
  read_ok = true;
  remove_ok = true;
  remove_tmp_ok = true;
}

abbrev key : List ℕ
key = 97 ∷ []

abbrev half_done : ByteResumeStore
half_done = record {
  part_relative_path = key;
  src_relative_path = key;
  src_size = 20;
  src_mtime = 5;
  block_size = 4;
  completed = halves;
  dirty = 2;
}

abbrev no_files : Files
no_files = record { state_file = none; tmp_file = none }

open_store-flush_example :
    open_store json io (flush json io half_done no_files).files key 20 5 4
    ≡ some (fresh_store key 20 5 4 halves, (flush json io half_done no_files).files)
unfolding flush write_text json
open_store-flush_example =
    open_store-flush json io io half_done no_files key refl (omega arith) refl refl

-- Two commits that overlap, a flush, a restart, and the last commit.
abbrev history : List Event
history = commits io 0 12 ∷ commits io 4 10 ∷ flushes io ∷ restarts io ∷ commits io 14 6 ∷ []

run-is_complete_example :
    point (run json key 20 5 4 (first json key 20 5 4 none) history).confirmed 15 ≡ true
unfolding terrasync_rs.ByteResume.Store.mark_committed open_store flush
run-is_complete_example =
    run-is_complete json key 20 5 4 none history 15 (unfold json run is_complete in refl)
      (omega arith)

run-missing_example :
    point
      (missing_intervals
        (run json key 20 5 4
          (first json key 20 5 4 none)
          (commits io 0 12 ∷ restarts io ∷ [])).store)
      13
    ≡ true
unfolding open_store
run-missing_example =
    run-missing json key 20 5 4 none (commits io 0 12 ∷ restarts io ∷ []) 13 (omega arith)
      (unfold json run point in refl)
