-- ===== src/ByteResume/Intervals.antt =====
-- crates/app/src/byte_resume.rs: `IntervalSet`, a list of half-open intervals [start, end).
pub mod Points
pub mod Insert
pub mod Missing
use terrasync_rs.Base.{
  ℕ, ◌+◌, min, max, Bool, true, false, List, [], ◌∷◌, ◌++◌, ltb, leb, if◌then◌else◌,
}

abbrev pub Interval : Type 0
Interval = ℕ × ℕ

pub record IntervalSet : Type 0 where
  pub intervals : List Interval

-- The local variables of the loop in `insert`.
pub record Insertion : Type 0 where
  pub ns : ℕ
  pub ne : ℕ
  pub placed : Bool
  pub result : List Interval

-- One round: the interval [s, e) lies left of the new one, right of it, or is merged into it.
unfoldable pub insert_round : Interval → Insertion → Insertion
insert_round (s, e) st =
    if ltb e st.ns
    then record st { result = st.result ++ (s, e) ∷ [] }
    else if ltb st.ne s
    then record st {
      result = (if st.placed then st.result else st.result ++ (st.ns, st.ne) ∷ []) ++ (s, e) ∷ [];
      placed = true;
    }
    else record st { ns = min st.ns s; ne = max st.ne e }

unfoldable pub insert_loop : List Interval → Insertion → List Interval
unfolding insert_round
insert_loop [] st = if st.placed then st.result else st.result ++ (st.ns, st.ne) ∷ []
insert_loop (x ∷ rest) st = insert_loop rest (insert_round x st)

unfoldable pub insert : IntervalSet → ℕ → ℕ → IntervalSet
unfolding insert_loop
insert set start end = if leb end start then set else record {
  intervals =
      insert_loop set.intervals (record { ns = start; ne = end; placed = false; result = [] });
}

abbrev pub empty : IntervalSet
empty = record { intervals = [] }

unfoldable pub from_list : IntervalSet → List Interval → IntervalSet
unfolding insert
from_list set [] = set
from_list set ((s, e) ∷ rest) = from_list (insert set s e) rest

unfoldable pub from_vec : List Interval → IntervalSet
unfolding from_list
from_vec items = from_list empty items

unfoldable pub to_vec : IntervalSet → List Interval
to_vec set = set.intervals

-- What `missing` pushes for the gap before an interval that starts at `s`.
unfoldable pub gap : ℕ → ℕ → ℕ → List Interval
gap total cur s =
    if ltb cur s then (if ltb cur (min s total) then (cur, min s total) ∷ [] else []) else []

-- The loop of `missing` with the position `cur`; `break` goes to the test behind the loop.
unfoldable pub missing_loop : ℕ → List Interval → ℕ → List Interval → List Interval
unfolding gap
missing_loop total [] cur res = if ltb cur total then res ++ (cur, total) ∷ [] else res
missing_loop total ((s, e) ∷ rest) cur res = elim (leb total cur) [
  | true ↦ if ltb cur total then res ++ (cur, total) ∷ [] else res
  | false ↦ missing_loop total rest (max cur e) (res ++ gap total cur s)
]

unfoldable pub missing : IntervalSet → ℕ → List Interval
unfolding missing_loop
missing set total = missing_loop total set.intervals 0 []

unfoldable pub is_empty : List Interval → Bool
is_empty [] = true
is_empty (x ∷ xs) = false

unfoldable pub covers : IntervalSet → ℕ → Bool
unfolding missing is_empty
covers set total = is_empty (missing set total)
