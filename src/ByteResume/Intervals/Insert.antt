-- ===== src/ByteResume/Intervals/Insert.antt =====
-- crates/app/src/byte_resume.rs: `insert` as a statement about offsets, and the order of the
-- list.
use terrasync_rs.Base.{
  ℕ, suc, ◌≤◌, ◌<◌, min, max, ◌≡◌, refl, ap, ◌∙◌, sym, inl, inr, Bool, true, false, ◌||◌, List, [],
  ◌∷◌, ◌++◌, append_assoc, append-nil, ltb, leb, if◌then◌else◌, Bool-cases, All, All-append, lt→ltb,
  leb-false, leb→le, lt→leb-false, arith,
}
use terrasync_rs.ByteResume.Intervals.{
  Interval, IntervalSet, Insertion, insert_round, insert_loop, insert, empty, from_list, from_vec,
  to_vec,
}
use terrasync_rs.ByteResume.Intervals.Points.{inside, point, From, From-mono}

-- The list that the loop makes behind what it has pushed, without an accumulator.
placing : List Interval → ℕ → ℕ → Bool → List Interval
placing [] ns ne placed = if placed then [] else (ns, ne) ∷ []
placing ((s, e) ∷ rest) ns ne placed =
    let left = (s, e) ∷ placing rest ns ne placed in
    let right =
      (if placed
        then (s, e) ∷ placing rest ns ne true
        else (ns, ne) ∷ (s, e) ∷ placing rest ns ne true) in
    let merged = placing rest (min ns s) (max ne e) placed in
    if ltb e ns then left else if ltb ne s then right else merged

insert_loop-placing :
    (xs : List Interval) (st : Insertion)
    → insert_loop xs st ≡ st.result ++ placing xs st.ns st.ne st.placed
unfolding insert_loop placing
insert_loop-placing [] st = ground (arith, append-nil st.result)
insert_loop-placing ((s, e) ∷ rest) st =
    insert_loop-placing rest (insert_round (s, e) st)
    ∙ ground (
      arith,
      append_assoc st.result ((s, e) ∷ []) (placing rest st.ns st.ne st.placed),
      append_assoc st.result ((s, e) ∷ []) (placing rest st.ns st.ne true),
      append_assoc (st.result ++ (st.ns, st.ne) ∷ []) ((s, e) ∷ []) (placing rest st.ns st.ne true),
      append_assoc st.result ((st.ns, st.ne) ∷ []) ((s, e) ∷ placing rest st.ns st.ne true),
    )

-- Behind the new interval the list is left alone.
placing_done :
    (k ns ne : ℕ) (xs : List Interval) → From k xs → ns < ne → ne < k → placing xs ns ne true ≡ xs
unfolding placing
placing_done k ns ne [] f h l = refl
placing_done k ns ne ((s, e) ∷ rest) f h l = ground (arith, placing_done (suc e) ns ne rest f.2)

placing-From :
    (k ns ne : ℕ) (xs : List Interval)
    → From k xs
    → k ≤ ns
    → ns < ne
    → From k (placing xs ns ne false)
unfolding placing
placing-From k ns ne [] f h l = (h, l, tt)
placing-From k ns ne ((s, e) ∷ rest) f h l = ground (
  arith,
  placing-From (suc e) ns ne rest f.2,
  placing_done (suc e) ns ne rest f.2,
  placing-From k (min ns s) (max ne e) rest (From-mono k (suc e) rest (omega arith) f.2),
)

placing-point :
    (k ns ne x : ℕ) (xs : List Interval)
    → From k xs
    → ns < ne
    → point (placing xs ns ne false) x ≡ (inside (ns, ne) x || point xs x)
unfolding placing point
placing-point k ns ne x [] f l = ground arith
placing-point k ns ne x ((s, e) ∷ rest) f l = ground (
  arith,
  placing-point (suc e) ns ne x rest f.2 l,
  placing_done (suc e) ns ne rest f.2 l,
  placing-point (suc e) (min ns s) (max ne e) x rest f.2,
)

-- An interval set in the order that the source documents: ascending, apart, none empty.
abbrev pub IsOrdered : IntervalSet → Type 0
IsOrdered set = From 0 set.intervals

insert-placing :
    (set : IntervalSet) (start end : ℕ)
    → start < end
    → insert set start end ≡ record { intervals = placing set.intervals start end false }
unfolding insert
insert-placing set start end h =
    let test : leb end start ≡ false = lt→leb-false end start h in
    rw (test, insert) (ap (λ l. record { intervals = l }) (insert_loop-placing set.intervals _))

-- An insertion keeps the list of intervals in order, not empty and merged.
pub insert-IsOrdered :
    (set : IntervalSet) (start end : ℕ) → IsOrdered set → IsOrdered (insert set start end)
insert-IsOrdered set start end f = elim (Bool-cases (leb end start)) [
  | inl nothing ↦ unfold insert in rw nothing f
  | inr some_bytes ↦
      rw (insert-placing set start end (leb-false _ _ some_bytes))
        (placing-From 0 start end set.intervals f (omega arith) (leb-false _ _ some_bytes))
]

-- On a set in order and merged, an insertion adds the offsets of [start, end), and no other, to
-- those of the set.
pub insert-point :
    (set : IntervalSet) (start end x : ℕ)
    → IsOrdered set
    → point (insert set start end).intervals x ≡ (inside (start, end) x || point set.intervals x)
insert-point set start end x f = elim (Bool-cases (leb end start)) [
  | inl nothing ↦ unfold insert in rw nothing (ground (arith, leb→le end start nothing))
  | inr some_bytes ↦
      rw (insert-placing set start end (leb-false _ _ some_bytes))
        (placing-point 0 start end x set.intervals f (leb-false _ _ some_bytes))
]

-- An interval behind all others goes to the end.
placing_last :
    (ns ne : ℕ) (xs : List Interval)
    → All (λ i. i.1 < ns) xs
    → placing xs ns ne false ≡ xs ++ (ns, ne) ∷ []
unfolding placing
placing_last ns ne [] h = refl
placing_last ns ne ((s, e) ∷ rest) h =
    rw (lt→ltb e ns h.0) (ap (◌∷◌ (s, e)) (placing_last ns ne rest h.1))

All-weaken : (a b : ℕ) (xs : List Interval) → a ≤ b → All (λ i. i.1 < a) xs → All (λ i. i.1 < b) xs
All-weaken a b [] h f = tt
All-weaken a b (i ∷ xs) h f = (omega (arith, f.0), All-weaken a b xs h f.1)

from_list-append :
    (k : ℕ) (set : IntervalSet) (items : List Interval)
    → All (λ i. i.1 < k) set.intervals
    → From k items
    → (from_list set items).intervals ≡ set.intervals ++ items
unfolding from_list
from_list-append k set [] h f = sym (append-nil set.intervals)
from_list-append k set ((s, e) ∷ rest) h f =
    from_list-append (suc e) (insert set s e) rest
      (rw grown (
        All-append (λ i. i.1 < suc e) set.intervals ((s, e) ∷ [])
          (All-weaken k (suc e) set.intervals (omega (arith, f.0, f.1)) h) (omega arith, tt)))
      f.2
    ∙ ap (λ l. l ++ rest) grown
    ∙ append_assoc set.intervals ((s, e) ∷ []) rest
  where
    grown : (insert set s e).intervals ≡ set.intervals ++ (s, e) ∷ []
    grown =
        ap (λ t. t.intervals) (insert-placing set s e f.1)
        ∙ placing_last s e set.intervals (All-weaken k s set.intervals f.0 h)

-- What is written out is read back as it was.
pub from_vec-to_vec : (set : IntervalSet) → IsOrdered set → from_vec (to_vec set) ≡ set
unfolding from_vec to_vec
from_vec-to_vec set f =
    ap (λ l. record { intervals = l }) (from_list-append 0 empty set.intervals tt f)

-- Any list of intervals is brought into order.
pub from_list-IsOrdered :
    (set : IntervalSet) (items : List Interval) → IsOrdered set → IsOrdered (from_list set items)
unfolding from_list
from_list-IsOrdered set [] f = f
from_list-IsOrdered set ((s, e) ∷ rest) f =
    from_list-IsOrdered (insert set s e) rest (insert-IsOrdered set s e f)

pub from_vec-IsOrdered : (items : List Interval) → IsOrdered (from_vec items)
unfolding from_vec
from_vec-IsOrdered items = from_list-IsOrdered empty items tt
