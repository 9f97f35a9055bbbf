-- ===== src/ByteResume/Intervals/Missing.antt =====
-- crates/app/src/byte_resume.rs: `missing` and `covers` as statements about offsets.
use terrasync_rs.Base.{
  ℕ, suc, ◌<◌, max, ◌≡◌, refl, ◌∙◌, ◌↔◌, ◌⊎◌, inl, inr, true, false, ◌&&◌, ◌||◌, not, List, [], ◌∷◌,
  ◌++◌, ltb, leb, Bool-cases, All, All-append, arith,
}
use terrasync_rs.ByteResume.Intervals.{
  Interval, IntervalSet, gap, missing_loop, missing, is_empty, covers,
}
use terrasync_rs.ByteResume.Intervals.Points.{point, From, From-mono, point-append, point_before}
use terrasync_rs.ByteResume.Intervals.Insert.{IsOrdered}

gap-point :
    (total cur s x : ℕ) → point (gap total cur s) x ≡ (leb cur x && (ltb x s && ltb x total))
unfolding gap point
gap-point total cur s x = ground arith

missing_loop-point :
    (total : ℕ) (xs : List Interval) (cur x : ℕ) (res : List Interval)
    → From cur xs
    → point (missing_loop total xs cur res) x
      ≡ (point res x || (leb cur x && (ltb x total && not (point xs x))))
unfolding missing_loop point
missing_loop-point total [] cur x res f = ground (arith, point-append res ((cur, total) ∷ []) x)
missing_loop-point total ((s, e) ∷ rest) cur x res f = ground (
  arith,
  missing_loop-point total rest (max cur e) x (res ++ gap total cur s) later,
  point-append res (gap total cur s) x,
  gap-point total cur s x,
  point_before (suc e) x rest f.2,
)
  where
    later : From (max cur e) rest
    later = From-mono (max cur e) (suc e) rest (omega arith) f.2

-- On a set in order and merged, an offset is missing exactly if it lies below the total and in no
-- interval of the set.
pub missing-point :
    (set : IntervalSet) (total x : ℕ)
    → IsOrdered set
    → point (missing set total) x ≡ (ltb x total && not (point set.intervals x))
unfolding missing point
missing-point set total x f = missing_loop-point total set.intervals 0 x [] f ∙ ground arith

-- A missing interval is not empty.
abbrev pub NonEmpty : Interval → Type 0
NonEmpty i = i.0 < i.1

gap-NonEmpty : (total cur s : ℕ) → All NonEmpty (gap total cur s)
unfolding gap
gap-NonEmpty total cur s = ground arith

missing_loop-NonEmpty :
    (total : ℕ) (xs : List Interval) (cur : ℕ) (res : List Interval)
    → All NonEmpty res
    → All NonEmpty (missing_loop total xs cur res)
unfolding missing_loop
missing_loop-NonEmpty total [] cur res h =
    ground (arith, All-append NonEmpty res ((cur, total) ∷ []) h)
missing_loop-NonEmpty total ((s, e) ∷ rest) cur res h = elim (Bool-cases (leb total cur)) [
  | inl stop ↦ rw (stop, missing_loop) (ground arith)
  | inr go ↦
      rw (go, missing_loop)
        (missing_loop-NonEmpty total rest (max cur e) (res ++ gap total cur s)
          (All-append NonEmpty res (gap total cur s) h (gap-NonEmpty total cur s)))
]

pub missing-NonEmpty : (set : IntervalSet) (total : ℕ) → All NonEmpty (missing set total)
unfolding missing
missing-NonEmpty set total = missing_loop-NonEmpty total set.intervals 0 [] tt

point_none : (m : List Interval) (x : ℕ) → is_empty m ≡ true → point m x ≡ false
unfolding is_empty point
point_none [] x h = refl
point_none (i ∷ m) x h = ground arith

some_point :
    (m : List Interval) → All NonEmpty m → (is_empty m ≡ true) ⊎ ((x : ℕ) × (point m x ≡ true))
unfolding is_empty point
some_point [] h = inl refl
some_point ((s, e) ∷ m) h = inr (s, ground arith)

-- A set in order and merged covers a total exactly if every offset below the total lies in the
-- set.
pub covers_iff :
    (set : IntervalSet) (total : ℕ)
    → IsOrdered set
    → (covers set total ≡ true) ↔ ((x : ℕ) → x < total → point set.intervals x ≡ true)
unfolding covers
covers_iff set total f = (
  λ c x h. ground (arith, point_none (missing set total) x c, missing-point set total x f),
  λ all. elim (some_point (missing set total) (missing-NonEmpty set total)) [
    | inl e ↦ e
    | inr (x, e) ↦ absurd (ground (arith, missing-point set total x f, all x))
  ],
)
