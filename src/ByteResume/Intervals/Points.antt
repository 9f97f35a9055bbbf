-- ===== src/ByteResume/Intervals/Points.antt =====
-- An interval set as the set of its offsets, and the order that the source's lists keep.
use terrasync_rs.Base.{
  ℕ, suc, ◌≤◌, ◌<◌, ◌≡◌, refl, Bool, false, ◌&&◌, ◌||◌, List, [], ◌∷◌, ◌++◌, ltb, leb, arith,
}
use terrasync_rs.ByteResume.Intervals.{Interval}

abbrev pub inside : Interval → ℕ → Bool
inside (s, e) x = leb s x && ltb x e

-- The offset `x` lies in one of the intervals.
unfoldable pub point : List Interval → ℕ → Bool
point [] x = false
point (i ∷ rest) x = inside i x || point rest x

-- Intervals that are not empty, in ascending order from `k` on, with gaps between them.
abbrev pub From : ℕ → List Interval → Type 0
From k [] = Unit
From k ((s, e) ∷ rest) = (k ≤ s) × (s < e) × From (suc e) rest

pub From-mono : (j k : ℕ) (xs : List Interval) → j ≤ k → From k xs → From j xs
From-mono j k [] h f = tt
From-mono j k ((s, e) ∷ rest) h f = (omega arith, f.1, f.2)

pub point-append : (xs ys : List Interval) (x : ℕ) → point (xs ++ ys) x ≡ (point xs x || point ys x)
unfolding point
point-append [] ys x = refl
point-append (i ∷ xs) ys x = ground (arith, point-append xs ys x)

-- Nothing lies before the first interval.
pub point_before : (k x : ℕ) (xs : List Interval) → From k xs → x < k → point xs x ≡ false
unfolding point
point_before k x [] f h = refl
point_before k x ((s, e) ∷ rest) f h = ground (arith, point_before (suc e) x rest f.2)
