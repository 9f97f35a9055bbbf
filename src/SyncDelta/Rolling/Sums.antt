-- ===== src/SyncDelta/Rolling/Sums.antt =====
-- crates/sync-delta/src/rolling.rs: the batched sums against unbounded ones.
use native.Mathlib.Nat.{mul-le-mul_left, le-pred_of_lt, mod-add-div, mul-le-mul}
use terrasync_rs.Base.{
  ℕ, zero, suc, ◌+◌, ◌*◌, ◌%◌, ◌^◌, ◌≤◌, ◌<◌, ◌≡◌, ap, ◌∙◌, List, [], ◌∷◌, ◌++◌, All, length, take,
  drop, chunks, chunks-cons, length-append, length-take, length-drop, All-take, All-drop,
  take-append-drop, arith, u32,
}
use terrasync_rs.SyncDelta.Rolling.{RollingChecksum, modulus, batch, batch_loop, sums_loop, sums}

abbrev pub IsByte : ℕ → Type 0
IsByte x = x < 256

-- The sum of the bytes.
unfoldable pub plain : List ℕ → ℕ
plain [] = 0
plain (x ∷ xs) = x + plain xs

-- The sum of the bytes, each weighted by its distance from the end of the window.
unfoldable pub weighted : List ℕ → ℕ
weighted [] = 0
weighted (x ∷ xs) = suc (length xs) * x + weighted xs

pub plain-append : (xs ys : List ℕ) → plain (xs ++ ys) ≡ plain xs + plain ys
unfolding plain
plain-append [] ys = omega arith
plain-append (x ∷ xs) ys = omega (arith, plain-append xs ys)

pub weighted-append :
    (xs ys : List ℕ) → weighted (xs ++ ys) ≡ weighted xs + length ys * plain xs + weighted ys
unfolding plain weighted
weighted-append [] ys = omega arith
weighted-append (x ∷ xs) ys =
    omega (arith, weighted-append xs ys, ap (λ (n : ℕ). n * x) (length-append xs ys))

-- What keeps `2 * b` below 2 ^ 33 to the end of a batch with `r` bytes left.
abbrev Fits : ℕ → RollingChecksum → Type 0
Fits r s = 2 * s.b + 2 * (r * s.a) + 255 * (r * r + r) < 2 ^ 33

Fits-step :
    (n x : ℕ) (s : RollingChecksum)
    → x < 256
    → Fits (suc n) s
    → Fits n (record { a = s.a + x; b = s.b + (s.a + x) })
Fits-step n x s h f = omega (arith, mul-le-mul_left n (le-pred_of_lt h))

pub sum_path :
    {a b c d : ℕ}
    → a ≡ c
    → b ≡ d
    → ◌≡◌ {A = RollingChecksum} (record { a = a; b = b }) (record { a = c; b = d })
sum_path p q = λ i. record { a = p i; b = q i }

-- One batch of the machine loop computes the unbounded sums.
batch_loop_lem :
    (xs : List ℕ) (s : RollingChecksum)
    → All IsByte xs
    → Fits (length xs) s
    → batch_loop xs s ≡ record { a = s.a + plain xs; b = s.b + length xs * s.a + weighted xs }
unfolding batch_loop plain weighted
batch_loop_lem [] s h f = ground arith
batch_loop_lem (x ∷ xs) s h f =
    let smaller = Fits-step (length xs) x s h.0 f in
    let ea : u32 (s.a + x) ≡ s.a + x = omega (arith, smaller) in
    let eb : u32 (s.b + (s.a + x)) ≡ s.b + (s.a + x) = omega (arith, smaller) in
    rw ea (rw eb (batch_loop_lem xs _ h.1 smaller ∙ sum_path (omega arith) (omega arith)))

-- A batch starts with both sums reduced, so it fits.
Fits_batch : (n : ℕ) (s : RollingChecksum) → n ≤ batch → s.a < modulus → s.b < modulus → Fits n s
Fits_batch n s h ha hb = omega (
  arith,
  mul-le-mul {n₁ = n} {m₁ = s.a} {n₂ = batch} {m₂ = 65520} h (le-pred_of_lt ha),
  mul-le-mul h h,
)

-- Reduction under a product, modulo 65521.
mul-mod_modulus : (z d y : ℕ) → (z + d * (y % modulus)) % modulus ≡ (z + d * y) % modulus
mul-mod_modulus z d y = omega (arith, ap (λ (t : ℕ). d * t) (mod-add-div y modulus))

after_batch_a :
    (c d : List ℕ) (s : RollingChecksum)
    → ((s.a + plain c) % modulus + plain d) % modulus ≡ (s.a + plain (c ++ d)) % modulus
after_batch_a c d s = omega (arith, plain-append c d)

after_batch_b :
    (c d : List ℕ) (s : RollingChecksum)
    → ((s.b + length c * s.a + weighted c) % modulus
          + length d * ((s.a + plain c) % modulus)
          + weighted d)
        % modulus
      ≡ (s.b + length (c ++ d) * s.a + weighted (c ++ d)) % modulus
after_batch_b c d s = omega (
  arith,
  mul-mod_modulus (s.b + length c * s.a + weighted c + weighted d) (length d) (s.a + plain c),
  weighted-append c d,
  ap (λ (n : ℕ). n * s.a) (length-append c d),
)

-- The batches together: from reduced sums, with the whole rest of the bytes.
sums_loop_lem :
    (fuel : ℕ) (bytes : List ℕ) (s : RollingChecksum)
    → length bytes ≤ fuel
    → All IsByte bytes
    → s.a < modulus
    → s.b < modulus
    → sums_loop (chunks batch bytes) s ≡ record {
      a = (s.a + plain bytes) % modulus;
      b = (s.b + length bytes * s.a + weighted bytes) % modulus;
    }
unfolding sums_loop
sums_loop_lem fuel [] s h hb ha hb' =
    unfold chunks plain weighted in sum_path (omega arith) (omega arith)
sums_loop_lem zero (x ∷ xs) s h hb ha hb' = absurd (omega arith)
sums_loop_lem (suc fuel) (x ∷ xs) s h hb ha hb' = rw (chunks-cons batch x xs (omega arith)) (
    ap (λ t. sums_loop (chunks batch d) (record { a = t.a % modulus; b = t.b % modulus }))
      (batch_loop_lem c s (All-take IsByte batch (x ∷ xs) hb)
        (Fits_batch (length c) s (omega (arith, length-take batch (x ∷ xs))) ha hb'))
    ∙ sums_loop_lem fuel d _ (omega (arith, length-drop batch (x ∷ xs)))
        (All-drop IsByte batch (x ∷ xs) hb) (omega arith) (omega arith)
    ∙ sum_path (after_batch_a c d s) (after_batch_b c d s)
    ∙ ap
        (λ ys. record {
          a = (s.a + plain ys) % modulus;
          b = (s.b + length ys * s.a + weighted ys) % modulus;
        })
        (take-append-drop batch (x ∷ xs)))
  where
    c : List ℕ
    c = take batch (x ∷ xs)

    d : List ℕ
    d = drop batch (x ∷ xs)

-- For bytes, the two sums are the plain and the weighted sum reduced by the modulus: neither the
-- batches nor the wrap-around of 32 bits shows.
pub sums_lem :
    (bytes : List ℕ)
    → All IsByte bytes
    → sums bytes ≡ record { a = plain bytes % modulus; b = weighted bytes % modulus }
unfolding sums
sums_lem bytes h =
    sums_loop_lem (length bytes) bytes _ (omega arith) h (omega arith) (omega arith)
    ∙ sum_path (omega arith) (omega arith)
