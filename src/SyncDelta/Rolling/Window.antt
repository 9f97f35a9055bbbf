-- ===== src/SyncDelta/Rolling/Window.antt =====
-- crates/sync-delta/src/rolling.rs: sliding the window by one byte against summing the new
-- window.
use native.Mathlib.Nat.{mod-add-div}
use terrasync_rs.Base.{
  ℕ, suc, ◌+◌, ◌-◌, ◌*◌, ◌%◌, ◌<◌, ◌≡◌, refl, ap, List, [], ◌∷◌, ◌++◌, All, length, All-append,
  arith,
}
use terrasync_rs.SyncDelta.Rolling.{
  RollingChecksum, modulus, sums, digest, checksum, init, new, update,
}
use terrasync_rs.SyncDelta.Rolling.Sums.{
  IsByte, plain, weighted, plain-append, weighted-append, sums_lem, sum_path,
}

-- A product of two reduced numbers.
mul-mod : (n x : ℕ) → (n % modulus) * (x % modulus) % modulus ≡ n * x % modulus
mul-mod n x = omega (
  arith,
  ap (λ (t : ℕ). (n % modulus) * t) (mod-add-div x modulus),
  ap (λ (t : ℕ). t * x) (mod-add-div n modulus),
)

update_a :
    (x y p : ℕ) → x < 256 → ((x + p) % modulus + modulus + y - x) % modulus ≡ (p + y) % modulus
update_a x y p h = omega arith

update_b :
    (m w q : ℕ)
    → ((m + w) % modulus + modulus + q % modulus - m % modulus) % modulus ≡ (w + q) % modulus
update_b m w q = omega arith

-- Sliding the window from `x ∷ w` to `w ++ y ∷ []` gives the sums of the new window.
pub update-sums :
    (x y : ℕ) (w : List ℕ)
    → x < 256
    → y < 256
    → All IsByte w
    → update (sums (x ∷ w)) x y (suc (length w)) ≡ sums (w ++ y ∷ [])
unfolding update plain weighted
update-sums x y w hx hy hw =
    rw
      (sums_lem (x ∷ w) (hx, hw), sums_lem (w ++ y ∷ []) (All-append IsByte w (y ∷ []) hw (hy, tt)))
      (sum_path (omega (arith, update_a x y (plain w) hx, plain-append w (y ∷ []))) (
        omega (
          arith,
          update_a x y (plain w) hx,
          update_b (suc (length w) * x) (weighted w) (plain w + y),
          mul-mod (suc (length w)) x,
          weighted-append w (y ∷ []),
        )))

-- For bytes, sliding a window of any length by one byte gives the digest of a checksum computed
-- afresh on the window that results.
pub update-checksum :
    (s : RollingChecksum) (x y : ℕ) (w : List ℕ)
    → x < 256
    → y < 256
    → All IsByte w
    → digest (update (init s (x ∷ w)) x y (suc (length w))) ≡ checksum (w ++ y ∷ [])
unfolding init checksum
update-checksum s x y w hx hy hw = ap digest (update-sums x y w hx hy hw)

-- The digests of an empty and of a one-byte window that has been slid, as in the source's test.
update_runs :
    digest (update (init new (97 ∷ 98 ∷ 99 ∷ 100 ∷ [])) 97 101 4)
    ≡ checksum (98 ∷ 99 ∷ 100 ∷ 101 ∷ [])
unfolding init update checksum new
update_runs = refl
