-- ===== src/SyncDelta/Rolling.antt =====
-- crates/sync-delta/src/rolling.rs: the Adler-32 style rolling checksum.
-- `u32` additions wrap as in the source; `Rolling/Sums` and `Rolling/Window` hold the proofs.
pub mod Sums
pub mod Window
use Prim.Native.Nat.{bit_or}
use terrasync_rs.Base.{ℕ, ◌+◌, ◌-◌, ◌*◌, ◌%◌, ◌^◌, List, [], ◌∷◌, u32, chunks}

pub record RollingChecksum : Type 0 where
  pub a : ℕ
  pub b : ℕ

abbrev pub modulus : ℕ
modulus = 65521

abbrev pub batch : ℕ
batch = 5552

unfoldable pub new : RollingChecksum
new = record { a = 0; b = 0 }

-- The inner loop over one batch: `a += byte; b += a`, both `u32`.
unfoldable pub batch_loop : List ℕ → RollingChecksum → RollingChecksum
batch_loop [] s = s
batch_loop (byte ∷ rest) s =
    let a = u32 (s.a + byte) in batch_loop rest (record { a = a; b = u32 (s.b + a) })

-- The outer loop: one batch, then both sums modulo `modulus`.
unfoldable pub sums_loop : List (List ℕ) → RollingChecksum → RollingChecksum
sums_loop [] s = s
sums_loop (chunk ∷ rest) s =
    let t = batch_loop chunk s in sums_loop rest (record { a = t.a % modulus; b = t.b % modulus })

unfoldable pub sums : List ℕ → RollingChecksum
unfolding sums_loop batch_loop chunks
sums bytes = sums_loop (chunks batch bytes) (record { a = 0; b = 0 })

-- `(b << 16) | a` on `u32`.
unfoldable pub digest : RollingChecksum → ℕ
digest s = bit_or (u32 (s.b * 2 ^ 16)) s.a

unfoldable pub checksum : List ℕ → ℕ
unfolding sums digest
checksum bytes = digest (sums bytes)

-- `init` overwrites both sums.
unfoldable pub init : RollingChecksum → List ℕ → RollingChecksum
init s bytes = sums bytes

-- The subtractions are of smaller numbers, since `modulus` is added first and `n_old` is below it.
unfoldable pub update : RollingChecksum → ℕ → ℕ → ℕ → RollingChecksum
update s old new_byte window_size =
    let a_new = (s.a + modulus + new_byte - old) % modulus in
    let n_old = (window_size % modulus) * (old % modulus) % modulus in
    let b_new = (s.b + modulus + a_new - n_old) % modulus in record { a = u32 a_new; b = u32 b_new }
