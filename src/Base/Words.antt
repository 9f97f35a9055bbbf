-- ===== src/Base/Words.antt =====
-- Machine words: the casts and the wrap-around of unsigned arithmetic, written out.
use Prim.Native.Nat.{ℕ, ◌%◌, ◌^◌}

abbrev pub u32 : ℕ → ℕ
u32 n = n % 2 ^ 32

abbrev pub u64 : ℕ → ℕ
u64 n = n % 2 ^ 64
