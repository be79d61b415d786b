-- ===== src/Prelude/Words.antt =====
-- Unsigned machine words as native numbers, in the wrap-around of a release build: `+` reduces
-- modulo the width, and a shift takes its amount modulo the width.
use Prim.Native.Nat.{ℕ, ◌*◌, ◌/◌, ◌%◌, ◌^◌}

abbrev pub u8 : ℕ → ℕ
u8 n = n % 2 ^ 8

abbrev pub u16 : ℕ → ℕ
u16 n = n % 2 ^ 16

abbrev pub u32 : ℕ → ℕ
u32 n = n % 2 ^ 32

abbrev pub u64 : ℕ → ℕ
u64 n = n % 2 ^ 64

-- `a << k` on u64.
abbrev pub shl64 : ℕ → ℕ → ℕ
shl64 a k = u64 (a * 2 ^ (k % 64))

-- `a >> k` on a word of any width above `k`.
abbrev pub shr : ℕ → ℕ → ℕ
shr a k = a / 2 ^ k
