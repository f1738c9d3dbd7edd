-- ===== src/Prelude/Words.antt =====
-- C's unsigned integers: a value is a native number, and an operation that may wrap is written with
-- one of these.
use Prim.Native.Nat.{ℕ, ◌+◌, ◌-◌, ◌%◌, ◌^◌}

abbrev pub u8 : ℕ → ℕ
u8 x = x % 2 ^ 8

abbrev pub u16 : ℕ → ℕ
u16 x = x % 2 ^ 16

abbrev pub u32 : ℕ → ℕ
u32 x = x % 2 ^ 32

-- The bit field `size : 48` of an extent.
abbrev pub u48 : ℕ → ℕ
u48 x = x % 2 ^ 48

abbrev pub u64 : ℕ → ℕ
u64 x = x % 2 ^ 64

-- `a - b` on 64 bits.
abbrev pub sub64 : ℕ → ℕ → ℕ
sub64 a b = (a + 2 ^ 64 - b) % 2 ^ 64
