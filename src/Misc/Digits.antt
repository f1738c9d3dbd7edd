-- ===== src/Misc/Digits.antt =====
-- The digits of kernel/misc/string.c: `hexdig`, `hex2bcd`, `hex2bcd64`, `hex2str8` to `hex2str64`, and
-- `hex2str`.
pub mod Bcd
pub mod Hex
mod Tests
use mosix_3d.Prelude.{
  ℕ, zero, suc, ◌+◌, ◌-◌, ◌*◌, ◌/◌, ◌%◌, ◌^◌, List, [], ◌∷◌, leb, ◌==◌, if◌then◌else◌, u8, u16, u32,
  u64,
}
use mosix_3d.Misc.Memory.{Memory, put}

-- The characters '0', 'A' and 'a'.
unfoldable pub hexdig : ℕ → ℕ
hexdig i = if leb 10 i then i - 10 + 0x61 else i + 0x30

unfoldable pub hexdig_upper : ℕ → ℕ
hexdig_upper i = if leb 10 i then i - 10 + 0x41 else i + 0x30

-- The loop of `hex2bcd` from its turn `k` on, of `n` turns: `ret+=d<<((7-dig)*4)`.
unfoldable pub bcd_from : ℕ → ℕ → ℕ → ℕ → ℕ
bcd_from k zero i ret = ret
bcd_from k (suc n) i ret = bcd_from (suc k) n (i / 10) (ret + i % 10 * 2 ^ (k * 4))

unfoldable pub hex2bcd : ℕ → ℕ
unfolding bcd_from
hex2bcd i = u32 (bcd_from 0 8 i 0)

unfoldable pub hex2bcd64 : ℕ → ℕ
unfolding bcd_from
hex2bcd64 i = u64 (bcd_from 0 16 i 0)

-- Two characters, the high digit in the low byte.
unfoldable pub hex2str8 : ℕ → ℕ
unfolding hexdig
hex2str8 i = u16 (hexdig (i / 2 ^ 4) + hexdig (i % 2 ^ 4) * 2 ^ 8)

unfoldable pub hex2str16 : ℕ → ℕ
unfolding hex2str8
hex2str16 i = u32 (hex2str8 (i / 2 ^ 8) + hex2str8 (i % 2 ^ 8) * 2 ^ 16)

unfoldable pub hex2str32 : ℕ → ℕ
unfolding hex2str16
hex2str32 i = u64 (hex2str16 (i / 2 ^ 16) + hex2str16 (i % 2 ^ 16) * 2 ^ 32)

-- `hex2str32` takes the low 32 bits of its argument.
unfoldable pub hex2str64 : ℕ → ℕ
unfolding hex2str32
hex2str64 i = hex2str32 (u32 (i / 2 ^ 32)) + hex2str32 (u32 i) * 2 ^ 64

-- The first loop of `hex2str`: the number of digits, of `n` at most. `d` is one less.
unfoldable pub digit_count : ℕ → ℕ → ℕ
digit_count zero x = 0
digit_count (suc n) x = let rest = digit_count n (x / 2 ^ 4) in if x == 0 then 0 else suc rest

-- The second loop: `n` digits, the last one at `dst + n - 1`.
unfoldable pub write_digits : Memory → ℕ → ℕ → ℕ → Memory
unfolding hexdig
write_digits mem dst zero x = mem
write_digits mem dst (suc n) x =
    write_digits (put mem (dst + n) (hexdig (x % 2 ^ 4))) dst n (x / 2 ^ 4)

-- Behind the loop `d` is -1, and `dst[d] = 0` writes in front of the buffer. 16 digits are enough.
unfoldable pub hex2str : Memory → ℕ → ℕ → Memory
hex2str mem i dst =
    if i == 0
    then put (put mem dst 0x30) (dst + 1) 0
    else put (write_digits mem dst (digit_count 16 i) i) (dst - 1) 0
