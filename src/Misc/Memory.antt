-- ===== src/Misc/Memory.antt =====
-- The memory routines of kernel/misc/string.c: `memmove`, `memcpy`, `memset` and `memcmp`.
--
-- Memory is a function from addresses to bytes. The addresses of a call do not wrap round.
pub mod Move
pub mod Compare
mod Tests
use mosix_3d.Prelude.{ℕ, zero, suc, ◌+◌, ◌-◌, ◌^◌, Bool, ◌&&◌, ltb, ◌==◌, if◌then◌else◌, u8, u32}

abbrev pub Memory : Type 0
Memory = ℕ → ℕ

-- `*p = v`.
abbrev pub put : Memory → ℕ → ℕ → Memory
put mem p v a = if p == a then v else mem a

-- The loop from the low to the high addresses.
unfoldable pub copy_up : Memory → ℕ → ℕ → ℕ → Memory
copy_up mem dst src zero = mem
copy_up mem dst src (suc n) = copy_up (put mem dst (mem src)) (dst + 1) (src + 1) n

-- The loop from the high to the low addresses; `dst` and `src` are the low ends.
unfoldable pub copy_down : Memory → ℕ → ℕ → ℕ → Memory
copy_down mem dst src zero = mem
copy_down mem dst src (suc n) = copy_down (put mem (dst + n) (mem (src + n))) dst src n

unfoldable pub memmove : Memory → ℕ → ℕ → ℕ → Memory
unfolding copy_up copy_down
memmove mem dst src n =
    if ltb src dst && ltb dst (src + n) then copy_down mem dst src n else copy_up mem dst src n

unfoldable pub memcpy : Memory → ℕ → ℕ → ℕ → Memory
unfolding memmove
memcpy mem dst src n = memmove mem dst src n

-- The byte stored is the low one of `val`.
unfoldable pub memset : Memory → ℕ → ℕ → ℕ → Memory
memset mem dst val zero = mem
memset mem dst val (suc n) = memset (put mem dst (u8 val)) (dst + 1) val n

-- The difference of the first two bytes that differ, as the 32 bits of an `int`.
unfoldable pub memcmp : Memory → ℕ → ℕ → ℕ → ℕ
memcmp mem v1 v2 zero = 0
memcmp mem v1 v2 (suc n) =
    let rest = memcmp mem (v1 + 1) (v2 + 1) n in
    if mem v1 == mem v2 then rest else u32 (mem v1 + 2 ^ 32 - mem v2)
