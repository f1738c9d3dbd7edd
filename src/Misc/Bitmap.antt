-- ===== src/Misc/Bitmap.antt =====
-- `Bitmap` of kernel/misc/bitmap.c and kernel/include/bitmap.h: which process numbers are in use.
--
-- `bytes` is the array `data`. Its spinlock is held over each call, so a call is one step.
pub mod Byte
pub mod Alloc
pub mod Free
mod Tests
use Prim.Native.Nat.{bit_and, bit_or}
use mosix_3d.Prelude.{
  ℕ, zero, suc, ◌+◌, ◌-◌, ◌*◌, ◌/◌, ◌%◌, ◌^◌, List, [], ◌∷◌, Option, none, some, ◌==◌,
  if◌then◌else◌, get_or, set, replicate, u32,
}

pub record Bitmap : Type 0 where
  pub max : ℕ
  pub size : ℕ
  pub bytes : List ℕ

-- `size` bytes of zeroed memory for `size` bits.
unfoldable pub create_bitmap : ℕ → Bitmap
create_bitmap size = record { max = size; size = 0; bytes = replicate size 0 }

-- `(c>>j)&1`.
abbrev pub bit_of : ℕ → ℕ → ℕ
bit_of c j = (c / 2 ^ j) % 2

-- The inner loop: the first clear bit of a byte, of `n` bits from bit `j` on.
unfoldable pub clear_bit : ℕ → ℕ → ℕ → Option ℕ
clear_bit c j zero = none
clear_bit c j (suc n) = let rest = clear_bit c (suc j) n in if bit_of c j == 0 then some j else rest

-- The outer loop, over `n` bytes from byte `i` on.
unfoldable pub first_clear : List ℕ → ℕ → ℕ → Option (ℕ × ℕ)
first_clear bytes i zero = none
first_clear bytes i (suc n) =
    let rest = first_clear bytes (suc i) n in
    if get_or bytes i 0 == 0xff
    then rest
    else elim (clear_bit (get_or bytes i 0) 0 8) [ none ↦ rest | some j ↦ some (i, j) ]

unfoldable pub take_bit : Bitmap → Option (ℕ × ℕ) → ℕ × Bitmap
take_bit map none = (map.max, record map { size = u32 (map.size + 1) })
take_bit map (some (i, j)) =
    (i * 8 + j, record map { bytes = set map.bytes i (bit_or (get_or map.bytes i 0) (2 ^ j)) })

unfoldable pub alloc_bit : Bitmap → ℕ × Bitmap
alloc_bit map = take_bit map (first_clear map.bytes 0 (u32 (map.max + 7) / 8))

-- `data[bit>>3] &= ~(1u<<(bit&3)); size--;`
unfoldable pub free_bit : Bitmap → ℕ → Bitmap
free_bit map bit = record map {
  bytes = set map.bytes (bit / 8) (bit_and (get_or map.bytes (bit / 8) 0) (0xff - 2 ^ (bit % 4)));
  size = u32 (map.size + 2 ^ 32 - 1);
}
