-- ===== src/Misc/Bitmap/Tests.antt =====
-- Runs of the bitmap, and its theorems at a concrete map.
use mosix_3d.Prelude.{◌≡◌, refl, [], ◌∷◌, arith}
use mosix_3d.Misc.Bitmap.{Bitmap, create_bitmap, clear_bit, first_clear, take_bit, alloc_bit}
use mosix_3d.Misc.Bitmap.Alloc.{IsValid}

-- Bits 0 to 12 are set.
abbrev thirteen : Bitmap
thirteen = record { max = 16; size = 0; bytes = 0xff ∷ 0x1f ∷ [] }

thirteen-IsValid : IsValid thirteen
thirteen-IsValid = omega arith

alloc_bit_next : (alloc_bit thirteen).0 ≡ 13
unfolding alloc_bit take_bit first_clear clear_bit
alloc_bit_next = refl

alloc_bit_sets : (alloc_bit thirteen).1 ≡ record thirteen { bytes = 0xff ∷ 0x3f ∷ [] }
unfolding alloc_bit take_bit first_clear clear_bit
alloc_bit_sets = refl

create_bitmap_clear : create_bitmap 2 ≡ record { max = 2; size = 0; bytes = 0 ∷ 0 ∷ [] }
unfolding create_bitmap
create_bitmap_clear = refl
