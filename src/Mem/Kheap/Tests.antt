-- ===== src/Mem/Kheap/Tests.antt =====
-- Runs on a small heap, and the theorems at it.
use mosix_3d.Prelude.{ℕ, ◌≡◌, refl, [], ◌∷◌, arith}
use mosix_3d.Mem.Freelist.{flist_alloc}
use mosix_3d.Mem.Kheap.{Kheap, kheap_alloc}
use mosix_3d.Mem.Kheap.Blocks.{IsHeap}

abbrev new_heap : Kheap
new_heap = record { extents = record { pos = 0x200000; size = 0x1c000 } ∷ []; words = zeros }
  where
    zeros : ℕ → ℕ
    zeros a = 0

abbrev new_heap-IsHeap : IsHeap 0x200000 0x400000 new_heap
new_heap-IsHeap = record {
  arena = record { addressable = omega arith; sized = omega arith };
  above = omega arith;
  ordered = omega arith;
}

allocates : (kheap_alloc new_heap 13).0 ≡ 0x200004
unfolding kheap_alloc flist_alloc
allocates = refl
