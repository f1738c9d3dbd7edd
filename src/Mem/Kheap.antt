-- ===== src/Mem/Kheap.antt =====
-- The kernel heap of kernel/mem/kheap.c, a client of the extent allocator, with the constants of
-- kernel/include/kheap.h and kernel/include/boot.h.
--
-- `words` is the memory that holds the size word in front of each block. The user heap of
-- kernel/mem/heap.c, in Proc/Space, has the same blocks.
pub mod Blocks
mod Tests
use mosix_3d.Prelude.{ℕ, ◌+◌, ◌-◌, ◌*◌, ◌/◌, [], ◌∷◌, ◌==◌, if◌then◌else◌, u32}
use mosix_3d.Mem.Freelist.{Extent, Extents, flist_alloc, flist_dealloc, total_avail}

pub record Kheap : Type 0 where
  pub extents : Extents
  pub words : ℕ → ℕ

-- `KERNEL_BASE + 0x200000`, and the initial size.
unfoldable pub kheap_init : ℕ → (ℕ → ℕ) → Kheap
kheap_init kernel_base words = record {
  extents = record { pos = kernel_base + 0x200000; size = 0x1c000 } ∷ [];
  words = words;
}

-- `((size+4)+7)/8*8` on 32 bits.
unfoldable pub block_size : ℕ → ℕ
block_size n = u32 (n + 11) / 8 * 8

abbrev pub store : (ℕ → ℕ) → ℕ → ℕ → ℕ → ℕ
store words addr w a = if addr == a then w else words a

-- The part behind `flist_alloc`: `addr` is what it returned, and the null pointer is 0.
unfoldable pub placed : Kheap → ℕ → ℕ → Extents → ℕ × Kheap
placed h size addr es =
    if addr == 0
    then (0, record h { extents = es })
    else (addr + 4, record { extents = es; words = store h.words addr size })

unfoldable pub kheap_alloc : Kheap → ℕ → ℕ × Kheap
unfolding block_size placed
kheap_alloc h n =
    let (addr, es) = flist_alloc h.extents (block_size n) in placed h (block_size n) addr es

unfoldable pub kheap_free : Kheap → ℕ → Kheap
kheap_free h ptr = record h { extents = flist_dealloc h.extents (ptr - 4) (h.words (ptr - 4)) }

unfoldable pub total_kheap_avail : Kheap → ℕ
total_kheap_avail h = total_avail h.extents
