-- ===== src/Mem/Pages.antt =====
-- The physical pages of kernel/mem/pmem.c: `pmem_init` over the memory blocks that the boot loader
-- found, `alloc_phy`, `free_phy` and `total_phy_avail`, clients of the extent allocator.
--
-- `memtotal` is counted beside the list. Setting `errno` and the assertion of `free_phy` are left out.
pub mod Boot
mod Tests
use mosix_3d.Prelude.{ℕ, ◌+◌, ◌*◌, ◌/◌, ◌&&◌, not, List, [], ◌∷◌, ◌==◌, if◌then◌else◌, u32, u64}
use mosix_3d.Mem.Freelist.{Extent, Extents, flist_alloc, flist_dealloc, total_avail}

-- `type` 1 is available memory.
pub record ArdsBlock : Type 0 where
  pub base : ℕ
  pub len : ℕ
  pub type : ℕ

abbrev pub page_size : ℕ
page_size = 4096

-- The loop of `pmem_init`: blocks that are not available, and the one at 0, are left out.
unfoldable pub ards_extents : List ArdsBlock → Extents
ards_extents [] = []
ards_extents (b ∷ bs) =
    let rest = ards_extents bs in
    if (b.type == 1) && not (b.base == 0)
    then record { pos = b.base / page_size; size = b.len / page_size } ∷ rest
    else rest

-- The 32-bit count of the pages.
unfoldable pub ards_pages : ℕ → List ArdsBlock → ℕ
ards_pages total [] = total
ards_pages total (b ∷ bs) =
    ards_pages
      (if (b.type == 1) && not (b.base == 0) then u32 (total + b.len / page_size) else total) bs

unfoldable pub pmem_init : List ArdsBlock → Extents × ℕ
unfolding ards_extents ards_pages
pmem_init ards = (ards_extents ards, ards_pages 0 ards)

-- The address 0 stands for a failure.
unfoldable pub alloc_phy : Extents → ℕ → ℕ × Extents
alloc_phy es pages = let (pos, es') = flist_alloc es pages in (u64 (pos * page_size), es')

unfoldable pub free_phy : Extents → ℕ → ℕ → Extents
free_phy es addr pages = flist_dealloc es (addr / page_size) pages

unfoldable pub total_phy_avail : Extents → ℕ
total_phy_avail es = total_avail es
