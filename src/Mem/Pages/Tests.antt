-- ===== src/Mem/Pages/Tests.antt =====
-- Runs on a small memory map, and the theorem at it.
use mosix_3d.Prelude.{ℕ, ◌≡◌, refl, List, [], ◌∷◌}
use mosix_3d.Mem.Freelist.{flist_alloc}
use mosix_3d.Mem.Pages.{ArdsBlock, pmem_init, alloc_phy}

abbrev block : ℕ → ℕ → ℕ → ArdsBlock
block b n t = record { base = b; len = n; type = t }

-- The lowest memory, a reserved block, and 14 MB behind 1 MB.
abbrev small_map : List ArdsBlock
small_map = block 0 0x9f000 1 ∷ block 0xf0000 0x10000 2 ∷ block 0x100000 0xe00000 1 ∷ []

finds_pages : pmem_init small_map ≡ (record { pos = 0x100; size = 0xe00 } ∷ [], 0xe00)
unfolding pmem_init
finds_pages = refl

first_page : (alloc_phy (pmem_init small_map).0 2).0 ≡ 0x100000
unfolding alloc_phy flist_alloc pmem_init
first_page = refl
