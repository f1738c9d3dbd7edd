-- ===== src/Mem/Pages/Boot.antt =====
-- The list of free pages that `pmem_init` makes, and the pages that `alloc_phy` hands out.
use mosix_3d.Prelude.{
  ℕ, ◌+◌, ◌*◌, ◌/◌, ◌^◌, ◌≤◌, ◌<◌, ◌≡◌, ◌≢◌, ap, ◌∙◌, Bool, true, false, List, [], ◌∷◌, ◌==◌, ◌&&◌,
  not, if◌then◌else◌, u64, arith,
}
use mosix_3d.Mem.Freelist.{Extent, Extents, flist_alloc, flist_dealloc}
use mosix_3d.Mem.Freelist.Order.{Ordered, Ordered-mono, Arena}
use mosix_3d.Mem.Freelist.Cells.{free_cell}
use mosix_3d.Mem.Freelist.Roundtrip.{flist_dealloc-flist_alloc, flist_alloc-Apart}
use mosix_3d.Mem.Pages.{ArdsBlock, ards_extents, pmem_init, alloc_phy, free_phy, page_size}

-- The blocks are sorted from `lo` on, do not overlap, end at `hi` at the latest, and have a page each.
abbrev pub Sorted : ℕ → ℕ → List ArdsBlock → Type 0
Sorted hi lo [] = Unit {0}
Sorted hi lo (b ∷ bs) =
    (lo ≤ b.base) × (page_size ≤ b.len) × (b.base + b.len ≤ hi) × Sorted hi (b.base + b.len) bs

either-Ordered :
    (gap hi lo : ℕ) (test : Bool) (es fs : Extents)
    → Ordered gap hi lo es
    → Ordered gap hi lo fs
    → Ordered gap hi lo (if test then es else fs)
either-Ordered gap hi lo true es fs a b = a
either-Ordered gap hi lo false es fs a b = b

-- From sorted blocks `pmem_init` makes a sorted list of extents that do not overlap.
pub pmem_init-Ordered :
    (hi lo : ℕ) (bs : List ArdsBlock)
    → Sorted hi lo bs
    → Ordered 0 (hi / page_size) (lo / page_size) (pmem_init bs).0
unfolding pmem_init ards_extents
pmem_init-Ordered hi lo [] s = tt
pmem_init-Ordered hi lo (b ∷ bs) s =
    let rest = pmem_init-Ordered hi (b.base + b.len) bs s.3 in
    let e : Extent = record { pos = b.base / page_size; size = b.len / page_size } in
    let taken : Ordered 0 (hi / page_size) (lo / page_size) (e ∷ ards_extents bs) = (
      omega arith,
      omega arith,
      omega arith,
      Ordered-mono 0 (hi / page_size) (ards_extents bs) (omega arith) rest,
    ) in
    let left = Ordered-mono 0 (hi / page_size) (ards_extents bs) (omega arith) rest in
    either-Ordered 0 (hi / page_size) (lo / page_size) ((b.type == 1) && not (b.base == 0))
      (e ∷ ards_extents bs) (ards_extents bs) taken left

-- Pages that are allocated and freed at once are free as before.
pub free_phy-alloc_phy :
    (gap hi lo : ℕ) (es : Extents) (n x : ℕ)
    → Arena lo hi
    → hi * page_size < 2 ^ 64
    → 0 < lo
    → 0 < n
    → Ordered gap hi lo es
    → (alloc_phy es n).0 ≢ 0
    → let (addr, es') = alloc_phy es n in free_cell x (free_phy es' addr n) ≡ free_cell x es
unfolding alloc_phy free_phy
free_phy-alloc_phy gap hi lo es n x a w z p o h =
    let some_page : (flist_alloc es n).0 ≢ 0 = λ q. h (ap (λ k. u64 (k * page_size)) q) in
    let inside = flist_alloc-Apart gap hi lo es n a p o some_page in
    let q : u64 ((flist_alloc es n).0 * page_size) / page_size ≡ (flist_alloc es n).0 =
      omega arith in
    ap (λ k. free_cell x (flist_dealloc (flist_alloc es n).1 k n)) q
    ∙ flist_dealloc-flist_alloc gap hi lo es n x a z p o some_page
