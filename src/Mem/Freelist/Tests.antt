-- ===== src/Mem/Freelist/Tests.antt =====
-- Runs of the allocator, and its theorems at concrete lists.
use mosix_3d.Prelude.{
  ℕ, ◌+◌, ◌≡◌, refl, inl, inr, [], ◌∷◌, arith, false, not, ◌&&◌, ◌||◌, ◌==◌, if◌then◌else◌,
}
use mosix_3d.Mem.Freelist.{
  Extent, Extents, merge_front, merge_end, flist_alloc, flist_alloc_from, flist_dealloc,
}
use mosix_3d.Mem.Freelist.Order.{Ordered, Apart, Arena, flist_alloc-Ordered, flist_dealloc-Ordered}
use mosix_3d.Mem.Freelist.Cells.{free_cell, in_range, taken, flist_alloc_cells, flist_dealloc_cells}
use mosix_3d.Mem.Freelist.Total.{units, units-flist_alloc}
use mosix_3d.Mem.Freelist.From.{flist_alloc_from-eq-flist_alloc}

abbrev ext : ℕ → ℕ → Extent
ext p n = record { pos = p; size = n }

-- 16 and 8 units, with 8 units in use between them.
abbrev sparse : Extents
sparse = ext 256 16 ∷ ext 280 8 ∷ []

abbrev arena : Arena 256 512
arena = record { addressable = omega arith; sized = omega arith }

abbrev sparse_ordered : Ordered 1 512 256 sparse
sparse_ordered = omega arith

alloc_exact : flist_alloc sparse 16 ≡ (256, ext 280 8 ∷ [])
unfolding flist_alloc
alloc_exact = refl

alloc_front : flist_alloc sparse 4 ≡ (256, ext 260 12 ∷ ext 280 8 ∷ [])
unfolding flist_alloc
alloc_front = refl

dealloc_merges_both : flist_dealloc sparse 272 8 ≡ ext 256 32 ∷ []
unfolding flist_dealloc merge_front merge_end
dealloc_merges_both = refl

dealloc_last : flist_dealloc sparse 300 8 ≡ ext 256 16 ∷ ext 280 8 ∷ ext 300 8 ∷ []
unfolding flist_dealloc merge_front merge_end
dealloc_last = refl

flist_alloc-Ordered_example : Ordered 1 512 256 (flist_alloc sparse 4).1
flist_alloc-Ordered_example =
    flist_alloc-Ordered 1 512 256 sparse 4 arena (omega arith) sparse_ordered

apart : Apart 272 8 sparse
apart = (inl (omega arith), (inr (omega arith), tt))

flist_dealloc-Ordered_example : Ordered 1 512 256 (flist_dealloc sparse 272 8)
flist_dealloc-Ordered_example =
    flist_dealloc-Ordered 1 512 256 sparse 272 8 arena (omega arith) (omega arith) (omega arith)
      (omega arith) apart sparse_ordered

flist_alloc_cells_example :
    let (addr, es') = flist_alloc sparse 4 in
    ((taken addr 4 258 && not (free_cell 258 sparse)) ≡ false)
    × (free_cell 258 es' ≡ (free_cell 258 sparse && not (taken addr 4 258)))
flist_alloc_cells_example =
    flist_alloc_cells 1 512 256 sparse 4 258 arena (omega arith) (omega arith) sparse_ordered

flist_dealloc_cells_example :
    free_cell 275 (flist_dealloc sparse 272 8) ≡ (in_range 272 8 275 || free_cell 275 sparse)
flist_dealloc_cells_example =
    flist_dealloc_cells 1 512 256 sparse 272 8 275 arena (omega arith) (omega arith) apart
      sparse_ordered

units-flist_alloc_example :
    let (addr, es') = flist_alloc sparse 4 in
    units sparse ≡ (if addr == 0 then units es' else units es' + 4)
units-flist_alloc_example =
    units-flist_alloc 1 512 256 sparse 4 arena (omega arith) (omega arith) sparse_ordered

flist_alloc_from-eq-flist_alloc_example : flist_alloc_from sparse 200 4 ≡ flist_alloc sparse 4
flist_alloc_from-eq-flist_alloc_example =
    flist_alloc_from-eq-flist_alloc 1 512 256 200 sparse 4 arena (omega arith) sparse_ordered
