-- ===== src/Proc/Space/Heap.antt =====
-- The heap of a process, of which the blocks are those of the kernel heap.
use mosix_3d.Prelude.{
  ℕ, ◌+◌, ◌-◌, ◌*◌, ◌/◌, ◌%◌, ◌^◌, ◌≤◌, ◌<◌, ◌≡◌, ◌≢◌, refl, ap, ◌∙◌, true, false, some, arith,
  ne→==, inl,
}
use mathlib.Core.Path.{subst}
use mosix_3d.Mem.Freelist.{flist_alloc}
use mosix_3d.Mem.Freelist.Cells.{free_cell}
use mosix_3d.Mem.Pages.{alloc_phy, page_size}
use mosix_3d.Mem.Kheap.{Kheap, block_size, placed, kheap_alloc, kheap_free}
use mosix_3d.Mem.Kheap.Blocks.{IsHeap, kheap_free-kheap_alloc}
use mosix_3d.Mem.Paging.{Tables, get_index, malloc_page4k}
use mosix_3d.Mem.Paging.Translate.{translate}
use mosix_3d.Mem.Paging.Range.{translate-set_mappings, mapped_in}
use mosix_3d.Proc.Vmarea.{Areas}
use mosix_3d.Proc.Space.{create_heap, heap_alloc, heap_free, heap_pos}

heap_alloc-kheap_alloc :
    (h : Kheap) (n : ℕ) → (heap_alloc h n).0 ≢ 4 → heap_alloc h n ≡ kheap_alloc h n
unfolding heap_alloc kheap_alloc placed
heap_alloc-kheap_alloc h n ok =
    let addr = (flist_alloc h.extents (block_size n)).0 in
    let some_addr : addr ≢ 0 = λ e. ok (ap (λ z. z + 4) e) in rw (ne→== addr 0 some_addr) refl

not_null : (h : Kheap) (n : ℕ) → (heap_alloc h n).0 ≢ 0
unfolding heap_alloc
not_null h n e = absurd (omega (arith, e))

-- A block that is allocated in a process's heap and freed at once leaves the same bytes free, where the call
-- did not return 4, the null pointer behind the size word.
pub heap_free-heap_alloc :
    (lo hi : ℕ) (h : Kheap) (n x : ℕ)
    → IsHeap lo hi h
    → n + 11 < 2 ^ 32
    → (heap_alloc h n).0 ≢ 4
    → let (ptr, h') = heap_alloc h n in
      free_cell x (heap_free h' ptr).extents ≡ free_cell x h.extents
unfolding heap_free kheap_free
heap_free-heap_alloc lo hi h n x v s ok =
    let same = heap_alloc-kheap_alloc h n ok in
    ap (λ r. free_cell x (kheap_free r.1 r.0).extents) same
    ∙ kheap_free-kheap_alloc lo hi h n x v s (subst (λ r. r.0 ≢ 0) same (not_null h n))

-- A heap of up to 2^20 pages is ordered and free from its first byte to its last one, and each of its bytes is
-- mapped to the pages that were taken for it, if there were such pages and no table was lost.
pub create_heap-IsHeap :
    (t : Tables) (areas : Areas) (words : ℕ → ℕ) (pages b : ℕ)
    → 0 < pages
    → pages ≤ 2 ^ 20
    → heap_pos ≤ b
    → b < heap_pos + pages * page_size
    → (alloc_phy (malloc_page4k t 1).1.free pages).0 ≢ 0
    → (create_heap t areas words pages).1.1.lost ≡ false
    → let (heap, space) = create_heap t areas words pages in
      let phy = (alloc_phy (malloc_page4k t 1).1.free pages).0 in
      IsHeap heap_pos (heap_pos + pages * page_size) heap.0
      × (free_cell b heap.0.extents ≡ true)
      × (translate space.1.words b
          ≡ some ((phy / 2 ^ 12 + (get_index b - get_index heap_pos)) % 2 ^ 40))
unfolding create_heap
create_heap-IsHeap t areas words pages b p m l u some_page k =
    let t' = (malloc_page4k t 1).1 in
    let (phy, free) = alloc_phy t'.free pages in
    let t1 : Tables = record t' { free = free } in
    (
      record {
        arena = record { addressable = omega arith; sized = omega arith };
        above = omega arith;
        ordered = omega arith;
      },
      ground arith,
      translate-set_mappings t1 heap_pos phy pages 0 b (omega arith) p
            (omega arith, inl (omega arith)) (omega arith) k
          ∙ mapped_in (get_index heap_pos) pages (phy / 2 ^ 12) (get_index b) (translate t1.words b)
              (omega arith) (omega arith),
    )
