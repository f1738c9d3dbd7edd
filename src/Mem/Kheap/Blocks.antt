-- ===== src/Mem/Kheap/Blocks.antt =====
-- What a block of the kernel heap is: free bytes that `kheap_alloc` hands out and `kheap_free` gives
-- back.
use mosix_3d.Prelude.{
  ℕ, zero, suc, ◌+◌, ◌-◌, ◌%◌, ◌^◌, ◌≤◌, ◌<◌, ◌≡◌, ◌≢◌, refl, sym, ap, ◌∙◌, true, false, ◌&&◌, not,
  arith, ne→==,
}
use mathlib.Core.Path.{subst}
use mosix_3d.Mem.Freelist.{Extents, flist_alloc, flist_dealloc}
use mosix_3d.Mem.Freelist.Order.{Ordered, Arena, flist_alloc-Ordered}
use mosix_3d.Mem.Freelist.Cells.{free_cell, in_range, taken, flist_alloc_cells}
use mosix_3d.Mem.Freelist.Roundtrip.{flist_dealloc-flist_alloc}
use mosix_3d.Mem.Kheap.{Kheap, block_size, placed, kheap_init, kheap_alloc, kheap_free, store}

-- The free extents of the heap lie in order in `[lo, hi)`, and no two of them touch.
pub record IsHeap (lo hi : ℕ) (h : Kheap) : Type 0 where
  pub arena : Arena lo hi
  pub above : 0 < lo
  pub ordered : Ordered 1 hi lo h.extents

-- The heap that `kheap_init` makes, with room up to `KHEAP_MAX_SIZE`.
pub kheap_init-IsHeap :
    (kernel_base : ℕ) (words : ℕ → ℕ)
    → kernel_base + 0x400000 < 2 ^ 64
    → IsHeap (kernel_base + 0x200000) (kernel_base + 0x400000) (kheap_init kernel_base words)
unfolding kheap_init
kheap_init-IsHeap kernel_base words h = record {
  arena = record { addressable = omega arith; sized = omega arith };
  above = omega arith;
  ordered = omega arith;
}

block_size_lem :
    (n : ℕ) → n + 11 < 2 ^ 32 → (n + 4 ≤ block_size n) × (0 < block_size n) × (block_size n % 8 ≡ 0)
unfolding block_size
block_size_lem n h = omega arith

-- What a call that asks for `n` bytes, and takes `size` of them, does to the byte `x`.
abbrev Allocated : ℕ → ℕ → Kheap → ℕ → ℕ → ℕ → ℕ × Kheap → Type 0
Allocated lo hi h n size x (ptr, h') =
    IsHeap lo hi h'
    × (ptr ≡ 0 → free_cell x h'.extents ≡ free_cell x h.extents)
    × (ptr ≢ 0
        → (h'.words (ptr - 4) ≡ size)
          × (in_range (ptr - 4) (n + 4) x ≡ true → free_cell x h.extents ≡ true)
          × (free_cell x h'.extents ≡ (free_cell x h.extents && not (in_range (ptr - 4) size x))))

abbrev filled : Kheap → ℕ → ℕ → Extents → ℕ × Kheap
filled h size addr es = (addr + 4, record { extents = es; words = store h.words addr size })

placed-filled :
    (h : Kheap) (size addr : ℕ) (es : Extents)
    → addr ≢ 0
    → placed h size addr es ≡ filled h size addr es
unfolding placed
placed-filled h size addr es n = rw (ne→== addr 0 n) refl

placed_cells :
    (lo hi : ℕ) (h : Kheap) (n size x addr : ℕ) (es : Extents)
    → IsHeap lo hi h
    → n + 4 ≤ size
    → Ordered 1 hi lo es
    → (taken addr size x && not (free_cell x h.extents)) ≡ false
    → free_cell x es ≡ (free_cell x h.extents && not (taken addr size x))
    → Allocated lo hi h n size x (placed h size addr es)
unfolding placed
placed_cells lo hi h n size x zero es v l o t e = (
  record { arena = v.arena; above = v.above; ordered = o },
  (λ z. ground arith),
  (λ k. absurd (k refl)),
)
placed_cells lo hi h n size x (suc a) es v l o t e =
    let q : suc a + 4 - 4 ≡ suc a = omega arith in
    subst (Allocated lo hi h n size x)
      (sym (placed-filled h size (suc a) es (λ z. absurd (omega arith))))
      (
        record { arena = v.arena; above = v.above; ordered = o },
        (λ z. absurd (omega arith)),
        (λ k. (ground arith, (λ m. ground arith), ground arith)),
      )

-- A block of `n` bytes has its size word in front of it. Of the bytes from this word to the block's
-- end, each was free before the allocation and none is free behind it; the free bytes are as before
-- elsewhere but for the rounding to 8 bytes. A failed call leaves the free bytes as they are.
pub kheap_alloc_cells :
    (lo hi : ℕ) (h : Kheap) (n x : ℕ)
    → IsHeap lo hi h
    → n + 11 < 2 ^ 32
    → let (ptr, h') = kheap_alloc h n in
      IsHeap lo hi h'
      × (ptr ≡ 0 → free_cell x h'.extents ≡ free_cell x h.extents)
      × (ptr ≢ 0
          → (h'.words (ptr - 4) ≡ block_size n)
            × (in_range (ptr - 4) (n + 4) x ≡ true → free_cell x h.extents ≡ true)
            × (free_cell x h'.extents
                ≡ (free_cell x h.extents && not (in_range (ptr - 4) (block_size n) x))))
unfolding kheap_alloc
kheap_alloc_cells lo hi h n x v s =
    let b = block_size_lem n s in
    let c = flist_alloc_cells 1 hi lo h.extents (block_size n) x v.arena v.above b.1 v.ordered in
    let o = flist_alloc-Ordered 1 hi lo h.extents (block_size n) v.arena b.1 v.ordered in
    let r = flist_alloc h.extents (block_size n) in
    placed_cells lo hi h n (block_size n) x r.0 r.1 v b.0 o c.0 c.1

placed_freed :
    (h : Kheap) (size addr : ℕ) (es : Extents)
    → (placed h size addr es).0 ≢ 0
    → (addr ≢ 0)
      × (let (ptr, h') = placed h size addr es in
          (kheap_free h' ptr).extents ≡ flist_dealloc es addr size)
unfolding placed kheap_free
placed_freed h size zero es k = absurd (k refl)
placed_freed h size (suc a) es k =
    let n : suc a ≢ 0 = λ z. absurd (omega arith) in
    let q : suc a + 4 - 4 ≡ suc a = omega arith in
    let w : store h.words (suc a) size (suc a) ≡ size = ground arith in
    (
      n,
      ap (λ r. (kheap_free r.1 r.0).extents) (placed-filled h size (suc a) es n)
          ∙ (ap (λ c. flist_dealloc es c (store h.words (suc a) size c)) q
              ∙ ap (flist_dealloc es (suc a)) w),
    )

-- A block that is allocated and freed at once leaves the same bytes free.
pub kheap_free-kheap_alloc :
    (lo hi : ℕ) (h : Kheap) (n x : ℕ)
    → IsHeap lo hi h
    → n + 11 < 2 ^ 32
    → (kheap_alloc h n).0 ≢ 0
    → let (ptr, h') = kheap_alloc h n in
      free_cell x (kheap_free h' ptr).extents ≡ free_cell x h.extents
unfolding kheap_alloc
kheap_free-kheap_alloc lo hi h n x v s ok =
    let b = block_size_lem n s in
    let r = flist_alloc h.extents (block_size n) in
    let p = placed_freed h (block_size n) r.0 r.1 ok in
    ap (free_cell x) p.1
    ∙ flist_dealloc-flist_alloc 1 hi lo h.extents (block_size n) x v.arena v.above b.1 v.ordered p.0
