-- ===== src/Proc/Space.antt =====
-- The memory of a process, kernel/mp/proc.c and kernel/mem/heap.c: the references of its address space, its
-- stack, the mappings that are made when it starts to run, and the page faults and the heap of user code.
--
-- The tables are those through which the call runs: `alloc_stack` runs in the creator, the others in the
-- process itself. The address of a `SharedVmarea` stands for it, and `shared` gives its `paddr`.
pub mod Mapped
pub mod Fault
pub mod Heap
mod Tests
use mosix_3d.Prelude.{
  ℕ, zero, suc, ◌+◌, ◌-◌, ◌*◌, ◌/◌, ◌%◌, ◌^◌, Bool, true, false, not, ◌&&◌, List, [], ◌∷◌, Option,
  none, some, ltb, ◌==◌, if◌then◌else◌, u32, u64, sub64,
}
use mosix_3d.Mem.Freelist.{Extent, Extents, flist_alloc, flist_dealloc}
use mosix_3d.Mem.Pages.{alloc_phy, page_size}
use mosix_3d.Mem.Kheap.{Kheap, block_size, store}
use mosix_3d.Mem.Paging.{
  Tables, set_mapping, set_mappings, malloc_page4k_attr, malloc_page4k, free_page4k,
}
use mosix_3d.Proc.Vmarea.{Vmarea, Areas, insert_vmarea}
use mosix_3d.Exec.Section.{has_bit, page_attr}

-- `Vmspace`, without its top-level table.
pub record Vmspace : Type 0 where
  pub areas : Areas
  pub ref : ℕ

unfoldable pub refer_vmspace : Vmspace → Vmspace
refer_vmspace map = record map { ref = u32 (map.ref + 1) }

-- The address space, and whether it is freed.
unfoldable pub deref_vmspace : Vmspace → Vmspace × Bool
deref_vmspace map = let n = u32 (map.ref + 2 ^ 32 - 1) in (record map { ref = n }, n == 0)

-- `PGATTR_NOEXEC`.
abbrev pub noexec : ℕ
noexec = 16

-- The stack of a process. `phy` and `commit` are left on its kernel stack; the entry point, its stub and
-- the process, which stand there too, are left out.
pub record Stack : Type 0 where
  pub sl : ℕ
  pub rsb : ℕ
  pub kstack : ℕ
  pub rsp : ℕ
  pub phy : ℕ
  pub commit : ℕ

unfoldable pub alloc_kstack : Tables → ℕ × Tables
alloc_kstack t = let (base, t') = malloc_page4k_attr t 1 noexec in (u64 (base + page_size), t')

-- In the address space `vm` with more users than the process the stack is mapped at once.
unfoldable pub alloc_stack : Tables → Vmspace → ℕ → ℕ → ℕ → Stack × Tables
unfolding alloc_kstack
alloc_stack t vm rsv commit top =
    let (phy, free) = alloc_phy t.free commit in
    let (rsp, t') = alloc_kstack (record t { free = free }) in
    let mapped = set_mappings t' (sub64 top (commit * page_size)) phy commit noexec in
    (
      record {
        sl = rsv;
        rsb = sub64 top (rsv * page_size);
        kstack = top;
        rsp = sub64 rsp 0x38;
        phy = phy;
        commit = commit;
      },
      if vm.ref == 1 then t' else mapped,
    )

-- `VM_NOCOMMIT` and `VM_SHARE` are 0x40 and 0x10.
abbrev pub is_reserved : Vmarea → Bool
is_reserved a = has_bit a.flag 6

abbrev pub area_frames : (ℕ → ℕ) → Vmarea → ℕ
area_frames shared a = if has_bit a.flag 4 then shared a.paddr else a.paddr

unfoldable pub map_area : (ℕ → ℕ) → Tables → Vmarea → Tables
unfolding page_attr
map_area shared t a =
    if is_reserved a
    then t
    else set_mappings t a.vaddr (area_frames shared a) a.pages (page_attr a.flag)

-- The loop over the areas.
unfoldable pub map_areas : (ℕ → ℕ) → Tables → Areas → Tables
unfolding map_area
map_areas shared t [] = t
map_areas shared t (a ∷ as') = map_areas shared (map_area shared t a) as'

-- `proc_entry_init` up to the libraries of the program.
unfoldable pub proc_entry_init : (ℕ → ℕ) → Tables → Vmspace → Stack → Tables
unfolding map_areas
proc_entry_init shared t vm s =
    if vm.ref == 1
    then set_mappings (map_areas shared t vm.areas) (sub64 s.kstack (s.commit * page_size)) s.phy
        s.commit noexec
    else t

-- The page fault at `cr2`: a page for an address of the stack.
unfoldable pub pf_commitmem : Tables → Stack → ℕ → Bool × Tables
unfolding set_mapping
pf_commitmem t s cr2 =
    let (phy, free) = alloc_phy t.free 1 in
    if ltb s.rsb cr2 && ltb cr2 (u64 (s.rsb + s.sl * page_size))
    then (true, set_mapping (record t { free = free }) (cr2 - cr2 % page_size) phy noexec)
    else (false, t)

abbrev pub heap_pos : ℕ
heap_pos = 0x40000000

-- The heap, the address of its list of extents, the areas and the tables. `VM_HEAP` is 8, and `VM_RWX` 7.
unfoldable pub create_heap : Tables → Areas → (ℕ → ℕ) → ℕ → (Kheap × ℕ) × (Option Areas × Tables)
create_heap t areas words pages =
    let (root, t') = malloc_page4k t 1 in
    let (phy, free) = alloc_phy t'.free pages in
    let area : Vmarea = record {
      vaddr = heap_pos;
      paddr = phy;
      pages = u32 pages;
      type = 8;
      flag = 7;
    } in
    let extents : Extents = record { pos = heap_pos; size = pages * page_size } ∷ [] in
    (
      (record { extents = extents; words = words }, root),
      (insert_vmarea areas area, set_mappings (record t' { free = free }) heap_pos phy pages 0),
    )

unfoldable pub destroy_heap : Tables → Option ℕ → Tables
destroy_heap t none = t
destroy_heap t (some root) = free_page4k t root 1

-- The address that `flist_alloc` returns is not tested.
unfoldable pub heap_alloc : Kheap → ℕ → ℕ × Kheap
unfolding block_size
heap_alloc h n =
    let (addr, es) = flist_alloc h.extents (block_size n) in
    (addr + 4, record { extents = es; words = store h.words addr (block_size n) })

unfoldable pub heap_free : Kheap → ℕ → Kheap
heap_free h ptr = record h { extents = flist_dealloc h.extents (ptr - 4) (h.words (ptr - 4)) }
