-- ===== src/Proc/Space/Tests.antt =====
-- A process with a stack, two areas and a heap, and the theorems at it.
use mosix_3d.Prelude.{
  ◌+◌, ◌-◌, ◌*◌, ◌/◌, ◌%◌, ◌^◌, ◌≡◌, ◌≢◌, refl, true, false, [], ◌∷◌, ◌++◌, some, ◌==◌,
  if◌then◌else◌, inl, arith, sub64,
}
use mosix_3d.Mem.Freelist.{flist_alloc}
use mosix_3d.Mem.Freelist.Cells.{free_cell}
use mosix_3d.Mem.Pages.{alloc_phy, page_size}
use mosix_3d.Mem.Kheap.{Kheap, block_size}
use mosix_3d.Mem.Kheap.Blocks.{IsHeap}
use mosix_3d.Mem.Paging.{
  Tables, get_index, malloc_page4k, malloc_page4k_attr, set_mapping, set_mappings, map_pages,
  set_mapping_route, set_mapping_entry, ensure, set_pde, set_pdpte, set_pml4e, set_pte, entry,
}
use mosix_3d.Mem.Paging.Translate.{translate}
use mosix_3d.Proc.Vmarea.{Vmarea}
use mosix_3d.Proc.Space.{
  map_areas, map_area, alloc_kstack, Vmspace, Stack, deref_vmspace, proc_entry_init, alloc_stack,
  pf_commitmem, create_heap, heap_alloc, heap_free, heap_pos,
}
use mosix_3d.Proc.Space.Mapped.{
  AreAreas, AllMiss, frame_in, proc_entry_init-maps, proc_entry_init-alloc_stack,
}
use mosix_3d.Proc.Space.Fault.{pf_commitmem_lem}
use mosix_3d.Proc.Space.Heap.{heap_free-heap_alloc, create_heap-IsHeap}

abbrev tables : Tables
tables = record { words = λ a. 0; free = record { pos = 0x1000; size = 64 } ∷ []; lost = false }

last_reference : (deref_vmspace (record { areas = []; ref = 1 })).1 ≡ true
unfolding deref_vmspace
last_reference = refl

-- Two pages of code, and a page that is reserved.
abbrev code : Vmarea
code = record { vaddr = 0x400000; paddr = 0x9000; pages = 2; type = 1; flag = 5 }

abbrev reserved : Vmarea
reserved = record { vaddr = 0x401000; paddr = 0; pages = 1; type = 16; flag = 0x47 }

abbrev stack : Stack
stack = record {
  sl = 16;
  rsb = 0x7fffff0000;
  kstack = 0x8000000000;
  rsp = 0;
  phy = 0x20000;
  commit = 2;
}

after-AreAreas : AreAreas (reserved ∷ [])
unfolding AreAreas
after-AreAreas = ((omega arith, omega arith, (omega arith, inl (omega arith))), tt)

after-AllMiss : AllMiss (reserved ∷ []) (get_index 0x401234)
unfolding AllMiss
after-AllMiss = (inl refl, tt)

proc_entry_init-maps_example :
    translate
      (proc_entry_init
        (λ p. p)
        tables
        (record { areas = [] ++ (code ∷ reserved ∷ []); ref = 1 })
        stack).words
      0x401234
    ≡ some (frame_in (λ p. p) code (get_index 0x401234))
unfolding proc_entry_init map_areas map_area alloc_stack alloc_kstack pf_commitmem create_heap
    malloc_page4k malloc_page4k_attr set_mapping set_mappings map_pages set_mapping_route
    set_mapping_entry ensure set_pde set_pdpte set_pml4e set_pte entry alloc_phy flist_alloc
proc_entry_init-maps_example =
    proc_entry_init-maps (λ p. p) tables [] (reserved ∷ []) code stack 0x401234
      (omega arith, omega arith, (omega arith, inl (omega arith))) after-AreAreas
      (omega arith, omega arith, (omega arith, inl (omega arith))) (omega arith) refl (omega arith)
      (omega arith) after-AllMiss (inl (omega arith)) refl

abbrev shared_space : Vmspace
shared_space = record { areas = []; ref = 2 }

proc_entry_init-alloc_stack_example :
    let (s, t') = alloc_stack tables shared_space 16 2 0x8000000000 in
    translate (proc_entry_init (λ p. p) t' shared_space s).words 0x7ffffff008
    ≡ some (
        ((alloc_phy tables.free 2).0 / 2 ^ 12
          + (get_index 0x7ffffff008 - get_index (sub64 0x8000000000 (2 * page_size))))
        % 2 ^ 40)
unfolding proc_entry_init map_areas map_area alloc_stack alloc_kstack pf_commitmem create_heap
    malloc_page4k malloc_page4k_attr set_mapping set_mappings map_pages set_mapping_route
    set_mapping_entry ensure set_pde set_pdpte set_pml4e set_pte entry alloc_phy flist_alloc
proc_entry_init-alloc_stack_example =
    proc_entry_init-alloc_stack (λ p. p) tables shared_space 16 2 0x8000000000 0x7ffffff008
      (omega arith) (omega arith, inl (omega arith)) (omega arith) (omega arith) (omega arith)
      (omega arith) refl

commits : (pf_commitmem tables stack 0x7fffff8123).0 ≡ true
unfolding pf_commitmem
commits = refl

refuses_first_byte : (pf_commitmem tables stack 0x7fffff0000).0 ≡ false
unfolding pf_commitmem
refuses_first_byte = refl

pf_commitmem_lem_example :
    ((pf_commitmem tables stack 0x7fffff8123).0 ≡ true)
    × (translate (pf_commitmem tables stack 0x7fffff8123).1.words 0x7fffff8fff ≡ (
        if get_index 0x7fffff8123 == get_index 0x7fffff8fff
        then some ((alloc_phy tables.free 1).0 / 2 ^ 12 % 2 ^ 40)
        else translate tables.words 0x7fffff8fff))
unfolding proc_entry_init map_areas map_area alloc_stack alloc_kstack pf_commitmem create_heap
    malloc_page4k malloc_page4k_attr set_mapping set_mappings map_pages set_mapping_route
    set_mapping_entry ensure set_pde set_pdpte set_pml4e set_pte entry alloc_phy flist_alloc
pf_commitmem_lem_example =
    pf_commitmem_lem tables stack 0x7fffff8123 0x7fffff8fff (omega arith) (omega arith)
      (omega arith) (omega arith) (omega arith) (omega arith) refl

create_heap-IsHeap_example :
    let (heap, space) = create_heap tables [] (λ a. 0) 4 in
    let phy = (alloc_phy (malloc_page4k tables 1).1.free 4).0 in
    IsHeap heap_pos (heap_pos + 4 * page_size) heap.0
    × (free_cell 0x40002345 heap.0.extents ≡ true)
    × (translate space.1.words 0x40002345
        ≡ some ((phy / 2 ^ 12 + (get_index 0x40002345 - get_index heap_pos)) % 2 ^ 40))
unfolding proc_entry_init map_areas map_area alloc_stack alloc_kstack pf_commitmem create_heap
    malloc_page4k malloc_page4k_attr set_mapping set_mappings map_pages set_mapping_route
    set_mapping_entry ensure set_pde set_pdpte set_pml4e set_pte entry alloc_phy flist_alloc
create_heap-IsHeap_example =
    create_heap-IsHeap tables [] (λ a. 0) 4 0x40002345 (omega arith) (omega arith) (omega arith)
      (omega arith) (omega arith) refl

abbrev heap : Kheap
heap = record { extents = record { pos = 0x40000000; size = 0x4000 } ∷ []; words = λ a. 0 }

heap-IsHeap : IsHeap 0x40000000 0x40004000 heap
heap-IsHeap = record {
  arena = record { addressable = omega arith; sized = omega arith };
  above = omega arith;
  ordered = omega arith;
}

heap_block : (heap_alloc heap 100).0 ≢ 4
unfolding heap_alloc flist_alloc block_size
heap_block = omega arith

heap_free-heap_alloc_example :
    let (ptr, h') = heap_alloc heap 100 in
    free_cell 0x40000010 (heap_free h' ptr).extents ≡ free_cell 0x40000010 heap.extents
heap_free-heap_alloc_example =
    heap_free-heap_alloc 0x40000000 0x40004000 heap 100 0x40000010 heap-IsHeap (omega arith)
      heap_block

-- Without room the result is 4.
no_room : (heap_alloc (record heap { extents = [] }) 100).0 ≡ 4
unfolding heap_alloc flist_alloc
no_room = refl
