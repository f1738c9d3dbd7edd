-- ===== src/Mem/Paging/Tests.antt =====
-- Runs on tables that are empty, and the theorems at them.
use mosix_3d.Prelude.{
  ℕ, ◌/◌, ◌^◌, ◌≡◌, refl, ◌==◌, if◌then◌else◌, none, some, false, true, arith, [], ◌∷◌, inl,
}
use mosix_3d.Mem.Freelist.{flist_alloc}
use mosix_3d.Mem.Pages.{alloc_phy}
use mosix_3d.Mem.Paging.{
  Tables, make_vaddr, get_index, get_mapping_pte, get_mapping_pde, get_mapping_pdpte,
  get_mapping_pml4e, entry, set_pte, set_mapping, set_mappings, clear_mapping_entry, get_mapped_phy,
  set_mapped_phy, set_mapping_route, set_mapping_entry, map_pages, ensure, set_pde, set_pdpte,
  set_pml4e,
}
use mosix_3d.Mem.Paging.Translate.{translate, walk}
use mosix_3d.Mem.Paging.Range.{mapped, translate-set_mappings}
use mosix_3d.Mem.Paging.Window.{
  physical, pte_of, pde_of, pdpte_of, pml4e_of, descend, windows_show_tables,
}

abbrev no_pages : Tables
no_pages = record { words = λ x. 0; free = record { pos = 0x100; size = 0x10 } ∷ []; lost = false }

-- The last shift is by 9 bits where the offset has 12, so each index lies three bits too low.
make_vaddr_test : make_vaddr 0x1ff 1 2 3 4 ≡ 0xfff01ff008080604
unfolding make_vaddr
make_vaddr_test = refl

-- Two pages mapped in a row, and one of them unmapped.
mapped_test : translate (set_mappings no_pages 0x400000 0x200000 2 0).words 0x401234 ≡ some 0x201
unfolding translate walk set_mappings map_pages set_mapping_route set_mapping_entry ensure set_pde
    set_pdpte set_pml4e set_pte entry alloc_phy flist_alloc
mapped_test = refl

-- Without free pages the tables are lost.
lost_test : (set_mappings (record no_pages { free = [] }) 0x400000 0x200000 2 0).lost ≡ true
unfolding set_mappings map_pages set_mapping_route set_mapping_entry ensure set_pde set_pdpte
    set_pml4e set_pte entry alloc_phy flist_alloc
lost_test = refl

clear_test :
    translate
      (clear_mapping_entry (set_mapping no_pages 0x400000 0x200000 0) 0x400000).words
      0x400000
    ≡ none
unfolding translate walk set_mapping set_mapping_route set_mapping_entry ensure set_pde set_pdpte
    set_pml4e set_pte entry alloc_phy flist_alloc clear_mapping_entry
clear_test = refl

remapped_test :
    get_mapped_phy
      (set_mapped_phy (set_mapping no_pages 0x400000 0x200000 0).words 0x400000 0x5000)
      0x400000
    ≡ 0x5000
unfolding get_mapped_phy set_mapped_phy set_mapping set_mapping_route set_mapping_entry ensure
    set_pde set_pdpte set_pml4e set_pte entry alloc_phy flist_alloc
remapped_test = refl

translate-set_mappings_example :
    translate (set_mappings no_pages 0x400000 0x200000 2 0).words 0x401234
    ≡ mapped
        (get_index 0x400000)
        2
        (0x200000 / 2 ^ 12)
        (get_index 0x401234)
        (translate no_pages.words 0x401234)
unfolding set_mappings map_pages set_mapping_route set_mapping_entry ensure set_pde set_pdpte
    set_pml4e set_pte entry alloc_phy flist_alloc
translate-set_mappings_example =
    translate-set_mappings no_pages 0x400000 0x200000 2 0 0x401234 (omega arith) (omega arith)
      (omega arith, inl (omega arith)) (omega arith) refl

-- A top table in frame 1 whose entry 0x1fe is itself.
abbrev self_table : ℕ → ℕ
self_table x = if x == 0x1ff0 then 0x1003 else 0

windows_show_tables_example :
    (physical self_table 1 (get_mapping_pte 0x400000) ≡ pte_of self_table 1 0x400000)
    × (physical self_table 1 (get_mapping_pde 0x400000) ≡ pde_of self_table 1 0x400000)
    × (physical self_table 1 (get_mapping_pdpte 0x400000) ≡ pdpte_of self_table 1 0x400000)
    × (physical self_table 1 (get_mapping_pml4e 0x400000) ≡ pml4e_of self_table 1 0x400000)
unfolding descend
windows_show_tables_example = windows_show_tables self_table 1 0x400000 refl
