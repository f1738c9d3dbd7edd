-- ===== src/Proc/Vmarea/Tests.antt =====
-- Runs on the areas of an address space, and the theorems at concrete areas.
use mosix_3d.Prelude.{ℕ, ◌≡◌, refl, [], ◌∷◌, some, arith, length}
use mosix_3d.Proc.Vmarea.{Vmarea, Areas, insert_vmarea, delete_vmarea, find_vmarea}
use mosix_3d.Proc.Vmarea.Find.{Rising, insert_vmarea-Rising, find_vmarea-insert_vmarea}
use mosix_3d.Proc.Vmarea.Delete.{length-delete_vmarea}

abbrev area : ℕ → ℕ → Vmarea
area a n = record { vaddr = a; paddr = 0; pages = n; type = 1; flag = 7 }

abbrev two_areas : Areas
two_areas = area 0x10000 1 ∷ area 0x30000 2 ∷ []

delete_duplicates : delete_vmarea two_areas 0x10000 ≡ some (area 0x30000 2 ∷ area 0x30000 2 ∷ [])
unfolding delete_vmarea
delete_duplicates = refl

insert_vmarea-Rising_example : Rising 0 (area 0x10000 1 ∷ area 0x20000 4 ∷ area 0x30000 2 ∷ [])
unfolding insert_vmarea
insert_vmarea-Rising_example =
    insert_vmarea-Rising 0 two_areas (area 0x20000 4) (omega arith) (omega arith) refl

find_vmarea-insert_vmarea_example :
    find_vmarea (area 0x10000 1 ∷ area 0x20000 4 ∷ area 0x30000 2 ∷ []) 0x20fff
    ≡ some (area 0x20000 4)
unfolding insert_vmarea find_vmarea
find_vmarea-insert_vmarea_example =
    find_vmarea-insert_vmarea two_areas (area 0x20000 4) 0x20fff refl refl

length-delete_vmarea_example : length (area 0x30000 2 ∷ area 0x30000 2 ∷ []) ≡ length two_areas
unfolding delete_vmarea
length-delete_vmarea_example = length-delete_vmarea two_areas 0x10000 refl
