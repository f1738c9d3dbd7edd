-- ===== src/Exec/Library.antt =====
-- The libraries that are loaded, and where a process has them: `LoadPedll64` without its sections,
-- `InsertDll`, `LocatePedll`, `LoadPedll`, and the choice of an address by `MapPedll` and
-- `ePeDriverRelocation`.
--
-- The list behind `dllroot` is a list, the last one in front. What `LoadPedll64` makes of a node is an
-- argument: `none` is an image that it refuses.
pub mod Place
pub mod Cache
use mosix_3d.Prelude.{
  ℕ, zero, suc, ◌+◌, ◌-◌, ◌*◌, ◌/◌, ◌%◌, ◌^◌, Bool, true, false, List, [], ◌∷◌, ◌++◌, Option, none,
  some, ltb, ◌==◌, if◌then◌else◌, u16, u32, u64, sub64,
}
use mosix_3d.Mem.Freelist.{Extents, flist_alloc}
use mosix_3d.Exec.Image.{
  ImageFile, read_end, NtHeaders, SectionHeader, seek_lfanew, nt_headers, section_header,
}

-- The fields that stand for the whole image; `sec` are the headers of its sections.
pub record Pedll : Type 0 where
  pub actual : ℕ
  pub entry : ℕ
  pub imgsize : ℕ
  pub edata : ℕ
  pub idata : ℕ
  pub relocs : ℕ
  pub relocsz : ℕ
  pub relocfix : ℕ
  pub base : ℕ
  pub sec : List SectionHeader

-- The headers of `n` sections from `o` on, one behind the other.
unfoldable pub section_headers : ImageFile → ℕ → ℕ → List SectionHeader
unfolding section_header
section_headers file o zero = []
section_headers file o (suc n) =
    section_header file.bytes o ∷ section_headers file (read_end file o 40) n

-- The address for a driver, from the list `drvflist` of its pages.
unfoldable pub driver_relocation : Extents → NtHeaders → ℕ × Extents
driver_relocation drvflist h =
    let (page, rest) = flist_alloc drvflist (h.size_of_image / 2 ^ 12) in
    (u64 (page * 2 ^ 12), rest)

-- `IMAGE_SUBSYSTEM_MOSIX_DRV` is 35. For other images the fields of the relocation keep what the new
-- `Pedll`, `junk`, held.
unfoldable pub load_pedll64 : Pedll → Extents → ℕ → ImageFile → Option (Pedll × Extents)
unfolding seek_lfanew nt_headers section_headers driver_relocation
load_pedll64 junk drvflist node file =
    let o : ℕ = elim (seek_lfanew file) [ none ↦ read_end file 0 64 | some o ↦ o ] in
    elim (nt_headers file.bytes o) [
      | none ↦ none
      | some h ↦
          let (base, rest) = driver_relocation drvflist h in
          let driver = h.subsystem == 35 in
          some (
            record {
              actual = node;
              entry = h.entry;
              imgsize = h.size_of_image;
              edata = h.export_table;
              idata = h.import_table;
              relocs = if driver then h.reloc_table else junk.relocs;
              relocsz = if driver then h.reloc_size else junk.relocsz;
              relocfix = if driver then sub64 base h.image_base else junk.relocfix;
              base = if driver then base else junk.base;
              sec = section_headers file (read_end file o 264) h.sections;
            },
            if driver then rest else drvflist,
          )
    ]

-- The list from `dllroot` on.
abbrev pub Dlls : Type 0
Dlls = List Pedll

unfoldable pub insert_dll : Dlls → Pedll → Dlls
insert_dll dlls d = d ∷ dlls

-- The loop of `LocatePedll`.
unfoldable pub search_dll : Dlls → ℕ → Option Pedll
search_dll [] node = none
search_dll (d ∷ dlls) node =
    let rest = search_dll dlls node in if d.actual == node then some d else rest

-- A library, with the list behind the call; no node for the path; a null pointer that `InsertDll` follows.
pub data Located : Type 0 where
  located : Pedll → Dlls → Located
  missing null_dll : Located

unfoldable pub load_pedll : (ℕ → Option Pedll) → Dlls → ℕ → Located
unfolding insert_dll
load_pedll load dlls node = elim (load node) [
  | none ↦ null_dll
  | some d ↦ located d (insert_dll dlls d)
]

-- The node that `FindPedll` finds for the path is an argument.
unfoldable pub locate_pedll : (ℕ → Option Pedll) → Dlls → Option ℕ → Located
unfolding search_dll load_pedll
locate_pedll load dlls none = missing
locate_pedll load dlls (some node) = elim (search_dll dlls node) [
  | none ↦ load_pedll load dlls node
  | some d ↦ located d dlls
]

-- A library in a process, with the size of its image.
pub record ActivePedll : Type 0 where
  pub base : ℕ
  pub size : ℕ

-- `peinfo.dlls`, the last one in front.
abbrev pub Actives : Type 0
Actives = List ActivePedll

abbrev pub pedll_top : ℕ
pedll_top = 0x800000000000

unfoldable pub lowest : Actives → ℕ
lowest [] = pedll_top
lowest (a ∷ as') = a.base

-- The library goes right below the one mapped before it. The room in `dlls` is not tested.
unfoldable pub place_pedll : Actives → ℕ → Actives
unfolding lowest
place_pedll actives imgsize =
    record { base = sub64 (lowest actives) imgsize; size = imgsize } ∷ actives
