-- ===== src/Exec/Run.antt =====
-- Programs started and images mapped: `ePeMakePeinfo`, `RunPe64`, `RunElf64`, `ExecuteFileSuspend`, the loops
-- over the sections of `LoadPedll64`, `MapPedll` and `MapDriver`.
--
-- `Machine` is what they share: memory, page tables with the free pages, the areas of the process, and the
-- references of shared sections. Where `insert_vmarea` refuses an area, the areas stay as they are. The new
-- process is what `create_process` is given.
pub mod Errors
pub mod View
use mosix_3d.Prelude.{
  ℕ, zero, suc, ◌+◌, ◌-◌, ◌*◌, ◌/◌, ◌%◌, ◌^◌, Bool, true, false, List, [], ◌∷◌, Option, none, some,
  ltb, ◌==◌, if◌then◌else◌, u16, u32, u64,
}
use mosix_3d.Misc.Memory.{Memory, memset}
use mosix_3d.Mem.Paging.{Tables, malloc_page4k, set_mappings, kernel_v2p, kernel_p2v}
use mosix_3d.Proc.Vmarea.{Vmarea, Areas, insert_vmarea}
use mosix_3d.Exec.Image.{
  ImageFile, read_end, NtHeaders, SectionHeader, word, dword, seek_lfanew, nt_headers,
  section_header,
}
use mosix_3d.Exec.Section.{
  Pesection, pages4k, convert_flags, is_bss, load_section, load_contents, run_section, map_section,
  page_attr,
}
use mosix_3d.Exec.Library.{Pedll, ActivePedll, Actives, lowest, place_pedll}
use mosix_3d.Exec.Relocation.{fix_relocation}

pub record Machine : Type 0 where
  pub mem : Memory
  pub tables : Tables
  pub areas : Areas
  pub refs : ℕ → ℕ

abbrev pub with_area : Areas → Option Areas → Areas
with_area areas none = areas
with_area areas (some areas') = areas'

abbrev pub add_area : Areas → Vmarea → Areas
add_area areas v = with_area areas (insert_vmarea areas v)

-- The loop over the `n` sections of a program whose headers stand from `o` on. `VM_IMAGE` is 1.
unfoldable pub run_sections : ImageFile → ℕ → ℕ → ℕ → Machine → Machine
unfolding section_header run_section
run_sections file base zero o m = m
run_sections file base (suc n) o m =
    let s = section_header file.bytes o in
    let (lin, tables) = malloc_page4k m.tables (pages4k s.virtual_size) in
    let area : Vmarea = record {
      vaddr = u64 (s.virtual_address + base);
      paddr = kernel_v2p lin;
      pages = pages4k s.virtual_size;
      type = 1;
      flag = convert_flags s.characteristics;
    } in
    run_sections file base n (read_end file o 40) (record m {
      mem = run_section m.mem file (read_end file o 40) lin s;
      tables = tables;
      areas = add_area m.areas area;
    })

-- What a process is created with, and its `peinfo`.
pub record Program : Type 0 where
  pub stack_reserve : ℕ
  pub stack_commit : ℕ
  pub stack_top : ℕ
  pub entry : ℕ
  pub room : ℕ
  pub base : ℕ
  pub idata : ℕ

-- A process that is started; a null pointer, with `errno`; a pointer that was never set.
pub data Started : Type 0 where
  started : Program → Machine → Started
  null : ℕ → Started
  uninitialised : Started

abbrev pub enoexec : ℕ
enoexec = 8

unfoldable pub program : NtHeaders → Program
program h = record {
  stack_reserve = u16 (h.stack_reserve / 2 ^ 12);
  stack_commit = u16 (h.stack_commit / 2 ^ 12);
  stack_top = 0x8000000000;
  entry = u64 (h.entry + h.image_base);
  room = h.import_size / 20 + 8;
  base = h.image_base;
  idata = h.import_table;
}

abbrev pub run_headers : ImageFile → ℕ → Machine → Option NtHeaders → Started
run_headers file o m none = null enoexec
run_headers file o m (some h) =
    started (program h) (run_sections file h.image_base h.sections (read_end file o 264) m)

abbrev pub run_from : ImageFile → Machine → Option ℕ → Started
run_from file m none = null enoexec
run_from file m (some o) = run_headers file o m (nt_headers file.bytes o)

-- The areas of the new process are empty.
unfoldable pub run_pe64 : ImageFile → Machine → Started
unfolding seek_lfanew nt_headers run_sections program
run_pe64 file m = run_from file (record m { areas = [] }) (seek_lfanew file)

unfoldable pub run_elf64 : ImageFile → Started
run_elf64 file = null 0

-- `open` failed, or gave a file. A file that starts with neither magic leaves the result unset.
unfoldable pub execute_file_suspend : Option ImageFile → Machine → Started
unfolding run_pe64 run_elf64
execute_file_suspend none m = null 0
execute_file_suspend (some file) m =
    if word file.bytes 0 == 0x5a4d
    then run_pe64 file m
    else if dword file.bytes 0 == 0x464c457f
    then run_elf64 file
    else uninitialised

abbrev pub lib_area : ℕ → ℕ → Pesection → Vmarea
lib_area lin paddr s = record {
  vaddr = lin;
  paddr = paddr;
  pages = s.pages;
  type = 2;
  flag = s.flags;
}

abbrev with_section :
    Pesection → Option (List Pesection × Machine) → Option (List Pesection × Machine)
with_section s none = none
with_section s (some (rest, m)) = some (s ∷ rest, m)

-- The loop of `LoadPedll64` over the `n` sections whose headers stand from `o` on. A section but `.bss` gets
-- kernel pages for its raw data; `none` is a read that runs behind them. The `SharedVmarea` of a shared
-- section is named by its `paddr`.
unfoldable pub load_sections : ImageFile → ℕ → ℕ → Machine → Option (List Pesection × Machine)
unfolding section_header load_section load_contents
load_sections file zero o m = some ([], m)
load_sections file (suc n) o m =
    let s = section_header file.bytes o in
    let next = read_end file o 40 in
    let (lin, tables) = malloc_page4k m.tables (pages4k s.raw_size) in
    elim (load_contents m.mem file next lin s) [
      | none ↦ none
      | some mem ↦ with_section (load_section (kernel_v2p lin) s) (
          load_sections file n next
            (record m { mem = mem; tables = if is_bss s then m.tables else tables }))
    ]

-- A section of a library at `base`, where `VM_LIBIMAGE` is 2. A shared section's `paddr` is that of its
-- `SharedVmarea`, and `frames` gives the physical address in it.
unfoldable pub map_pesection : (ℕ → ℕ) → ℕ → Pesection → Machine → Machine
unfolding map_section page_attr
map_pesection frames base s m =
    let lin = u64 (base + s.voff) in
    let (klin, tables) = malloc_page4k m.tables s.pages in
    if s.shared
    then record m {
      refs = λ x. if x == s.paddr then m.refs x + 1 else m.refs x;
      areas = add_area m.areas (lib_area lin s.paddr s);
      tables = set_mappings m.tables lin (frames s.paddr) s.pages (page_attr s.flags);
    }
    else record m {
      mem = map_section m.mem klin s;
      areas = add_area m.areas (lib_area lin (kernel_v2p klin) s);
      tables = set_mappings tables lin (kernel_v2p klin) s.pages (page_attr s.flags);
    }

unfoldable pub map_pesections : (ℕ → ℕ) → ℕ → List Pesection → Machine → Machine
unfolding map_pesection
map_pesections frames base [] m = m
map_pesections frames base (s ∷ ss) m =
    map_pesections frames base ss (map_pesection frames base s m)

-- The place, and the sections there.
unfoldable pub map_pedll : (ℕ → ℕ) → Actives → ℕ → List Pesection → Machine → Actives × Machine
unfolding place_pedll map_pesections
map_pedll frames actives imgsize ss m =
    let actives' = place_pedll actives imgsize in
    (actives', map_pesections frames (lowest actives') ss m)

-- A section of a driver: its pages are those that were loaded, but for `.bss`, which gets new ones.
unfoldable pub map_driver_section : (ℕ → ℕ) → ℕ → Pesection → Machine → Machine
unfolding page_attr
map_driver_section frames base s m =
    let lin = u64 (base + s.voff) in
    let (fresh, tables) = malloc_page4k m.tables s.pages in
    let klin = if s.paddr == 0 then fresh else kernel_p2v s.paddr in
    let paddr = if s.paddr == 0 then kernel_v2p fresh else s.paddr in
    let before = if s.paddr == 0 then tables else m.tables in
    if s.shared
    then record m {
      refs = λ x. if x == s.paddr then m.refs x + 1 else m.refs x;
      tables = set_mappings m.tables lin (frames s.paddr) s.pages (page_attr s.flags);
    }
    else record m {
      mem = if s.bsssz == 0 then m.mem else memset m.mem (klin + s.size) 0 s.bsssz;
      tables = set_mappings before lin paddr s.pages (page_attr s.flags);
    }

unfoldable pub map_driver : (ℕ → ℕ) → ℕ → List Pesection → Machine → Machine
unfolding map_driver_section
map_driver frames base [] m = m
map_driver frames base (s ∷ ss) m = map_driver frames base ss (map_driver_section frames base s m)
