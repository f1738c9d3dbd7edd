-- ===== src/Exec/Tests.antt =====
-- Runs of the loader on small images, and the theorems at them.
use mosix_3d.Prelude.{
  ℕ, ◌+◌, ◌-◌, ◌<◌, ◌%◌, ◌^◌, ◌≡◌, refl, not, ◌&&◌, List, [], ◌∷◌, none, some, ◌==◌, if◌then◌else◌,
  u64, arith, inl, false,
}
use mosix_3d.Misc.Text.{Text, strcmp}
use mosix_3d.Misc.Memory.{Memory}
use mosix_3d.Misc.Memory.Move.{within}
use mosix_3d.Mem.Freelist.{flist_alloc}
use mosix_3d.Mem.Pages.{alloc_phy}
use mosix_3d.Mem.Paging.{
  kernel_p2v, malloc_page4k, malloc_page4k_attr, set_mappings, set_mapping_entry, set_mapping_route,
}
use mosix_3d.Exec.Image.{Bytes, ImageFile, SectionHeader, qword}
use mosix_3d.Exec.Section.{convert_flags, run_section, load_section, load_contents, read_into}
use mosix_3d.Exec.Section.Program.{image_byte, run_section_lem}
use mosix_3d.Exec.Library.{Actives, lowest}
use mosix_3d.Exec.Library.Place.{IsStacked}
use mosix_3d.Exec.Export.{proc_by_ord, proc_by_name}
use mosix_3d.Exec.Relocation.{fix_relocation}
use mosix_3d.Exec.Relocation.Words.{IsListed, IsFree, IsApart, AreApart, moved}
use mosix_3d.Exec.Relocation.Blocks.{Block, HasEntries, HasBlocks, addresses, fix_relocation_lem}
use mosix_3d.Exec.Run.{Machine, execute_file_suspend, map_pesection, enoexec, null, uninitialised}
use mosix_3d.Exec.Run.Errors.{
  is_started, is_unset, error, is_dos, is_pe, is_elf, execute_file_suspend_errors,
}
use mosix_3d.Exec.Run.View.{process_byte, map_pesection-load}

abbrev bytes : List ℕ → Bytes
bytes [] o = 0
bytes (b ∷ bs) o = if o == 0 then b else bytes bs (o - 1)

-- The magic "MZ", and no PE signature.
abbrev dos_file : ImageFile
dos_file = record { bytes = bytes (0x4d ∷ 0x5a ∷ []); size = 2 }

abbrev empty_file : ImageFile
empty_file = record { bytes = bytes []; size = 0 }

abbrev machine : Machine
machine = record {
  mem = λ a. a % 256;
  tables = record { words = λ a. 0; free = record { pos = 0x1000; size = 64 } ∷ []; lost = false };
  areas = [];
  refs = λ x. 0;
}

refuses : execute_file_suspend (some dos_file) machine ≡ null 8
unfolding execute_file_suspend
refuses = refl

never_set : execute_file_suspend (some empty_file) machine ≡ uninitialised
unfolding execute_file_suspend
never_set = refl

execute_file_suspend_errors_example :
    let r = execute_file_suspend (some dos_file) machine in
    (is_started r ≡ (is_dos dos_file && is_pe dos_file))
    × (is_unset r ≡ (not (is_dos dos_file) && not (is_elf dos_file)))
    × (error r ≡ (
        if is_dos dos_file
        then (if is_pe dos_file then none else some enoexec)
        else (if is_elf dos_file then some 0 else none)))
execute_file_suspend_errors_example = execute_file_suspend_errors dos_file machine

-- Three bytes of data and two zeros, readable and writable.
abbrev data_section : SectionHeader
data_section = record {
  virtual_size = 5;
  virtual_address = 0x1000;
  raw_size = 3;
  raw_pointer = 1;
  characteristics = 0xc0000000;
}

abbrev ramp_file : ImageFile
ramp_file = record { bytes = λ o. o % 256; size = 9 }

flags_of_data : convert_flags 0xc0000000 ≡ 3
unfolding convert_flags
flags_of_data = refl

run_section_lem_example : run_section machine.mem ramp_file 0 0x5000 data_section 0x5004 ≡ (
    if within 0x5000 5 0x5004
    then image_byte ramp_file data_section (0x5004 - 0x5000)
    else machine.mem 0x5004)
run_section_lem_example =
    run_section_lem machine.mem ramp_file 0 0x5000 data_section 0x5004 (omega arith)

-- A section whose raw data fills one page of two.
abbrev long_section : SectionHeader
long_section = record data_section { virtual_size = 0x1800 }

-- The section as it is read into kernel pages.
abbrev data_loaded : Memory
data_loaded = read_into machine.mem (kernel_p2v 0x2000) ramp_file 1 5

data_loaded_lem :
    load_contents machine.mem ramp_file 0 (kernel_p2v 0x2000) data_section ≡ some data_loaded
unfolding load_contents
data_loaded_lem = refl

map_pesection-load_example :
    process_byte
      (map_pesection
        (λ p. p)
        0x7fff00000000
        (load_section 0x2000 data_section)
        (record machine { mem = data_loaded }))
      (u64 (0x7fff00000000 + 0x1000) + 2)
    ≡ some (image_byte ramp_file data_section 2)
unfolding alloc_phy flist_alloc load_section map_pesection malloc_page4k malloc_page4k_attr
    set_mappings set_mapping_entry set_mapping_route
map_pesection-load_example =
    map_pesection-load (λ p. p) 0x7fff00000000 0x2000 0 2 ramp_file data_section machine data_loaded
      data_loaded_lem (omega arith) (omega arith) refl (omega arith) (omega arith) (omega arith)
      (λ e. ground arith) refl refl (omega arith) (omega arith) (omega arith)
      (omega arith, inl (omega arith)) (omega arith) refl

-- Two libraries of a process.
abbrev two : Actives
two =
    record { base = 0x7ffffffd0000; size = 0x10000 }
    ∷ record { base = 0x7ffffffe0000; size = 0x20000 }
    ∷ []

two-IsStacked : IsStacked two
unfolding IsStacked lowest
two-IsStacked = (omega arith, (omega arith, tt))

-- One block, at 0x40, for the page 0x1000, with two entries and the end.
abbrev relocations : Bytes
relocations a = bytes (0 ∷ 16 ∷ 0 ∷ 0 ∷ 14 ∷ 0 ∷ 0 ∷ 0 ∷ 8 ∷ 160 ∷ 24 ∷ 160 ∷ 0 ∷ 0 ∷ []) (a - 0x40)

abbrev block : Block
block = record { page = 0x1000; size = 14; entries = 0xa008 ∷ 0xa018 ∷ [] }

-- The word at 0x1008 is a low address, the one at 0x1018 is not.
abbrev image : Memory
image x = if x == 0x1008 then 0x23 else if x == 0x1009 then 1 else if x == 0x101f then 0x10 else 0

relocations-HasBlocks : HasBlocks relocations (0 + 0x40) (0 + 0x40 + 14) (block ∷ [])
unfolding HasBlocks HasEntries
relocations-HasBlocks = (omega arith, refl, refl, (refl, refl, (refl, refl, refl)), omega arith)

fix_relocation_lem_example :
    (after : Memory) × (fix_relocation 1 relocations 0x300000 0 0x40 14 image ≡ some after)
    × ((x : ℕ)
        → IsListed x (addresses 0 (block ∷ []))
        → qword image x < 2 ^ 64
        → qword after x ≡ moved 0x300000 (qword image x))
    × ((x : ℕ) → IsFree x (addresses 0 (block ∷ [])) → after x ≡ image x)
unfolding AreApart IsApart
fix_relocation_lem_example =
    fix_relocation_lem 1 relocations 0x300000 0 0x40 14 image (block ∷ []) relocations-HasBlocks
      (omega arith) ((inl (omega arith), tt), (tt, tt))

-- A library at 0x100 that exports one name, at 0x90 behind its base, of ordinal 1.
abbrev exporting : Bytes
exporting a =
    if a == 0x114
    then 2
    else if a == 0x118
    then 1
    else if a == 0x11c
    then 0x40
    else if a == 0x120
    then 0x60
    else if a == 0x124
    then 0x70
    else if a == 0x144
    then 0x80
    else if a == 0x160
    then 0x90
    else if a == 0x170
    then 1
    else 0

abbrev names : ℕ → Text
names a = if a == 0x190 then b'f' ∷ [] else []

finds_by_name : proc_by_name exporting names 0x100 0 (b'f' ∷ []) ≡ 0x180
unfolding proc_by_name strcmp
finds_by_name = refl

-- There are two functions, and 2 is accepted as the number of one.
accepts_count : proc_by_ord exporting 0x100 0 2 ≡ 0x100
unfolding proc_by_ord
accepts_count = refl
