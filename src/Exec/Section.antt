-- ===== src/Exec/Section.antt =====
-- The sections of an image: `ePeConvertFlags`, the loop of `RunPe64` over the sections of a program, the loop
-- of `LoadPedll64`, and that of `MapPedll`.
--
-- Memory is addressed by the kernel's linear addresses. The address that `malloc_page4k` returns is an
-- argument; its pages are not cleared.
pub mod Program
pub mod Mapped
use mosix_3d.Prelude.{
  ℕ, zero, suc, ◌+◌, ◌-◌, ◌*◌, ◌/◌, ◌%◌, ◌^◌, Bool, true, false, not, ◌&&◌, Option, none, some, ltb,
  ◌==◌, if◌then◌else◌, u16, u32, u64, sub64,
}
use mosix_3d.Misc.Memory.{Memory, memset, memmove}
use mosix_3d.Misc.Memory.Move.{within}
use mosix_3d.Mem.Paging.{kernel_p2v}
use mosix_3d.Exec.Image.{ImageFile, SectionHeader, seek_set, read_count}

abbrev pub has_bit : ℕ → ℕ → Bool
has_bit flags k = flags / 2 ^ k % 2 == 1

-- `VM_READ`, `VM_WRITE` and `VM_EXECUTE` are 1, 2 and 4.
unfoldable pub convert_flags : ℕ → ℕ
convert_flags sch =
    (if has_bit sch 30 then 1 else 0)
    + ((if has_bit sch 31 then 2 else 0) + (if has_bit sch 29 then 4 else 0))

-- `IMAGE_SCN_BSS`.
abbrev pub is_bss : SectionHeader → Bool
is_bss s = has_bit s.characteristics 7

-- `pages4k` in a `u32`.
abbrev pub pages4k : ℕ → ℕ
pages4k n = u32 ((n + 0xfff) / 2 ^ 12)

-- `read` of `n` bytes at `off`.
abbrev pub read_into : Memory → ℕ → ImageFile → ℕ → ℕ → Memory
read_into mem lin file off n x =
    if within lin (read_count file off n) x then file.bytes (off + (x - lin)) else mem x

-- The contents of a section of a program, at `lin`; `off` is the offset of the file before the seek.
unfoldable pub run_section : Memory → ImageFile → ℕ → ℕ → SectionHeader → Memory
run_section mem file off lin s =
    let m1 =
      if is_bss s
      then memset mem lin 0 s.virtual_size
      else read_into mem lin file (seek_set file off s.raw_pointer) s.virtual_size in
    if ltb s.raw_size s.virtual_size
    then memset m1 (lin + s.raw_size) 0 (s.virtual_size - s.raw_size)
    else m1

-- A section of a library. `shared` tells whether `paddr` is that of a `SharedVmarea`; then `flags` has
-- `VM_SHARE` too.
pub record Pesection : Type 0 where
  pub paddr : ℕ
  pub voff : ℕ
  pub pages : ℕ
  pub size : ℕ
  pub flags : ℕ
  pub shared : Bool
  pub bsssz : ℕ

-- `bsssz` is a `u16`.
unfoldable pub load_section : ℕ → SectionHeader → Pesection
unfolding convert_flags
load_section phy s =
    let bsssz = if is_bss s then u16 s.virtual_size else 0 in
    record {
      paddr = if is_bss s then 0 else phy;
      voff = s.virtual_address;
      pages = pages4k s.virtual_size;
      size = if is_bss s then 0 else s.raw_size;
      flags = convert_flags s.characteristics;
      shared = not (has_bit s.characteristics 31);
      bsssz = if ltb s.raw_size s.virtual_size then u16 (s.virtual_size - s.raw_size) else bsssz;
    }

-- The contents read for a library's section into pages for its raw data; `none` where what is read runs
-- behind these pages.
unfoldable pub load_contents : Memory → ImageFile → ℕ → ℕ → SectionHeader → Option Memory
load_contents mem file off lin s =
    let o = seek_set file off s.raw_pointer in
    if is_bss s
    then some mem
    else if ltb (pages4k s.raw_size * 2 ^ 12) (read_count file o s.virtual_size)
    then none
    else some (read_into mem lin file o s.virtual_size)

-- A section that is not shared gets pages of its own at `klin`: the copy of the contents, and zeros.
unfoldable pub map_section : Memory → ℕ → Pesection → Memory
map_section mem klin s =
    let m1 = if s.paddr == 0 then mem else memmove mem klin (kernel_p2v s.paddr) s.size in
    if s.bsssz == 0 then m1 else memset m1 (klin + s.size) 0 s.bsssz

-- `PGATTR_READONLY` and `PGATTR_NOEXEC` are 8 and 16.
unfoldable pub page_attr : ℕ → ℕ
page_attr flags = (if has_bit flags 1 then 0 else 8) + (if has_bit flags 2 then 0 else 16)
