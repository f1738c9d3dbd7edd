-- ===== src/Exec/Relocation.antt =====
-- The relocation of a driver: `ePeFixRelocation`.
--
-- `table` is the memory of the relocation table, which is not fixed itself, and `mem` that of the image. The loop
-- over the blocks has fuel; `none` is a call that runs out of it.
pub mod Blocks
pub mod Words
use mosix_3d.Prelude.{
  ℕ, zero, suc, ◌+◌, ◌-◌, ◌*◌, ◌/◌, ◌%◌, ◌^◌, ◌&&◌, Bool, true, false, Option, none, some, ltb,
  ◌==◌, if◌then◌else◌, u16, u32, u64,
}
use mosix_3d.Exec.Image.{Bytes, word, dword, qword}
use mosix_3d.Misc.Memory.{Memory}
use mosix_3d.Misc.Memory.Move.{within}

-- Byte `i` of a number.
abbrev pub byte_of : ℕ → ℕ → ℕ
byte_of v i = v / 2 ^ (8 * i) % 2 ^ 8

-- An address of 8 bytes at `lin` whose high 16 bits are clear is moved by `fix`.
unfoldable pub fix_word : ℕ → Memory → ℕ → Memory
fix_word fix mem lin x =
    if within lin 8 x && (qword mem lin / 2 ^ 48 == 0)
    then byte_of (u64 (qword mem lin + fix)) (x - lin)
    else mem x

-- The loop over the `n` entries at `o` of a block for the page `area`; the type 0 ends it.
unfoldable pub fix_entries : Bytes → ℕ → ℕ → ℕ → ℕ → Memory → Memory
unfolding fix_word
fix_entries table fix area zero o mem = mem
fix_entries table fix area (suc n) o mem =
    let offset = word table o in
    let rest =
      fix_entries table fix area n (o + 2) (fix_word fix mem (u64 (area + offset % 2 ^ 12))) in
    if offset / 2 ^ 12 == 0 then mem else rest

-- `cnt`, a `u16`, from the size of a block.
abbrev pub entry_count : ℕ → ℕ
entry_count size = u16 (u32 (size + 2 ^ 32 - 8) / 2)

-- The loop over the blocks from `vra` to `dest`.
unfoldable pub fix_blocks : ℕ → Bytes → ℕ → ℕ → ℕ → ℕ → Memory → Option Memory
unfolding fix_entries
fix_blocks zero table fix base vra dest mem = if ltb vra dest then none else some mem
fix_blocks (suc fuel) table fix base vra dest mem =
    let size = dword table (vra + 4) in
    let area = u64 (base + dword table vra) in
    let fixed = fix_entries table fix area (entry_count size) (vra + 8) mem in
    let rest = fix_blocks fuel table fix base (vra + size) dest fixed in
    if ltb vra dest then rest else some mem

unfoldable pub fix_relocation : ℕ → Bytes → ℕ → ℕ → ℕ → ℕ → Memory → Option Memory
unfolding fix_blocks
fix_relocation fuel table fix base relocs relocsz mem =
    fix_blocks fuel table fix base (base + relocs) (base + relocs + relocsz) mem
