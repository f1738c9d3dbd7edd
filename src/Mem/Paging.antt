-- ===== src/Mem/Paging.antt =====
-- The page tables, kernel/mem/vmem.c with kernel/include/vmem.h: the entries seen through the windows of the
-- self-reference, routes and mappings, and the pages of 4 KB that are taken with their mapping.
--
-- The memory is the function from addresses to the 64-bit words that the windows show. A page that
-- `alloc_phy` returns is taken not to be a table already. The four kinds of entries have their fields at
-- the same bits. `invlpg` has no model, since no translation is cached here.
pub mod Entry
pub mod Translate
pub mod Route
pub mod Mapping
pub mod Range
pub mod Window
mod Tests
use Prim.Native.Nat.{bit_and, bit_or}
use mosix_3d.Prelude.{
  ℕ, zero, suc, ◌+◌, ◌-◌, ◌*◌, ◌/◌, ◌%◌, ◌^◌, Bool, true, false, ◌==◌, ltb, not, if◌then◌else◌, u64,
  sub64, Option, none, some,
}
use mosix_3d.Mem.Freelist.{Extents}
use mosix_3d.Mem.Pages.{alloc_phy, free_phy, page_size}

abbrev pub self_ref : ℕ
self_ref = 0xffffff0000000000

abbrev pub self_ref2 : ℕ
self_ref2 = 0xffffff7f80000000

abbrev pub self_ref3 : ℕ
self_ref3 = 0xffffff7fbfc00000

abbrev pub self_ref4 : ℕ
self_ref4 = 0xffffff7fbfdfe000

abbrev pub get_index : ℕ → ℕ
get_index a = a / 2 ^ 12 % 2 ^ 36

-- The indices and the offset, joined to an address.
unfoldable pub make_vaddr : ℕ → ℕ → ℕ → ℕ → ℕ → ℕ
make_vaddr pml4o pdpto pdo pto offset =
    let addr = if ltb 0xff pml4o then 0xffff else 0 in
    let addr1 = bit_or (u64 (addr * 2 ^ 16)) pml4o in
    let addr2 = bit_or (u64 (addr1 * 2 ^ 9)) pdpto in
    let addr3 = bit_or (u64 (addr2 * 2 ^ 9)) pdo in
    let addr4 = bit_or (u64 (addr3 * 2 ^ 9)) pto in bit_or (u64 (addr4 * 2 ^ 9)) offset

abbrev pub get_mapping_pte : ℕ → ℕ
get_mapping_pte addr = self_ref + get_index addr * 8

abbrev pub get_mapping_pde : ℕ → ℕ
get_mapping_pde addr = self_ref2 + get_index addr / 2 ^ 9 * 8

abbrev pub get_mapping_pdpte : ℕ → ℕ
get_mapping_pdpte addr = self_ref3 + get_index addr / 2 ^ 18 * 8

abbrev pub get_mapping_pml4e : ℕ → ℕ
get_mapping_pml4e addr = self_ref4 + get_index addr / 2 ^ 27 * 8

-- The memory behind the windows, and the free physical pages. `lost` is set by a table that could not be
-- allocated: the code goes on with frame 0 for it, and then `words` no longer describes the memory.
pub record Tables : Type 0 where
  pub words : ℕ → ℕ
  pub free : Extents
  pub lost : Bool

abbrev pub has_attr : ℕ → ℕ → Bool
has_attr attr m = not (bit_and attr m == 0)

-- An entry that is present: bit 0; bits 1 to 4 and 63 come from the attributes, bits 12 to 51 are the frame.
unfoldable pub entry : ℕ → ℕ → ℕ
entry addr attr =
    1
    + ((if has_attr attr 8 then 0 else 2)
        + ((if has_attr attr 1 then 4 else 0)
            + ((if has_attr attr 4 then 8 else 0)
                + ((if has_attr attr 2 then 16 else 0)
                    + (addr / 2 ^ 12 % 2 ^ 40 * 2 ^ 12
                        + (if has_attr attr 16 then 2 ^ 63 else 0))))))

abbrev pub present : ℕ → Bool
present e = e % 2 == 1

-- The field `addr`, and the physical address of the page (`get_page_phy`).
abbrev pub frame : ℕ → ℕ
frame e = e / 2 ^ 12 % 2 ^ 40

abbrev pub store_word : (ℕ → ℕ) → ℕ → ℕ → ℕ → ℕ
store_word words p v x = if x == p then v else words x

unfoldable pub set_pte : (ℕ → ℕ) → ℕ → ℕ → ℕ → ℕ → ℕ
unfolding entry
set_pte words pte addr attr = store_word words pte (entry addr attr)

unfoldable pub set_pde : (ℕ → ℕ) → ℕ → ℕ → ℕ → ℕ → ℕ
unfolding entry
set_pde words pde addr attr = store_word words pde (entry addr attr)

unfoldable pub set_pdpte : (ℕ → ℕ) → ℕ → ℕ → ℕ → ℕ → ℕ
unfolding entry
set_pdpte words pdpte addr attr = store_word words pdpte (entry addr attr)

unfoldable pub set_pml4e : (ℕ → ℕ) → ℕ → ℕ → ℕ → ℕ → ℕ
unfolding entry
set_pml4e words pml4e addr attr = store_word words pml4e (entry addr attr)

unfoldable pub get_mapped_phy : (ℕ → ℕ) → ℕ → ℕ
get_mapped_phy words addr = frame (words (get_mapping_pte addr)) * 2 ^ 12

-- The field `addr` alone is written.
unfoldable pub set_mapped_phy : (ℕ → ℕ) → ℕ → ℕ → ℕ → ℕ
set_mapped_phy words addr phy =
    let e = words (get_mapping_pte addr) in
    store_word words (get_mapping_pte addr) (e - frame e * 2 ^ 12 + phy / 2 ^ 12 % 2 ^ 40 * 2 ^ 12)

-- `memset` of the page in which `p` lies.
abbrev pub zero_page : (ℕ → ℕ) → ℕ → ℕ → ℕ
zero_page words p x = if x / 2 ^ 12 == p / 2 ^ 12 then 0 else words x

-- A level of the route: an entry that is not present gets a new table, which is then cleared. Address 0 is a
-- failed allocation.
unfoldable pub ensure : ((ℕ → ℕ) → ℕ → ℕ → ℕ → ℕ → ℕ) → ℕ → ℕ → Tables → Tables
ensure set e below t =
    let (phy, free) = alloc_phy t.free 1 in
    if present (t.words e)
    then t
    else if phy == 0
    then record t { lost = true }
    else record t { words = zero_page (set t.words e phy 1) below; free = free }

unfoldable pub set_mapping_route : Tables → ℕ → Tables
unfolding ensure set_pml4e set_pdpte set_pde
set_mapping_route t addr = ensure set_pde (get_mapping_pde addr) (get_mapping_pte addr) (
    ensure set_pdpte (get_mapping_pdpte addr) (get_mapping_pde addr)
      (ensure set_pml4e (get_mapping_pml4e addr) (get_mapping_pdpte addr) t))

unfoldable pub set_mapping_entry : Tables → ℕ → ℕ → ℕ → Tables
unfolding set_pte
set_mapping_entry t addr phy attr = record t {
  words = set_pte t.words (get_mapping_pte addr) phy attr;
}

unfoldable pub set_mapping : Tables → ℕ → ℕ → ℕ → Tables
unfolding set_mapping_entry set_mapping_route
set_mapping t addr phy attr = set_mapping_entry (set_mapping_route t addr) addr phy attr

unfoldable pub clear_mapping_entry : Tables → ℕ → Tables
clear_mapping_entry t addr =
    let p = get_mapping_pte addr in
    record t { words = store_word t.words p (t.words p - t.words p % 2) }

-- The loop of `set_mappings`, of `n` turns.
unfoldable pub map_pages : ℕ → ℕ → Tables → ℕ → ℕ → ℕ → Tables
map_pages zero linidx t addr phy attr = t
map_pages (suc n) linidx t addr phy attr =
    let t' = if addr / 2 ^ 12 == linidx then t else set_mapping_route t addr in
    map_pages n linidx (set_mapping_entry t' addr phy attr) (u64 (addr + page_size))
      (u64 (phy + page_size)) attr

unfoldable pub set_mappings : Tables → ℕ → ℕ → ℕ → ℕ → Tables
unfolding map_pages
set_mappings t addr phy size attr =
    map_pages size (addr / 2 ^ 12) (set_mapping_route t addr) addr phy attr

abbrev pub kernel_base : ℕ
kernel_base = 0xffffff8000000000

abbrev pub kernel_p2v : ℕ → ℕ
kernel_p2v p = u64 (kernel_base + 0x300000 + p)

abbrev pub kernel_v2p : ℕ → ℕ
kernel_v2p v = sub64 (sub64 v 0x300000) kernel_base

unfoldable pub malloc_page4k_attr : Tables → ℕ → ℕ → ℕ × Tables
unfolding set_mappings
malloc_page4k_attr t pages attr =
    let (phy, free) = alloc_phy t.free pages in
    let lin = kernel_p2v phy in (lin, set_mappings (record t { free = free }) lin phy pages attr)

unfoldable pub malloc_page4k : Tables → ℕ → ℕ × Tables
unfolding malloc_page4k_attr
malloc_page4k t pages = malloc_page4k_attr t pages 0

unfoldable pub free_page4k : Tables → ℕ → ℕ → Tables
free_page4k t lin pages = record t { free = free_phy t.free (kernel_v2p lin) pages }
