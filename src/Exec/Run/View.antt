-- ===== src/Exec/Run/View.antt =====
-- What a process reads in a library's section that is mapped.
use mosix_3d.Prelude.{
  sym, ◌≤◌, ℕ, ◌+◌, ◌-◌, ◌*◌, ◌/◌, ◌%◌, ◌^◌, ◌<◌, ◌≡◌, ◌≢◌, ap, ◌∙◌, true, false, Option, none,
  some, arith, u64, refl,
}
use mosix_3d.Misc.Memory.{Memory}
use mosix_3d.Mem.Pages.{alloc_phy}
use mosix_3d.Mem.Paging.{
  Tables, get_index, kernel_p2v, kernel_v2p, set_mappings, malloc_page4k, malloc_page4k_attr,
}
use mosix_3d.Mem.Paging.Translate.{translate, IsOutside}
use mosix_3d.Mem.Paging.Range.{translate-set_mappings, mapped_in, IsClear}
use mosix_3d.Exec.Image.{ImageFile, SectionHeader}
use mosix_3d.Exec.Section.{
  load_section, load_contents, map_section, page_attr, is_bss, pages4k, Pesection,
}
use mosix_3d.Exec.Section.Program.{image_byte}
use mosix_3d.Exec.Section.Mapped.{map_section-load}
use mosix_3d.Exec.Run.{Machine, map_pesection}

-- The physical memory is seen through the window of the kernel.
abbrev pub read_frame : Memory → ℕ → Option ℕ → Option ℕ
read_frame mem x none = none
read_frame mem x (some f) = some (mem (kernel_p2v (f * 2 ^ 12 + x % 2 ^ 12)))

-- The byte that a process reads at an address; none where the address is not mapped.
unfoldable pub process_byte : Machine → ℕ → Option ℕ
unfolding translate
process_byte m x = read_frame m.mem x (translate m.tables.words x)

v2p-p2v : (p : ℕ) → p < 2 ^ 38 → kernel_v2p (kernel_p2v p) ≡ p
v2p-p2v p l = omega arith

same_byte :
    (lin p i : ℕ)
    → lin % 2 ^ 12 ≡ 0
    → p % 2 ^ 12 ≡ 0
    → lin + i < 2 ^ 48
    → p + i < 2 ^ 38
    → kernel_p2v (
        (p / 2 ^ 12 + (get_index (lin + i) - get_index lin)) % 2 ^ 40 * 2 ^ 12 + (lin + i) % 2 ^ 12)
      ≡ kernel_p2v p + i
same_byte lin p i a b l m = omega arith

-- A byte of a range that was just mapped.
read_mapped :
    (mem : Memory) (t : Tables) (lin p n attr i : ℕ)
    → lin % 2 ^ 12 ≡ 0
    → p % 2 ^ 12 ≡ 0
    → i < n * 2 ^ 12
    → lin + i < 2 ^ 48
    → p + i < 2 ^ 38
    → IsClear (get_index lin) n
    → IsOutside (lin + i)
    → (set_mappings t lin p n attr).lost ≡ false
    → read_frame mem (lin + i) (translate (set_mappings t lin p n attr).words (lin + i))
      ≡ some (mem (kernel_p2v p + i))
read_mapped mem t lin p n attr i a b l w v clear ob z =
    ap (read_frame mem (lin + i)) (
      translate-set_mappings t lin p n attr (lin + i) (omega arith) (omega arith) clear ob z
      ∙ mapped_in (get_index lin) n (p / 2 ^ 12) (get_index (lin + i)) (translate t.words (lin + i))
          (omega arith) (omega arith))
    ∙ ap (λ z. some (mem z)) (same_byte lin p i a b w v)

-- A private section in new pages.
private_byte :
    (frames : ℕ → ℕ) (base i : ℕ) (s : Pesection) (m : Machine)
    → let lin = u64 (base + s.voff) in
      let p = (alloc_phy m.tables.free s.pages).0 in
      s.shared ≡ false
      → lin % 2 ^ 12 ≡ 0
      → p % 2 ^ 12 ≡ 0
      → i < s.pages * 2 ^ 12
      → lin + i < 2 ^ 48
      → p + i < 2 ^ 38
      → IsClear (get_index lin) s.pages
      → IsOutside (lin + i)
      → (map_pesection frames base s m).tables.lost ≡ false
      → process_byte (map_pesection frames base s m) (lin + i)
        ≡ some (map_section m.mem (kernel_p2v p) s (kernel_p2v p + i))
unfolding process_byte map_pesection malloc_page4k malloc_page4k_attr
private_byte frames base i s m sh a b l w v clear ob z =
    let lin = u64 (base + s.voff) in
    let p = (alloc_phy m.tables.free s.pages).0 in
    let k = kernel_p2v p in
    let t =
      set_mappings (record m.tables { free = (alloc_phy m.tables.free s.pages).1 }) k p s.pages 0 in
    let mem = map_section m.mem k s in
    let q = v2p-p2v p (omega arith) in
    let end : (map_pesection frames base s m).tables
        ≡ set_mappings t lin (kernel_v2p k) s.pages (page_attr s.flags) =
      rw sh refl in
    let new : (map_pesection frames base s m).mem ≡ mem = rw sh refl in
    let whole : (map_pesection frames base s m).tables
        ≡ set_mappings t lin p s.pages (page_attr s.flags) =
      end ∙ ap (λ q. set_mappings t lin q s.pages (page_attr s.flags)) q in
    ap (λ t. read_frame (map_pesection frames base s m).mem (lin + i) (translate t.words (lin + i)))
      whole
    ∙ ap
        (λ mem.
          read_frame mem (lin + i)
            (translate (set_mappings t lin p s.pages (page_attr s.flags)).words (lin + i)))
        new
    ∙ read_mapped mem t lin p s.pages (page_attr s.flags) i a b l w v clear ob
        (sym (ap (λ t. t.lost) whole) ∙ z)

-- A private section of a library whose raw data lies in the file, loaded into kernel pages at `phy` that
-- hold what is read, and then mapped into a process by `map_pesection`: the process reads there the raw
-- data followed by zeros. There are pages for the section and no table is lost; the zeros are fewer than
-- 2^16; the library lies on a page, below 2^48 and outside the windows, and its new pages lie below 2^38.
pub map_pesection-load :
    (frames : ℕ → ℕ) (base phy off i : ℕ) (file : ImageFile) (s : SectionHeader) (m : Machine)
    (loaded : Memory)
    → let lin = u64 (base + s.virtual_address) in
      let p = (alloc_phy m.tables.free (pages4k s.virtual_size)).0 in
      load_contents m.mem file off (kernel_p2v phy) s ≡ some loaded
      → s.raw_pointer + s.raw_size ≤ file.size
      → phy ≢ 0
      → (load_section phy s).shared ≡ false
      → i < s.virtual_size
      → s.virtual_size < 2 ^ 31
      → s.virtual_size - s.raw_size < 2 ^ 16
      → (is_bss s ≡ true → s.raw_size ≡ 0)
      → lin % 2 ^ 12 ≡ 0
      → p % 2 ^ 12 ≡ 0
      → p ≢ 0
      → lin + i < 2 ^ 48
      → p + i < 2 ^ 38
      → IsClear (get_index lin) (pages4k s.virtual_size)
      → IsOutside (lin + i)
      → (map_pesection frames base (load_section phy s) (record m { mem = loaded })).tables.lost
        ≡ false
      → process_byte
          (map_pesection frames base (load_section phy s) (record m { mem = loaded }))
          (lin + i)
        ≡ some (image_byte file s i)
unfolding load_section
map_pesection-load frames base phy off i file s m loaded e inside nz sh l big small raw a b
      some_page w v clear ob z =
    let p = (alloc_phy m.tables.free (pages4k s.virtual_size)).0 in
    private_byte frames base i (load_section phy s) (record m { mem = loaded }) sh a b (omega arith)
      w v clear ob z
    ∙ ap some
        (map_section-load m.mem loaded file off phy (kernel_p2v p) i s e inside nz l small raw)
