-- ===== src/Exec/Section/Mapped.antt =====
-- The contents of a library's section, from the file to the pages of a process.
use mosix_3d.Prelude.{
  le→ltb, sym, some, none, ℕ, ◌+◌, ◌-◌, ◌*◌, ◌^◌, ◌≤◌, ◌<◌, ◌≡◌, ◌≢◌, refl, ap, ◌∙◌, true, false,
  not, ◌&&◌, ltb, leb, ◌==◌, if◌then◌else◌, arith, Bool-cases, inl, inr, u16,
}
use mosix_3d.Misc.Memory.{Memory, memset, memmove}
use mosix_3d.Misc.Memory.Move.{memset_lem, memmove-copied}
use mosix_3d.Mem.Paging.{kernel_p2v}
use mosix_3d.Exec.Image.{ImageFile, SectionHeader, seek_set, read_count}
use mosix_3d.Exec.Section.{
  load_section, load_contents, map_section, pages4k, is_bss, read_into, Pesection,
}
use mosix_3d.Exec.Section.Program.{image_byte}

copied_byte :
    (mem : Memory) (klin i size paddr : ℕ)
    → (if paddr == 0 then mem else memmove mem klin (kernel_p2v paddr) size) (klin + i)
      ≡ (if ltb i size && not (paddr == 0) then mem (kernel_p2v paddr + i) else mem (klin + i))
copied_byte mem klin i size paddr =
    let q : klin + i - klin ≡ i = omega arith in
    elim (Bool-cases (paddr == 0)) [
      | inl e ↦ rw e (ground arith)
      | inr e ↦
          rw e (memmove-copied mem klin (kernel_p2v paddr) size (klin + i) ∙ rw q (ground arith))
    ]

zeroed_byte :
    (m1 : Memory) (klin i size bss : ℕ)
    → (if bss == 0 then m1 else memset m1 (klin + size) 0 bss) (klin + i)
      ≡ (if leb size i && ltb i (size + bss) then 0 else m1 (klin + i))
zeroed_byte m1 klin i size bss = elim (Bool-cases (bss == 0)) [
  | inl e ↦ rw e (ground arith)
  | inr e ↦ rw e (memset_lem m1 (klin + size) 0 bss (klin + i) ∙ ground arith)
]

-- A private section at offset `i` of its pages.
mapped_byte :
    (mem : Memory) (klin i : ℕ) (s : Pesection)
    → map_section mem klin s (klin + i) ≡ (
        if leb s.size i && ltb i (s.size + s.bsssz)
        then 0
        else if ltb i s.size && not (s.paddr == 0)
        then mem (kernel_p2v s.paddr + i)
        else mem (klin + i))
unfolding map_section
mapped_byte mem klin i s =
    let m1 = if s.paddr == 0 then mem else memmove mem klin (kernel_p2v s.paddr) s.size in
    zeroed_byte m1 klin i s.size s.bsssz
    ∙ ap (λ z. if leb s.size i && ltb i (s.size + s.bsssz) then 0 else z)
        (copied_byte mem klin i s.size s.paddr)

-- Which byte it is, for `.bss` and for the others.
bss_byte :
    (vs raw i m k : ℕ)
    → i < vs
    → vs < 2 ^ 16
    → raw ≡ 0
    → (if leb 0 i && ltb i (0 + (if ltb raw vs then u16 (vs - raw) else u16 vs))
        then 0
        else if ltb i 0 && not true
        then m
        else k)
      ≡ 0
bss_byte vs raw i m k l small e = ground arith

data_byte :
    (vs raw phy i m k : ℕ)
    → phy ≢ 0
    → i < vs
    → vs - raw < 2 ^ 16
    → (if leb raw i && ltb i (raw + (if ltb raw vs then u16 (vs - raw) else 0))
        then 0
        else if ltb i raw && not (phy == 0)
        then m
        else k)
      ≡ (if ltb i raw then m else 0)
data_byte vs raw phy i m k nz l small = ground arith

clash : (m : Memory) → none ≢ some m
clash m e = absurd cc

same_some : (m n : Memory) → some m ≡ some n → m ≡ n
same_some m n e = cc

read_byte :
    (mem : Memory) (file : ImageFile) (lin off n raw i : ℕ)
    → off + raw ≤ file.size
    → i < n
    → ltb i raw ≡ true
    → read_into mem lin file off n (lin + i) ≡ file.bytes (off + i)
read_byte mem file lin off n raw i inside l r =
    let q : lin + i - lin ≡ i = omega arith in rw q (ground arith)

-- What is in the kernel pages of a section whose raw data lies in the file.
loaded_byte :
    (mem m : Memory) (file : ImageFile) (off lin i : ℕ) (s : SectionHeader)
    → load_contents mem file off lin s ≡ some m
    → is_bss s ≡ false
    → s.raw_pointer + s.raw_size ≤ file.size
    → i < s.virtual_size
    → (if ltb i s.raw_size then m (lin + i) else 0)
      ≡ (if ltb i s.raw_size then file.bytes (s.raw_pointer + i) else 0)
unfolding load_contents
loaded_byte mem m file off lin i s e b inside l =
    let o = seek_set file off s.raw_pointer in
    let room = pages4k s.raw_size * 2 ^ 12 in
    let read = λ (o : ℕ). read_into mem lin file o s.virtual_size in
    let found : o ≡ s.raw_pointer = rw (le→ltb file.size s.raw_pointer (omega arith)) refl in
    let case : (if ltb room (read_count file o s.virtual_size) then none else some (read o))
        ≡ some m =
      sym (rw b refl) ∙ e in
    elim (Bool-cases (ltb i s.raw_size)) [
      | inl r ↦ rw r (elim (Bool-cases (ltb room (read_count file o s.virtual_size))) [
        | inl t ↦ elim (clash m (sym (ap (λ z. if z then none else some (read o)) t) ∙ case)) [ ]
        | inr t ↦
            let same : read o ≡ m =
              same_some (read o) m (sym (ap (λ z. if z then none else some (read o)) t) ∙ case) in
            ap (λ f. f (lin + i)) (sym same)
            ∙ ap (λ o. read o (lin + i)) found
            ∙ read_byte mem file lin s.raw_pointer s.virtual_size s.raw_size i inside l r
      ])
      | inr r ↦ rw r refl
    ]

-- A section that is not shared and whose raw data lies in the file, loaded into kernel pages at `phy` that
-- hold what is read, and then mapped into pages at `klin`, has there up to its size the raw data followed
-- by zeros, or zeros only where it is `.bss`, if its zeros are fewer than 2^16.
pub map_section-load :
    (mem loaded : Memory) (file : ImageFile) (off phy klin i : ℕ) (s : SectionHeader)
    → load_contents mem file off (kernel_p2v phy) s ≡ some loaded
    → s.raw_pointer + s.raw_size ≤ file.size
    → phy ≢ 0
    → i < s.virtual_size
    → s.virtual_size - s.raw_size < 2 ^ 16
    → (is_bss s ≡ true → s.raw_size ≡ 0)
    → map_section loaded klin (load_section phy s) (klin + i) ≡ image_byte file s i
unfolding load_section image_byte
map_section-load mem loaded file off phy klin i s e inside nz l small raw =
    mapped_byte loaded klin i (load_section phy s) ∙ (elim (Bool-cases (is_bss s)) [
      | inl b ↦ rw b (
          bss_byte s.virtual_size s.raw_size i (loaded (kernel_p2v 0 + i)) (loaded (klin + i)) l
            (omega (arith, raw b)) (raw b))
      | inr b ↦ rw b (
          data_byte s.virtual_size s.raw_size phy i (loaded (kernel_p2v phy + i))
            (loaded (klin + i)) nz l small
          ∙ loaded_byte mem loaded file off (kernel_p2v phy) i s e b inside l)
    ])
