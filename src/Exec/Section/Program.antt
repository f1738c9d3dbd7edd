-- ===== src/Exec/Section/Program.antt =====
-- The contents of a program's section.
use mosix_3d.Prelude.{
  ◌≤◌, le→ltb, ap, ℕ, ◌+◌, ◌-◌, ◌≡◌, refl, ◌∙◌, not, ◌&&◌, ltb, if◌then◌else◌, arith, Bool-cases,
  inl, inr,
}
use mosix_3d.Misc.Memory.{Memory, memset}
use mosix_3d.Misc.Memory.Move.{within, memset_lem}
use mosix_3d.Exec.Image.{ImageFile, SectionHeader, seek_set}
use mosix_3d.Exec.Section.{run_section, is_bss, read_into}

-- What a section holds at offset `i`: its raw data, and zeros.
unfoldable pub image_byte : ImageFile → SectionHeader → ℕ → ℕ
image_byte file s i =
    if not (is_bss s) && ltb i s.raw_size then file.bytes (s.raw_pointer + i) else 0

-- Zeros behind the raw data, on top of what the section held.
tail_zeroed :
    (m1 mem : Memory) (lin raw vs x : ℕ) (v w : ℕ)
    → m1 x ≡ (if within lin vs x then v else mem x)
    → w ≡ (if ltb (x - lin) raw then v else 0)
    → (if ltb raw vs then memset m1 (lin + raw) 0 (vs - raw) else m1) x
      ≡ (if within lin vs x then w else mem x)
tail_zeroed m1 mem lin raw vs x v w e f = elim (Bool-cases (ltb raw vs)) [
  | inl l ↦ rw l (memset_lem m1 (lin + raw) 0 (vs - raw) x ∙ ground arith)
  | inr l ↦ rw l (ground arith)
]

-- A read of a section whose raw data lies in the file, with the zeros behind them.
read_zeroed :
    (mem : Memory) (file : ImageFile) (off lin raw vs x : ℕ)
    → off + raw ≤ file.size
    → (if ltb raw vs
          then memset (read_into mem lin file off vs) (lin + raw) 0 (vs - raw)
          else read_into mem lin file off vs)
        x
      ≡ (if within lin vs x
          then (if ltb (x - lin) raw then file.bytes (off + (x - lin)) else 0)
          else mem x)
read_zeroed mem file off lin raw vs x inside =
    let v = file.bytes (off + (x - lin)) in
    let m1 = read_into mem lin file off vs in
    elim (Bool-cases (ltb raw vs)) [
      | inl l ↦ rw l (memset_lem m1 (lin + raw) 0 (vs - raw) x ∙ ground arith)
      | inr l ↦ rw l (ground arith)
    ]

-- The pages of a program's section whose raw data lies in the file hold, up to the section's size, the raw
-- data followed by zeros, or zeros only where it is `.bss`; all memory outside the section is as before.
pub run_section_lem :
    (mem : Memory) (file : ImageFile) (off lin : ℕ) (s : SectionHeader) (x : ℕ)
    → s.raw_pointer + s.raw_size ≤ file.size
    → run_section mem file off lin s x
      ≡ (if within lin s.virtual_size x then image_byte file s (x - lin) else mem x)
unfolding run_section image_byte
run_section_lem mem file off lin s x inside =
    let raw = s.raw_size in
    let vs = s.virtual_size in
    let found : seek_set file off s.raw_pointer ≡ s.raw_pointer =
      rw (le→ltb file.size s.raw_pointer (omega arith)) refl in
    elim (Bool-cases (is_bss s)) [
      | inl b ↦ rw b (
          tail_zeroed (memset mem lin 0 vs) mem lin raw vs x 0 0 (memset_lem mem lin 0 vs x)
            (ground arith))
      | inr b ↦ rw b (
          ap
            (λ o.
              (if ltb raw vs
                  then memset (read_into mem lin file o vs) (lin + raw) 0 (vs - raw)
                  else read_into mem lin file o vs)
                x)
            found
          ∙ read_zeroed mem file s.raw_pointer lin raw vs x inside)
    ]
