-- ===== src/Exec/Relocation/Blocks.antt =====
-- The relocation table as a list of blocks, and what `fix_relocation` makes of it.
use mosix_3d.Prelude.{
  ℕ, zero, suc, ◌+◌, ◌/◌, ◌%◌, ◌^◌, ◌≤◌, ◌<◌, ◌≡◌, refl, ap, ◌∙◌, sym, true, false, List, [], ◌∷◌,
  ◌++◌, length, some, lt→ltb, le→ltb, ◌==◌, u64, arith,
}
use mosix_3d.Exec.Image.{Bytes, word, dword, qword}
use mosix_3d.Misc.Memory.{Memory}
use mosix_3d.Exec.Relocation.{fix_word, fix_entries, fix_blocks, fix_relocation, entry_count}
use mosix_3d.Exec.Relocation.Words.{
  fix_list, AreApart, IsListed, IsFree, moved, fix_list-moved, fix_list-free,
}

-- A block: its page, its size, and its entries up to one of the type 0.
pub record Block : Type 0 where
  pub page : ℕ
  pub size : ℕ
  pub entries : List ℕ

-- The `n` entries at `o` of the table are these, and then nothing or an entry of the type 0.
unfoldable pub HasEntries : Bytes → ℕ → ℕ → List ℕ → Type 0
HasEntries table o zero [] = Unit {0}
HasEntries table o zero (x ∷ xs) = 0 ≡ suc x
HasEntries table o (suc n) [] = (word table o / 2 ^ 12 == 0) ≡ true
HasEntries table o (suc n) (x ∷ xs) =
    (word table o ≡ x) × ((word table o / 2 ^ 12 == 0) ≡ false) × HasEntries table (o + 2) n xs

-- The blocks from `vra` on fill the table up to `dest`.
unfoldable pub HasBlocks : Bytes → ℕ → ℕ → List Block → Type 0
unfolding HasEntries
HasBlocks table vra dest [] = dest ≤ vra
HasBlocks table vra dest (b ∷ bs) =
    (vra < dest)
    × (dword table vra ≡ b.page)
    × (dword table (vra + 4) ≡ b.size)
    × HasEntries table (vra + 8) (entry_count b.size) b.entries
    × HasBlocks table (vra + b.size) dest bs

-- The addresses that the entries name.
abbrev pub entry_addresses : ℕ → List ℕ → List ℕ
entry_addresses area [] = []
entry_addresses area (x ∷ xs) = u64 (area + x % 2 ^ 12) ∷ entry_addresses area xs

abbrev pub addresses : ℕ → List Block → List ℕ
addresses base [] = []
addresses base (b ∷ bs) = entry_addresses (u64 (base + b.page)) b.entries ++ addresses base bs

entries_fixed :
    (table : Bytes) (fix area n o : ℕ) (mem : Memory) (xs : List ℕ)
    → HasEntries table o n xs
    → fix_entries table fix area n o mem ≡ fix_list fix mem (entry_addresses area xs)
unfolding fix_entries fix_list HasEntries
entries_fixed table fix area zero o mem [] h = refl
entries_fixed table fix area zero o mem (x ∷ xs) h = absurd (omega (arith, h))
entries_fixed table fix area (suc n) o mem [] h = rw h refl
entries_fixed table fix area (suc n) o mem (x ∷ xs) (e, t, h) = rw t (
    entries_fixed table fix area n (o + 2) (fix_word fix mem (u64 (area + word table o % 2 ^ 12)))
      xs h
    ∙ ap (λ z. fix_list fix (fix_word fix mem (u64 (area + z % 2 ^ 12))) (entry_addresses area xs))
        e)

fix_list-append :
    (fix : ℕ) (mem : Memory) (xs ys : List ℕ)
    → fix_list fix mem (xs ++ ys) ≡ fix_list fix (fix_list fix mem xs) ys
unfolding fix_list
fix_list-append fix mem [] ys = refl
fix_list-append fix mem (x ∷ xs) ys = fix_list-append fix (fix_word fix mem x) xs ys

blocks_fixed :
    (fuel : ℕ) (table : Bytes) (fix base vra dest : ℕ) (mem : Memory) (bs : List Block)
    → HasBlocks table vra dest bs
    → length bs ≤ fuel
    → fix_blocks fuel table fix base vra dest mem ≡ some (fix_list fix mem (addresses base bs))
unfolding fix_blocks HasBlocks fix_list
blocks_fixed zero table fix base vra dest mem [] h l = rw (le→ltb vra dest h) refl
blocks_fixed (suc fuel) table fix base vra dest mem [] h l = rw (le→ltb vra dest h) refl
blocks_fixed zero table fix base vra dest mem (b ∷ bs) h l = absurd (omega arith)
blocks_fixed (suc fuel) table fix base vra dest mem (b ∷ bs) (more, ep, es, he, h) l =
    let first = entry_addresses (u64 (base + b.page)) b.entries in
    rw (lt→ltb vra dest more) (
      ap
        (λ z.
          fix_blocks fuel table fix base (vra + z) dest
            (fix_entries table fix (u64 (base + dword table vra)) (entry_count z) (vra + 8) mem))
        es
      ∙ ap
          (λ p.
            fix_blocks fuel table fix base (vra + b.size) dest
              (fix_entries table fix (u64 (base + p)) (entry_count b.size) (vra + 8) mem))
          ep
      ∙ ap (fix_blocks fuel table fix base (vra + b.size) dest) (
          entries_fixed table fix (u64 (base + b.page)) (entry_count b.size) (vra + 8) mem b.entries
            he)
      ∙ blocks_fixed fuel table fix base (vra + b.size) dest (fix_list fix mem first) bs h
          (omega arith)
      ∙ ap some (sym (fix_list-append fix mem first (addresses base bs))))

-- Given a table of blocks outside the image's words, and fuel for each block, the relocation ends. If the words
-- of 8 bytes that the entries name do not overlap, each of them whose high 16 bits are clear is moved by `fix`,
-- the others of them keep their value, and so does every byte that lies in none of them.
pub fix_relocation_lem :
    (fuel : ℕ) (table : Bytes) (fix base relocs relocsz : ℕ) (mem : Memory) (bs : List Block)
    → HasBlocks table (base + relocs) (base + relocs + relocsz) bs
    → length bs ≤ fuel
    → AreApart (addresses base bs)
    → (after : Memory) × (fix_relocation fuel table fix base relocs relocsz mem ≡ some after)
      × ((x : ℕ)
          → IsListed x (addresses base bs)
          → qword mem x < 2 ^ 64
          → qword after x ≡ moved fix (qword mem x))
      × ((x : ℕ) → IsFree x (addresses base bs) → after x ≡ mem x)
unfolding fix_relocation
fix_relocation_lem fuel table fix base relocs relocsz mem bs h l d = (
  fix_list fix mem (addresses base bs),
  blocks_fixed fuel table fix base (base + relocs) (base + relocs + relocsz) mem bs h l,
  λ x i w. fix_list-moved fix mem (addresses base bs) x w d i,
  λ x f. fix_list-free fix mem (addresses base bs) x f,
)
