-- ===== src/Vfs/Archive.antt =====
-- The archive file system, kernel/vfs/initfs.c with kernel/include/initfs.h: the walk over the headers of a tar
-- archive in memory.
--
-- A header takes one sector of 512 bytes, and the archive is a function from sectors to headers. The
-- texts of a header stand without their terminator, which each is taken to have. The loop has fuel; `none` is a walk that runs out of it.
pub mod Octal
pub mod Lookup
mod Tests
use mosix_3d.Prelude.{
  ℕ, zero, suc, ◌+◌, ◌-◌, ◌*◌, ◌/◌, ◌%◌, ◌^◌, Bool, true, false, not, ◌&&◌, ◌||◌, List, [], ◌∷◌,
  ◌++◌, Option, none, some, ◌==◌, if◌then◌else◌, u32, u64, sub64,
}
use mosix_3d.Misc.Text.{strcmp}

-- `ustar` tells whether the bytes of `ustar` are "ustar".
pub record TarMetadata : Type 0 where
  pub name : List ℕ
  pub octal : List ℕ
  pub ustar : Bool
  pub isize : ℕ

-- `ret` in a `u64`: three bits more for each character.
unfoldable pub oct2bin_from : ℕ → List ℕ → ℕ
oct2bin_from ret [] = ret
oct2bin_from ret (c ∷ octa) =
    let rest = oct2bin_from (u64 (u64 (ret * 2 ^ 3) + sub64 c b'0')) octa in
    if c == b' ' then ret else rest

unfoldable pub oct2bin : List ℕ → ℕ
unfolding oct2bin_from
oct2bin octa = oct2bin_from 0 octa

abbrev pub Archive : Type 0
Archive = ℕ → TarMetadata

-- `if(meta->isize == 0) meta->isize = oct2bin(meta->size)`.
unfoldable pub with_size : TarMetadata → TarMetadata
with_size meta = record meta {
  isize = if meta.isize == 0 then u32 (oct2bin meta.octal) else meta.isize;
}

unfoldable pub cache_size : Archive → ℕ → Archive
unfolding with_size
cache_size a m x = if x == m then with_size (a x) else a x

-- The header behind that at `m` and its sectors of data.
abbrev pub next_meta : Archive → ℕ → ℕ
next_meta a m = m + (u32 ((a m).isize + 0x1ff) / 2 ^ 9 + 1)

-- The new node: its name, its size and the sector of its data.
pub record Entry : Type 0 where
  pub name : List ℕ
  pub size : ℕ
  pub data' : ℕ

-- The loop from the header `m`: the node, if there is one, and the archive.
unfoldable pub initfs_lookup : ℕ → Archive → ℕ → List ℕ → Option (Option Entry × Archive)
unfolding cache_size with_size
initfs_lookup zero a m name = none
initfs_lookup (suc n) a m name =
    let a' = cache_size a m in
    let rest = initfs_lookup n a' (next_meta a' m) name in
    if not (a m).ustar
    then some (none, a)
    else if strcmp (a m).name name == 0
    then some (some (record { name = (a m).name; size = (a' m).isize; data' = m + 1 }), a')
    else rest

-- The loop of `initfs_iterate` over the headers, for at most `n` names: the names, the next header and the
-- archive.
unfoldable pub archive_names : ℕ → Archive → ℕ → List (List ℕ) × ℕ × Archive
unfolding cache_size with_size
archive_names zero a m = ([], m, a)
archive_names (suc n) a m =
    let a' = cache_size a m in
    let (names, last, end) = archive_names n a' (next_meta a' m) in
    if (a m).ustar then ((a m).name ∷ names, last, end) else ([], m, a)

-- `off` is 0, 1, or a header; `first` is the header that `open` put into `data`.
unfoldable pub initfs_iterate : Archive → ℕ → ℕ → ℕ → List (List ℕ) × ℕ × Archive
unfolding archive_names
initfs_iterate a first off zero = ([], off, a)
initfs_iterate a first zero (suc zero) = ((b'.' ∷ []) ∷ [], 1, a)
initfs_iterate a first zero (suc (suc count)) =
    let (names, last, end) = archive_names count a first in
    ((b'.' ∷ []) ∷ (b'.' ∷ b'.' ∷ []) ∷ names, last, end)
initfs_iterate a first (suc zero) (suc count) =
    let (names, last, end) = archive_names count a first in ((b'.' ∷ b'.' ∷ []) ∷ names, last, end)
initfs_iterate a first (suc (suc off)) (suc count) = archive_names (suc count) a (suc (suc off))
