-- ===== src/Vfs/Archive/Lookup.antt =====
-- What the walks over the archive find.
use mosix_3d.Prelude.{
  ℕ, zero, suc, ◌+◌, ◌/◌, ◌^◌, ◌<◌, ◌≡◌, ◌≢◌, refl, ap, ◌∙◌, Bool, true, false, not, List, [], ◌∷◌,
  length, Option, none, some, ◌==◌, if◌then◌else◌, u32, arith, eq→==, Bool-cases, inl, inr,
}
use mosix_3d.Misc.Text.{strcmp}
use mosix_3d.Vfs.Archive.{
  TarMetadata, Archive, Entry, with_size, cache_size, oct2bin, initfs_lookup,
}

-- The size of a file, cached or in its header.
abbrev pub size_of : TarMetadata → ℕ
size_of h = (with_size h).isize

-- A file of the archive.
pub record Stored : Type 0 where
  pub name : List ℕ
  pub size : ℕ

abbrev pub sectors : ℕ → ℕ
sectors size = u32 (size + 0x1ff) / 2 ^ 9 + 1

-- The archive from sector `m` on holds these files, and then no header.
unfoldable pub IsArchive : Archive → ℕ → List Stored → Type 0
IsArchive a m [] = (a m).ustar ≡ false
IsArchive a m (f ∷ fs) =
    ((a m).ustar ≡ true)
    × ((a m).name ≡ f.name)
    × (size_of (a m) ≡ f.size)
    × IsArchive a (m + sectors f.size) fs

-- The first file of the name, among those from sector `m` on.
unfoldable pub find_stored : ℕ → List Stored → List ℕ → Option Entry
find_stored m [] name = none
find_stored m (f ∷ fs) name =
    let rest = find_stored (m + sectors f.size) fs name in
    if strcmp f.name name == 0
    then some (record { name = f.name; size = f.size; data' = m + 1 })
    else rest

-- The cached size changes nothing that the walk reads.
once :
    (i o : ℕ)
    → (if (if i == 0 then o else i) == 0 then o else (if i == 0 then o else i))
      ≡ (if i == 0 then o else i)
once i o = ground arith

size_of-with_size : (h : TarMetadata) → size_of (with_size h) ≡ size_of h
unfolding with_size
size_of-with_size h = once h.isize (u32 (oct2bin h.octal))

cached_name :
    (a : Archive) (q x : ℕ)
    → ((cache_size a q x).name ≡ (a x).name) × ((cache_size a q x).ustar ≡ (a x).ustar)
unfolding cache_size with_size
cached_name a q x = elim (Bool-cases (x == q)) [
  | inl e ↦ rw e (refl, refl)
  | inr e ↦ rw e (refl, refl)
]

cached_size : (a : Archive) (q x : ℕ) → size_of (cache_size a q x) ≡ size_of (a x)
unfolding cache_size
cached_size a q x = elim (Bool-cases (x == q)) [
  | inl e ↦ rw e (size_of-with_size (a x))
  | inr e ↦ rw e refl
]

IsArchive-cached :
    (a : Archive) (q m : ℕ) (fs : List Stored) → IsArchive a m fs → IsArchive (cache_size a q) m fs
unfolding IsArchive
IsArchive-cached a q m [] e = (cached_name a q m).1 ∙ e
IsArchive-cached a q m (f ∷ fs) (e, en, es, h) =
    let (n, u) = cached_name a q m in
    (u ∙ e, n ∙ en, cached_size a q m ∙ es, IsArchive-cached a q (m + sectors f.size) fs h)

not_below : (n : ℕ) → n < 0 → n ≢ n
not_below n l = omega arith

cached_here : (a : Archive) (m : ℕ) → (cache_size a m m).isize ≡ size_of (a m)
unfolding cache_size
cached_here a m = rw (eq→== m m refl) refl

abbrev pub found : Option (Option Entry × Archive) → Option (Option Entry)
found none = none
found (some (e, a)) = some e

-- One turn of the walk, by what it reads of the header.
unfoldable turned : ℕ → Archive → ℕ → List ℕ → Bool → List ℕ → ℕ → Option (Option Entry)
turned n a m name ustar text size = found (
    if not ustar
    then some (none, a)
    else if strcmp text name == 0
    then some (some (record { name = text; size = size; data' = m + 1 }), cache_size a m)
    else initfs_lookup n (cache_size a m) (m + sectors size) name)

lookup_turn :
    (n : ℕ) (a : Archive) (m : ℕ) (name text : List ℕ) (size : ℕ)
    → (a m).ustar ≡ true
    → (a m).name ≡ text
    → size_of (a m) ≡ size
    → found (initfs_lookup (suc n) a m name) ≡ turned n a m name true text size
unfolding initfs_lookup turned
lookup_turn n a m name text size e en es =
    ap (λ u. turned n a m name u (a m).name (cache_size a m m).isize) e
    ∙ ap (λ t. turned n a m name true t (cache_size a m m).isize) en
    ∙ ap (turned n a m name true text) (cached_here a m ∙ es)

turned_on :
    (n : ℕ) (a : Archive) (m : ℕ) (name : List ℕ) (f : Stored) (fs : List Stored)
    → found (initfs_lookup n (cache_size a m) (m + sectors f.size) name)
      ≡ some (find_stored (m + sectors f.size) fs name)
    → turned n a m name true f.name f.size ≡ some (find_stored m (f ∷ fs) name)
unfolding turned find_stored
turned_on n a m name f fs ih = elim (Bool-cases (strcmp f.name name == 0)) [
  | inl e ↦ rw e refl
  | inr e ↦ rw e ih
]

-- The walk of `initfs_lookup` ends, with fuel for the files of the archive, and gives the first file
-- of the name with its size and the place of its data, or none.
pub initfs_lookup_lem :
    (fuel : ℕ) (a : Archive) (m : ℕ) (fs : List Stored) (name : List ℕ)
    → IsArchive a m fs
    → length fs < fuel
    → found (initfs_lookup fuel a m name) ≡ some (find_stored m fs name)
unfolding initfs_lookup IsArchive find_stored
initfs_lookup_lem zero a m fs name h l = elim (not_below (length fs) l refl) [ ]
initfs_lookup_lem (suc n) a m [] name h l = rw h refl
initfs_lookup_lem (suc n) a m (f ∷ fs) name (e, en, es, h) l =
    lookup_turn n a m name f.name f.size e en es
    ∙ turned_on n a m name f fs (
        initfs_lookup_lem n (cache_size a m) (m + sectors f.size) fs name
          (IsArchive-cached a m (m + sectors f.size) fs h) (omega arith))
