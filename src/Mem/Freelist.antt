-- ===== src/Mem/Freelist.antt =====
-- The extent allocator of kernel/mem/pmem.c: `flist_alloc`, `flist_alloc_from`, `flist_dealloc`
-- and `total_avail`, over the structs of kernel/include/pmem.h.
--
-- A list holds the `size` live extents of `root`. The spinlock is held from the first to the last
-- statement of each function, so a call is one step. `max` is set by the callers and never read.
-- `printk` and the debugger trap of the failed assertions are left out: they change no state here.
pub mod Release
pub mod Order
pub mod Cells
pub mod Total
pub mod From
pub mod Roundtrip
mod Tests
use mosix_3d.Prelude.{
  ℕ, zero, suc, ◌+◌, ◌-◌, ◌^◌, Bool, ◌&&◌, not, List, [], ◌∷◌, Option, none, some, ltb, leb, ◌==◌,
  if◌then◌else◌, length, get_elem?, insert_at, remove_at, set, u32, u48, u64, sub64,
}

-- `Extent`, without the two bytes `type` and `flag`, which nothing reads.
pub record Extent : Type 0 where
  pub pos : ℕ
  pub size : ℕ

abbrev pub Extents : Type 0
Extents = List Extent

-- `flist_alloc`: the first extent that is large enough gives its low end. The address is 0 where
-- no extent fits.
unfoldable pub flist_alloc : Extents → ℕ → ℕ × Extents
flist_alloc [] n = (0, [])
flist_alloc (f ∷ fs) n =
    let (addr, fs') = flist_alloc fs n in
    if f.size == n
    then (f.pos, fs)
    else if ltb n f.size
    then (f.pos, record { pos = u64 (f.pos + n); size = u48 (f.size - n) } ∷ fs)
    else (addr, f ∷ fs')

-- The first index whose extent starts at or behind `limit`: the loop of `flist_dealloc`.
unfoldable pub slot : Extents → ℕ → ℕ
slot [] limit = 0
slot (f ∷ fs) limit = if leb limit f.pos then 0 else suc (slot fs limit)

-- `front->size += size`, and the extent at `i` goes.
unfoldable pub merge_front : Extents → ℕ → ℕ → ℕ → Extents × ℕ
merge_front es zero addr n = (es, 0)
merge_front es (suc i) addr n = elim (get_elem? es i) [
  | none ↦ (es, suc i)
  | some front ↦
      if u64 (front.pos + front.size) == addr
      then (remove_at (set es i (record front { size = u48 (front.size + n) })) (suc i), i)
      else (es, suc i)
]

-- `self->size += end->size`, and the extent behind `i` goes, if there is one.
unfoldable pub merge_end : Extents → ℕ → ℕ → Extents
merge_end es i limit = if i == length es - 1 then es else elim (get_elem? es i) [
  | none ↦ es
  | some self ↦ elim (get_elem? es (suc i)) [
    | none ↦ es
    | some end ↦
        if end.pos == limit
        then remove_at (set es i (record self { size = u48 (self.size + end.size) })) (suc i)
        else es
  ]
]

unfoldable pub dealloc_at : Extents → ℕ → ℕ → ℕ → Extents
dealloc_at es i addr n =
    let es' = insert_at es i (record { pos = addr; size = n }) in
    let (merged, j) = merge_front es' i addr n in merge_end merged j (u64 (addr + n))

unfoldable pub flist_dealloc : Extents → ℕ → ℕ → Extents
unfolding slot dealloc_at
flist_dealloc es addr n = dealloc_at es (slot es (u64 (addr + n))) addr n

-- `total_avail`: a 32-bit sum.
unfoldable pub total_from : ℕ → Extents → ℕ
total_from total [] = total
total_from total (e ∷ es) = total_from (u32 (total + e.size)) es

unfoldable pub total_avail : Extents → ℕ
unfolding total_from
total_avail es = total_from 0 es

-- `flist_alloc_from`: as `flist_alloc`, but for a range at `begin` or behind it.
unfoldable pub flist_alloc_from : Extents → ℕ → ℕ → ℕ × Extents
flist_alloc_from [] begin n = (0, [])
flist_alloc_from (f ∷ fs) begin n =
    let (addr, fs') = flist_alloc_from fs begin n in
    let end = u64 (f.pos + n) in
    if ltb (u64 (f.pos + f.size)) begin
    then (addr, f ∷ fs')
    else if ltb f.pos begin
    then (if sub64 end begin == n
        then (begin, record f { size = u48 (f.size + 2 ^ 48 - n) } ∷ fs)
        else if ltb n (sub64 end begin)
        then (
          begin,
          record f { size = u48 (sub64 begin f.pos) }
              ∷ record { pos = u64 (begin + n); size = u48 (sub64 end (u64 (begin + n))) }
              ∷ fs,
        )
        else (addr, f ∷ fs'))
    else if f.size == n
    then (f.pos, fs)
    else if ltb n f.size
    then (f.pos, record { pos = u64 (f.pos + n); size = u48 (f.size - n) } ∷ fs)
    else (addr, f ∷ fs')
