-- ===== src/Mem/Freelist/Roundtrip.antt =====
-- An allocation that is given back at once.
use mosix_3d.Prelude.{ℕ, ◌+◌, ◌≤◌, ◌<◌, ◌≡◌, refl, inr, ◌≢◌, [], ◌∷◌, arith}
use mosix_3d.Mem.Freelist.{Extents, flist_alloc, flist_dealloc}
use mosix_3d.Mem.Freelist.Order.{Ordered, Apart, Arena, flist_alloc-Ordered}
use mosix_3d.Mem.Freelist.Cells.{free_cell, flist_alloc_cells, flist_dealloc_cells}

Apart-below :
    (gap hi lo : ℕ) (es : Extents) (addr n : ℕ)
    → addr + n ≤ lo
    → Ordered gap hi lo es
    → Apart addr n es
Apart-below gap hi lo [] addr n h o = tt
Apart-below gap hi lo (e ∷ es) addr n h o =
    (inr (omega arith), Apart-below gap hi (e.pos + e.size + gap) es addr n (omega arith) o.3)

-- What `flist_alloc` returned lies in the arena and meets no extent that is left.
pub flist_alloc-Apart :
    (gap hi lo : ℕ) (es : Extents) (n : ℕ)
    → Arena lo hi
    → 0 < n
    → Ordered gap hi lo es
    → (flist_alloc es n).0 ≢ 0
    → let (addr, es') = flist_alloc es n in (lo ≤ addr) × (addr + n ≤ hi) × Apart addr n es'
unfolding flist_alloc
flist_alloc-Apart gap hi lo [] n a p o h = absurd (h refl)
flist_alloc-Apart gap hi lo (f ∷ fs) n a p o h = ground (
  arith,
  Apart-below gap hi (f.pos + f.size + gap) fs f.pos n,
  flist_alloc-Apart gap hi (f.pos + f.size + gap) fs n,
)

-- Allocating and giving back leaves the same cells free.
pub flist_dealloc-flist_alloc :
    (gap hi lo : ℕ) (es : Extents) (n x : ℕ)
    → Arena lo hi
    → 0 < lo
    → 0 < n
    → Ordered gap hi lo es
    → (flist_alloc es n).0 ≢ 0
    → let (addr, es') = flist_alloc es n in free_cell x (flist_dealloc es' addr n) ≡ free_cell x es
flist_dealloc-flist_alloc gap hi lo es n x a z p o h =
    let r = flist_alloc es n in
    let inside = flist_alloc-Apart gap hi lo es n a p o h in
    let given =
      flist_dealloc_cells gap hi lo r.1 r.0 n x a inside.0 inside.1 inside.2
        (flist_alloc-Ordered gap hi lo es n a p o) in
    let got = flist_alloc_cells gap hi lo es n x a z p o in ground (arith, given, got)
