-- ===== src/Mem/Freelist/Cells.antt =====
-- What the list means: the set of its free cells. `flist_alloc` takes a range out of it and
-- `flist_dealloc` puts one back.
use mosix_3d.Prelude.{
  ℕ, zero, suc, ◌+◌, ◌≤◌, ◌<◌, ◌≡◌, refl, [], ◌∷◌, ltb, leb, ◌==◌, u64, arith, if◌then◌else◌, Bool,
  false, ◌&&◌, ◌||◌, not,
}
use mosix_3d.Mem.Freelist.{Extent, Extents, slot, flist_alloc, flist_dealloc}
use mosix_3d.Mem.Freelist.Release.{join, place, release_at, release, flist_dealloc-eq-release}
use mosix_3d.Mem.Freelist.Order.{Ordered, Apart, Arena}

abbrev pub in_range : ℕ → ℕ → ℕ → Bool
in_range addr n x = leb addr x && ltb x (addr + n)

-- The cell `x` is free.
abbrev pub free_cell : ℕ → Extents → Bool
free_cell x [] = false
free_cell x (e ∷ es) = in_range e.pos e.size x || free_cell x es

-- The cell `x` was handed out by a call that returned `addr`; the address 0 stands for a failure.
abbrev pub taken : ℕ → ℕ → ℕ → Bool
taken addr n x = not (addr == 0) && in_range addr n x

free_cell_below :
    (gap hi lo : ℕ) (es : Extents) (x : ℕ) → Ordered gap hi lo es → x < lo → free_cell x es ≡ false
free_cell_below gap hi lo [] x o h = refl
free_cell_below gap hi lo (e ∷ es) x o h =
    ground (arith, free_cell_below gap hi (e.pos + e.size + gap) es x o.3)

-- `flist_alloc` hands out free cells only, and takes exactly those out of the list.
pub flist_alloc_cells :
    (gap hi lo : ℕ) (es : Extents) (n x : ℕ)
    → Arena lo hi
    → 0 < lo
    → 0 < n
    → Ordered gap hi lo es
    → let (addr, es') = flist_alloc es n in
      ((taken addr n x && not (free_cell x es)) ≡ false)
      × (free_cell x es' ≡ (free_cell x es && not (taken addr n x)))
unfolding flist_alloc
flist_alloc_cells gap hi lo [] n x a z p o = ground arith
flist_alloc_cells gap hi lo (f ∷ fs) n x a z p o = ground (
  arith,
  free_cell_below gap hi (f.pos + f.size + gap) fs x o.3,
  flist_alloc_cells gap hi (f.pos + f.size + gap) fs n x,
)

-- Some extent has room for `n` units.
abbrev pub has_room : ℕ → Extents → Bool
has_room n [] = false
has_room n (e ∷ es) = leb n e.size || has_room n es

-- `flist_alloc` fails only where no extent has room, and a failed call changes nothing.
pub flist_alloc_fails :
    (gap hi lo : ℕ) (es : Extents) (n : ℕ)
    → 0 < lo
    → Ordered gap hi lo es
    → let (addr, es') = flist_alloc es n in
      ((addr == 0) ≡ not (has_room n es)) × ((if addr == 0 then es' else es) ≡ es)
unfolding flist_alloc
flist_alloc_fails gap hi lo [] n z o = ground arith
flist_alloc_fails gap hi lo (f ∷ fs) n z o =
    ground (arith, flist_alloc_fails gap hi (f.pos + f.size + gap) fs n)

join_cells :
    (gap hi lo : ℕ) (e : Extent) (fs : Extents) (limit x : ℕ)
    → Arena e.pos hi
    → limit ≡ e.pos + e.size
    → Ordered gap hi lo fs
    → free_cell x (join e fs limit) ≡ (in_range e.pos e.size x || free_cell x fs)
unfolding join
join_cells gap hi lo e [] limit x a q o = refl
join_cells gap hi lo e (f ∷ fs) limit x a q o = ground arith

place_cells :
    (gap hi lo : ℕ) (f : Extent) (fs : Extents) (addr n x : ℕ)
    → Arena lo hi
    → addr + n ≤ hi
    → f.pos + f.size ≤ addr
    → Ordered gap hi lo (f ∷ fs)
    → free_cell x (place f fs addr n) ≡ (in_range addr n x || free_cell x (f ∷ fs))
unfolding place
place_cells gap hi lo f fs addr n x a h b o = ground (
  arith,
  join_cells gap hi (f.pos + f.size + gap) (record f { size = f.size + n }) fs (addr + n) x,
  join_cells gap hi (f.pos + f.size + gap) (record { pos = addr; size = n }) fs (addr + n) x,
)

release_at_cells :
    (gap hi lo : ℕ) (es : Extents) (addr n i x : ℕ)
    → slot es (addr + n) ≡ i
    → Arena lo hi
    → lo ≤ addr
    → addr + n ≤ hi
    → Apart addr n es
    → Ordered gap hi lo es
    → free_cell x (release_at i es addr n) ≡ (in_range addr n x || free_cell x es)
unfolding slot release_at
release_at_cells gap hi lo es addr n zero x e a l h ap o =
    join_cells gap hi lo (record { pos = addr; size = n }) es (u64 (addr + n)) x (omega arith)
      (omega arith) o
release_at_cells gap hi lo [] addr n (suc i) x e a l h ap o = absurd (omega arith)
release_at_cells gap hi lo (f ∷ fs) addr n (suc zero) x e a l h ap o =
    place_cells gap hi lo f fs addr n x a h (ground arith) o
release_at_cells gap hi lo (f ∷ fs) addr n (suc (suc i)) x e a l h ap o =
    ground (arith, release_at_cells gap hi (f.pos + f.size + gap) fs addr n (suc i) x)

-- `flist_dealloc` makes exactly the cells of the range free again, whatever it merges.
pub flist_dealloc_cells :
    (gap hi lo : ℕ) (es : Extents) (addr n x : ℕ)
    → Arena lo hi
    → lo ≤ addr
    → addr + n ≤ hi
    → Apart addr n es
    → Ordered gap hi lo es
    → free_cell x (flist_dealloc es addr n) ≡ (in_range addr n x || free_cell x es)
unfolding release
flist_dealloc_cells gap hi lo es addr n x a l h ap o =
    let w : u64 (addr + n) ≡ addr + n = omega arith in
    rw (flist_dealloc-eq-release es addr n, w)
      (release_at_cells gap hi lo es addr n (slot es (addr + n)) x refl a l h ap o)
