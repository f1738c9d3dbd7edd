-- ===== src/Mem/Freelist/Order.antt =====
-- The order of the extents: a free list is sorted, its extents are not empty, and they do not
-- overlap. Allocation and release keep it so.
use mosix_3d.Prelude.{ℕ, zero, suc, ◌+◌, ◌^◌, ◌≤◌, ◌<◌, ◌≡◌, refl, ◌⊎◌, [], ◌∷◌, u64, arith}
use mosix_3d.Mem.Freelist.{Extent, Extents, slot, flist_alloc, flist_dealloc}
use mosix_3d.Mem.Freelist.Release.{join, place, release_at, release, flist_dealloc-eq-release}

-- The extents lie in `[lo, hi)`, in ascending order, none empty, each at least `gap` behind the end
-- of the one before. A gap of 1 says that no two extents touch.
abbrev pub Ordered : ℕ → ℕ → ℕ → Extents → Type 0
Ordered gap hi lo [] = Unit {0}
Ordered gap hi lo (e ∷ es) =
    (lo ≤ e.pos) × (0 < e.size) × (e.pos + e.size ≤ hi) × Ordered gap hi (e.pos + e.size + gap) es

-- The range `[addr, addr + n)` meets no extent of the list.
abbrev pub Apart : ℕ → ℕ → Extents → Type 0
Apart addr n [] = Unit {0}
Apart addr n (e ∷ es) = ((e.pos + e.size ≤ addr) ⊎ (addr + n ≤ e.pos)) × Apart addr n es

-- The arena: its addresses fit 64 bits and the sizes within it 48.
pub record Arena (lo hi : ℕ) : Type 0 where
  pub addressable : hi < 2 ^ 64
  pub sized : hi < lo + 2 ^ 48

pub Ordered-mono :
    (gap hi : ℕ) {lo lo' : ℕ} (es : Extents)
    → lo ≤ lo'
    → Ordered gap hi lo' es
    → Ordered gap hi lo es
Ordered-mono gap hi [] h o = tt
Ordered-mono gap hi (e ∷ es) h o = (omega arith, o.1, o.2, o.3)

-- `flist_alloc` keeps the extents sorted, apart and not empty.
pub flist_alloc-Ordered :
    (gap hi lo : ℕ) (es : Extents) (n : ℕ)
    → Arena lo hi
    → 0 < n
    → Ordered gap hi lo es
    → Ordered gap hi lo (flist_alloc es n).1
unfolding flist_alloc
flist_alloc-Ordered gap hi lo [] n a p o = tt
flist_alloc-Ordered gap hi lo (f ∷ fs) n a p o = ground (
  arith,
  Ordered-mono gap hi {lo = lo} {lo' = f.pos + f.size + gap} fs,
  flist_alloc-Ordered gap hi (f.pos + f.size + gap) fs n,
)

abbrev Starts : ℕ → Extents → Type 0
Starts limit [] = Unit {0}
Starts limit (f ∷ fs) = limit ≤ f.pos

pub slot-Starts : (es : Extents) (limit : ℕ) → slot es limit ≡ 0 → Starts limit es
unfolding slot
slot-Starts [] limit e = tt
slot-Starts (f ∷ fs) limit e = ground arith

join-Ordered :
    (gap hi lo lo' : ℕ) (e : Extent) (fs : Extents) (limit : ℕ)
    → Arena lo hi
    → gap ≤ 1
    → limit ≡ e.pos + e.size
    → lo ≤ e.pos
    → 0 < e.size
    → e.pos + e.size ≤ hi
    → Starts limit fs
    → Ordered gap hi lo' fs
    → Ordered gap hi lo (join e fs limit)
unfolding join
join-Ordered gap hi lo lo' e [] limit a g q l p h s o = omega arith
join-Ordered gap hi lo lo' e (f ∷ fs) limit a g q l p h s o =
    let o' = Ordered-mono gap hi {lo = e.pos + (e.size + f.size) + gap} fs (omega arith) o.3 in
    ground arith

place-Ordered :
    (gap hi lo : ℕ) (f : Extent) (fs : Extents) (addr n : ℕ)
    → Arena lo hi
    → gap ≤ 1
    → 0 < n
    → addr + n ≤ hi
    → f.pos + f.size ≤ addr
    → Starts (addr + n) fs
    → Ordered gap hi lo (f ∷ fs)
    → Ordered gap hi lo (place f fs addr n)
unfolding place
place-Ordered gap hi lo f fs addr n a g p h b s o = ground (
  arith,
  join-Ordered gap hi lo (f.pos + f.size + gap) (record f { size = f.size + n }) fs (addr + n),
  join-Ordered gap hi (f.pos + f.size + gap) (f.pos + f.size + gap)
      (record { pos = addr; size = n }) fs (addr + n),
)

-- A list whose first extent starts below the freed range has room for a gap before that range.
first_below :
    (gap hi lo addr n : ℕ) (es : Extents) (i : ℕ)
    → slot es (addr + n) ≡ suc i
    → gap ≤ 1
    → Apart addr n es
    → Ordered gap hi lo es
    → lo + 1 ≤ addr
unfolding slot
first_below gap hi lo addr n [] i e g ap o = absurd (omega arith)
first_below gap hi lo addr n (f ∷ fs) i e g ap o = ground arith

release_at-Ordered :
    (gap hi lo : ℕ) (es : Extents) (addr n i : ℕ)
    → slot es (addr + n) ≡ i
    → Arena lo hi
    → gap ≤ 1
    → 0 < n
    → lo ≤ addr
    → addr + n ≤ hi
    → Apart addr n es
    → Ordered gap hi lo es
    → Ordered gap hi lo (release_at i es addr n)
unfolding slot release_at
release_at-Ordered gap hi lo es addr n zero e a g p l h ap o =
    let w : u64 (addr + n) ≡ addr + n = omega arith in
    join-Ordered gap hi lo lo (record { pos = addr; size = n }) es (u64 (addr + n)) a g w l p h
      (slot-Starts es (u64 (addr + n)) (ground arith)) o
release_at-Ordered gap hi lo [] addr n (suc i) e a g p l h ap o = absurd (omega arith)
release_at-Ordered gap hi lo (f ∷ fs) addr n (suc zero) e a g p l h ap o =
    let rest : slot fs (addr + n) ≡ 0 = ground arith in
    place-Ordered gap hi lo f fs addr n a g p h (ground arith) (slot-Starts fs (addr + n) rest) o
release_at-Ordered gap hi lo (f ∷ fs) addr n (suc (suc i)) e a g p l h ap o =
    let rest : slot fs (addr + n) ≡ suc i = ground arith in
    let room = first_below gap hi (f.pos + f.size + gap) addr n fs i rest g ap.1 o.3 in
    (
      o.0,
      o.1,
      o.2,
      release_at-Ordered gap hi (f.pos + f.size + gap) fs addr n (suc i) rest (omega arith) g p
          (omega arith) h ap.1 o.3,
    )

-- Giving back a range that no free extent meets keeps the extents sorted, apart and not empty; with
-- `gap` 1 it says that no two extents touch, so neighbours are merged.
pub flist_dealloc-Ordered :
    (gap hi lo : ℕ) (es : Extents) (addr n : ℕ)
    → Arena lo hi
    → gap ≤ 1
    → 0 < n
    → lo ≤ addr
    → addr + n ≤ hi
    → Apart addr n es
    → Ordered gap hi lo es
    → Ordered gap hi lo (flist_dealloc es addr n)
unfolding release
flist_dealloc-Ordered gap hi lo es addr n a g p l h ap o =
    let w : u64 (addr + n) ≡ addr + n = omega arith in
    rw (flist_dealloc-eq-release es addr n, w)
      (release_at-Ordered gap hi lo es addr n (slot es (addr + n)) refl a g p l h ap o)
