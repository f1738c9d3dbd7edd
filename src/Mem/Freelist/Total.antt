-- ===== src/Mem/Freelist/Total.antt =====
-- The free total: an allocation lowers it by the size handed out, a release raises it by the size
-- given back.
use mosix_3d.Prelude.{
  ℕ, zero, suc, ◌+◌, ◌^◌, ◌≤◌, ◌<◌, ◌≡◌, refl, ◌∙◌, ap, [], ◌∷◌, u32, u64, arith, if◌then◌else◌,
  ◌==◌,
}
use mosix_3d.Mem.Freelist.{
  Extent, Extents, slot, flist_alloc, flist_dealloc, total_from, total_avail,
}
use mosix_3d.Mem.Freelist.Release.{join, place, release_at, release, flist_dealloc-eq-release}
use mosix_3d.Mem.Freelist.Order.{Ordered, Apart, Arena}

-- The sum of the sizes, which does not wrap.
abbrev pub units : Extents → ℕ
units [] = 0
units (e ∷ es) = e.size + units es

total_from_lem : (t : ℕ) (es : Extents) → t < 2 ^ 32 → total_from t es ≡ u32 (t + units es)
unfolding total_from
total_from_lem t [] h = omega arith
total_from_lem t (e ∷ es) h = total_from_lem (u32 (t + e.size)) es (omega arith) ∙ omega arith

-- `total_avail` is the sum of the sizes modulo 2 ^ 32.
pub total_avail_lem : (es : Extents) → total_avail es ≡ u32 (units es)
unfolding total_avail
total_avail_lem es = total_from_lem 0 es (omega arith) ∙ omega arith

-- A successful `flist_alloc` lowers the free total by the size asked for.
pub units-flist_alloc :
    (gap hi lo : ℕ) (es : Extents) (n : ℕ)
    → Arena lo hi
    → 0 < lo
    → 0 < n
    → Ordered gap hi lo es
    → let (addr, es') = flist_alloc es n in
      units es ≡ (if addr == 0 then units es' else units es' + n)
unfolding flist_alloc
units-flist_alloc gap hi lo [] n a z p o = ground arith
units-flist_alloc gap hi lo (f ∷ fs) n a z p o =
    ground (arith, units-flist_alloc gap hi (f.pos + f.size + gap) fs n)

units-join :
    (gap hi lo : ℕ) (e : Extent) (fs : Extents) (limit : ℕ)
    → Arena e.pos hi
    → limit ≡ e.pos + e.size
    → Ordered gap hi lo fs
    → units (join e fs limit) ≡ e.size + units fs
unfolding join
units-join gap hi lo e [] limit a q o = refl
units-join gap hi lo e (f ∷ fs) limit a q o = ground arith

units-place :
    (gap hi lo : ℕ) (f : Extent) (fs : Extents) (addr n : ℕ)
    → Arena lo hi
    → addr + n ≤ hi
    → f.pos + f.size ≤ addr
    → Ordered gap hi lo (f ∷ fs)
    → units (place f fs addr n) ≡ n + units (f ∷ fs)
unfolding place
units-place gap hi lo f fs addr n a h b o = ground (
  arith,
  units-join gap hi (f.pos + f.size + gap) (record f { size = f.size + n }) fs (addr + n),
  units-join gap hi (f.pos + f.size + gap) (record { pos = addr; size = n }) fs (addr + n),
)

units-release_at :
    (gap hi lo : ℕ) (es : Extents) (addr n i : ℕ)
    → slot es (addr + n) ≡ i
    → Arena lo hi
    → lo ≤ addr
    → addr + n ≤ hi
    → Apart addr n es
    → Ordered gap hi lo es
    → units (release_at i es addr n) ≡ n + units es
unfolding slot release_at
units-release_at gap hi lo es addr n zero e a l h ap o =
    units-join gap hi lo (record { pos = addr; size = n }) es (u64 (addr + n)) (omega arith)
      (omega arith) o
units-release_at gap hi lo [] addr n (suc i) e a l h ap o = absurd (omega arith)
units-release_at gap hi lo (f ∷ fs) addr n (suc zero) e a l h ap o =
    units-place gap hi lo f fs addr n a h (ground arith) o
units-release_at gap hi lo (f ∷ fs) addr n (suc (suc i)) e a l h ap o =
    ground (arith, units-release_at gap hi (f.pos + f.size + gap) fs addr n (suc i))

-- `flist_dealloc` raises the free total by the size given back.
pub units-flist_dealloc :
    (gap hi lo : ℕ) (es : Extents) (addr n : ℕ)
    → Arena lo hi
    → lo ≤ addr
    → addr + n ≤ hi
    → Apart addr n es
    → Ordered gap hi lo es
    → units (flist_dealloc es addr n) ≡ n + units es
unfolding release
units-flist_dealloc gap hi lo es addr n a l h ap o =
    let w : u64 (addr + n) ≡ addr + n = omega arith in
    rw (flist_dealloc-eq-release es addr n, w)
      (units-release_at gap hi lo es addr n (slot es (addr + n)) refl a l h ap o)
