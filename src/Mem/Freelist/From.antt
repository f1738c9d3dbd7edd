-- ===== src/Mem/Freelist/From.antt =====
-- `flist_alloc_from` against `flist_alloc`.
use mosix_3d.Prelude.{ℕ, ◌+◌, ◌-◌, ◌^◌, ◌≤◌, ◌<◌, ◌≡◌, refl, [], ◌∷◌, arith}
use mosix_3d.Mem.Freelist.{Extent, Extents, flist_alloc, flist_alloc_from}
use mosix_3d.Mem.Freelist.Order.{Ordered, Arena}

-- Where every extent starts at `begin` or behind it, `flist_alloc_from` is `flist_alloc`.
pub flist_alloc_from-eq-flist_alloc :
    (gap hi lo begin : ℕ) (es : Extents) (n : ℕ)
    → Arena lo hi
    → begin ≤ lo
    → Ordered gap hi lo es
    → flist_alloc_from es begin n ≡ flist_alloc es n
unfolding flist_alloc flist_alloc_from
flist_alloc_from-eq-flist_alloc gap hi lo begin [] n a b o = refl
flist_alloc_from-eq-flist_alloc gap hi lo begin (f ∷ fs) n a b o =
    ground (arith, flist_alloc_from-eq-flist_alloc gap hi (f.pos + f.size + gap) begin fs n)

-- Where `begin` lies inside the first extent, more than `n` behind its start, the call leaves a tail
-- extent of almost 2 ^ 48 units, whatever the size of the extent was.
pub flist_alloc_from_corrupts :
    (gap hi lo begin : ℕ) (f : Extent) (fs : Extents) (n : ℕ)
    → Arena lo hi
    → 0 < n
    → f.pos + n < begin
    → begin + n ≤ f.pos + f.size
    → Ordered gap hi lo (f ∷ fs)
    → flist_alloc_from (f ∷ fs) begin n ≡ (
      begin,
      record f { size = begin - f.pos }
          ∷ record { pos = begin + n; size = 2 ^ 48 - (begin - f.pos) }
          ∷ fs,
    )
unfolding flist_alloc_from
flist_alloc_from_corrupts gap hi lo begin f fs n a p b e o = ground arith
