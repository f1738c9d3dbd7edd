-- ===== src/Mem/Freelist/Release.antt =====
-- `flist_dealloc` without indices: a recursion down the list that inserts and merges in one pass.
use mosix_3d.Prelude.{
  ℕ, zero, suc, ◌+◌, ◌≤◌, ◌≡◌, refl, ap, ◌∙◌, [], ◌∷◌, ◌==◌, if◌then◌else◌, length, insert_at, u48,
  u64, arith, Bool-cases, inl, inr,
}
use mosix_3d.Mem.Freelist.{Extent, Extents, slot, merge_front, merge_end, dealloc_at, flist_dealloc}

-- The new extent before `fs`, joined with the first of them if that starts at `limit`.
unfoldable pub join : Extent → Extents → ℕ → Extents
join e [] limit = e ∷ []
join e (f ∷ fs) limit =
    if f.pos == limit then record e { size = u48 (e.size + f.size) } ∷ fs else e ∷ f ∷ fs

-- Where `f` is the last extent before the freed range.
unfoldable pub place : Extent → Extents → ℕ → ℕ → Extents
unfolding join
place f fs addr n =
    if u64 (f.pos + f.size) == addr
    then join (record f { size = u48 (f.size + n) }) fs (u64 (addr + n))
    else f ∷ join (record { pos = addr; size = n }) fs (u64 (addr + n))

unfoldable pub release_at : ℕ → Extents → ℕ → ℕ → Extents
unfolding join place
release_at zero es addr n = join (record { pos = addr; size = n }) es (u64 (addr + n))
release_at (suc zero) [] addr n = record { pos = addr; size = n } ∷ []
release_at (suc zero) (f ∷ fs) addr n = place f fs addr n
release_at (suc (suc i)) [] addr n = record { pos = addr; size = n } ∷ []
release_at (suc (suc i)) (f ∷ fs) addr n = f ∷ release_at (suc i) fs addr n

unfoldable pub release : Extents → ℕ → ℕ → Extents
unfolding release_at
release es addr n = release_at (slot es (u64 (addr + n))) es addr n

slot-le : (es : Extents) (limit : ℕ) → slot es limit ≤ length es
unfolding slot
slot-le [] limit = omega arith
slot-le (f ∷ fs) limit = ground (arith, slot-le fs limit)

merge_end-join :
    (e : Extent) (es : Extents) (limit : ℕ) → merge_end (e ∷ es) 0 limit ≡ join e es limit
unfolding merge_end join
merge_end-join e [] limit = refl
merge_end-join e (f ∷ fs) limit = ground arith

merge_end-cons :
    (f e : Extent) (es : Extents) (i limit : ℕ)
    → merge_end (f ∷ e ∷ es) (suc i) limit ≡ f ∷ merge_end (e ∷ es) i limit
unfolding merge_end
merge_end-cons f e es i limit = ground arith

merge_end-cons' :
    (f : Extent) (es : Extents) (i limit : ℕ)
    → merge_end (f ∷ es) (suc i) limit ≡ f ∷ merge_end es i limit
unfolding merge_end
merge_end-cons' f [] i limit = ground arith
merge_end-cons' f (e ∷ es) i limit = merge_end-cons f e es i limit

merge_front-cons :
    (f : Extent) (es : Extents) (i addr n : ℕ)
    → let (m, j) = merge_front es (suc i) addr n in
      merge_front (f ∷ es) (suc (suc i)) addr n ≡ (f ∷ m, suc j)
unfolding merge_front
merge_front-cons f es i addr n = ground arith

dealloc_at-join :
    (es : Extents) (addr n : ℕ)
    → dealloc_at es 0 addr n ≡ join (record { pos = addr; size = n }) es (u64 (addr + n))
unfolding dealloc_at merge_front
dealloc_at-join es addr n = merge_end-join (record { pos = addr; size = n }) es _

dealloc_at-place :
    (f : Extent) (fs : Extents) (addr n : ℕ) → dealloc_at (f ∷ fs) 1 addr n ≡ place f fs addr n
unfolding dealloc_at merge_front place
dealloc_at-place f fs addr n = elim (Bool-cases (u64 (f.pos + f.size) == addr)) [
  | inl e ↦ rw e (merge_end-join (record f { size = u48 (f.size + n) }) fs _)
  | inr e ↦ rw e (
      merge_end-cons' f (record { pos = addr; size = n } ∷ fs) 0 _
      ∙ ap (λ t. f ∷ t) (merge_end-join (record { pos = addr; size = n }) fs _))
]

dealloc_at-release_at :
    (i : ℕ) (es : Extents) (addr n : ℕ)
    → i ≤ length es
    → dealloc_at es i addr n ≡ release_at i es addr n
unfolding dealloc_at release_at
dealloc_at-release_at zero es addr n h = dealloc_at-join es addr n
dealloc_at-release_at (suc i) [] addr n h = absurd (omega arith)
dealloc_at-release_at (suc zero) (f ∷ fs) addr n h = dealloc_at-place f fs addr n
dealloc_at-release_at (suc (suc i)) (f ∷ fs) addr n h =
    rw
      (
        merge_front-cons f (insert_at fs (suc i) (record { pos = addr; size = n })) i addr n,
        merge_end-cons',
      )
      (ap (λ t. f ∷ t) (dealloc_at-release_at (suc i) fs addr n (omega arith)))

-- The indices of `flist_dealloc` do what the recursion does, for every list and every range.
pub flist_dealloc-eq-release :
    (es : Extents) (addr n : ℕ) → flist_dealloc es addr n ≡ release es addr n
unfolding flist_dealloc release
flist_dealloc-eq-release es addr n = dealloc_at-release_at (slot es _) es addr n (slot-le es _)
