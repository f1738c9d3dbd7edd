-- ===== src/Proc/Vmarea/Delete.antt =====
-- `delete_vmarea` does not lower the number of areas.
use mosix_3d.Prelude.{
  ℕ, suc, ◌≡◌, refl, ap, ◌≢◌, [], ◌∷◌, ◌++◌, some, arith, length, Option-cases, inl, inr,
}
use mosix_3d.Proc.Vmarea.{Vmarea, Areas, pull_back, delete_vmarea}

-- No area of the list starts at `vaddr`.
abbrev pub NoneAt : ℕ → Areas → Type 0
NoneAt vaddr [] = Unit {0}
NoneAt vaddr (v ∷ vs) = (v.vaddr ≢ vaddr) × NoneAt vaddr vs

-- Deleting the last area of an address space changes nothing: it is still found.
pub delete_vmarea_last :
    (vs : Areas) (v : Vmarea)
    → NoneAt v.vaddr vs
    → delete_vmarea (vs ++ (v ∷ [])) v.vaddr ≡ some (vs ++ (v ∷ []))
unfolding delete_vmarea
delete_vmarea_last [] v n = ground arith
delete_vmarea_last (w ∷ vs) v n = ground (arith, delete_vmarea_last vs v n.1)

length-pull_back : (v : Vmarea) (vs : Areas) → length (pull_back v vs) ≡ suc (length vs)
unfolding pull_back
length-pull_back v [] = refl
length-pull_back v (w ∷ []) = refl
length-pull_back v (w ∷ x ∷ vs) = ap suc (length-pull_back w (x ∷ vs))

-- The number of areas stays the same at every deletion that succeeds.
pub length-delete_vmarea :
    (vs : Areas) (vaddr : ℕ) {vs' : Areas}
    → delete_vmarea vs vaddr ≡ some vs'
    → length vs' ≡ length vs
unfolding delete_vmarea
length-delete_vmarea [] vaddr e = cc
length-delete_vmarea (v ∷ vs) vaddr e = elim (Option-cases (delete_vmarea vs vaddr)) [
  | inl none' ↦ ground (arith, length-pull_back v vs)
  | inr (ws, ok) ↦ ground (arith, length-pull_back v vs, length-delete_vmarea vs vaddr {vs' = ws})
]
