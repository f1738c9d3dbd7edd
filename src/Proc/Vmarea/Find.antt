-- ===== src/Proc/Vmarea/Find.antt =====
-- What `find_vmarea` finds after an insertion, and how the areas are ordered.
use mosix_3d.Prelude.{
  ℕ, ◌+◌, ◌*◌, ◌^◌, ◌≤◌, ◌<◌, ◌≡◌, true, [], ◌∷◌, none, some, if◌then◌else◌, arith, Option-cases,
  inl, inr,
}
use mosix_3d.Proc.Vmarea.{Vmarea, Areas, insert_vmarea, find_vmarea, covers}

-- The start addresses rise along the list, from `lo` on.
abbrev pub Rising : ℕ → Areas → Type 0
Rising lo [] = Unit {0}
Rising lo (v ∷ vs) = (lo ≤ v.vaddr) × Rising v.vaddr vs

Rising-mono : {lo lo' : ℕ} (vs : Areas) → lo ≤ lo' → Rising lo' vs → Rising lo vs
Rising-mono [] h r = tt
Rising-mono (v ∷ vs) h r = (omega arith, r.1)

-- An insertion that succeeds keeps the areas ordered by their start addresses.
pub insert_vmarea-Rising :
    (lo : ℕ) (vs : Areas) (new : Vmarea) {vs' : Areas}
    → lo ≤ new.vaddr
    → Rising lo vs
    → insert_vmarea vs new ≡ some vs'
    → Rising lo vs'
unfolding insert_vmarea
insert_vmarea-Rising lo [] new h r e = ground arith
insert_vmarea-Rising lo (v ∷ vs) new h r e = elim (Option-cases (insert_vmarea vs new)) [
  | inl none' ↦ ground arith
  | inr (ws, ok) ↦ ground (arith, insert_vmarea-Rising v.vaddr vs new {vs' = ws})
]

-- After an insertion that succeeds, `find_vmarea` gives the new area at the addresses that it covers,
-- if no other area covers them, and what it gave before at all other addresses.
pub find_vmarea-insert_vmarea :
    (vs : Areas) (new : Vmarea) (x : ℕ) {vs' : Areas}
    → (if covers new x then find_vmarea vs x else none) ≡ none
    → insert_vmarea vs new ≡ some vs'
    → find_vmarea vs' x ≡ (if covers new x then some new else find_vmarea vs x)
unfolding insert_vmarea find_vmarea
find_vmarea-insert_vmarea [] new x a e = ground arith
find_vmarea-insert_vmarea (v ∷ vs) new x a e = elim (Option-cases (insert_vmarea vs new)) [
  | inl none' ↦ ground arith
  | inr (ws, ok) ↦ ground (arith, find_vmarea-insert_vmarea vs new x {vs' = ws})
]

-- An area is accepted in front of another that it overlaps by up to 4095 of each of its 4096 bytes:
-- the test adds the number of pages to the address.
pub insert_vmarea_overlap :
    (v new : Vmarea) (vs : Areas)
    → new.vaddr + new.pages * 4096 < 2 ^ 64
    → new.vaddr + new.pages ≤ v.vaddr
    → v.vaddr < new.vaddr + new.pages * 4096
    → new.pages * 4096 < 2 ^ 32
    → (insert_vmarea (v ∷ vs) new ≡ some (new ∷ v ∷ vs)) × (covers new v.vaddr ≡ true)
unfolding insert_vmarea
insert_vmarea_overlap v new vs w h o s = ground arith
