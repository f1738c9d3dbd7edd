-- ===== src/Proc/Vmarea.antt =====
-- The areas of an address space: `insert_vmarea`, `delete_vmarea` and `find_vmarea` of
-- kernel/mp/proc.c over `Vmarea` and `Vmspace` of kernel/include/proc.h.
--
-- A list holds the `count` live entries of `areas`. The lock `alock` is held over each call. An error
-- number that a call sets is `none`.
pub mod Find
pub mod Delete
mod Tests
use mosix_3d.Prelude.{
  ℕ, zero, suc, ◌+◌, ◌*◌, ◌^◌, Bool, true, false, ◌&&◌, List, [], ◌∷◌, ◌++◌, Option, none, some,
  ltb, leb, ◌==◌, if◌then◌else◌, u32, u64,
}

pub record Vmarea : Type 0 where
  pub vaddr : ℕ
  pub paddr : ℕ
  pub pages : ℕ
  pub type : ℕ
  pub flag : ℕ

abbrev pub Areas : Type 0
Areas = List Vmarea

abbrev prepend : Vmarea → Option Areas → Option Areas
prepend v none = none
prepend v (some vs) = some (v ∷ vs)

-- The first area that starts at `vaddr` or behind it makes room for the new one, unless it starts
-- below `vaddr + pages`.
unfoldable pub insert_vmarea : Areas → Vmarea → Option Areas
insert_vmarea [] new = some (new ∷ [])
insert_vmarea (v ∷ vs) new =
    let rest = insert_vmarea vs new in
    if ltb v.vaddr new.vaddr
    then prepend v rest
    else if ltb v.vaddr (u64 (new.vaddr + new.pages))
    then none
    else some (new ∷ v ∷ vs)

-- `pull_back_array` over the entries behind `v`: they move down by one slot, and the last slot keeps
-- its entry. `count` is not lowered.
unfoldable pub pull_back : Vmarea → Areas → Areas
pull_back v [] = v ∷ []
pull_back v (w ∷ []) = w ∷ w ∷ []
pull_back v (w ∷ x ∷ vs) = w ∷ pull_back w (x ∷ vs)

unfoldable pub delete_vmarea : Areas → ℕ → Option Areas
unfolding pull_back
delete_vmarea [] vaddr = none
delete_vmarea (v ∷ vs) vaddr =
    let rest = delete_vmarea vs vaddr in
    if v.vaddr == vaddr then some (pull_back v vs) else prepend v rest

-- `vm->vaddr <= vaddr && vm->vaddr + (vm->pages<<12) > vaddr`; the shift is on 32 bits.
abbrev pub covers : Vmarea → ℕ → Bool
covers v vaddr = leb v.vaddr vaddr && ltb vaddr (u64 (v.vaddr + u32 (v.pages * 2 ^ 12)))

unfoldable pub find_vmarea : Areas → ℕ → Option Vmarea
find_vmarea [] vaddr = none
find_vmarea (v ∷ vs) vaddr =
    let rest = find_vmarea vs vaddr in if covers v vaddr then some v else rest
