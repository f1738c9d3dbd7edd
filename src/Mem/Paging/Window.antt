-- ===== src/Mem/Paging/Window.antt =====
-- Why the windows show the tables: the processor's walk of the address that `get_mapping_pte` and the
-- others compute. The walk is that of the processor's manual for pages of 4 KB.
use mosix_3d.Prelude.{
  ℕ, ◌+◌, ◌*◌, ◌/◌, ◌%◌, ◌^◌, ◌≡◌, refl, ap, ◌∙◌, if◌then◌else◌, Option, none, some, arith,
}
use mosix_3d.Mem.Paging.{
  get_mapping_pte, get_mapping_pde, get_mapping_pdpte, get_mapping_pml4e, present, frame,
}

-- The four indices in an address.
abbrev pml4o : ℕ → ℕ
pml4o v = v / 2 ^ 39 % 2 ^ 9

abbrev pdpto : ℕ → ℕ
pdpto v = v / 2 ^ 30 % 2 ^ 9

abbrev pdo : ℕ → ℕ
pdo v = v / 2 ^ 21 % 2 ^ 9

abbrev pto : ℕ → ℕ
pto v = v / 2 ^ 12 % 2 ^ 9

-- The frame that entry `k` of a table points to.
unfoldable pub descend : (ℕ → ℕ) → Option ℕ → ℕ → Option ℕ
descend phys none k = none
descend phys (some f) k =
    let e = phys (f * 2 ^ 12 + k * 8) in if present e then some (frame e) else none

abbrev pub at : Option ℕ → ℕ → Option ℕ
at none offset = none
at (some f) offset = some (f * 2 ^ 12 + offset)

-- The physical address of an entry of `v`, by its level, and of `v`.
unfoldable pub pml4e_of : (ℕ → ℕ) → ℕ → ℕ → Option ℕ
pml4e_of phys root v = at (some root) (pml4o v * 8)

unfoldable pub pdpte_of : (ℕ → ℕ) → ℕ → ℕ → Option ℕ
unfolding descend
pdpte_of phys root v = at (descend phys (some root) (pml4o v)) (pdpto v * 8)

unfoldable pub pde_of : (ℕ → ℕ) → ℕ → ℕ → Option ℕ
unfolding descend
pde_of phys root v = at (descend phys (descend phys (some root) (pml4o v)) (pdpto v)) (pdo v * 8)

unfoldable pub pte_of : (ℕ → ℕ) → ℕ → ℕ → Option ℕ
unfolding descend
pte_of phys root v =
    at (descend phys (descend phys (descend phys (some root) (pml4o v)) (pdpto v)) (pdo v))
      (pto v * 8)

unfoldable pub walked : (ℕ → ℕ) → ℕ → ℕ → ℕ → ℕ → ℕ → ℕ → Option ℕ
unfolding descend
walked phys root k4 k3 k2 k1 offset =
    at (descend phys (descend phys (descend phys (descend phys (some root) k4) k3) k2) k1) offset

unfoldable pub physical : (ℕ → ℕ) → ℕ → ℕ → Option ℕ
unfolding walked
physical phys root v = walked phys root (pml4o v) (pdpto v) (pdo v) (pto v) (v % 2 ^ 12)

-- Entry 0x1fe of the top table points to the top table.
abbrev pub IsSelfReferring : (ℕ → ℕ) → ℕ → Type 0
IsSelfReferring phys root = descend phys (some root) 0x1fe ≡ some root

-- The walk of an address with these indices.
walk_at :
    (phys : ℕ → ℕ) (root v k4 k3 k2 k1 offset : ℕ)
    → (pml4o v ≡ k4) × (pdpto v ≡ k3) × (pdo v ≡ k2) × (pto v ≡ k1) × (v % 2 ^ 12 ≡ offset)
    → physical phys root v ≡ walked phys root k4 k3 k2 k1 offset
unfolding physical
walk_at phys root v k4 k3 k2 k1 offset (e4, e3, e2, e1, e0) = rw (e4, e3, e2, e1, e0) refl

pte_indices :
    (a : ℕ)
    → (pml4o (get_mapping_pte a) ≡ 0x1fe)
      × (pdpto (get_mapping_pte a) ≡ pml4o a)
      × (pdo (get_mapping_pte a) ≡ pdpto a)
      × (pto (get_mapping_pte a) ≡ pdo a)
      × (get_mapping_pte a % 2 ^ 12 ≡ pto a * 8)
pte_indices a = (omega arith, omega arith, omega arith, omega arith, omega arith)

pde_indices :
    (a : ℕ)
    → (pml4o (get_mapping_pde a) ≡ 0x1fe)
      × (pdpto (get_mapping_pde a) ≡ 0x1fe)
      × (pdo (get_mapping_pde a) ≡ pml4o a)
      × (pto (get_mapping_pde a) ≡ pdpto a)
      × (get_mapping_pde a % 2 ^ 12 ≡ pdo a * 8)
pde_indices a = (omega arith, omega arith, omega arith, omega arith, omega arith)

pdpte_indices :
    (a : ℕ)
    → (pml4o (get_mapping_pdpte a) ≡ 0x1fe)
      × (pdpto (get_mapping_pdpte a) ≡ 0x1fe)
      × (pdo (get_mapping_pdpte a) ≡ 0x1fe)
      × (pto (get_mapping_pdpte a) ≡ pml4o a)
      × (get_mapping_pdpte a % 2 ^ 12 ≡ pdpto a * 8)
pdpte_indices a = (omega arith, omega arith, omega arith, omega arith, omega arith)

pml4e_indices :
    (a : ℕ)
    → (pml4o (get_mapping_pml4e a) ≡ 0x1fe)
      × (pdpto (get_mapping_pml4e a) ≡ 0x1fe)
      × (pdo (get_mapping_pml4e a) ≡ 0x1fe)
      × (pto (get_mapping_pml4e a) ≡ 0x1fe)
      × (get_mapping_pml4e a % 2 ^ 12 ≡ pml4o a * 8)
pml4e_indices a = (omega arith, omega arith, omega arith, omega arith, omega arith)

-- Going around the top table once more.
around :
    (phys : ℕ → ℕ) (root : ℕ) (o : Option ℕ)
    → IsSelfReferring phys root
    → o ≡ some root
    → descend phys o 0x1fe ≡ some root
around phys root o s e = ap (λ z. descend phys z 0x1fe) e ∙ s

-- Where the top table refers to itself, the processor's walk of `get_mapping_pte`, `get_mapping_pde`,
-- `get_mapping_pdpte` and `get_mapping_pml4e` of any address ends at the entry of that level which
-- the walk of the address itself goes through, and fails where that walk does not come so far.
pub windows_show_tables :
    (phys : ℕ → ℕ) (root a : ℕ)
    → IsSelfReferring phys root
    → (physical phys root (get_mapping_pte a) ≡ pte_of phys root a)
      × (physical phys root (get_mapping_pde a) ≡ pde_of phys root a)
      × (physical phys root (get_mapping_pdpte a) ≡ pdpte_of phys root a)
      × (physical phys root (get_mapping_pml4e a) ≡ pml4e_of phys root a)
unfolding walked pte_of pde_of pdpte_of pml4e_of
windows_show_tables phys root a s = (
  walk_at phys root (get_mapping_pte a) _ _ _ _ _ (pte_indices a)
      ∙ ap
          (λ o.
            at (descend phys (descend phys (descend phys o (pml4o a)) (pdpto a)) (pdo a))
              (pto a * 8))
          s,
  walk_at phys root (get_mapping_pde a) _ _ _ _ _ (pde_indices a)
      ∙ ap (λ o. at (descend phys (descend phys o (pml4o a)) (pdpto a)) (pdo a * 8)) twice,
  walk_at phys root (get_mapping_pdpte a) _ _ _ _ _ (pdpte_indices a)
      ∙ ap (λ o. at (descend phys o (pml4o a)) (pdpto a * 8)) thrice,
  walk_at phys root (get_mapping_pml4e a) _ _ _ _ _ (pml4e_indices a)
      ∙ ap (λ o. at o (pml4o a * 8)) (around phys root _ s thrice),
)
  where
    twice : descend phys (descend phys (some root) 0x1fe) 0x1fe ≡ some root
    twice = around phys root (descend phys (some root) 0x1fe) s s

    thrice : descend phys (descend phys (descend phys (some root) 0x1fe) 0x1fe) 0x1fe ≡ some root
    thrice = around phys root (descend phys (descend phys (some root) 0x1fe) 0x1fe) s twice
