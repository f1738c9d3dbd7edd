-- ===== src/Mem/Paging/Translate.antt =====
-- The translation of addresses that the tables describe, and what a mapping does to it.
use mosix_3d.Prelude.{
  ℕ, ◌+◌, ◌*◌, ◌/◌, ◌^◌, ◌≡◌, ◌≢◌, ◌⊎◌, refl, ap, ◌∙◌, sym, Bool, true, false, if◌then◌else◌,
  Option, none, some, arith, eq→==, ne→==, inl, inr,
}
use mosix_3d.Mem.Paging.{
  get_index, get_mapping_pte, get_mapping_pde, get_mapping_pdpte, get_mapping_pml4e, present, frame,
  store_word, zero_page,
}

-- The frame behind the four entries of an address.
unfoldable pub walk : ℕ → ℕ → ℕ → ℕ → Option ℕ
walk e4 e3 e2 e1 =
    if present e4
    then (if present e3
        then (if present e2 then (if present e1 then some (frame e1) else none) else none)
        else none)
    else none

unfoldable pub translate : (ℕ → ℕ) → ℕ → Option ℕ
unfolding walk
translate words b =
    walk (words (get_mapping_pml4e b)) (words (get_mapping_pdpte b)) (words (get_mapping_pde b))
      (words (get_mapping_pte b))

-- The address is not behind the windows themselves.
abbrev pub IsOutside : ℕ → Type 0
IsOutside a = get_index a / 2 ^ 27 ≢ 0x1fe

-- Nested tests of which one fails.
fails :
    (a b c d : Bool) (o : Option ℕ)
    → (a ≡ false) ⊎ ((b ≡ false) ⊎ ((c ≡ false) ⊎ (d ≡ false)))
    → (if a then (if b then (if c then (if d then o else none) else none) else none) else none)
      ≡ none
fails a b c d o p = ground arith

walk-none :
    (e4 e3 e2 e1 : ℕ)
    → (present e4 ≡ false) ⊎ ((present e3 ≡ false) ⊎ ((present e2 ≡ false) ⊎ (present e1 ≡ false)))
    → walk e4 e3 e2 e1 ≡ none
unfolding walk
walk-none e4 e3 e2 e1 p =
    fails (present e4) (present e3) (present e2) (present e1) (some (frame e1)) p

pub walk-some :
    (e4 e3 e2 e1 : ℕ)
    → present e4 ≡ true
    → present e3 ≡ true
    → present e2 ≡ true
    → present e1 ≡ true
    → walk e4 e3 e2 e1 ≡ some (frame e1)
unfolding walk
walk-some e4 e3 e2 e1 p q r s = rw (p, q, r, s) refl

-- Reading a word that is neither the new entry nor in the table that is cleared.
pub read_elsewhere :
    (words : ℕ → ℕ) (e v p x : ℕ)
    → x ≢ e
    → x / 2 ^ 12 ≢ p / 2 ^ 12
    → zero_page (store_word words e v) p x ≡ words x
read_elsewhere words e v p x n m = rw (ne→== x e n, ne→== (x / 2 ^ 12) (p / 2 ^ 12) m) refl

read_cleared : (words : ℕ → ℕ) (p x : ℕ) → x / 2 ^ 12 ≡ p / 2 ^ 12 → zero_page words p x ≡ 0
read_cleared words p x e = rw (eq→== (x / 2 ^ 12) (p / 2 ^ 12) e) refl

-- The four entries of `b` are none of those that a new table at `e`, cleared behind `p`, changes.
abbrev pub Untouched : ℕ → ℕ → ℕ → Type 0
Untouched e p b =
    (get_mapping_pml4e b ≢ e)
    × (get_mapping_pml4e b / 2 ^ 12 ≢ p / 2 ^ 12)
    × (get_mapping_pdpte b ≢ e)
    × (get_mapping_pdpte b / 2 ^ 12 ≢ p / 2 ^ 12)
    × (get_mapping_pde b ≢ e)
    × (get_mapping_pde b / 2 ^ 12 ≢ p / 2 ^ 12)
    × (get_mapping_pte b ≢ e)
    × (get_mapping_pte b / 2 ^ 12 ≢ p / 2 ^ 12)

pub untouched4 :
    (a b : ℕ)
    → IsOutside a
    → IsOutside b
    → get_index a / 2 ^ 27 ≢ get_index b / 2 ^ 27
    → Untouched (get_mapping_pml4e a) (get_mapping_pdpte a) b
untouched4 a b oa ob ne = (
  omega arith,
  omega arith,
  omega arith,
  omega arith,
  omega arith,
  omega arith,
  omega arith,
  omega arith,
)

pub untouched3 :
    (a b : ℕ)
    → IsOutside a
    → IsOutside b
    → get_index a / 2 ^ 18 ≢ get_index b / 2 ^ 18
    → Untouched (get_mapping_pdpte a) (get_mapping_pde a) b
untouched3 a b oa ob ne = (
  omega arith,
  omega arith,
  omega arith,
  omega arith,
  omega arith,
  omega arith,
  omega arith,
  omega arith,
)

pub untouched2 :
    (a b : ℕ)
    → IsOutside a
    → IsOutside b
    → get_index a / 2 ^ 9 ≢ get_index b / 2 ^ 9
    → Untouched (get_mapping_pde a) (get_mapping_pte a) b
untouched2 a b oa ob ne = (
  omega arith,
  omega arith,
  omega arith,
  omega arith,
  omega arith,
  omega arith,
  omega arith,
  omega arith,
)

-- A new table leaves the translation of the other addresses.
pub translate-Untouched :
    (words : ℕ → ℕ) (e v p b : ℕ)
    → Untouched e p b
    → translate (zero_page (store_word words e v) p) b ≡ translate words b
unfolding translate
translate-Untouched words e v p b (a4, c4, a3, c3, a2, c2, a1, c1) =
    rw
      (
        read_elsewhere words e v p _ a4 c4,
        read_elsewhere words e v p _ a3 c3,
        read_elsewhere words e v p _ a2 c2,
        read_elsewhere words e v p _ a1 c1,
      )
      refl

-- Under a new table at `e`, one level down, nothing is mapped, and nothing was.
abbrev pub Under : (ℕ → ℕ) → ℕ → ℕ → ℕ → Type 0
Under words e p b =
    (translate words b ≡ none)
    × ((get_mapping_pdpte b / 2 ^ 12 ≡ p / 2 ^ 12)
        ⊎ ((get_mapping_pde b / 2 ^ 12 ≡ p / 2 ^ 12) ⊎ (get_mapping_pte b / 2 ^ 12 ≡ p / 2 ^ 12)))

is_cleared :
    (words : ℕ → ℕ) (p x : ℕ) → x / 2 ^ 12 ≡ p / 2 ^ 12 → present (zero_page words p x) ≡ false
is_cleared words p x e = ap present (read_cleared words p x e)

pub translate-Under :
    (words : ℕ → ℕ) (e v p b : ℕ)
    → Under words e p b
    → translate (zero_page (store_word words e v) p) b ≡ translate words b
unfolding translate
translate-Under words e v p b (before, cleared) =
    let w = store_word words e v in
    walk-none (zero_page w p (get_mapping_pml4e b)) (zero_page w p (get_mapping_pdpte b))
      (zero_page w p (get_mapping_pde b)) (zero_page w p (get_mapping_pte b))
      (inr (elim cleared [
        | inl c ↦ inl (is_cleared w p _ c)
        | inr (inl c) ↦ inr (inl (is_cleared w p _ c))
        | inr (inr c) ↦ inr (inr (is_cleared w p _ c))
      ]))
    ∙ sym before

pub absent :
    (words : ℕ → ℕ) (b : ℕ)
    → (present (words (get_mapping_pml4e b)) ≡ false)
      ⊎ ((present (words (get_mapping_pdpte b)) ≡ false)
          ⊎ ((present (words (get_mapping_pde b)) ≡ false)
              ⊎ (present (words (get_mapping_pte b)) ≡ false)))
    → translate words b ≡ none
unfolding translate
absent words b =
    walk-none (words (get_mapping_pml4e b)) (words (get_mapping_pdpte b))
      (words (get_mapping_pde b)) (words (get_mapping_pte b))

-- Two windows' entries at equal indices are one.
pub same_entry :
    (words : ℕ → ℕ) (base i j : ℕ)
    → i ≡ j
    → present (words (base + i * 8)) ≡ false
    → present (words (base + j * 8)) ≡ false
same_entry words base i j e p = ap (λ k. present (words (base + k * 8))) (sym e) ∙ p
