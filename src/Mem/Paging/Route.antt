-- ===== src/Mem/Paging/Route.antt =====
-- What a new route, `set_mapping_route`, does to the translation of every address.
use mosix_3d.Prelude.{
  ℕ, ◌/◌, ◌^◌, ◌≡◌, ◌≢◌, ◌⊎◌, refl, ◌∙◌, Bool, true, false, ◌==◌, if◌then◌else◌, arith, ==→eq,
  ==→ne, eq→==, ne→==, Bool-cases, inl, inr,
}
use mosix_3d.Mem.Paging.{
  Tables, get_index, get_mapping_pte, get_mapping_pde, get_mapping_pdpte, get_mapping_pml4e,
  present, store_word, zero_page, ensure, set_pml4e, set_pdpte, set_pde, set_mapping_route,
  self_ref2, self_ref3, self_ref4,
}
use mosix_3d.Mem.Freelist.{Extents}
use mosix_3d.Mem.Paging.Translate.{
  translate, IsOutside, read_elsewhere, Untouched, untouched4, untouched3, untouched2,
  translate-Untouched, Under, translate-Under, absent, same_entry,
}

-- Equal indices at a level have their entries of the level below in one table.
same_table4 :
    (a b : ℕ)
    → get_index a / 2 ^ 27 ≡ get_index b / 2 ^ 27
    → get_mapping_pdpte b / 2 ^ 12 ≡ get_mapping_pdpte a / 2 ^ 12
same_table4 a b e = omega arith

same_table3 :
    (a b : ℕ)
    → get_index a / 2 ^ 18 ≡ get_index b / 2 ^ 18
    → get_mapping_pde b / 2 ^ 12 ≡ get_mapping_pde a / 2 ^ 12
same_table3 a b e = omega arith

same_table2 :
    (a b : ℕ)
    → get_index a / 2 ^ 9 ≡ get_index b / 2 ^ 9
    → get_mapping_pte b / 2 ^ 12 ≡ get_mapping_pte a / 2 ^ 12
same_table2 a b e = omega arith

-- A new table at `e` is harmless for `b`.
abbrev Harmless : (ℕ → ℕ) → ℕ → ℕ → ℕ → Type 0
Harmless words e p b = present (words e) ≡ false → Untouched e p b ⊎ Under words e p b

harmless4 :
    (words : ℕ → ℕ) (a b : ℕ)
    → IsOutside a
    → IsOutside b
    → Harmless words (get_mapping_pml4e a) (get_mapping_pdpte a) b
harmless4 words a b oa ob p =
    let i = get_index a / 2 ^ 27 in
    let j = get_index b / 2 ^ 27 in
    elim (Bool-cases (i == j)) [
      | inl e ↦ inr (
        absent words b (inl (same_entry words self_ref4 i j (==→eq i j e) p)),
        inl (same_table4 a b (==→eq i j e)),
      )
      | inr n ↦ inl (untouched4 a b oa ob (==→ne i j n))
    ]

harmless3 :
    (words : ℕ → ℕ) (a b : ℕ)
    → IsOutside a
    → IsOutside b
    → Harmless words (get_mapping_pdpte a) (get_mapping_pde a) b
harmless3 words a b oa ob p =
    let i = get_index a / 2 ^ 18 in
    let j = get_index b / 2 ^ 18 in
    elim (Bool-cases (i == j)) [
      | inl e ↦ inr (
        absent words b (inr (inl (same_entry words self_ref3 i j (==→eq i j e) p))),
        inr (inl (same_table3 a b (==→eq i j e))),
      )
      | inr n ↦ inl (untouched3 a b oa ob (==→ne i j n))
    ]

harmless2 :
    (words : ℕ → ℕ) (a b : ℕ)
    → IsOutside a
    → IsOutside b
    → Harmless words (get_mapping_pde a) (get_mapping_pte a) b
harmless2 words a b oa ob p =
    let i = get_index a / 2 ^ 9 in
    let j = get_index b / 2 ^ 9 in
    elim (Bool-cases (i == j)) [
      | inl e ↦ inr (
        absent words b (inr (inr (inl (same_entry words self_ref2 i j (==→eq i j e) p)))),
        inr (inr (same_table2 a b (==→eq i j e))),
      )
      | inr n ↦ inl (untouched2 a b oa ob (==→ne i j n))
    ]

-- One level of a route: `q` where the entry is present, and `z` where there is no page.
abbrev pub grown : Bool → Bool → Tables → Extents → ℕ → ℕ → ℕ → Tables
grown q z t free e v p =
    if q
    then t
    else if z
    then record t { lost = true }
    else record t { words = zero_page (store_word t.words e v) p; free = free }

translate-grown :
    (q z : Bool) (t : Tables) (free : Extents) (e v p b : ℕ)
    → (q ≡ false → Untouched e p b ⊎ Under t.words e p b)
    → translate (grown q z t free e v p).words b ≡ translate t.words b
translate-grown true z t free e v p b h = refl
translate-grown false true t free e v p b h = refl
translate-grown false false t free e v p b h = elim (h refl) [
  | inl u ↦ translate-Untouched t.words e v p b u
  | inr u ↦ translate-Under t.words e v p b u
]

pub grown_lost :
    (q z : Bool) (t : Tables) (free : Extents) (e v p : ℕ)
    → (grown q z t free e v p).lost ≡ false
    → t.lost ≡ false
grown_lost true z t free e v p h = h
grown_lost false true t free e v p h = absurd cc
grown_lost false false t free e v p h = h

pub grown_there :
    (q z : Bool) (t : Tables) (free : Extents) (e v p : ℕ)
    → (q ≡ true → present (t.words e) ≡ true)
    → present v ≡ true
    → e / 2 ^ 12 ≢ p / 2 ^ 12
    → (grown q z t free e v p).lost ≡ false
    → present ((grown q z t free e v p).words e) ≡ true
grown_there true z t free e v p h pv ne l = h refl
grown_there false true t free e v p h pv ne l = absurd cc
grown_there false false t free e v p h pv ne l =
    rw (ne→== (e / 2 ^ 12) (p / 2 ^ 12) ne, eq→== e e refl) pv

pub grown_keeps :
    (q z : Bool) (t : Tables) (free : Extents) (e v p x : ℕ)
    → x ≢ e
    → x / 2 ^ 12 ≢ p / 2 ^ 12
    → (grown q z t free e v p).words x ≡ t.words x
grown_keeps true z t free e v p x n m = refl
grown_keeps false true t free e v p x n m = refl
grown_keeps false false t free e v p x n m = read_elsewhere t.words e v p x n m

-- A new route translates nothing.
pub translate-set_mapping_route :
    (t : Tables) (a b : ℕ)
    → IsOutside a
    → IsOutside b
    → translate (set_mapping_route t a).words b ≡ translate t.words b
unfolding set_mapping_route ensure set_pml4e set_pdpte set_pde
translate-set_mapping_route t a b oa ob =
    let t4 = ensure set_pml4e (get_mapping_pml4e a) (get_mapping_pdpte a) t in
    let t3 = ensure set_pdpte (get_mapping_pdpte a) (get_mapping_pde a) t4 in
    translate-grown _ _ t3 _ _ _ _ b (harmless2 t3.words a b oa ob)
    ∙ translate-grown _ _ t4 _ _ _ _ b (harmless3 t4.words a b oa ob)
    ∙ translate-grown _ _ t _ _ _ _ b (harmless4 t.words a b oa ob)

-- A route that is not lost starts from tables that are not.
pub set_mapping_route_lost :
    (t : Tables) (a : ℕ) → (set_mapping_route t a).lost ≡ false → t.lost ≡ false
unfolding set_mapping_route ensure set_pml4e set_pdpte set_pde
set_mapping_route_lost t a l =
    let t4 = ensure set_pml4e (get_mapping_pml4e a) (get_mapping_pdpte a) t in
    let t3 = ensure set_pdpte (get_mapping_pdpte a) (get_mapping_pde a) t4 in
    grown_lost _ _ t _ _ _ _ (grown_lost _ _ t4 _ _ _ _ (grown_lost _ _ t3 _ _ _ _ l))
