-- ===== src/Mem/Paging/Mapping.antt =====
-- What `set_mapping`, `set_mappings` and `clear_mapping_entry` do to the translation of every address.
use mosix_3d.Prelude.{
  ℕ, ◌+◌, ◌*◌, ◌/◌, ◌%◌, ◌^◌, ◌≡◌, ◌≢◌, refl, ap, ◌∙◌, sym, true, false, ◌==◌, if◌then◌else◌, some,
  arith, ==→eq, ==→ne, eq→==, ne→==, Bool-cases, inl, inr,
}
use mosix_3d.Mem.Paging.{
  Tables, get_index, get_mapping_pte, get_mapping_pde, get_mapping_pdpte, get_mapping_pml4e,
  present, frame, store_word, ensure, set_pml4e, set_pdpte, set_pde, set_pte, entry,
  set_mapping_route, set_mapping_entry, set_mapping, self_ref, self_ref2, self_ref3, self_ref4,
}
use mosix_3d.Mem.Paging.Entry.{present-entry, frame-entry}
use mosix_3d.Mem.Paging.Translate.{walk, translate, IsOutside, walk-some}
use mosix_3d.Mem.Paging.Route.{grown_lost, grown_there, grown_keeps, translate-set_mapping_route}

-- The three entries above the page are present.
abbrev pub IsRouted : (ℕ → ℕ) → ℕ → Type 0
IsRouted words a =
    (present (words (get_mapping_pml4e a)) ≡ true)
    × (present (words (get_mapping_pdpte a)) ≡ true)
    × (present (words (get_mapping_pde a)) ≡ true)

pub set_mapping_route-IsRouted :
    (t : Tables) (a : ℕ)
    → IsOutside a
    → (set_mapping_route t a).lost ≡ false
    → IsRouted (set_mapping_route t a).words a
unfolding set_mapping_route ensure set_pml4e set_pdpte set_pde
set_mapping_route-IsRouted t a oa l =
    let t4 = ensure set_pml4e (get_mapping_pml4e a) (get_mapping_pdpte a) t in
    let t3 = ensure set_pdpte (get_mapping_pdpte a) (get_mapping_pde a) t4 in
    let l3 = grown_lost _ _ t3 _ _ _ _ l in
    let l4 = grown_lost _ _ t4 _ _ _ _ l3 in
    (
      ap present (
            grown_keeps _ _ t3 _ _ _ _ (get_mapping_pml4e a) (omega arith) (omega arith)
            ∙ grown_keeps _ _ t4 _ _ _ _ (get_mapping_pml4e a) (omega arith) (omega arith))
          ∙ grown_there _ _ t _ _ _ (get_mapping_pdpte a) (λ q. q) (present-entry _ 1) (omega arith)
              l4,
      ap present (grown_keeps _ _ t3 _ _ _ _ (get_mapping_pdpte a) (omega arith) (omega arith))
          ∙ grown_there _ _ t4 _ _ _ (get_mapping_pde a) (λ q. q) (present-entry _ 1) (omega arith)
              l3,
      grown_there _ _ t3 _ _ _ (get_mapping_pte a) (λ q. q) (present-entry _ 1) (omega arith) l,
    )

translate-routed :
    (words : ℕ → ℕ) (a : ℕ)
    → IsRouted words a
    → present (words (get_mapping_pte a)) ≡ true
    → translate words a ≡ some (frame (words (get_mapping_pte a)))
unfolding translate
translate-routed words a (p4, p3, p2) p1 = walk-some _ _ _ _ p4 p3 p2 p1

-- Writing an entry of a page leaves the entries of the other pages.
translate_elsewhere :
    (words : ℕ → ℕ) (a v b : ℕ)
    → IsOutside a
    → IsOutside b
    → get_index a ≢ get_index b
    → translate (store_word words (get_mapping_pte a) v) b ≡ translate words b
unfolding translate
translate_elsewhere words a v b oa ob ne =
    rw
      (
        ne→== (get_mapping_pml4e b) (get_mapping_pte a) (omega arith),
        ne→== (get_mapping_pdpte b) (get_mapping_pte a) (omega arith),
        ne→== (get_mapping_pde b) (get_mapping_pte a) (omega arith),
        ne→== (get_mapping_pte b) (get_mapping_pte a) (omega arith),
      )
      refl

-- The translation goes by the page.
translate_page :
    (words : ℕ → ℕ) (a b : ℕ) → get_index a ≡ get_index b → translate words b ≡ translate words a
unfolding translate
translate_page words a b e =
    ap
      (λ i.
        walk (words (self_ref4 + i / 2 ^ 27 * 8)) (words (self_ref3 + i / 2 ^ 18 * 8))
          (words (self_ref2 + i / 2 ^ 9 * 8)) (words (self_ref + i * 8)))
      (sym e)

elsewhere : (words : ℕ → ℕ) (p v x : ℕ) → x ≢ p → store_word words p v x ≡ words x
elsewhere words p v x ne = rw (ne→== x p ne) refl

here : (words : ℕ → ℕ) (p v : ℕ) → store_word words p v p ≡ v
here words p v = rw (eq→== p p refl) refl

-- An entry written at a page that has its route.
translate_here :
    (words : ℕ → ℕ) (a phy attr : ℕ)
    → IsOutside a
    → IsRouted words a
    → translate (set_pte words (get_mapping_pte a) phy attr) a ≡ some (phy / 2 ^ 12 % 2 ^ 40)
unfolding set_pte
translate_here words a phy attr oa (p4, p3, p2) =
    let v = entry phy attr in
    let w = store_word words (get_mapping_pte a) v in
    translate-routed w a
      (
        ap present (elsewhere words (get_mapping_pte a) v (get_mapping_pml4e a) (omega arith)) ∙ p4,
        ap present (elsewhere words (get_mapping_pte a) v (get_mapping_pdpte a) (omega arith)) ∙ p3,
        ap present (elsewhere words (get_mapping_pte a) v (get_mapping_pde a) (omega arith)) ∙ p2,
      )
      (ap present (here words (get_mapping_pte a) v) ∙ present-entry phy attr)
    ∙ ap (λ e. some (frame e)) (here words (get_mapping_pte a) v)
    ∙ ap some (frame-entry phy attr)

pub translate-set_mapping_entry :
    (t : Tables) (a phy attr b : ℕ)
    → IsOutside a
    → IsOutside b
    → IsRouted t.words a
    → translate (set_mapping_entry t a phy attr).words b
      ≡ (if get_index a == get_index b then some (phy / 2 ^ 12 % 2 ^ 40) else translate t.words b)
unfolding set_mapping_entry set_pte
translate-set_mapping_entry t a phy attr b oa ob r =
    elim (Bool-cases (get_index a == get_index b)) [
      | inl e ↦ rw e (
          translate_page (set_pte t.words (get_mapping_pte a) phy attr) a b
            (==→eq (get_index a) (get_index b) e)
          ∙ translate_here t.words a phy attr oa r)
      | inr n ↦ rw n (
          translate_elsewhere t.words a (entry phy attr) b oa ob
            (==→ne (get_index a) (get_index b) n))
    ]

-- `set_mapping` maps the page of `a` to the page of `phy` and leaves the translation of every address
-- of another page, whether it had one or not, where no table is lost; the windows themselves are left out.
pub translate-set_mapping :
    (t : Tables) (a phy attr b : ℕ)
    → IsOutside a
    → IsOutside b
    → (set_mapping t a phy attr).lost ≡ false
    → translate (set_mapping t a phy attr).words b
      ≡ (if get_index a == get_index b then some (phy / 2 ^ 12 % 2 ^ 40) else translate t.words b)
unfolding set_mapping set_mapping_entry
translate-set_mapping t a phy attr b oa ob l =
    translate-set_mapping_entry (set_mapping_route t a) a phy attr b oa ob
      (set_mapping_route-IsRouted t a oa l)
    ∙ ap (λ o. if get_index a == get_index b then some (phy / 2 ^ 12 % 2 ^ 40) else o)
        (translate-set_mapping_route t a b oa ob)
