-- ===== src/Proc/Space/Mapped.antt =====
-- Which frames a process finds behind its areas and its stack when it starts to run.
use mathlib.Core.Path.{subst}
use mosix_3d.Prelude.{
  sym, ◌≢◌, if◌then◌else◌, ℕ, ◌+◌, ◌-◌, ◌*◌, ◌/◌, ◌%◌, ◌^◌, ◌≤◌, ◌<◌, ◌≡◌, refl, ap, ◌∙◌, true,
  false, [], ◌∷◌, ◌++◌, some, arith, ◌==◌, sub64, ◌⊎◌, inl, inr, Bool-cases,
}
use mosix_3d.Mem.Pages.{alloc_phy, page_size}
use mosix_3d.Mem.Paging.{Tables, get_index, set_mappings}
use mosix_3d.Mem.Paging.Translate.{translate, IsOutside}
use mosix_3d.Mem.Paging.Range.{
  set_mappings_lost, translate-set_mappings, mapped_in, mapped_out, IsClear,
}
use mosix_3d.Exec.Section.{page_attr}
use mosix_3d.Proc.Vmarea.{Vmarea, Areas}
use mosix_3d.Proc.Space.{
  Vmspace, Stack, is_reserved, area_frames, map_area, map_areas, proc_entry_init, alloc_kstack,
  alloc_stack, noexec,
}

-- An area has pages, and lies outside the windows.
abbrev pub IsArea : Vmarea → Type 0
IsArea a = (a.vaddr < 2 ^ 64) × (0 < a.pages) × IsClear (get_index a.vaddr) a.pages

unfoldable pub AreAreas : Areas → Type 0
AreAreas [] = Unit {0}
AreAreas (a ∷ as') = IsArea a × AreAreas as'

-- The page is not one of the area that is mapped.
abbrev pub Misses : Vmarea → ℕ → Type 0
Misses a j = (is_reserved a ≡ true) ⊎ ((j < get_index a.vaddr) ⊎ (get_index a.vaddr + a.pages ≤ j))

unfoldable pub AllMiss : Areas → ℕ → Type 0
AllMiss [] j = Unit {0}
AllMiss (a ∷ as') j = Misses a j × AllMiss as' j

-- The frame of the page `j` of an area.
abbrev pub frame_in : (ℕ → ℕ) → Vmarea → ℕ → ℕ
frame_in shared a j = (area_frames shared a / 2 ^ 12 + (j - get_index a.vaddr)) % 2 ^ 40

-- What is left of a mapping without a loss, where the area is committed.
area_kept :
    (shared : ℕ → ℕ) (t : Tables) (a : Vmarea)
    → (map_area shared t a).lost ≡ false
    → is_reserved a ≡ false
    → (set_mappings t a.vaddr (area_frames shared a) a.pages (page_attr a.flag)).lost ≡ false
unfolding map_area
area_kept shared t a h r =
    subst
      (λ z.
        (if z
          then t
          else set_mappings t a.vaddr (area_frames shared a) a.pages (page_attr a.flag)).lost
        ≡ false)
      r h

map_area_lost :
    (shared : ℕ → ℕ) (t : Tables) (a : Vmarea) → (map_area shared t a).lost ≡ false → t.lost ≡ false
unfolding map_area
map_area_lost shared t a h = elim (Bool-cases (is_reserved a)) [
  | inl r ↦
      subst
        (λ z.
          (if z
            then t
            else set_mappings t a.vaddr (area_frames shared a) a.pages (page_attr a.flag)).lost
          ≡ false)
        r h
  | inr r ↦
      set_mappings_lost t a.vaddr (area_frames shared a) a.pages (page_attr a.flag)
        (area_kept shared t a h r)
]

map_areas_lost :
    (shared : ℕ → ℕ) (t : Tables) (as' : Areas)
    → (map_areas shared t as').lost ≡ false
    → t.lost ≡ false
unfolding map_areas
map_areas_lost shared t [] h = h
map_areas_lost shared t (a ∷ as') h =
    map_area_lost shared t a (map_areas_lost shared (map_area shared t a) as' h)

map_area_missed :
    (shared : ℕ → ℕ) (t : Tables) (a : Vmarea) (b : ℕ)
    → IsArea a
    → IsOutside b
    → Misses a (get_index b)
    → (map_area shared t a).lost ≡ false
    → translate (map_area shared t a).words b ≡ translate t.words b
unfolding map_area
map_area_missed shared t a b v ob (inl r) k = rw r refl
map_area_missed shared t a b v ob (inr out) k = elim (Bool-cases (is_reserved a)) [
  | inl r ↦ rw r refl
  | inr r ↦
      let f = area_frames shared a in
      let z = area_kept shared t a k r in
      rw r (
        translate-set_mappings t a.vaddr f a.pages (page_attr a.flag) b v.0 v.1 v.2 ob z
        ∙ mapped_out (get_index a.vaddr) a.pages (f / 2 ^ 12) (get_index b) (translate t.words b)
            out)
]

map_area_hit :
    (shared : ℕ → ℕ) (t : Tables) (a : Vmarea) (b : ℕ)
    → IsArea a
    → IsOutside b
    → is_reserved a ≡ false
    → get_index a.vaddr ≤ get_index b
    → get_index b < get_index a.vaddr + a.pages
    → (map_area shared t a).lost ≡ false
    → translate (map_area shared t a).words b ≡ some (frame_in shared a (get_index b))
unfolding map_area
map_area_hit shared t a b v ob r l m k =
    let f = area_frames shared a in
    let z = area_kept shared t a k r in
    rw r (
      translate-set_mappings t a.vaddr f a.pages (page_attr a.flag) b v.0 v.1 v.2 ob z
      ∙ mapped_in (get_index a.vaddr) a.pages (f / 2 ^ 12) (get_index b) (translate t.words b) l m)

map_areas_missed :
    (shared : ℕ → ℕ) (t : Tables) (as' : Areas) (b : ℕ)
    → AreAreas as'
    → IsOutside b
    → AllMiss as' (get_index b)
    → (map_areas shared t as').lost ≡ false
    → translate (map_areas shared t as').words b ≡ translate t.words b
unfolding map_areas AreAreas AllMiss
map_areas_missed shared t [] b v ob m k = refl
map_areas_missed shared t (a ∷ as') b (v, vs) ob (m, ms) k =
    map_areas_missed shared (map_area shared t a) as' b vs ob ms k
    ∙ map_area_missed shared t a b v ob m (map_areas_lost shared (map_area shared t a) as' k)

map_areas-append :
    (shared : ℕ → ℕ) (t : Tables) (xs ys : Areas)
    → map_areas shared t (xs ++ ys) ≡ map_areas shared (map_areas shared t xs) ys
unfolding map_areas
map_areas-append shared t [] ys = refl
map_areas-append shared t (x ∷ xs) ys = map_areas-append shared (map_area shared t x) xs ys

-- The start of the committed part of the stack.
abbrev pub committed : Stack → ℕ
committed s = sub64 s.kstack (s.commit * page_size)

abbrev pub IsStack : Stack → Type 0
IsStack s = (committed s < 2 ^ 64) × (0 < s.commit) × IsClear (get_index (committed s)) s.commit

-- A process with an address space of its own finds, from its start on, behind each page of an area that is
-- committed the frame that the area has for it, if neither a later area nor the committed stack has
-- the page too, and no table was lost on the way.
pub proc_entry_init-maps :
    (shared : ℕ → ℕ) (t : Tables) (before after : Areas) (a : Vmarea) (s : Stack) (b : ℕ)
    → IsArea a
    → AreAreas after
    → IsStack s
    → IsOutside b
    → is_reserved a ≡ false
    → get_index a.vaddr ≤ get_index b
    → get_index b < get_index a.vaddr + a.pages
    → AllMiss after (get_index b)
    → (get_index b < get_index (committed s)) ⊎ (get_index (committed s) + s.commit ≤ get_index b)
    → (proc_entry_init shared t (record { areas = before ++ (a ∷ after); ref = 1 }) s).lost ≡ false
    → translate
        (proc_entry_init shared t (record { areas = before ++ (a ∷ after); ref = 1 }) s).words
        b
      ≡ some (frame_in shared a (get_index b))
unfolding proc_entry_init map_areas
proc_entry_init-maps shared t before after a s b va vs st ob r l m miss out k =
    let t0 = map_areas shared t before in
    let t1 = map_areas shared t (before ++ (a ∷ after)) in
    let k1 = set_mappings_lost t1 (committed s) s.phy s.commit noexec k in
    let k2 = sym (ap (λ t. t.lost) (map_areas-append shared t before (a ∷ after))) ∙ k1 in
    translate-set_mappings t1 (committed s) s.phy s.commit noexec b st.0 st.1 st.2 ob k
    ∙ mapped_out (get_index (committed s)) s.commit (s.phy / 2 ^ 12) (get_index b)
        (translate t1.words b) out
    ∙ ap (λ t. translate t.words b) (map_areas-append shared t before (a ∷ after))
    ∙ map_areas_missed shared (map_area shared t0 a) after b vs ob miss k2
    ∙ map_area_hit shared t0 a b va ob r l m (map_areas_lost shared (map_area shared t0 a) after k2)

stack_in :
    (u : Tables) (base phy commit b : ℕ)
    → base < 2 ^ 64
    → 0 < commit
    → IsClear (get_index base) commit
    → IsOutside b
    → get_index base ≤ get_index b
    → get_index b < get_index base + commit
    → (set_mappings u base phy commit noexec).lost ≡ false
    → translate (set_mappings u base phy commit noexec).words b
      ≡ some ((phy / 2 ^ 12 + (get_index b - get_index base)) % 2 ^ 40)
stack_in u base phy commit b w p clear ob l m k =
    translate-set_mappings u base phy commit noexec b w p clear ob k
    ∙ mapped_in (get_index base) commit (phy / 2 ^ 12) (get_index b) (translate u.words b) l m

-- Whether the process has an address space of its own or shares one that is running, its committed stack is
-- mapped to the pages that `alloc_stack` took for it when it starts to run, if there were such pages and no
-- table was lost.
pub proc_entry_init-alloc_stack :
    (shared : ℕ → ℕ) (t : Tables) (vm : Vmspace) (rsv commit top b : ℕ)
    → let base = sub64 top (commit * page_size) in
      0 < commit
      → IsClear (get_index base) commit
      → IsOutside b
      → get_index base ≤ get_index b
      → get_index b < get_index base + commit
      → (alloc_phy t.free commit).0 ≢ 0
      → (proc_entry_init shared
          (alloc_stack t vm rsv commit top).1
          vm
          (alloc_stack t vm rsv commit top).0).lost
        ≡ false
      → let (s, t') = alloc_stack t vm rsv commit top in
        translate (proc_entry_init shared t' vm s).words b
        ≡ some (((alloc_phy t.free commit).0 / 2 ^ 12 + (get_index b - get_index base)) % 2 ^ 40)
unfolding proc_entry_init alloc_stack
proc_entry_init-alloc_stack shared t vm rsv commit top b p clear ob l m some_page k =
    let base = sub64 top (commit * page_size) in
    let phy = (alloc_phy t.free commit).0 in
    let t1 = (alloc_kstack (record t { free = (alloc_phy t.free commit).1 })).1 in
    let (st, t') = alloc_stack t vm rsv commit top in
    let end =
      λ (u : Tables) (e : proc_entry_init shared t' vm st ≡ set_mappings u base phy commit noexec).
        ap (λ z. translate z.words b) e
        ∙ stack_in u base phy commit b (omega arith) p clear ob l m
            (sym (ap (λ z. z.lost) e) ∙ k) in
    elim (Bool-cases (vm.ref == 1)) [
      | inl q ↦ end (map_areas shared t1 vm.areas) (rw q refl)
      | inr q ↦ end t1 (rw q refl)
    ]
