-- ===== src/Mem/Paging/Range.antt =====
-- What `set_mappings` does to the translation of every address.
use mosix_3d.Prelude.{
  ℕ, zero, suc, ◌+◌, ◌-◌, ◌*◌, ◌/◌, ◌%◌, ◌^◌, ◌≤◌, ◌<◌, ◌≡◌, ◌≢◌, ◌⊎◌, refl, ap, ◌∙◌, sym, Bool,
  true, false, ◌==◌, if◌then◌else◌, Option, some, arith, ==→eq, ==→ne, eq→==, ne→==, Bool-cases,
  inl, inr, u64, leb, ltb, le→leb, lt→ltb, lt→leb, le→ltb, ltb→lt, ltb→le, ◌&&◌,
}
use mathlib.Core.Path.{subst}
use mosix_3d.Mem.Pages.{page_size}
use mosix_3d.Mem.Paging.{
  Tables, get_index, set_mapping_route, set_mapping_entry, set_mapping, map_pages, set_mappings,
}
use mosix_3d.Mem.Paging.Translate.{translate, IsOutside}
use mosix_3d.Mem.Paging.Route.{set_mapping_route_lost}
use mosix_3d.Mem.Paging.Mapping.{translate-set_mapping}

-- The `n` pages from index `i` on are the frames from `f` on; the other pages have `o`.
unfoldable pub mapped : ℕ → ℕ → ℕ → ℕ → Option ℕ → Option ℕ
mapped i n f j o = if leb i j && ltb j (i + n) then some ((f + (j - i)) % 2 ^ 40) else o

mapped_zero : (i f j : ℕ) (o : Option ℕ) → o ≡ mapped i 0 f j o
unfolding mapped
mapped_zero i f j o = ground arith

frame_step :
    (f f' i j : ℕ)
    → f' % 2 ^ 40 ≡ (f + 1) % 2 ^ 40
    → i < j
    → (f' + (j - (i + 1))) % 2 ^ 40 ≡ (f + (j - i)) % 2 ^ 40
frame_step f f' i j e l = omega arith

frame_start : (f i j : ℕ) → i ≡ j → f % 2 ^ 40 ≡ (f + (j - i)) % 2 ^ 40
frame_start f i j e = omega arith

pub mapped_in :
    (i n f j : ℕ) (o : Option ℕ)
    → i ≤ j
    → j < i + n
    → mapped i n f j o ≡ some ((f + (j - i)) % 2 ^ 40)
unfolding mapped
mapped_in i n f j o l m = rw (le→leb i j l, lt→ltb j (i + n) m) refl

pub mapped_out : (i n f j : ℕ) (o : Option ℕ) → (j < i) ⊎ (i + n ≤ j) → mapped i n f j o ≡ o
unfolding mapped
mapped_out i n f j o (inl l) = rw (lt→leb i j l) refl
mapped_out i n f j o (inr l) = rw (le→leb i j (omega arith), le→ltb j (i + n) l) refl

-- Behind its first page a range is the range of the others.
mapped_behind :
    (i i' n f f' j : ℕ) (o : Option ℕ)
    → (0 < n → i' ≡ i + 1)
    → f' % 2 ^ 40 ≡ (f + 1) % 2 ^ 40
    → i ≢ j
    → (j < i + suc n) ⊎ (i + suc n ≤ j)
    → (j < i) ⊎ (i < j)
    → mapped i' n f' j o ≡ mapped i (suc n) f j o
mapped_behind i i' zero f f' j o h e ne m l =
    sym (mapped_zero i' f' j o) ∙ sym (mapped_out i 1 f j o (omega arith))
mapped_behind i i' (suc n) f f' j o h e ne m (inl l) =
    mapped_out i' (suc n) f' j o (inl (subst (λ z. j < z) (sym (h (omega arith))) (omega arith)))
    ∙ sym (mapped_out i (suc (suc n)) f j o (inl l))
mapped_behind i i' (suc n) f f' j o h e ne (inr m) (inr l) =
    mapped_out i' (suc n) f' j o
      (inr (subst (λ z. z + suc n ≤ j) (sym (h (omega arith))) (omega arith)))
    ∙ sym (mapped_out i (suc (suc n)) f j o (inr m))
mapped_behind i i' (suc n) f f' j o h e ne (inl m) (inr l) =
    ap (λ z. mapped z (suc n) f' j o) (h (omega arith))
    ∙ mapped_in (i + 1) (suc n) f' j o (omega arith) (omega arith)
    ∙ ap some (frame_step f f' i j e l)
    ∙ sym (mapped_in i (suc (suc n)) f j o (omega arith) m)

below : (a b : ℕ) → (a < b) ⊎ (b ≤ a)
below a b = elim (Bool-cases (ltb a b)) [ inl p ↦ inl (ltb→lt a b p) | inr p ↦ inr (ltb→le a b p) ]

apart : (i j : ℕ) → i ≢ j → (j < i) ⊎ (i < j)
apart i j ne = elim (below j i) [ inl p ↦ inl p | inr p ↦ inr (omega arith) ]

mapped-suc :
    (i i' n f f' j : ℕ) (o : Option ℕ)
    → (0 < n → i' ≡ i + 1)
    → f' % 2 ^ 40 ≡ (f + 1) % 2 ^ 40
    → i + suc n ≤ 2 ^ 36
    → mapped i' n f' j (if i == j then some (f % 2 ^ 40) else o) ≡ mapped i (suc n) f j o
mapped-suc i i' n f f' j o h e l = elim (Bool-cases (i == j)) [
  | inl q ↦ rw q (
      first n h (==→eq i j q)
      ∙ ap some (frame_start f i j (==→eq i j q))
      ∙ sym (mapped_in i (suc n) f j o (omega (arith, ==→eq i j q)) (omega (arith, ==→eq i j q))))
  | inr q ↦ rw q (
      mapped_behind i i' n f f' j o h e (==→ne i j q) (below j (i + suc n))
        (apart i j (==→ne i j q)))
]
  where
    first :
        (n : ℕ)
        → (0 < n → i' ≡ i + 1)
        → i ≡ j
        → mapped i' n f' j (some (f % 2 ^ 40)) ≡ some (f % 2 ^ 40)
    first zero h q = sym (mapped_zero i' f' j (some (f % 2 ^ 40)))
    first (suc n) h q =
        mapped_out i' (suc n) f' j (some (f % 2 ^ 40))
          (inl (subst (λ z. j < z) (sym (h (omega arith))) (omega arith)))

-- The range of pages ends before the windows, or starts behind them.
abbrev pub IsClear : ℕ → ℕ → Type 0
IsClear i n = (i + n ≤ 2 ^ 36) × ((i + n ≤ 0x1fe * 2 ^ 27) ⊎ (0x1ff * 2 ^ 27 ≤ i))

outside : (a n : ℕ) → IsClear (get_index a) (suc n) → IsOutside a
outside a n (l, inl c) = omega arith
outside a n (l, inr c) = omega arith

frames : (phy : ℕ) → u64 (phy + page_size) / 2 ^ 12 % 2 ^ 40 ≡ (phy / 2 ^ 12 + 1) % 2 ^ 40
frames phy = omega arith

next_index :
    (a n : ℕ)
    → get_index a + suc n ≤ 2 ^ 36
    → 0 < n
    → get_index (u64 (a + page_size)) ≡ get_index a + 1
next_index a n l p = omega arith

-- A turn with its test decided.
turn :
    (n linidx : ℕ) (t : Tables) (a phy attr : ℕ) (q : Bool)
    → (a / 2 ^ 12 == linidx) ≡ q
    → map_pages (suc n) linidx t a phy attr
      ≡ map_pages n linidx
          (set_mapping_entry (if q then t else set_mapping_route t a) a phy attr)
          (u64 (a + page_size))
          (u64 (phy + page_size))
          attr
unfolding map_pages
turn n linidx t a phy attr q e =
    ap
      (λ q.
        map_pages n linidx (set_mapping_entry (if q then t else set_mapping_route t a) a phy attr)
          (u64 (a + page_size)) (u64 (phy + page_size)) attr)
      e

next-IsClear :
    (a n : ℕ) → IsClear (get_index a) (suc n) → 0 < n → IsClear (get_index (u64 (a + page_size))) n
next-IsClear a n (l, c) p =
    subst (λ z. IsClear z n) (sym (next_index a n l p)) (omega arith, moved c)
  where
    moved :
        (get_index a + suc n ≤ 0x1fe * 2 ^ 27) ⊎ (0x1ff * 2 ^ 27 ≤ get_index a)
        → (get_index a + 1 + n ≤ 0x1fe * 2 ^ 27) ⊎ (0x1ff * 2 ^ 27 ≤ get_index a + 1)
    moved (inl c) = inl (omega arith)
    moved (inr c) = inr (omega arith)

behind_start :
    (a n l : ℕ)
    → a < 2 ^ 64
    → get_index a + suc n ≤ 2 ^ 36
    → l ≤ a / 2 ^ 12
    → 0 < n
    → l < u64 (a + page_size) / 2 ^ 12
behind_start a n l w c le p = omega arith

differ : {l m : ℕ} → l < m → m ≢ l
differ p = omega arith

-- A page mapped, and then the pages behind it.
step :
    (n : ℕ) (t : Tables) (a phy attr b : ℕ)
    → IsClear (get_index a) (suc n)
    → IsOutside b
    → (set_mapping t a phy attr).lost ≡ false
    → mapped
        (get_index (u64 (a + page_size)))
        n
        (u64 (phy + page_size) / 2 ^ 12)
        (get_index b)
        (translate (set_mapping t a phy attr).words b)
      ≡ mapped (get_index a) (suc n) (phy / 2 ^ 12) (get_index b) (translate t.words b)
step n t a phy attr b clear ob w =
    let i = get_index (u64 (a + page_size)) in
    let f = u64 (phy + page_size) / 2 ^ 12 in
    ap (mapped i n f (get_index b)) (translate-set_mapping t a phy attr b (outside a n clear) ob w)
    ∙ mapped-suc (get_index a) i n (phy / 2 ^ 12) f (get_index b) (translate t.words b)
        (next_index a n clear.0) (frames phy) clear.0

-- Pages that are mapped without a loss start from tables that are not lost.
map_pages_lost :
    (n linidx : ℕ) (t : Tables) (a phy attr : ℕ)
    → (map_pages n linidx t a phy attr).lost ≡ false
    → t.lost ≡ false
unfolding map_pages set_mapping_entry
map_pages_lost zero linidx t a phy attr l = l
map_pages_lost (suc n) linidx t a phy attr l = elim (Bool-cases (a / 2 ^ 12 == linidx)) [
  | inl q ↦
      map_pages_lost n linidx (set_mapping_entry t a phy attr) (u64 (a + page_size))
        (u64 (phy + page_size)) attr
        (sym (ap (λ r. r.lost) (turn n linidx t a phy attr true q)) ∙ l)
  | inr q ↦ set_mapping_route_lost t a (
      map_pages_lost n linidx (set_mapping_entry (set_mapping_route t a) a phy attr)
        (u64 (a + page_size)) (u64 (phy + page_size)) attr
        (sym (ap (λ r. r.lost) (turn n linidx t a phy attr false q)) ∙ l))
]

-- The pages behind the first one: each has its route made, since its number is not `linidx`.
translate-map_pages :
    (n linidx : ℕ) (t : Tables) (a phy attr b : ℕ)
    → a < 2 ^ 64
    → (0 < n → linidx < a / 2 ^ 12)
    → (0 < n → IsClear (get_index a) n)
    → IsOutside b
    → (map_pages n linidx t a phy attr).lost ≡ false
    → translate (map_pages n linidx t a phy attr).words b
      ≡ mapped (get_index a) n (phy / 2 ^ 12) (get_index b) (translate t.words b)
unfolding map_pages set_mapping set_mapping_entry
translate-map_pages zero linidx t a phy attr b w p c ob z =
    mapped_zero (get_index a) (phy / 2 ^ 12) (get_index b) (translate t.words b)
translate-map_pages (suc n) linidx t a phy attr b w p c ob z =
    let clear = c (omega arith) in
    let after = p (omega arith) in
    let next = set_mapping_entry (set_mapping_route t a) a phy attr in
    let rest =
      sym (
        ap (λ r. r.lost)
          (turn n linidx t a phy attr false (ne→== (a / 2 ^ 12) linidx (differ after))))
      ∙ z in
    ap (λ r. translate r.words b)
      (turn n linidx t a phy attr false (ne→== (a / 2 ^ 12) linidx (differ after)))
    ∙ translate-map_pages n linidx next (u64 (a + page_size)) (u64 (phy + page_size)) attr b
        (omega arith) (behind_start a n linidx w clear.0 (omega arith)) (next-IsClear a n clear) ob
        rest
    ∙ step n t a phy attr b clear ob
        (map_pages_lost n linidx next (u64 (a + page_size)) (u64 (phy + page_size)) attr rest)

-- `set_mappings` maps the pages of a range, one or more, to consecutive pages of physical memory, and
-- leaves the translation of every address outside the range, where no table is lost, so that each was
-- allocated; the windows themselves are left out.
pub translate-set_mappings :
    (t : Tables) (a phy size attr b : ℕ)
    → a < 2 ^ 64
    → 0 < size
    → IsClear (get_index a) size
    → IsOutside b
    → (set_mappings t a phy size attr).lost ≡ false
    → translate (set_mappings t a phy size attr).words b
      ≡ mapped (get_index a) size (phy / 2 ^ 12) (get_index b) (translate t.words b)
unfolding set_mappings set_mapping set_mapping_entry
translate-set_mappings t a phy zero attr b w p clear ob z = elim (differ p refl) [ ]
translate-set_mappings t a phy (suc n) attr b w p clear ob z =
    let r = set_mapping_route t a in
    let next = set_mapping_entry r a phy attr in
    let rest =
      sym (
        ap (λ r. r.lost)
          (turn n (a / 2 ^ 12) r a phy attr true (eq→== (a / 2 ^ 12) (a / 2 ^ 12) refl)))
      ∙ z in
    ap (λ r. translate r.words b)
      (turn n (a / 2 ^ 12) r a phy attr true (eq→== (a / 2 ^ 12) (a / 2 ^ 12) refl))
    ∙ translate-map_pages n (a / 2 ^ 12) next (u64 (a + page_size)) (u64 (phy + page_size)) attr b
        (omega arith) (behind_start a n (a / 2 ^ 12) w clear.0 (omega arith))
        (next-IsClear a n clear) ob rest
    ∙ step n t a phy attr b clear ob
        (map_pages_lost n (a / 2 ^ 12) next (u64 (a + page_size)) (u64 (phy + page_size)) attr rest)

pub set_mappings_lost :
    (t : Tables) (a phy size attr : ℕ)
    → (set_mappings t a phy size attr).lost ≡ false
    → t.lost ≡ false
unfolding set_mappings
set_mappings_lost t a phy size attr z =
    set_mapping_route_lost t a
      (map_pages_lost size (a / 2 ^ 12) (set_mapping_route t a) a phy attr z)
