-- ===== src/Mem/Paging/Entry.antt =====
-- The fields of an entry that `set_pte` and the other three write.
use mosix_3d.Prelude.{
  ℕ, ◌+◌, ◌*◌, ◌/◌, ◌%◌, ◌^◌, ◌≤◌, ◌<◌, ◌≡◌, refl, ap, ◌∙◌, Bool, true, false, ◌==◌, if◌then◌else◌,
  arith,
}
use mosix_3d.Mem.Paging.{entry, frame, present, has_attr}

-- A sum of bits below 12, a frame and the highest bit.
frame_of_sum :
    (w u h c f x : ℕ)
    → w ≤ 2
    → u ≤ 4
    → h ≤ 8
    → c ≤ 16
    → f < 2 ^ 40
    → frame (1 + (w + (u + (h + (c + (f * 2 ^ 12 + x * 2 ^ 63)))))) ≡ f
frame_of_sum w u h c f x p q r s l = omega arith

bit_le : (b : Bool) (m : ℕ) → (if b then m else 0) ≤ m
bit_le true m = omega arith
bit_le false m = omega arith

top : (b : Bool) → (if b then 2 ^ 63 else 0) ≡ (if b then 1 else 0) * 2 ^ 63
top true = refl
top false = refl

low : (b : Bool) → (if b then 0 else 2) ≤ 2
low true = omega arith
low false = omega arith

pub frame-entry : (addr attr : ℕ) → frame (entry addr attr) ≡ addr / 2 ^ 12 % 2 ^ 40
unfolding entry
frame-entry addr attr =
    let f = addr / 2 ^ 12 % 2 ^ 40 in
    ap
      (λ z. frame (
        1
        + ((if has_attr attr 8 then 0 else 2)
            + ((if has_attr attr 1 then 4 else 0)
                + ((if has_attr attr 4 then 8 else 0)
                    + ((if has_attr attr 2 then 16 else 0) + (f * 2 ^ 12 + z)))))))
      (top (has_attr attr 16))
    ∙ frame_of_sum _ _ _ _ f _ (low (has_attr attr 8)) (bit_le (has_attr attr 1) 4)
        (bit_le (has_attr attr 4) 8) (bit_le (has_attr attr 2) 16) (omega arith)

even : (b : Bool) (m : ℕ) → m % 2 ≡ 0 → (if b then m else 0) % 2 ≡ 0
even true m e = e
even false m e = refl

even_low : (b : Bool) → (if b then 0 else 2) % 2 ≡ 0
even_low true = refl
even_low false = refl

odd_sum :
    (w u h c f x : ℕ)
    → w % 2 ≡ 0
    → u % 2 ≡ 0
    → h % 2 ≡ 0
    → c % 2 ≡ 0
    → x % 2 ≡ 0
    → (1 + (w + (u + (h + (c + (f * 2 ^ 12 + x)))))) % 2 ≡ 1
odd_sum w u h c f x p q r s t = omega arith

pub present-entry : (addr attr : ℕ) → present (entry addr attr) ≡ true
unfolding entry
present-entry addr attr =
    ap (λ z. z == 1)
      (odd_sum _ _ _ _ (addr / 2 ^ 12 % 2 ^ 40) _ (even_low (has_attr attr 8))
        (even (has_attr attr 1) 4 refl) (even (has_attr attr 4) 8 refl)
        (even (has_attr attr 2) 16 refl) (even (has_attr attr 16) (2 ^ 63) refl))
