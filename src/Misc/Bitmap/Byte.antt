-- ===== src/Misc/Bitmap/Byte.antt =====
-- The bits of a byte, checked over all bytes.
use Prim.Native.Nat.{bit_and, bit_or}
use mosix_3d.Prelude.{
  ℕ, ◌-◌, ◌^◌, ◌<◌, ◌≡◌, refl, Bool, true, ◌&&◌, ◌==◌, ltb, if◌then◌else◌, ==→eq, passes, passes_at,
}
use mosix_3d.Misc.Bitmap.{bit_of}

-- The property at all bytes `c` and all pairs of bit numbers.
check : (ℕ → ℕ → ℕ → Bool) → Bool
unfolding passes
check p = passes (λ c. passes (λ j. passes (λ i. p c j i) 8) 8) 256

check_sound :
    (p : ℕ → ℕ → ℕ → Bool) (c j i : ℕ) → check p ≡ true → c < 256 → j < 8 → i < 8 → p c j i ≡ true
unfolding check
check_sound p c j i h hc hj hi =
    let at_c = passes_at (λ c. passes (λ j. passes (λ i. p c j i) 8) 8) 256 c hc h in
    let at_j = passes_at (λ j. passes (λ i. p c j i) 8) 8 j hj at_c in
    passes_at (λ i. p c j i) 8 i hi at_j

abbrev set_test : ℕ → ℕ → ℕ → Bool
set_test c j i = bit_of (bit_or c (2 ^ j)) i == (if i == j then 1 else bit_of c i)

abbrev clear_test : ℕ → ℕ → ℕ → Bool
clear_test c j i = bit_of (bit_and c (0xff - 2 ^ j)) i == (if i == j then 0 else bit_of c i)

abbrev range_test : ℕ → ℕ → ℕ → Bool
range_test c j i = ltb (bit_or c (2 ^ j)) 256 && ltb (bit_and c (0xff - 2 ^ j)) 256

set_table : check set_test ≡ true
unfolding check
set_table = refl

clear_table : check clear_test ≡ true
unfolding check
clear_table = refl

pub bit_of-bit_or :
    (c j i : ℕ)
    → c < 256
    → j < 8
    → i < 8
    → bit_of (bit_or c (2 ^ j)) i ≡ (if i == j then 1 else bit_of c i)
bit_of-bit_or c j i hc hj hi = ==→eq _ _ (check_sound set_test c j i set_table hc hj hi)

pub bit_of-bit_and :
    (c j i : ℕ)
    → c < 256
    → j < 8
    → i < 8
    → bit_of (bit_and c (0xff - 2 ^ j)) i ≡ (if i == j then 0 else bit_of c i)
bit_of-bit_and c j i hc hj hi = ==→eq _ _ (check_sound clear_test c j i clear_table hc hj hi)
