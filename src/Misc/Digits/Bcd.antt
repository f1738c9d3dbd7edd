-- ===== src/Misc/Digits/Bcd.antt =====
-- What the binary-coded decimals of `hex2bcd` mean.
use mosix_3d.Prelude.{
  ℕ, zero, suc, ◌+◌, ◌*◌, ◌/◌, ◌%◌, ◌^◌, ◌≤◌, ◌≡◌, refl, ap, ◌∙◌, arith, u32, u64,
}
use native.Mathlib.Numerals.{towards_suc}
use mosix_3d.Misc.Digits.{bcd_from, hex2bcd, hex2bcd64}

-- The number whose `n` decimal digits are the nibbles of `b`, the low one first.
pub decimal : ℕ → ℕ → ℕ
decimal zero b = 0
decimal (suc n) b = b % 16 + 10 * decimal n (b / 16)

-- The last `n` decimal digits, one nibble each; the largest such number; and their value.
packed : ℕ → ℕ → ℕ
packed zero i = 0
packed (suc n) i = i % 10 + 16 * packed n (i / 10)

nines : ℕ → ℕ
nines zero = 0
nines (suc n) = 9 + 16 * nines n

low : ℕ → ℕ → ℕ
low zero i = 0
low (suc n) i = i % 10 + 10 * low n (i / 10)

packed-le-nines : (n i : ℕ) → packed n i ≤ nines n
unfolding packed nines
packed-le-nines zero i = omega arith
packed-le-nines (suc n) i = omega (arith, packed-le-nines n (i / 10))

decimal-packed : (n i : ℕ) → decimal n (packed n i) ≡ low n i
unfolding decimal packed low
decimal-packed zero i = refl
decimal-packed (suc n) i =
    let q : (i % 10 + 16 * packed n (i / 10)) / 16 ≡ packed n (i / 10) = omega arith in
    rw q (omega (arith, decimal-packed n (i / 10)))

shift_step : (k : ℕ) → 2 ^ (suc k * 4) ≡ 16 * 2 ^ (k * 4)
shift_step k = let q : suc k * 4 ≡ k * 4 + 4 = omega arith in rw q (simp towards_suc (omega arith))

regroup : (r d p w : ℕ) → r + d * w + p * (16 * w) ≡ r + (d + 16 * p) * w
regroup r d p w = grind arith

bcd_from-packed : (k n i ret : ℕ) → bcd_from k n i ret ≡ ret + packed n i * 2 ^ (k * 4)
unfolding bcd_from packed
bcd_from-packed k zero i ret = omega arith
bcd_from-packed k (suc n) i ret =
    bcd_from-packed (suc k) n (i / 10) (ret + i % 10 * 2 ^ (k * 4))
    ∙ ap (λ w. ret + i % 10 * 2 ^ (k * 4) + packed n (i / 10) * w) (shift_step k)
    ∙ regroup ret (i % 10) (packed n (i / 10)) (2 ^ (k * 4))

low4 : (i : ℕ) → low 4 i ≡ i % 10 ^ 4
unfolding low
low4 i = omega arith

low-add4 : (n i : ℕ) → low (suc (suc (suc (suc n)))) i ≡ i % 10 ^ 4 + 10 ^ 4 * low n (i / 10 ^ 4)
unfolding low
low-add4 n i = let q : i / 10 / 10 / 10 / 10 ≡ i / 10 ^ 4 = omega arith in rw q (omega arith)

low8 : (i : ℕ) → low 8 i ≡ i % 10 ^ 8
low8 i = omega (arith, low-add4 4 i, low4 (i / 10 ^ 4))

low16 : (i : ℕ) → low 16 i ≡ i % 10 ^ 16
low16 i = omega (arith, low-add4 12 i, low-add4 8 (i / 10 ^ 4), low8 (i / 10 ^ 4 / 10 ^ 4))

-- The nibbles of `hex2bcd i` are the last 8 decimal digits of `i`, and those of `hex2bcd64 i` the last
-- 16.
pub hex2bcd-decimal :
    (i : ℕ) → (decimal 8 (hex2bcd i) ≡ i % 10 ^ 8) × (decimal 16 (hex2bcd64 i) ≡ i % 10 ^ 16)
unfolding hex2bcd hex2bcd64
hex2bcd-decimal i =
    let p8 : bcd_from 0 8 i 0 ≡ packed 8 i = omega (arith, bcd_from-packed 0 8 i 0) in
    let p16 : bcd_from 0 16 i 0 ≡ packed 16 i = omega (arith, bcd_from-packed 0 16 i 0) in
    let q8 : u32 (packed 8 i) ≡ packed 8 i = unfold nines in omega (arith, packed-le-nines 8 i) in
    let q16 : u64 (packed 16 i) ≡ packed 16 i =
      unfold nines in omega (arith, packed-le-nines 16 i) in
    (
      ap (decimal 8) (ap u32 p8 ∙ q8) ∙ decimal-packed 8 i ∙ low8 i,
      ap (decimal 16) (ap u64 p16 ∙ q16) ∙ decimal-packed 16 i ∙ low16 i,
    )
