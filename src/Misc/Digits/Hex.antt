-- ===== src/Misc/Digits/Hex.antt =====
-- The text that `hex2str` writes, and the bytes around it.
use mosix_3d.Prelude.{
  ℕ, zero, suc, ◌+◌, ◌-◌, ◌*◌, ◌/◌, ◌%◌, ◌^◌, ◌<◌, ◌≡◌, ◌≢◌, refl, ap, ◌∙◌, true, false, ◌==◌,
  if◌then◌else◌, arith, Bool-cases, inl, inr, ==→eq, ==→ne,
}
use mosix_3d.Misc.Memory.{Memory, put}
use mosix_3d.Misc.Memory.Move.{within}
use mosix_3d.Misc.Digits.{hexdig, digit_count, write_digits, hex2str}

-- The hexadecimal digit of `x` with `k` digits behind it.
pub nibble : ℕ → ℕ → ℕ
nibble zero x = x % 16
nibble (suc k) x = nibble k (x / 16)

-- `x` without its last `k` digits.
pub shifted : ℕ → ℕ → ℕ
shifted zero x = x
shifted (suc k) x = shifted k (x / 16)

write_digits_lem :
    (mem : Memory) (dst n i x : ℕ)
    → write_digits mem dst n i x
      ≡ (if within dst n x then hexdig (nibble (dst + n - 1 - x) i) else mem x)
unfolding write_digits nibble
write_digits_lem mem dst zero i x = ground arith
write_digits_lem mem dst (suc n) i x =
    let ih = write_digits_lem (put mem (dst + n) (hexdig (i % 2 ^ 4))) dst n (i / 2 ^ 4) x in
    elim (Bool-cases (within dst n x)) [
      | inl e ↦
          let w : within dst (suc n) x ≡ true = ground arith in
          let q : dst + suc n - 1 - x ≡ suc (dst + n - 1 - x) = ground arith in
          rw (w, q) (ih ∙ rw e refl)
      | inr e ↦ elim (Bool-cases (dst + n == x)) [
        | inl here ↦
            let w : within dst (suc n) x ≡ true = ground arith in
            let q : dst + suc n - 1 - x ≡ 0 = ground arith in rw (w, q) (ih ∙ rw (e, here) refl)
        | inr there ↦
            let w : within dst (suc n) x ≡ false = ground arith in rw w (ih ∙ rw (e, there) refl)
      ]
    ]

-- `n` is the number of digits of `i` in base 16.
abbrev pub DigitCount : ℕ → ℕ → Type 0
DigitCount n i = (shifted n i ≡ 0) × ((k : ℕ) → k < n → shifted k i ≢ 0)

limit : ℕ → ℕ
limit zero = 1
limit (suc n) = 16 * limit n

shifted_ne :
    (n i : ℕ)
    → i ≢ 0
    → ((k : ℕ) → k < n → shifted k (i / 16) ≢ 0)
    → (k : ℕ) → k < suc n
    → shifted k i ≢ 0
unfolding shifted
shifted_ne n i h f zero l = h
shifted_ne n i h f (suc k) l = f k (omega arith)

DigitCount-suc : (n i : ℕ) → i ≢ 0 → DigitCount n (i / 16) → DigitCount (suc n) i
unfolding shifted
DigitCount-suc n i h (e, f) = (e, shifted_ne n i h f)

digit_count-DigitCount : (n i : ℕ) → i < limit n → DigitCount (digit_count n i) i
unfolding digit_count shifted limit
digit_count-DigitCount zero i h = (omega arith, λ k l. absurd (omega arith))
digit_count-DigitCount (suc n) i h =
    let ih = digit_count-DigitCount n (i / 2 ^ 4) (omega arith) in
    elim (Bool-cases (i == 0)) [
      | inl e ↦ rw e (==→eq i 0 e, λ k l. absurd (omega arith))
      | inr e ↦ rw e (DigitCount-suc (digit_count n (i / 2 ^ 4)) i (==→ne i 0 e) ih)
    ]

-- For a number other than 0, with `n` digits, `hex2str` writes the digits, the highest first, at `dst`,
-- and a 0 in front of them; it leaves all other bytes alone, the one behind the digits too.
pub hex2str_lem :
    (mem : Memory) (i dst x : ℕ)
    → 0 < i
    → i < 2 ^ 64
    → 0 < dst
    → (n : ℕ) × DigitCount n i
      × (hex2str mem i dst x ≡ (
          if dst - 1 == x
          then 0
          else if within dst n x
          then hexdig (nibble (dst + n - 1 - x) i)
          else mem x))
unfolding hex2str limit
hex2str_lem mem i dst x h b d =
    let n = digit_count 16 i in
    let w = write_digits_lem mem dst n i x in
    let z : (i == 0) ≡ false = ground arith in
    (n, digit_count-DigitCount 16 i b, rw z (ap (λ v. if dst - 1 == x then 0 else v) w))
