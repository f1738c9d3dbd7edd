-- ===== src/Archive/Sprintf/Number.antt =====
-- The numbers that `number` writes are those that `skip_atoi` reads.
use mosix_3d.Prelude.{
  ℕ, zero, suc, ◌+◌, ◌-◌, ◌*◌, ◌/◌, ◌%◌, ◌^◌, ◌<◌, ◌⊎◌, ◌≡◌, refl, ap, ◌∙◌, sym, Bool, true, false,
  ◌&&◌, List, [], ◌∷◌, ◌++◌, ltb, ◌==◌, if◌then◌else◌, length, replicate, arith, Bool-cases, inl,
  inr, ==→eq,
}
use mathlib.Core.List.{append-nil}
use mosix_3d.Archive.Sprintf.{
  Flags, is_digit, atoi_from, skip_atoi, digit, digits_of, number_digits, backwards, number,
  laid_out, sign_of, prefix, magnitude,
}

-- All characters are decimal digits.
abbrev pub Digits : List ℕ → Type 0
Digits [] = Unit {0}
Digits (c ∷ s) = (is_digit c ≡ true) × Digits s

-- The text does not go on with a digit.
abbrev pub Stops : List ℕ → Type 0
Stops [] = Unit {0}
Stops (c ∷ s) = is_digit c ≡ false

-- The value of digits behind those that made `i`.
unfoldable pub value : ℕ → List ℕ → ℕ
value i [] = i
value i (c ∷ s) = value (i * 10 + (c - b'0')) s

pub atoi_from-value :
    (i : ℕ) (s rest : List ℕ) → Digits s → Stops rest → atoi_from i (s ++ rest) ≡ (value i s, rest)
unfolding atoi_from value
atoi_from-value i [] [] d e = refl
atoi_from-value i [] (c ∷ rest) d e = rw e refl
atoi_from-value i (c ∷ s) rest d e = rw (d.0) (atoi_from-value (i * 10 + (c - b'0')) s rest d.1 e)

value-snoc : (i : ℕ) (s : List ℕ) (c : ℕ) → value i (s ++ (c ∷ [])) ≡ value i s * 10 + (c - b'0')
unfolding value
value-snoc i [] c = refl
value-snoc i (d ∷ s) c = value-snoc (i * 10 + (d - b'0')) s c

Digits-snoc : (s : List ℕ) (c : ℕ) → Digits s → is_digit c ≡ true → Digits (s ++ (c ∷ []))
Digits-snoc [] c d e = (e, tt)
Digits-snoc (x ∷ s) c d e = (d.0, Digits-snoc s c d.1 e)

digit_lem :
    (upper : Bool) (d : ℕ) → d < 10 → (is_digit (digit upper d) ≡ true) × (digit upper d - b'0' ≡ d)
unfolding digit
digit_lem upper d h = ground arith

limit : ℕ → ℕ
limit zero = 1
limit (suc n) = 10 * limit n

digits_of-value :
    (n : ℕ) (upper : Bool) (num : ℕ)
    → num < limit n
    → let s = backwards (digits_of n upper 10 num) in Digits s × (value 0 s ≡ num)
unfolding digits_of backwards limit value
digits_of-value zero upper num h = (tt, omega arith)
digits_of-value (suc n) upper num h =
    let ih = digits_of-value n upper (num / 10) (omega arith) in
    let s = backwards (digits_of n upper 10 (num / 10)) in
    let d = digit_lem upper (num % 10) (omega arith) in
    let v = value-snoc 0 s (digit upper (num % 10)) in
    elim (Bool-cases (num == 0)) [
      | inl e ↦ rw e (tt, sym (==→eq num 0 e))
      | inr e ↦ rw e (Digits-snoc s (digit upper (num % 10)) ih.0 d.0, omega arith)
    ]

number_digits-value :
    (upper : Bool) (num : ℕ)
    → num < 2 ^ 64
    → let s = backwards (number_digits upper 10 num) in Digits s × (value 0 s ≡ num)
unfolding number_digits
number_digits-value upper num h = elim (Bool-cases (num == 0)) [
  | inl e ↦ unfold backwards value in rw e ((refl, tt), sym (==→eq num 0 e))
  | inr e ↦ rw e (digits_of-value 64 upper num (unfold limit in omega arith))
]

Digits-replicate : (n : ℕ) (s : List ℕ) → Digits s → Digits (replicate n b'0' ++ s)
Digits-replicate zero s d = d
Digits-replicate (suc n) s d = (refl, Digits-replicate n s d)

value-replicate : (n : ℕ) (s : List ℕ) → value 0 (replicate n b'0' ++ s) ≡ value 0 s
unfolding value
value-replicate zero s = refl
value-replicate (suc n) s = value-replicate n s

-- With zero padding, or with nothing to pad, there are zeros and digits only.
laid_out-Digits :
    (zeropad : Bool) (pad lead : ℕ) (s rest : List ℕ)
    → (zeropad ≡ true) ⊎ (pad ≡ 0)
    → Digits s
    → Stops rest
    → atoi_from 0 (laid_out zeropad false [] [] pad lead s ++ rest) ≡ (value 0 s, rest)
unfolding laid_out
laid_out-Digits true pad lead s rest z d e =
    let t = Digits-replicate pad (replicate lead b'0' ++ s) (Digits-replicate lead s d) in
    rw (append-nil s) (
      atoi_from-value 0 (replicate pad b'0' ++ (replicate lead b'0' ++ s)) rest t e
      ∙ ap (λ v. (v, rest))
          (value-replicate pad (replicate lead b'0' ++ s) ∙ value-replicate lead s))
laid_out-Digits false pad lead s rest (inl z) d e = absurd (ground arith)
laid_out-Digits false pad lead s rest (inr z) d e =
    rw (z, append-nil s)
      (atoi_from-value 0 (replicate lead b'0' ++ s) rest (Digits-replicate lead s d) e
        ∙ ap (λ v. (v, rest)) (value-replicate lead s))

unsigned :
    (type : Flags) (num : ℕ)
    → type.sign ≡ false
    → (sign_of type num ≡ []) × (magnitude type num ≡ num)
unfolding sign_of magnitude
unsigned type num s = ground arith

prefix_ten : (type : Flags) → prefix type 10 ≡ []
unfolding prefix
prefix_ten type = ground arith

-- Plain or zero-padded decimal output of an unsigned number, followed by a text that does not begin with
-- a digit, reads back as the number and that text, at any width and precision that need no spaces.
pub skip_atoi-number :
    (num size precision : ℕ) (type : Flags) (rest : List ℕ)
    → num < 2 ^ 64
    → type.sign ≡ false
    → type.left ≡ false
    → (type.zeropad ≡ true) ⊎ (size ≡ 0)
    → Stops rest
    → skip_atoi (number num 10 size precision type ++ rest) ≡ (num, rest)
unfolding skip_atoi number
skip_atoi-number num size precision type rest b s l z e =
    let u = unsigned type num s in
    let d = number_digits-value type.large num b in
    let tmp = number_digits type.large 10 num in
    let wide = if ltb precision (length tmp) then length tmp else precision in
    rw (u.0, prefix_ten type, u.1, l)
      (laid_out-Digits (type.zeropad && true) (size - 0 - 0 - wide) (wide - length tmp)
          (backwards tmp) rest (ground arith) d.0 e
        ∙ ap (λ v. (v, rest)) d.1)
