-- ===== src/Vfs/Archive/Octal.antt =====
-- The numbers that `oct2bin` reads.
use mosix_3d.Prelude.{
  ℕ, zero, suc, ◌+◌, ◌*◌, ◌/◌, ◌%◌, ◌^◌, ◌<◌, ◌≡◌, refl, ◌∙◌, false, List, [], ◌∷◌, ◌++◌, ◌==◌, u64,
  sub64, arith, ne→==,
}
use mosix_3d.Vfs.Archive.{oct2bin_from, oct2bin}

-- The `k` octal digits of a number, the high one first.
unfoldable pub octal_digits : ℕ → ℕ → List ℕ
octal_digits zero n = []
octal_digits (suc k) n = octal_digits k (n / 8) ++ ((b'0' + n % 8) ∷ [])

-- A number below this has `k` octal digits.
unfoldable pub octal_limit : ℕ → ℕ
octal_limit zero = 1
octal_limit (suc k) = 8 * octal_limit k

-- No space in the text.
unfoldable pub Solid : List ℕ → Type 0
Solid [] = Unit {0}
Solid (c ∷ s) = ((c == b' ') ≡ false) × Solid s

Solid-snoc : (s : List ℕ) (c : ℕ) → Solid s → (c == b' ') ≡ false → Solid (s ++ (c ∷ []))
unfolding Solid
Solid-snoc [] c h e = (e, tt)
Solid-snoc (x ∷ s) c (d, h) e = (d, Solid-snoc s c h e)

octal_digits-Solid : (k n : ℕ) → Solid (octal_digits k n)
unfolding octal_digits Solid
octal_digits-Solid zero n = tt
octal_digits-Solid (suc k) n =
    Solid-snoc (octal_digits k (n / 8)) (b'0' + n % 8) (octal_digits-Solid k (n / 8))
      (ne→== (b'0' + n % 8) b' ' (omega arith))

-- The last digit of a text, with the rest of the field behind a space.
oct2bin_from-snoc :
    (ret : ℕ) (s : List ℕ) (c : ℕ) (rest : List ℕ)
    → Solid s
    → (c == b' ') ≡ false
    → oct2bin_from ret ((s ++ (c ∷ [])) ++ (b' ' ∷ rest))
      ≡ u64 (u64 (oct2bin_from ret (s ++ (b' ' ∷ rest)) * 2 ^ 3) + sub64 c b'0')
unfolding oct2bin_from Solid
oct2bin_from-snoc ret [] c rest h e = rw e refl
oct2bin_from-snoc ret (x ∷ s) c rest (d, h) e =
    rw d (oct2bin_from-snoc (u64 (u64 (ret * 2 ^ 3) + sub64 x b'0')) s c rest h e)

digit_step :
    (v n : ℕ) → v ≡ n / 8 → n < 2 ^ 64 → u64 (u64 (v * 2 ^ 3) + sub64 (b'0' + n % 8) b'0') ≡ n
digit_step v n e h = omega arith

octal_digits-oct2bin :
    (k n : ℕ) (rest : List ℕ)
    → n < octal_limit k
    → n < 2 ^ 64
    → oct2bin_from 0 (octal_digits k n ++ (b' ' ∷ rest)) ≡ n
unfolding octal_digits octal_limit oct2bin_from
octal_digits-oct2bin zero n rest l h = omega arith
octal_digits-oct2bin (suc k) n rest l h =
    oct2bin_from-snoc 0 (octal_digits k (n / 8)) (b'0' + n % 8) rest (octal_digits-Solid k (n / 8))
      (ne→== (b'0' + n % 8) b' ' (omega arith))
    ∙ digit_step (oct2bin_from 0 (octal_digits k (n / 8) ++ (b' ' ∷ rest))) n
        (octal_digits-oct2bin k (n / 8) rest (omega arith) (omega arith)) h

-- `oct2bin` reads back a 64-bit number written in octal, in any number of digits that it fits, up to
-- a space.
pub oct2bin-octal_digits :
    (k n : ℕ) (rest : List ℕ)
    → n < octal_limit k
    → n < 2 ^ 64
    → oct2bin (octal_digits k n ++ (b' ' ∷ rest)) ≡ n
unfolding oct2bin
oct2bin-octal_digits k n rest l h = octal_digits-oct2bin k n rest l h
