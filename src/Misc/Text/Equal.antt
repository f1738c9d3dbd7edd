-- ===== src/Misc/Text/Equal.antt =====
-- What `strcmp` and `strncmp` decide.
use mosix_3d.Prelude.{ℕ, zero, suc, ◌≡◌, ◌≢◌, [], ◌∷◌, arith, ◌↔◌}
use mosix_3d.Misc.Text.{Text, strcmp, strncmp, strncmp_loop}

-- `strcmp` returns 0 exactly where the two strings are equal.
pub strcmp-zero : (dst src : Text) → (strcmp dst src ≡ 0) ↔ (dst ≡ src)
unfolding strcmp
strcmp-zero [] [] = ground arith
strcmp-zero [] (c ∷ src) = ground arith
strcmp-zero (d ∷ dst) [] = ground arith
strcmp-zero (d ∷ dst) (c ∷ src) = ground (arith, strcmp-zero dst src)

-- The first `n` bytes.
abbrev pub take : ℕ → Text → Text
take zero s = []
take (suc n) [] = []
take (suc n) (c ∷ s) = c ∷ take n s

strncmp_loop-zero :
    (dst src : Text) (n : ℕ) → (strncmp_loop dst src n ≡ 0) ↔ (take n dst ≡ take n src)
unfolding strncmp_loop
strncmp_loop-zero [] [] zero = ground arith
strncmp_loop-zero [] [] (suc n) = ground arith
strncmp_loop-zero [] (c ∷ src) zero = ground arith
strncmp_loop-zero [] (c ∷ src) (suc n) = ground arith
strncmp_loop-zero (d ∷ dst) [] zero = ground arith
strncmp_loop-zero (d ∷ dst) [] (suc n) = ground arith
strncmp_loop-zero (d ∷ dst) (c ∷ src) zero = ground arith
strncmp_loop-zero (d ∷ dst) (c ∷ src) (suc n) = ground (arith, strncmp_loop-zero dst src n)

-- `strncmp` with a positive count returns 0 exactly where the strings agree on their first bytes, of
-- that count; with the count 0 it never returns 0.
pub strncmp-zero :
    (dst src : Text) (n : ℕ) → (strncmp dst src n ≡ 0) ↔ ((n ≢ 0) × (take n dst ≡ take n src))
unfolding strncmp
strncmp-zero dst src zero = ground arith
strncmp-zero dst src (suc n) = ground (arith, strncmp_loop-zero dst src (suc n))
