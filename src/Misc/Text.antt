-- ===== src/Misc/Text.antt =====
-- The string routines of kernel/misc/string.c: `strcmp`, `strncmp` and `strstr`.
--
-- A C string is the list of its bytes without the terminator; no byte of it is 0.
pub mod Equal
pub mod Search
mod Tests
use mosix_3d.Prelude.{
  ℕ, zero, suc, Bool, true, false, List, [], ◌∷◌, Option, none, some, ◌==◌, if◌then◌else◌, ◌^◌, ◌-◌,
  ◌||◌, not,
}

abbrev pub Text : Type 0
Text = List ℕ

-- `*dst || *src`: the terminator of the shorter string differs from the byte of the longer.
unfoldable pub strcmp : Text → Text → ℕ
strcmp [] [] = 0
strcmp [] (c ∷ src) = 1
strcmp (d ∷ dst) [] = 1
strcmp (d ∷ dst) (c ∷ src) = let rest = strcmp dst src in if d == c then rest else 1

-- The loop, behind the test for a count of 0.
unfoldable pub strncmp_loop : Text → Text → ℕ → ℕ
strncmp_loop [] [] n = 0
strncmp_loop dst src zero = 0
strncmp_loop [] (c ∷ src) (suc n) = 1
strncmp_loop (d ∷ dst) [] (suc n) = 1
strncmp_loop (d ∷ dst) (c ∷ src) (suc n) =
    let rest = strncmp_loop dst src n in if d == c then rest else 1

-- -1 is 2^32 - 1.
unfoldable pub strncmp : Text → Text → ℕ → ℕ
unfolding strncmp_loop
strncmp dst src n = if n == 0 then 2 ^ 32 - 1 else strncmp_loop dst src n

-- The inner loop of `strstr`: whether `sub` stands at the start of `str`. An empty `sub` is compared
-- by its terminator, which no byte of `str` equals.
unfoldable pub starts : Text → Text → Bool
starts str [] = false
starts [] (s ∷ sub) = false
starts (c ∷ str) (s ∷ []) = c == s
starts (c ∷ str) (s ∷ t ∷ sub) = let rest = starts str (t ∷ sub) in if c == s then rest else false

-- The index of the pointer that `strstr` returns.
unfoldable pub strstr_from : ℕ → Text → Text → Option ℕ
strstr_from i [] sub = none
strstr_from i (c ∷ str) sub =
    let rest = strstr_from (suc i) str sub in if starts (c ∷ str) sub then some i else rest

unfoldable pub strstr : Text → Text → Option ℕ
unfolding strstr_from
strstr str sub = strstr_from 0 str sub
