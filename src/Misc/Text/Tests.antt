-- ===== src/Misc/Text/Tests.antt =====
-- Runs on short strings, and the theorems at them.
use mosix_3d.Prelude.{◌≡◌, refl, [], ◌∷◌, some, ◌^◌, ◌-◌}
use mosix_3d.Misc.Text.{Text, strncmp, strstr, starts}

abbrev haystack : Text
haystack = b'a' ∷ b'a' ∷ b'b' ∷ b'a' ∷ b'b' ∷ []

abbrev needle : Text
needle = b'a' ∷ b'b' ∷ []

finds_first : strstr haystack needle ≡ some 1
unfolding strstr starts
finds_first = refl

agrees_at_first : strncmp haystack needle 1 ≡ 0
unfolding strncmp
agrees_at_first = refl

no_count : strncmp haystack haystack 0 ≡ 2 ^ 32 - 1
unfolding strncmp
no_count = refl
