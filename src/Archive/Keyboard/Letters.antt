-- ===== src/Archive/Keyboard/Letters.antt =====
-- The characters of the letter keys.
use mosix_3d.Prelude.{
  ℕ, zero, suc, ◌+◌, ◌-◌, ◌<◌, ◌≡◌, refl, Bool, true, not, ◌&&◌, ◌||◌, List, [], ◌∷◌, length, leb,
  ltb, ◌==◌, if◌then◌else◌, get_or, arith, passes, passes_at,
}
use mosix_3d.Archive.Keyboard.{has, key_map, key_map_s, basic_make, swap_case}

-- The key of a scan code is one of the letters.
abbrev pub is_letter : ℕ → Bool
is_letter code = leb b'a' (get_or key_map code 0) && leb (get_or key_map code 0) b'z'

abbrev letter_test : ℕ → Bool
letter_test code =
    if is_letter code
    then (get_or key_map_s code 0 + 0x20 == get_or key_map code 0)
      && (swap_case (get_or key_map code 0) + 0x20 == get_or key_map code 0)
      && (swap_case (get_or key_map_s code 0) == get_or key_map code 0)
      && ltb code 0x47
    else true

letter_table : passes letter_test 0x80 ≡ true
unfolding passes swap_case key_map key_map_s
letter_table = refl

get_or_default : (xs : List ℕ) (i d e : ℕ) → i < length xs → get_or xs i d ≡ get_or xs i e
get_or_default [] i d e h = absurd (omega arith)
get_or_default (x ∷ xs) zero d e h = refl
get_or_default (x ∷ xs) (suc i) d e h = get_or_default xs i d e (omega arith)

length-key_map : (length key_map ≡ 0x59) × (length key_map_s ≡ 0x59)
unfolding key_map key_map_s
length-key_map = (refl, refl)

-- A letter key gives the capital where exactly one of shift and caps lock is on, and else the small
-- letter, whatever num lock is.
pub basic_make_letter :
    (beyond : ℕ → ℕ) (keystat : ℕ) (nmlk : Bool) (code : ℕ)
    → code < 0x59
    → is_letter code ≡ true
    → basic_make beyond keystat nmlk code ≡ (
        if (has keystat 4 && not (has keystat 8)) || (not (has keystat 4) && has keystat 8)
        then get_or key_map code 0 - 0x20
        else get_or key_map code 0)
unfolding basic_make
basic_make_letter beyond keystat nmlk code h l =
    let t = passes_at letter_test 0x80 code (omega arith) letter_table in
    let n = length-key_map in
    let small = get_or_default key_map code (beyond code) 0 (omega arith) in
    let big = get_or_default key_map_s code (beyond code) 0 (omega arith) in
    rw (small, big) (ground arith)
