-- ===== src/Archive/Sprintf/Address.antt =====
-- The dotted addresses that `iaddr` writes.
use mosix_3d.Prelude.{
  ℕ, zero, suc, ◌-◌, ◌<◌, ◌≡◌, refl, ap, ◌∙◌, sym, Bool, true, false, ◌&&◌, List, [], ◌∷◌, ◌++◌,
  ◌==◌, if◌then◌else◌, length, arith, passes, passes_at,
}
use mathlib.Core.List.{append-nil}
use mosix_3d.Archive.Sprintf.{
  Flags, is_digit, skip_atoi, digit, decimal_byte, decimal_bytes, iaddr, padded,
}
use mosix_3d.Archive.Sprintf.Number.{Digits, Stops, value, atoi_from-value}

unpadded : (left : Bool) (s : List ℕ) → padded left 0 s ≡ s
unfolding padded
unpadded true s = let z : 0 - length s ≡ 0 = omega arith in rw (z, append-nil s) refl
unpadded false s = let z : 0 - length s ≡ 0 = omega arith in rw z refl

-- All characters are digits, as a test.
abbrev all_digits : List ℕ → Bool
all_digits [] = true
all_digits (c ∷ s) = if is_digit c then all_digits s else false

all_digits-Digits : (s : List ℕ) → all_digits s ≡ true → Digits s
all_digits-Digits [] h = tt
all_digits-Digits (c ∷ s) h =
    let d : is_digit c ≡ true = ground arith in (d, all_digits-Digits s (ground arith))

abbrev byte_test : ℕ → Bool
byte_test n = all_digits (decimal_byte n) && (value 0 (decimal_byte n) == n)

byte_table : passes byte_test 256 ≡ true
unfolding passes decimal_byte digit value
byte_table = refl

-- A byte's digits read back as the byte.
skip_atoi-decimal_byte :
    (n : ℕ) (rest : List ℕ) → n < 256 → Stops rest → skip_atoi (decimal_byte n ++ rest) ≡ (n, rest)
unfolding skip_atoi
skip_atoi-decimal_byte n rest h e =
    let t = passes_at byte_test 256 n h byte_table in
    let d = all_digits-Digits (decimal_byte n) (ground arith) in
    let v : value 0 (decimal_byte n) ≡ n = ground arith in
    atoi_from-value 0 (decimal_byte n) rest d e ∙ ap (λ x. (x, rest)) v

abbrev pub behind : List ℕ → List ℕ
behind [] = []
behind (c ∷ s) = s

-- Read `n` numbers, with a character between each two.
pub read_dotted : ℕ → List ℕ → List ℕ
read_dotted zero s = []
read_dotted (suc n) s = let (v, rest) = skip_atoi s in v ∷ read_dotted n (behind rest)

abbrev pub AreBytes : List ℕ → Type 0
AreBytes [] = Unit {0}
AreBytes (a ∷ addr) = (a < 256) × AreBytes addr

read_dotted-decimal_bytes :
    (addr : List ℕ) → AreBytes addr → read_dotted (length addr) (decimal_bytes addr) ≡ addr
unfolding read_dotted decimal_bytes
read_dotted-decimal_bytes [] h = refl
read_dotted-decimal_bytes (a ∷ []) h =
    let q = skip_atoi-decimal_byte a [] h.0 tt in
    ap (λ r. r.0 ∷ []) (ap skip_atoi (sym (append-nil (decimal_byte a))) ∙ q)
read_dotted-decimal_bytes (a ∷ b ∷ addr) h =
    let rest = decimal_bytes (b ∷ addr) in
    let q = skip_atoi-decimal_byte a (b'.' ∷ rest) h.0 refl in
    ap (λ r. r.0 ∷ read_dotted (suc (length addr)) (behind r.1)) q
    ∙ ap (λ t. a ∷ t) (read_dotted-decimal_bytes (b ∷ addr) h.1)

-- The address that `iaddr` writes with no padding reads back as its bytes, the dots between them.
pub read_dotted-iaddr :
    (addr : List ℕ) (type : Flags)
    → AreBytes addr
    → read_dotted (length addr) (iaddr addr 0 type) ≡ addr
unfolding iaddr
read_dotted-iaddr addr type h =
    ap (read_dotted (length addr)) (unpadded type.left (decimal_bytes addr))
    ∙ read_dotted-decimal_bytes addr h
