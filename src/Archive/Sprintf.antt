-- ===== src/Archive/Sprintf.antt =====
-- Formatted output, archive/sprintf.c: `strnlen`, `skip_atoi`, `number`, `eaddr` and `iaddr`. `NOFLOAT` is
-- defined, so the conversions of floating-point numbers are not compiled.
--
-- What a function writes at `str` is the list of the characters. A width or a precision is only compared
-- with positive numbers here, so one that is negative is 0. The bits of `type` are Booleans.
pub mod Format
pub mod Number
pub mod Length
pub mod Address
pub mod Fuel
mod Tests
use mosix_3d.Prelude.{
  ℕ, zero, suc, ◌+◌, ◌-◌, ◌*◌, ◌/◌, ◌%◌, ◌^◌, Bool, true, false, not, ◌&&◌, ◌||◌, List, [], ◌∷◌,
  ◌++◌, Option, none, some, ltb, leb, ◌==◌, if◌then◌else◌, get_or, length, replicate, u64,
}

pub record Flags : Type 0 where
  pub zeropad : Bool
  pub sign : Bool
  pub plus : Bool
  pub space : Bool
  pub left : Bool
  pub special : Bool
  pub large : Bool

abbrev pub no_flags : Flags
no_flags = record {
  zeropad = false;
  sign = false;
  plus = false;
  space = false;
  left = false;
  special = false;
  large = false;
}

abbrev pub is_digit : ℕ → Bool
is_digit c = leb b'0' c && leb c b'9'

-- The characters counted, of `count` at most; `none` is -1, which is no bound.
unfoldable pub strnlen : List ℕ → Option ℕ → ℕ
strnlen s none = length s
strnlen [] (some count) = 0
strnlen (c ∷ s) (some zero) = 0
strnlen (c ∷ s) (some (suc count)) = suc (strnlen s (some count))

-- The value of the digits in front, behind those that made `i`, and the text behind them.
unfoldable pub atoi_from : ℕ → List ℕ → ℕ × List ℕ
atoi_from i [] = (i, [])
atoi_from i (c ∷ s) =
    let rest = atoi_from (i * 10 + (c - b'0')) s in if is_digit c then rest else (i, c ∷ s)

unfoldable pub skip_atoi : List ℕ → ℕ × List ℕ
unfolding atoi_from
skip_atoi s = atoi_from 0 s

-- `digits[d]` and `upper_digits[d]`.
unfoldable pub digit : Bool → ℕ → ℕ
digit upper d = if ltb d 10 then d + b'0' else if upper then d - 10 + b'A' else d - 10 + b'a'

-- The array `tmp`, the low digit first: 64 turns are enough for a base from 2 on.
unfoldable pub digits_of : ℕ → Bool → ℕ → ℕ → List ℕ
digits_of zero upper base num = []
digits_of (suc n) upper base num =
    let rest = digits_of n upper base (num / base) in
    if num == 0 then [] else digit upper (num % base) ∷ rest

unfoldable pub number_digits : Bool → ℕ → ℕ → List ℕ
number_digits upper base num = if num == 0 then b'0' ∷ [] else digits_of 64 upper base num

-- `tmp[i]` for `i` from high to low.
unfoldable pub backwards : List ℕ → List ℕ
backwards [] = []
backwards (c ∷ s) = backwards s ++ (c ∷ [])

-- The number is negative as a `long`.
abbrev pub negative : ℕ → Bool
negative num = leb (2 ^ 63) num

unfoldable pub sign_of : Flags → ℕ → List ℕ
sign_of type num =
    if not type.sign
    then []
    else if negative num
    then b'-' ∷ []
    else if type.plus
    then b'+' ∷ []
    else if type.space
    then b' ' ∷ []
    else []

unfoldable pub magnitude : Flags → ℕ → ℕ
magnitude type num = if type.sign && negative num then 2 ^ 64 - num else num

unfoldable pub prefix : Flags → ℕ → List ℕ
prefix type base =
    if type.special && (base == 8)
    then b'0' ∷ []
    else if type.special && (base == 16)
    then b'0' ∷ b'x' ∷ []
    else []

-- The loops that write: spaces, the sign, the prefix, zeros for the width (`zeropad`) and for the
-- precision, the digits, and spaces behind them (`left`). Each loop for the width leaves none of it.
unfoldable pub laid_out : Bool → Bool → List ℕ → List ℕ → ℕ → ℕ → List ℕ → List ℕ
laid_out zeropad left sign special pad lead digits =
    (if zeropad || left then [] else replicate pad b' ')
    ++ (sign
        ++ (special
            ++ ((if zeropad then replicate pad b'0' else [])
                ++ (replicate lead b'0' ++ (digits ++ (if left then replicate pad b' ' else []))))))

-- The `long` is its 64 bits, and the base one of 8, 10 and 16. `LEFT` switches `ZEROPAD` off.
unfoldable pub number : ℕ → ℕ → ℕ → ℕ → Flags → List ℕ
number num base size precision type =
    let tmp = number_digits type.large base (magnitude type num) in
    let i = length tmp in
    let wide = if ltb precision i then i else precision in
    let pad = size - length (sign_of type num) - length (prefix type base) - wide in
    laid_out (type.zeropad && not type.left) type.left (sign_of type num) (prefix type base) pad
      (wide - i) (backwards tmp)

-- The padding of a text: in front, or behind it.
unfoldable pub padded : Bool → ℕ → List ℕ → List ℕ
padded left size s =
    let pad = replicate (size - length s) b' ' in if left then s ++ pad else pad ++ s

-- One byte of a hardware address: two digits.
abbrev pub hex_byte : Bool → ℕ → List ℕ
hex_byte upper a = digit upper (a / 2 ^ 4) ∷ digit upper (a % 2 ^ 4) ∷ []

-- The six bytes, with ':' between them.
unfoldable pub hex_bytes : Bool → List ℕ → List ℕ
hex_bytes upper [] = []
hex_bytes upper (a ∷ []) = hex_byte upper a
hex_bytes upper (a ∷ b ∷ addr) = hex_byte upper a ++ (b':' ∷ hex_bytes upper (b ∷ addr))

unfoldable pub eaddr : List ℕ → ℕ → Flags → List ℕ
unfolding hex_bytes padded
eaddr addr size type = padded type.left size (hex_bytes type.large addr)

-- One byte in decimal.
unfoldable pub decimal_byte : ℕ → List ℕ
decimal_byte n =
    if leb 100 n
    then digit false (n / 100) ∷ digit false (n % 100 / 10) ∷ digit false (n % 100 % 10) ∷ []
    else if leb 10 n
    then digit false (n / 10) ∷ digit false (n % 10) ∷ []
    else digit false n ∷ []

-- The four bytes, with '.' between them.
unfoldable pub decimal_bytes : List ℕ → List ℕ
decimal_bytes [] = []
decimal_bytes (a ∷ []) = decimal_byte a
decimal_bytes (a ∷ b ∷ addr) = decimal_byte a ++ (b'.' ∷ decimal_bytes (b ∷ addr))

unfoldable pub iaddr : List ℕ → ℕ → Flags → List ℕ
unfolding decimal_bytes padded
iaddr addr size type = padded type.left size (decimal_bytes addr)
