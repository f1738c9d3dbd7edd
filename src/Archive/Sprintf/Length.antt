-- ===== src/Archive/Sprintf/Length.antt =====
-- How many characters the conversions write.
use mosix_3d.Prelude.{
  ℕ, ◌+◌, ◌-◌, ◌≡◌, refl, ◌∙◌, Bool, true, false, not, ◌&&◌, List, [], ◌∷◌, ltb, if◌then◌else◌,
  length, length-append, length-replicate, arith,
}
use mosix_3d.Archive.Sprintf.{
  Flags, number_digits, backwards, number, laid_out, sign_of, prefix, magnitude,
}

abbrev pub max : ℕ → ℕ → ℕ
max a b = if ltb a b then b else a

length-backwards : (s : List ℕ) → length (backwards s) ≡ length s
unfolding backwards
length-backwards [] = refl
length-backwards (c ∷ s) = length-append (backwards s) (c ∷ []) ∙ omega (arith, length-backwards s)

-- One of the three places gets the padding.
length-laid_out :
    (zeropad left : Bool) (sign special : List ℕ) (pad lead : ℕ) (s : List ℕ)
    → (zeropad && left) ≡ false
    → length (laid_out zeropad left sign special pad lead s)
      ≡ pad + length sign + length special + lead + length s
unfolding laid_out
length-laid_out true true sign special pad lead s h = absurd (ground arith)
length-laid_out true false sign special pad lead s h =
    simp (length-append, length-replicate) (omega arith)
length-laid_out false true sign special pad lead s h =
    simp (length-append, length-replicate) (omega arith)
length-laid_out false false sign special pad lead s h =
    simp (length-append, length-replicate) (omega arith)

-- `number` writes the sign, the prefix and the digits, with lead up to the precision, and pads them to
-- the width, whatever the flags are.
pub length-number :
    (num base size precision : ℕ) (type : Flags)
    → let digits = length (number_digits type.large base (magnitude type num)) in
      length (number num base size precision type)
      ≡ max size (length (sign_of type num) + length (prefix type base) + max digits precision)
unfolding number
length-number num base size precision type =
    let tmp = number_digits type.large base (magnitude type num) in
    let i = length tmp in
    let wide = if ltb precision i then i else precision in
    let pad = size - length (sign_of type num) - length (prefix type base) - wide in
    let one : ((type.zeropad && not type.left) && type.left) ≡ false = ground arith in
    length-laid_out (type.zeropad && not type.left) type.left (sign_of type num) (prefix type base)
      pad (wide - i) (backwards tmp) one
    ∙ ground (arith, length-backwards tmp)
