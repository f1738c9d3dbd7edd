-- ===== src/Archive/Sprintf/Tests.antt =====
-- Runs of the conversions, and the theorems at concrete numbers.
use mosix_3d.Prelude.{ℕ, ◌≡◌, ◌≢◌, refl, true, List, [], ◌∷◌, some}
use mosix_3d.Archive.Sprintf.{
  Flags, no_flags, skip_atoi, digit, digits_of, number_digits, backwards, number, laid_out, sign_of,
  prefix, magnitude, strnlen,
}
use mosix_3d.Archive.Sprintf.Format.{
  Argument, word, text, printed, out_of_fuel, parse_flags, with_flag, parse_width, parse_precision,
  parse_qualifier, parse, convert, vsprintf_from, vsprintf,
}
use mosix_3d.Archive.Sprintf.Fuel.{vsprintf_ends}

-- The format "<%+5d|%-4x|%s>".
abbrev some_format : List ℕ
some_format =
    b'<' ∷ b'%' ∷ b'+' ∷ b'5' ∷ b'd' ∷ b'|' ∷ b'%' ∷ b'-' ∷ b'4' ∷ b'x' ∷ b'|' ∷ b'%' ∷ b's' ∷ b'>'
    ∷ []

abbrev some_arguments : List Argument
some_arguments = word 42 ∷ word 0xab ∷ text (some (b'o' ∷ b'k' ∷ [])) ∷ []

prints_directives :
    vsprintf some_format some_arguments
    ≡ printed
        (b'<' ∷ b' ' ∷ b' ' ∷ b'+' ∷ b'4' ∷ b'2' ∷ b'|' ∷ b'a' ∷ b'b' ∷ b' ' ∷ b' ' ∷ b'|' ∷ b'o'
          ∷ b'k' ∷ b'>' ∷ [])
        []
unfolding vsprintf vsprintf_from parse parse_flags with_flag parse_width parse_precision
    parse_qualifier skip_atoi convert number number_digits digits_of digit backwards laid_out
    sign_of prefix magnitude strnlen
prints_directives = refl

vsprintf_ends_example : vsprintf some_format some_arguments ≢ out_of_fuel
vsprintf_ends_example = vsprintf_ends some_format some_arguments

abbrev zero_padded : Flags
zero_padded = record no_flags { zeropad = true }
