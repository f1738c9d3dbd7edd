-- ===== src/Archive/Sprintf/Format.antt =====
-- The formats of archive/sprintf.c: `vsprintf` and `sprintf`.
--
-- An argument is the word that `va_arg` takes, or what the pointer in it points to. An argument of the
-- wrong kind, or none, is undefined in C: the model stops. Widths and precisions are below 2^31.
use mosix_3d.Prelude.{
  ℕ, zero, suc, ◌+◌, ◌-◌, ◌^◌, Bool, true, false, not, ◌&&◌, ◌||◌, List, [], ◌∷◌, ◌++◌, Option,
  none, some, ltb, leb, ◌==◌, if◌then◌else◌, length, u8, u16, u32, u64,
}
use mosix_3d.Archive.Sprintf.{
  Flags, no_flags, is_digit, skip_atoi, strnlen, number, padded, eaddr, iaddr,
}

-- `cell` is a pointer to a counter, and `text none` a null pointer.
pub data Argument : Type 0 where
  word : ℕ → Argument
  text : Option (List ℕ) → Argument
  address : List ℕ → Argument
  cell : Argument

-- A call that wrote its text, with the counts stored by `%n`; an argument that does not fit; more
-- turns than were given.
pub data Outcome : Type 0 where
  printed : List ℕ → List ℕ → Outcome
  bad_argument out_of_fuel : Outcome

pub record Directive : Type 0 where
  pub flags : Flags
  pub width : Option ℕ
  pub precision : Option ℕ
  pub qualifier : ℕ

abbrev pub is_flag : ℕ → Bool
is_flag c = (c == b'-') || ((c == b'+') || ((c == b' ') || ((c == b'#') || (c == b'0'))))

unfoldable pub with_flag : ℕ → Flags → Flags
with_flag c f =
    if c == b'-'
    then record f { left = true }
    else if c == b'+'
    then record f { plus = true }
    else if c == b' '
    then record f { space = true }
    else if c == b'#'
    then record f { special = true }
    else record f { zeropad = true }

-- From the label `repeat` on.
unfoldable pub parse_flags : List ℕ → Flags → Flags × List ℕ
parse_flags [] f = (f, [])
parse_flags (c ∷ fmt) f =
    let rest = parse_flags fmt (with_flag c f) in if is_flag c then rest else (f, c ∷ fmt)

-- The first character, or the terminator.
abbrev pub peek : List ℕ → ℕ
peek [] = 0
peek (c ∷ fmt) = c

abbrev pub advance : List ℕ → List ℕ
advance [] = []
advance (c ∷ fmt) = fmt

-- `va_arg(args, int)`: the sign, the absolute value, and the arguments left.
unfoldable pub int_arg : List Argument → Option (Bool × ℕ × List Argument)
int_arg (word w ∷ args) =
    if ltb (u32 w) (2 ^ 31) then some (false, u32 w, args) else some (true, 2 ^ 32 - u32 w, args)
int_arg _ = none

abbrev pub Parsed : Type 0
Parsed = Directive × List ℕ × List Argument

abbrev pub width_arg : Flags → List ℕ → Option (Bool × ℕ × List Argument) → Option Parsed
width_arg f fmt none = none
width_arg f fmt (some (negative, w, args)) = some (
  record {
    flags = if negative then record f { left = true } else f;
    width = some w;
    precision = none;
    qualifier = 0;
  },
  fmt,
  args,
)

unfoldable pub parse_width : Flags → List ℕ → List Argument → Option Parsed
parse_width f fmt args =
    if is_digit (peek fmt)
    then (let (w, fmt') = skip_atoi fmt in
        some (record { flags = f; width = some w; precision = none; qualifier = 0 }, fmt', args))
    else if peek fmt == b'*'
    then width_arg f (advance fmt) (int_arg args)
    else some (record { flags = f; width = none; precision = none; qualifier = 0 }, fmt, args)

abbrev pub precision_arg : Directive → List ℕ → Option (Bool × ℕ × List Argument) → Option Parsed
precision_arg d fmt none = none
precision_arg d fmt (some (negative, p, args)) =
    some (record d { precision = some (if negative then 0 else p) }, fmt, args)

unfoldable pub parse_precision : Directive → List ℕ → List Argument → Option Parsed
parse_precision d fmt args =
    let fmt' = advance fmt in
    if not (peek fmt == b'.')
    then some (d, fmt, args)
    else if is_digit (peek fmt')
    then (let (p, fmt'') = skip_atoi fmt' in some (record d { precision = some p }, fmt'', args))
    else if peek fmt' == b'*'
    then precision_arg d (advance fmt') (int_arg args)
    else some (record d { precision = some 0 }, fmt', args)

unfoldable pub parse_qualifier : Directive → List ℕ → Directive × List ℕ
parse_qualifier d fmt =
    let c = peek fmt in
    if (c == b'h') || ((c == b'l') || (c == b'L'))
    then (record d { qualifier = c }, advance fmt)
    else (d, fmt)

abbrev pub then_precision : List ℕ → Option Parsed → Option Parsed
then_precision fmt none = none
then_precision fmt (some (d, fmt', args)) = parse_precision d fmt' args

abbrev pub then_qualifier : Option Parsed → Option Parsed
then_qualifier none = none
then_qualifier (some (d, fmt, args)) =
    let (d', fmt') = parse_qualifier d fmt in some (d', fmt', args)

-- What stands between '%' and the conversion.
unfoldable pub parse : List ℕ → List Argument → Option Parsed
parse fmt args =
    let (f, fmt') = parse_flags fmt no_flags in
    then_qualifier (then_precision fmt' (parse_width f fmt' args))

-- The number that `va_arg` takes for an integer conversion, as the 64 bits of a `long`.
unfoldable pub integer : Directive → Bool → ℕ → ℕ
integer d signed w =
    if d.qualifier == b'l'
    then u64 w
    else if d.qualifier == b'h'
    then (if signed && leb (2 ^ 15) (u16 w) then u64 (u16 w + 2 ^ 64 - 2 ^ 16) else u16 w)
    else if signed && leb (2 ^ 31) (u32 w)
    then u64 (u32 w + 2 ^ 64 - 2 ^ 32)
    else u32 w

abbrev pub or_zero : Option ℕ → ℕ
or_zero none = 0
or_zero (some n) = n

-- What one conversion writes, what it stores, and the arguments left.
abbrev pub Converted : Type 0
Converted = Option (List ℕ × List ℕ × List Argument)

unfoldable pub put_char : Directive → List Argument → Converted
unfolding padded
put_char d (word w ∷ args) = some (padded d.flags.left (or_zero d.width) (u8 w ∷ []), [], args)
put_char d _ = none

-- The characters of "<NULL>".
abbrev pub null_text : List ℕ
null_text = b'<' ∷ b'N' ∷ b'U' ∷ b'L' ∷ b'L' ∷ b'>' ∷ []

abbrev pub take : ℕ → List ℕ → List ℕ
take zero s = []
take (suc n) [] = []
take (suc n) (c ∷ s) = c ∷ take n s

abbrev pub or_null : Option (List ℕ) → List ℕ
or_null none = null_text
or_null (some s) = s

unfoldable pub put_text : Directive → List Argument → Converted
unfolding padded
put_text d (text s ∷ args) = some (
  padded d.flags.left (or_zero d.width) (take (strnlen (or_null s) d.precision) (or_null s)),
  [],
  args,
)
put_text d _ = none

unfoldable pub put_pointer : Directive → List Argument → Converted
put_pointer d (word w ∷ args) =
    let (width, flags) = elim (d.width) as (λ o. ℕ × Flags) [
      | none ↦ (16, record d.flags { zeropad = true })
      | some n ↦ (n, d.flags)
    ] in
    some (number (u64 w) 16 width (or_zero d.precision) flags, [], args)
put_pointer d _ = none

unfoldable pub put_count : Directive → ℕ → List Argument → Converted
put_count d written (cell ∷ args) =
    some ([], (if d.qualifier == b'l' then u64 written else u32 written) ∷ [], args)
put_count d written _ = none

unfoldable pub put_address : Directive → Bool → List Argument → Converted
put_address d upper (address a ∷ args) =
    let type = if upper then record d.flags { large = true } else d.flags in
    some (
      if d.qualifier == b'l'
          then eaddr a (or_zero d.width) type
          else iaddr a (or_zero d.width) type,
      [],
      args,
    )
put_address d upper _ = none

unfoldable pub put_integer : Directive → ℕ → Bool → Bool → List Argument → Converted
unfolding integer
put_integer d base signed upper (word w ∷ args) =
    let type = record d.flags { sign = signed; large = upper } in
    some (number (integer d signed w) base (or_zero d.width) (or_zero d.precision) type, [], args)
put_integer d base signed upper _ = none

-- The switch on the conversion `c`; 0 is the end of the format. `written` is `str - buf`.
unfoldable pub convert : Directive → ℕ → ℕ → List Argument → Converted
unfolding put_char put_text put_pointer put_count put_address put_integer
convert d c written args =
    if c == b'c'
    then put_char d args
    else if c == b's'
    then put_text d args
    else if c == b'p'
    then put_pointer d args
    else if c == b'n'
    then put_count d written args
    else if c == b'A'
    then put_address d true args
    else if c == b'a'
    then put_address d false args
    else if c == b'o'
    then put_integer d 8 false false args
    else if c == b'X'
    then put_integer d 16 false true args
    else if c == b'x'
    then put_integer d 16 false false args
    else if (c == b'd') || (c == b'i')
    then put_integer d 10 true false args
    else if c == b'u'
    then put_integer d 10 false false args
    else if c == b'%'
    then some (b'%' ∷ [], [], args)
    else if c == 0
    then some (b'%' ∷ [], [], args)
    else some (b'%' ∷ c ∷ [], [], args)

-- Text and stores in front of what the rest of the call writes.
abbrev pub prepend : List ℕ → List ℕ → Outcome → Outcome
prepend s stored (printed t more) = printed (s ++ t) (stored ++ more)
prepend s stored bad_argument = bad_argument
prepend s stored out_of_fuel = out_of_fuel

-- The conversion behind a directive, given what goes on with the rest.
unfoldable pub directive : (List ℕ → List Argument → ℕ → Outcome) → ℕ → Option Parsed → Outcome
directive continue written none = bad_argument
directive continue written (some (d, fmt, args)) = elim (convert d (peek fmt) written args) [
  | none ↦ bad_argument
  | some (s, stored, args') ↦ prepend s stored (continue (advance fmt) args' (written + length s))
]

-- The loop over the format, with a turn for each character or directive.
unfoldable pub vsprintf_from : ℕ → List ℕ → List Argument → ℕ → Outcome
unfolding directive
vsprintf_from n [] args written = printed [] []
vsprintf_from zero (c ∷ fmt) args written = out_of_fuel
vsprintf_from (suc n) (c ∷ fmt) args written = elim (c == b'%') [
  | false ↦ prepend (c ∷ []) [] (vsprintf_from n fmt args (written + 1))
  | true ↦ directive (vsprintf_from n) written (parse fmt args)
]

-- `none` is undefined behaviour; the terminator is not part of the text.
unfoldable pub vsprintf : List ℕ → List Argument → Outcome
vsprintf fmt args = vsprintf_from (length fmt) fmt args 0

-- The result of `sprintf`: the characters written.
unfoldable pub sprintf : List ℕ → List Argument → Option ℕ
sprintf fmt args = elim (vsprintf fmt args) [ printed s stored ↦ some (length s) | _ ↦ none ]
