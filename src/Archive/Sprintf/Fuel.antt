-- ===== src/Archive/Sprintf/Fuel.antt =====
-- The loop of `vsprintf` ends: each turn takes a character of the format at least.
use mosix_3d.Prelude.{
  not, ℕ, zero, suc, ◌+◌, ◌-◌, ◌*◌, ◌≤◌, ◌≢◌, Bool, true, false, List, [], ◌∷◌, Option, none, some,
  ◌==◌, if◌then◌else◌, length, arith, Bool-cases, Option-cases, inl, inr,
}
use mosix_3d.Archive.Sprintf.{Flags, no_flags, is_digit, atoi_from, skip_atoi}
use mosix_3d.Archive.Sprintf.Format.{
  Argument, Outcome, printed, bad_argument, out_of_fuel, Directive, Parsed, parse_flags, with_flag,
  peek, advance, int_arg, parse_width, parse_precision, parse_qualifier, parse, convert, prepend,
  directive, vsprintf_from, vsprintf, width_arg, precision_arg, then_precision, then_qualifier,
}

length-parse_flags : (fmt : List ℕ) (f : Flags) → length (parse_flags fmt f).1 ≤ length fmt
unfolding parse_flags
length-parse_flags [] f = omega arith
length-parse_flags (c ∷ fmt) f = ground (arith, length-parse_flags fmt (with_flag c f))

length-atoi_from : (i : ℕ) (s : List ℕ) → length (atoi_from i s).1 ≤ length s
unfolding atoi_from
length-atoi_from i [] = omega arith
length-atoi_from i (c ∷ s) = ground (arith, length-atoi_from (i * 10 + (c - b'0')) s)

length-advance : (fmt : List ℕ) → length (advance fmt) ≤ length fmt
length-advance [] = omega arith
length-advance (c ∷ fmt) = omega arith

-- What is parsed leaves no more of the format than there was.
abbrev NoLonger : List ℕ → Option Parsed → Type 0
NoLonger fmt none = Unit {0}
NoLonger fmt (some (d, rest, args)) = length rest ≤ length fmt

width_arg-NoLonger :
    (f : Flags) (fmt : List ℕ) (o : Option (Bool × ℕ × List Argument))
    → NoLonger fmt (width_arg f (advance fmt) o)
width_arg-NoLonger f fmt none = tt
width_arg-NoLonger f fmt (some (negative, w, args)) = length-advance fmt

precision_arg-NoLonger :
    (d : Directive) (fmt : List ℕ) (o : Option (Bool × ℕ × List Argument))
    → NoLonger fmt (precision_arg d (advance (advance fmt)) o)
precision_arg-NoLonger d fmt none = tt
precision_arg-NoLonger d fmt (some (negative, p, args)) =
    let a = length-advance fmt in let b = length-advance (advance fmt) in omega arith

either-NoLonger :
    (fmt : List ℕ) (test : Bool) (p q : Option Parsed)
    → NoLonger fmt p
    → NoLonger fmt q
    → NoLonger fmt (if test then p else q)
either-NoLonger fmt true p q a b = a
either-NoLonger fmt false p q a b = b

parse_width-NoLonger :
    (f : Flags) (fmt : List ℕ) (args : List Argument) → NoLonger fmt (parse_width f fmt args)
unfolding parse_width skip_atoi
parse_width-NoLonger f fmt args =
    either-NoLonger fmt (is_digit (peek fmt)) _ _ (length-atoi_from 0 fmt) (
      either-NoLonger fmt (peek fmt == b'*') _ _ (width_arg-NoLonger f fmt (int_arg args))
        (omega arith))

parse_precision-NoLonger :
    (d : Directive) (fmt : List ℕ) (args : List Argument)
    → NoLonger fmt (parse_precision d fmt args)
unfolding parse_precision skip_atoi
parse_precision-NoLonger d fmt args =
    let a = length-advance fmt in
    let b = length-atoi_from 0 (advance fmt) in
    either-NoLonger fmt (not (peek fmt == b'.')) _ _ (omega arith) (
      either-NoLonger fmt (is_digit (peek (advance fmt))) _ _ (omega arith) (
        either-NoLonger fmt (peek (advance fmt) == b'*') _ _
          (precision_arg-NoLonger d fmt (int_arg args)) (omega arith)))

length-parse_qualifier :
    (d : Directive) (fmt : List ℕ) → length (parse_qualifier d fmt).1 ≤ length fmt
unfolding parse_qualifier
length-parse_qualifier d fmt = ground (arith, length-advance fmt)

NoLonger-mono :
    (fmt rest : List ℕ) (p : Option Parsed)
    → length rest ≤ length fmt
    → NoLonger rest p
    → NoLonger fmt p
NoLonger-mono fmt rest none h l = tt
NoLonger-mono fmt rest (some x) h l = omega arith

then_precision-NoLonger :
    (fmt rest : List ℕ) (p : Option Parsed) → NoLonger fmt p → NoLonger fmt (then_precision rest p)
then_precision-NoLonger fmt rest none l = tt
then_precision-NoLonger fmt rest (some (d, fmt', args)) l =
    NoLonger-mono fmt fmt' (parse_precision d fmt' args) l (parse_precision-NoLonger d fmt' args)

then_qualifier-NoLonger :
    (fmt : List ℕ) (p : Option Parsed) → NoLonger fmt p → NoLonger fmt (then_qualifier p)
then_qualifier-NoLonger fmt none l = tt
then_qualifier-NoLonger fmt (some (d, fmt', args)) l =
    let q = length-parse_qualifier d fmt' in omega arith

parse-NoLonger : (fmt : List ℕ) (args : List Argument) → NoLonger fmt (parse fmt args)
unfolding parse
parse-NoLonger fmt args =
    let (f, fmt') = parse_flags fmt no_flags in
    let p = parse_width f fmt' args in
    let w =
      NoLonger-mono fmt fmt' p (length-parse_flags fmt no_flags)
        (parse_width-NoLonger f fmt' args) in
    then_qualifier-NoLonger fmt (then_precision fmt' p) (then_precision-NoLonger fmt fmt' p w)

prepend_ends :
    (s stored : List ℕ) (o : Outcome) → o ≢ out_of_fuel → prepend s stored o ≢ out_of_fuel
prepend_ends s stored (printed t more) h = λ e. ground arith
prepend_ends s stored bad_argument h = h
prepend_ends s stored out_of_fuel h = h

directive_ends :
    (n written : ℕ) (fmt : List ℕ) (p : Option Parsed)
    → length fmt ≤ n
    → NoLonger fmt p
    → ((rest : List ℕ) (args : List Argument) (w : ℕ)
        → length rest ≤ n
        → vsprintf_from n rest args w ≢ out_of_fuel)
    → directive (vsprintf_from n) written p ≢ out_of_fuel
unfolding directive
directive_ends n written fmt none h l k = λ e. ground arith
directive_ends n written fmt (some (d, rest, args)) h l k =
    elim (Option-cases (convert d (peek rest) written args)) [
      | inl e ↦ rw (e, directive) (λ q. ground arith)
      | inr ((s, stored, args'), e) ↦
          rw (e, directive)
            (prepend_ends s stored _ (
              k (advance rest) args' (written + length s)
                (let a = length-advance rest in omega arith)))
    ]

-- With a turn for each character of the format, the loop of `vsprintf` ends.
vsprintf_from_ends :
    (n : ℕ) (fmt : List ℕ) (args : List Argument) (written : ℕ)
    → length fmt ≤ n
    → vsprintf_from n fmt args written ≢ out_of_fuel
unfolding vsprintf_from
vsprintf_from_ends n [] args written h = λ e. ground arith
vsprintf_from_ends zero (c ∷ fmt) args written h = absurd (omega arith)
vsprintf_from_ends (suc n) (c ∷ fmt) args written h = elim (Bool-cases (c == b'%')) [
  | inl e ↦
      rw (e, vsprintf_from)
        (directive_ends n written fmt (parse fmt args) (omega arith) (parse-NoLonger fmt args)
          (λ rest args' w l. vsprintf_from_ends n rest args' w l))
  | inr e ↦
      rw (e, vsprintf_from)
        (prepend_ends (c ∷ []) [] _ (vsprintf_from_ends n fmt args (written + 1) (omega arith)))
]

-- For every format and all arguments `vsprintf` ends, with a text or with an argument that does not fit.
pub vsprintf_ends : (fmt : List ℕ) (args : List Argument) → vsprintf fmt args ≢ out_of_fuel
unfolding vsprintf
vsprintf_ends fmt args = vsprintf_from_ends (length fmt) fmt args 0 (omega arith)
