-- ===== src/Archive/Terminal/Tests.antt =====
-- Lines that are typed, and the theorems at them.
use mosix_3d.Prelude.{ℕ, ◌≡◌, refl, List, [], ◌∷◌, ◌++◌, arith}
use mosix_3d.Misc.Memory.{Memory}
use mosix_3d.Archive.Terminal.{tty_gets, waiting, gets_from}
use mosix_3d.Archive.Terminal.Bounds.{IsWithin, tty_gets-IsWithin}
use mosix_3d.Archive.Terminal.Lines.{edited, IsEditable, Holds, tty_gets-edited}

abbrev blank : Memory
blank a = 7

-- "lx", a correction, and "s".
abbrev typed : List ℕ
typed = b'l' ∷ b'x' ∷ 8 ∷ b's' ∷ []

is_ls : edited [] typed ≡ b's' ∷ b'l' ∷ []
unfolding edited
is_ls = refl

typed-IsEditable : IsEditable 63 [] typed
unfolding IsEditable
typed-IsEditable = (
  omega arith,
  omega arith,
  (omega arith, omega arith, (omega arith, omega arith, (omega arith, omega arith, omega arith))),
)

tty_gets-edited_example : Holds (edited [] typed) typed (tty_gets blank 63 (typed ++ (10 ∷ [])))
tty_gets-edited_example = tty_gets-edited blank 63 typed [] typed-IsEditable

tty_gets-IsWithin_example : IsWithin 1 3 blank (tty_gets blank 1 (b'a' ∷ b'b' ∷ b'c' ∷ []))
tty_gets-IsWithin_example = tty_gets-IsWithin blank 1 3 (b'a' ∷ b'b' ∷ b'c' ∷ []) (omega arith)

waits : tty_gets blank 63 (b'a' ∷ []) ≡ waiting
unfolding tty_gets gets_from
waits = refl
