-- ===== src/Archive/Terminal.antt =====
-- The lines of a terminal, archive/ttyio.c: `tty_gets` and `tty_gets_nowb`.
--
-- The characters that `readfd` delivers are a list; a call that would wait for more of them is `waiting`. The
-- memory is addressed from `dst` on. `i` stays far below 2^31.
pub mod Bounds
pub mod Lines
mod Tests
use mosix_3d.Prelude.{ℕ, zero, suc, ◌+◌, ◌-◌, List, [], ◌∷◌, ◌++◌, ltb, leb, ◌==◌, if◌then◌else◌}
use mosix_3d.Misc.Memory.{Memory, put}

-- The result, the memory, and what is written back.
pub data Line : Type 0 where
  line : ℕ → Memory → List ℕ → Line
  waiting : Line

-- The character 8 takes back the one before it. At the start of the line it only counts.
unfoldable pub edit_at : Memory → ℕ → ℕ → Memory
edit_at dst i c = if c == 8 then (if leb 1 i then put dst (i - 1) 0 else dst) else put dst i c

-- `i -= 2` and `i++`.
unfoldable pub next_at : ℕ → ℕ → ℕ
next_at i c = if (c == 8) then (if leb 1 i then i - 1 else i + 1) else i + 1

abbrev back : ℕ → Line → Line
back c (line n dst echo) = line n dst (c ∷ echo)
back c waiting = waiting

-- The loop from `i` on. The character 10 ends the line.
unfoldable pub gets_from : ℕ → Memory → ℕ → List ℕ → Line
unfolding edit_at next_at
gets_from max dst i [] = if ltb max i then line max dst [] else waiting
gets_from max dst i (c ∷ cs) =
    let rest = gets_from max (edit_at dst i c) (next_at i c) cs in
    if ltb max i
    then line max dst []
    else if c == 10
    then line (i + 1) (put (put dst i c) (i + 1) 0) (c ∷ [])
    else back c rest

unfoldable pub tty_gets : Memory → ℕ → List ℕ → Line
unfolding gets_from
tty_gets dst max input = gets_from max dst 0 input

abbrev silent : Line → Line
silent (line n dst echo) = line n dst []
silent waiting = waiting

-- Nothing is written back.
unfoldable pub tty_gets_nowb : Memory → ℕ → List ℕ → Line
unfolding gets_from
tty_gets_nowb dst max input = silent (gets_from max dst 0 input)
