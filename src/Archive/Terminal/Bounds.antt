-- ===== src/Archive/Terminal/Bounds.antt =====
-- Which bytes of the buffer a line can touch.
use mosix_3d.Prelude.{
  ℕ, ◌+◌, ◌≤◌, ◌<◌, ◌≡◌, refl, ◌∙◌, List, [], ◌∷◌, ltb, ltb→le, ◌==◌, arith, Bool-cases, inl, inr,
}
use mosix_3d.Misc.Memory.{Memory}
use mosix_3d.Archive.Terminal.{Line, line, waiting, edit_at, next_at, gets_from, tty_gets, back}

-- The call returned at most `max + 1`, and left the byte `x` as it was.
abbrev pub IsWithin : ℕ → ℕ → Memory → Line → Type 0
IsWithin max x dst waiting = Unit {0}
IsWithin max x dst (line n dst' echo) = (n ≤ max + 1) × (dst' x ≡ dst x)

back-IsWithin :
    (max c x : ℕ) (dst dst' : Memory) (r : Line)
    → dst' x ≡ dst x
    → IsWithin max x dst' r
    → IsWithin max x dst (back c r)
back-IsWithin max c x dst dst' waiting h w = tt
back-IsWithin max c x dst dst' (line n m echo) h (l, w) = (l, w ∙ h)

edited_below :
    (max : ℕ) (dst : Memory) (i c x : ℕ) → i ≤ max → max + 1 < x → edit_at dst i c x ≡ dst x
unfolding edit_at
edited_below max dst i c x l o = ground arith

next_at_le : (i c : ℕ) → next_at i c ≤ i + 1
unfolding next_at
next_at_le i c = ground arith

gets_from-IsWithin :
    (max x : ℕ) (dst : Memory) (i : ℕ) (input : List ℕ)
    → i ≤ max + 1
    → max + 1 < x
    → IsWithin max x dst (gets_from max dst i input)
unfolding gets_from
gets_from-IsWithin max x dst i [] l o = elim (Bool-cases (ltb max i)) [
  | inl q ↦ rw q (omega arith, refl)
  | inr q ↦ rw q tt
]
gets_from-IsWithin max x dst i (c ∷ cs) l o = elim (Bool-cases (ltb max i)) [
  | inl q ↦ rw q (omega arith, refl)
  | inr q ↦
      let le : i ≤ max = ltb→le max i q in
      let next_dst = edit_at dst i c in
      elim (Bool-cases (c == 10)) [
        | inl e ↦ rw (q, e) (omega arith, ground arith)
        | inr e ↦
            rw (q, e)
              (back-IsWithin max c x dst next_dst (gets_from max next_dst (next_at i c) cs)
                (edited_below max dst i c x le o)
                (gets_from-IsWithin max x next_dst (next_at i c) cs (omega (arith, next_at_le i c))
                  o))
      ]
]

-- A call that returns has left every byte behind `max + 1` as it was, and returns at most `max + 1`; so a
-- buffer of `max + 2` bytes is enough.
pub tty_gets-IsWithin :
    (dst : Memory) (max x : ℕ) (input : List ℕ)
    → max + 1 < x
    → IsWithin max x dst (tty_gets dst max input)
unfolding tty_gets
tty_gets-IsWithin dst max x input o = gets_from-IsWithin max x dst 0 input (omega arith) o
