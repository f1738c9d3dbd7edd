-- ===== src/Archive/Terminal/Lines.antt =====
-- What an edited line is.
use mosix_3d.Prelude.{
  ℕ, zero, suc, ◌+◌, ◌-◌, ◌≤◌, ◌<◌, ◌≡◌, ◌≢◌, refl, ap, ◌∙◌, sym, Bool, true, false, List, [], ◌∷◌,
  ◌++◌, length, leb, le→ltb, ◌==◌, ==→eq, ==→ne, ne→==, if◌then◌else◌, arith, Bool-cases, inl, inr,
}
use mathlib.Core.Path.{subst}
use mosix_3d.Misc.Memory.{Memory, put}
use mosix_3d.Archive.Terminal.{Line, line, waiting, edit_at, next_at, gets_from, tty_gets, back}

-- The line as a stack, the last character in front: 8 takes the last one off.
unfoldable pub edited : List ℕ → List ℕ → List ℕ
edited acc [] = acc
edited [] (c ∷ cs) = edited (if c == 8 then [] else c ∷ []) cs
edited (a ∷ acc) (c ∷ cs) = edited (if c == 8 then acc else c ∷ a ∷ acc) cs

-- The characters are no ends of lines, 8 comes only behind a character, and the line stays within `max`.
unfoldable pub IsEditable : ℕ → List ℕ → List ℕ → Type 0
IsEditable max acc [] = length acc ≤ max
IsEditable max [] (c ∷ cs) = (c ≢ 10) × (c ≢ 8) × IsEditable max (c ∷ []) cs
IsEditable max (a ∷ acc) (c ∷ cs) =
    (c ≢ 10) × (length acc < max) × IsEditable max (if c == 8 then acc else c ∷ a ∷ acc) cs

-- The first `n` characters, the last one in front.
unfoldable pub stacked : Memory → ℕ → List ℕ
stacked dst zero = []
stacked dst (suc n) = dst n ∷ stacked dst n

stacked-put : (dst : Memory) (i v n : ℕ) → n ≤ i → stacked (put dst i v) n ≡ stacked dst n
unfolding stacked
stacked-put dst i v zero l = refl
stacked-put dst i v (suc n) l =
    let other : put dst i v n ≡ dst n = ground arith in
    ap (λ z. z ∷ stacked (put dst i v) n) other
    ∙ ap (λ z. dst n ∷ z) (stacked-put dst i v n (omega arith))

-- The call returned after the end of the line: the buffer holds the edited line, 10 and 0, and the result
-- counts the 10. All that was typed was written back.
abbrev pub Holds : List ℕ → List ℕ → Line → Type 0
Holds text typed waiting = true ≡ false
Holds text typed (line n dst echo) =
    (n ≡ length text + 1)
    × (stacked dst (length text) ≡ text)
    × (dst (length text) ≡ 10)
    × (dst (length text + 1) ≡ 0)
    × (echo ≡ typed ++ (10 ∷ []))

back-Holds :
    (text typed : List ℕ) (c : ℕ) (r : Line)
    → Holds text typed r
    → Holds text (c ∷ typed) (back c r)
back-Holds text typed c waiting h = h
back-Holds text typed c (line n dst echo) (a, b, d, e, f) = (a, b, d, e, ap (λ z. c ∷ z) f)

-- A turn that does not end the line.
turn :
    (max : ℕ) (dst : Memory) (i c : ℕ) (cs : List ℕ)
    → i ≤ max
    → c ≢ 10
    → gets_from max dst i (c ∷ cs) ≡ back c (gets_from max (edit_at dst i c) (next_at i c) cs)
unfolding gets_from
turn max dst i c cs l n = rw (le→ltb max i l, ne→== c 10 n) refl

last :
    (max : ℕ) (dst : Memory) (text rest : List ℕ)
    → length text ≤ max
    → stacked dst (length text) ≡ text
    → Holds text [] (gets_from max dst (length text) (10 ∷ rest))
unfolding gets_from
last max dst text rest l h =
    let n = length text in
    rw (le→ltb max n l) (
      refl,
      stacked-put (put dst n 10) (n + 1) 0 n (omega arith)
          ∙ stacked-put dst n 10 n (omega arith)
          ∙ h,
      ground arith,
      ground arith,
      refl,
    )

edit_back : (dst : Memory) (n c : ℕ) → c ≡ 8 → edit_at dst (suc n) c ≡ put dst n 0
unfolding edit_at
edit_back dst n c e =
    let q : suc n - 1 ≡ n = omega arith in
    let one : leb 1 (suc n) ≡ true = ground arith in rw (e, one) (ap (λ z. put dst z 0) q)

edit_char : (dst : Memory) (n c : ℕ) → c ≢ 8 → edit_at dst n c ≡ put dst n c
unfolding edit_at
edit_char dst n c e = rw (ne→== c 8 e) refl

next_back : (n c : ℕ) → c ≡ 8 → next_at (suc n) c ≡ n
unfolding next_at
next_back n c e = ground arith

next_char : (n c : ℕ) → c ≢ 8 → next_at n c ≡ suc n
unfolding next_at
next_char n c e = ground arith

tail : List ℕ → List ℕ
tail [] = []
tail (c ∷ cs) = cs

stacked_pushed :
    (dst : Memory) (acc : List ℕ) (c : ℕ)
    → stacked dst (length acc) ≡ acc
    → stacked (put dst (length acc) c) (suc (length acc)) ≡ c ∷ acc
unfolding stacked
stacked_pushed dst acc c h =
    let n = length acc in
    let own : put dst n c n ≡ c = ground arith in
    ap (λ z. z ∷ stacked (put dst n c) n) own
    ∙ ap (λ z. c ∷ z) (stacked-put dst n c n (omega arith) ∙ h)

stacked_popped :
    (dst : Memory) (acc : List ℕ) (a : ℕ)
    → stacked dst (suc (length acc)) ≡ a ∷ acc
    → stacked (put dst (length acc) 0) (length acc) ≡ acc
unfolding stacked tail
stacked_popped dst acc a h = stacked-put dst (length acc) 0 (length acc) (omega arith) ∙ ap tail h

-- A turn with what it does to the buffer and to `i`.
step_line :
    (max : ℕ) (dst m : Memory) (i k c : ℕ) (text cs after : List ℕ)
    → i ≤ max
    → c ≢ 10
    → edit_at dst i c ≡ m
    → next_at i c ≡ k
    → Holds text cs (gets_from max m k after)
    → Holds text (c ∷ cs) (gets_from max dst i (c ∷ after))
step_line max dst m i k c text cs after l n e f h =
    subst (Holds text (c ∷ cs))
      (sym (
        turn max dst i c after l n
        ∙ ap (λ m. back c (gets_from max m (next_at i c) after)) e
        ∙ ap (λ i. back c (gets_from max m i after)) f))
      (back-Holds text cs c (gets_from max m k after) h)

gets_line :
    (max : ℕ) (dst : Memory) (acc typed rest : List ℕ)
    → IsEditable max acc typed
    → stacked dst (length acc) ≡ acc
    → Holds (edited acc typed) typed (gets_from max dst (length acc) (typed ++ (10 ∷ rest)))
unfolding IsEditable edited
gets_line max dst acc [] rest e h = last max dst acc rest e h
gets_line max dst [] (c ∷ cs) rest (n, b, e) h =
    subst
      (λ z.
        Holds (edited (if z then [] else c ∷ []) cs) (c ∷ cs)
          (gets_from max dst 0 (c ∷ cs ++ (10 ∷ rest))))
      (sym (ne→== c 8 b))
      (step_line max dst (put dst 0 c) 0 1 c (edited (c ∷ []) cs) cs (cs ++ (10 ∷ rest))
        (omega arith) n (edit_char dst 0 c b) (next_char 0 c b)
        (gets_line max (put dst 0 c) (c ∷ []) cs rest e (stacked_pushed dst [] c h)))
gets_line max dst (a ∷ acc) (c ∷ cs) rest (n, l, e) h =
    let k = length acc in
    let m = put dst (suc k) c in
    let after = cs ++ (10 ∷ rest) in
    let case = λ (z : Bool).
      Holds (edited (if z then acc else c ∷ a ∷ acc) cs) (c ∷ cs)
        (gets_from max dst (suc k) (c ∷ after)) in
    let left = λ (z : Bool). IsEditable max (if z then acc else c ∷ a ∷ acc) cs in
    elim (Bool-cases (c == 8)) [
      | inl q ↦ subst case (sym q) (
          step_line max dst (put dst k 0) (suc k) k c (edited acc cs) cs after (omega arith) n
            (edit_back dst k c (==→eq c 8 q)) (next_back k c (==→eq c 8 q))
            (gets_line max (put dst k 0) acc cs rest (subst left q e) (stacked_popped dst acc a h)))
      | inr q ↦ subst case (sym q) (
          step_line max dst m (suc k) (suc (suc k)) c (edited (c ∷ a ∷ acc) cs) cs after
            (omega arith) n (edit_char dst (suc k) c (==→ne c 8 q))
            (next_char (suc k) c (==→ne c 8 q))
            (gets_line max m (c ∷ a ∷ acc) cs rest (subst left q e)
              (stacked_pushed dst (a ∷ acc) c h)))
    ]

-- A line that is typed with corrections, its end included, is returned as it was edited, with the end of the
-- line and a 0 behind it, if it stays within `max` and no correction is made at its start.
pub tty_gets-edited :
    (dst : Memory) (max : ℕ) (typed rest : List ℕ)
    → IsEditable max [] typed
    → Holds (edited [] typed) typed (tty_gets dst max (typed ++ (10 ∷ rest)))
unfolding tty_gets stacked
tty_gets-edited dst max typed rest e = gets_line max dst [] typed rest e refl
