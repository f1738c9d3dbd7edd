-- ===== src/Exec/Relocation/Words.antt =====
-- What a list of fix-ups does to the words and to the other bytes of the image.
use mathlib.Core.Path.{subst}
use mosix_3d.Prelude.{
  ℕ, ◌+◌, ◌-◌, ◌*◌, ◌/◌, ◌%◌, ◌^◌, ◌≤◌, ◌<◌, ◌≡◌, refl, ap, ◌∙◌, sym, ◌⊎◌, inl, inr, true, false,
  List, [], ◌∷◌, ◌==◌, if◌then◌else◌, u64, arith, Bool-cases,
}
use mosix_3d.Exec.Image.{qword}
use mosix_3d.Misc.Memory.{Memory}
use mosix_3d.Misc.Memory.Move.{within}
use mosix_3d.Exec.Relocation.{fix_word, byte_of}

unfoldable pub fix_list : ℕ → Memory → List ℕ → Memory
fix_list fix mem [] = mem
fix_list fix mem (a ∷ as') = fix_list fix (fix_word fix mem a) as'

-- The byte lies in none of the words.
unfoldable pub IsFree : ℕ → List ℕ → Type 0
IsFree x [] = Unit {0}
IsFree x (a ∷ as') = (within a 8 x ≡ false) × IsFree x as'

-- The word overlaps none of the words.
unfoldable pub IsApart : ℕ → List ℕ → Type 0
IsApart a [] = Unit {0}
IsApart a (b ∷ bs) = ((a + 8 ≤ b) ⊎ (b + 8 ≤ a)) × IsApart a bs

unfoldable pub AreApart : List ℕ → Type 0
unfolding IsApart
AreApart [] = Unit {0}
AreApart (a ∷ as') = IsApart a as' × AreApart as'

unfoldable pub IsListed : ℕ → List ℕ → Type 0
IsListed x [] = Path ℕ 0 1
IsListed x (a ∷ as') = (x ≡ a) ⊎ IsListed x as'

-- The word, moved where it is no moved address yet.
abbrev pub moved : ℕ → ℕ → ℕ
moved fix w = if w / 2 ^ 48 == 0 then u64 (w + fix) else w

qword-ext :
    (m n : Memory) (a : ℕ) → ((x : ℕ) → a ≤ x → x < a + 8 → m x ≡ n x) → qword m a ≡ qword n a
qword-ext m n a h =
    let e0 = h a (omega arith) (omega arith) in
    let e1 = h (a + 1) (omega arith) (omega arith) in
    let e2 = h (a + 2) (omega arith) (omega arith) in
    let e3 = h (a + 2 + 1) (omega arith) (omega arith) in
    let e4 = h (a + 4) (omega arith) (omega arith) in
    let e5 = h (a + 4 + 1) (omega arith) (omega arith) in
    let e6 = h (a + 4 + 2) (omega arith) (omega arith) in
    let e7 = h (a + 4 + 2 + 1) (omega arith) (omega arith) in
    rw (e0, e1, e2, e3, e4, e5, e6, e7) refl

digits4 :
    (v : ℕ)
    → v < 2 ^ 32
    → v % 2 ^ 8
        + v / 2 ^ 8 % 2 ^ 8 * 2 ^ 8
        + (v / 2 ^ 16 % 2 ^ 8 + v / 2 ^ 24 % 2 ^ 8 * 2 ^ 8) * 2 ^ 16
      ≡ v
digits4 v l = omega arith

-- The bytes of a number make up the number.
qword-stored : (v a : ℕ) → v < 2 ^ 64 → qword (λ x. byte_of v (x - a)) a ≡ v
qword-stored v a l =
    let lo = digits4 (v % 2 ^ 32) (omega arith) in
    let hi = digits4 (v / 2 ^ 32) (omega arith) in
    let o0 : a - a ≡ 0 = omega arith in
    let o1 : a + 1 - a ≡ 1 = omega arith in
    let o2 : a + 2 - a ≡ 2 = omega arith in
    let o3 : a + 2 + 1 - a ≡ 3 = omega arith in
    let o4 : a + 4 - a ≡ 4 = omega arith in
    let o5 : a + 4 + 1 - a ≡ 5 = omega arith in
    let o6 : a + 4 + 2 - a ≡ 6 = omega arith in
    let o7 : a + 4 + 2 + 1 - a ≡ 7 = omega arith in
    rw (o0, o1, o2, o3, o4, o5, o6, o7) (omega arith)

within-first : (a x : ℕ) → a ≤ x → x < a + 8 → within a 8 x ≡ true
within-first a x p q = ground arith

moved_low : (fix w : ℕ) → (w / 2 ^ 48 == 0) ≡ true → moved fix w ≡ u64 (w + fix)
moved_low fix w e = rw e refl

moved_high : (fix w : ℕ) → (w / 2 ^ 48 == 0) ≡ false → moved fix w ≡ w
moved_high fix w e = rw e refl

fix_word-qword :
    (fix : ℕ) (mem : Memory) (a : ℕ)
    → qword mem a < 2 ^ 64
    → qword (fix_word fix mem a) a ≡ moved fix (qword mem a)
unfolding fix_word
fix_word-qword fix mem a l = elim (Bool-cases (qword mem a / 2 ^ 48 == 0)) [
  | inl e ↦
      let v = u64 (qword mem a + fix) in
      let same : qword (fix_word fix mem a) a ≡ qword (λ x. byte_of v (x - a)) a =
        qword-ext (fix_word fix mem a) (λ x. byte_of v (x - a)) a
          (λ x p q. rw (within-first a x p q, e) refl) in
      same ∙ qword-stored v a (omega arith) ∙ sym (moved_low fix (qword mem a) e)
  | inr e ↦
      qword-ext (fix_word fix mem a) mem a (λ x p q. rw (within-first a x p q, e) refl)
      ∙ sym (moved_high fix (qword mem a) e)
]

fix_word-free :
    (fix : ℕ) (mem : Memory) (a x : ℕ) → within a 8 x ≡ false → fix_word fix mem a x ≡ mem x
unfolding fix_word
fix_word-free fix mem a x e = rw e refl

pub fix_list-free :
    (fix : ℕ) (mem : Memory) (as' : List ℕ) (x : ℕ) → IsFree x as' → fix_list fix mem as' x ≡ mem x
unfolding fix_list IsFree
fix_list-free fix mem [] x f = refl
fix_list-free fix mem (a ∷ as') x (e, f) =
    fix_list-free fix (fix_word fix mem a) as' x f ∙ fix_word-free fix mem a x e

IsApart-IsFree : (a x : ℕ) (bs : List ℕ) → a ≤ x → x < a + 8 → IsApart a bs → IsFree x bs
unfolding IsApart IsFree
IsApart-IsFree a x [] p q h = tt
IsApart-IsFree a x (b ∷ bs) p q (s, h) = (ground arith, IsApart-IsFree a x bs p q h)

listed-apart : (a x : ℕ) (bs : List ℕ) → IsApart a bs → IsListed x bs → (a + 8 ≤ x) ⊎ (x + 8 ≤ a)
unfolding IsApart IsListed
listed-apart a x [] h i = absurd (omega (arith, i))
listed-apart a x (b ∷ bs) (s, h) (inl e) = ground (arith, s, e)
listed-apart a x (b ∷ bs) (s, h) (inr i) = listed-apart a x bs h i

-- The word at a listed address.
pub fix_list-moved :
    (fix : ℕ) (mem : Memory) (as' : List ℕ) (x : ℕ)
    → qword mem x < 2 ^ 64
    → AreApart as'
    → IsListed x as'
    → qword (fix_list fix mem as') x ≡ moved fix (qword mem x)
unfolding fix_list AreApart IsListed
fix_list-moved fix mem [] x l d i = absurd (omega (arith, i))
fix_list-moved fix mem (a ∷ as') x l (n, d) (inl e) =
    let n' : IsApart x as' = subst (λ z. IsApart z as') (sym e) n in
    let first = fix_word-qword fix mem x l in
    ap (λ z. qword (fix_list fix (fix_word fix mem z) as') x) (sym e)
    ∙ qword-ext (fix_list fix (fix_word fix mem x) as') (fix_word fix mem x) x
        (λ y p q. fix_list-free fix (fix_word fix mem x) as' y (IsApart-IsFree x y as' p q n'))
    ∙ first
fix_list-moved fix mem (a ∷ as') x l (n, d) (inr i) =
    let s = listed-apart a x as' n i in
    let kept : qword (fix_word fix mem a) x ≡ qword mem x =
      qword-ext (fix_word fix mem a) mem x (λ y p q. fix_word-free fix mem a y (ground arith)) in
    fix_list-moved fix (fix_word fix mem a) as' x (omega arith) d i ∙ ap (moved fix) kept
