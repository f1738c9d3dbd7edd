-- ===== src/Misc/Text/Search.antt =====
-- What `strstr` finds.
use mosix_3d.Prelude.{
  ℕ, zero, suc, ◌+◌, ◌<◌, ◌≡◌, ◌≢◌, refl, ap, ◌∙◌, sym, Bool, true, false, [], ◌∷◌, ◌++◌, Option,
  none, some, ◌==◌, arith, Bool-cases, ==→eq, inl, inr,
}
use mathlib.Core.Path.{subst}
use mosix_3d.Misc.Text.{Text, starts, strstr, strstr_from}

abbrev pub drop : ℕ → Text → Text
drop zero s = s
drop (suc n) [] = []
drop (suc n) (c ∷ s) = drop n s

-- `sub` is a prefix of `str`.
abbrev pub Prefix : Text → Text → Type 0
Prefix sub str = (rest : Text) × (str ≡ sub ++ rest)

starts-Prefix :
    (str : Text) (s : ℕ) (sub : Text) → starts str (s ∷ sub) ≡ true → Prefix (s ∷ sub) str
unfolding starts
starts-Prefix [] s sub e = absurd (ground arith)
starts-Prefix (c ∷ str) s [] e = (str, ap (λ x. x ∷ str) (==→eq c s e))
starts-Prefix (c ∷ str) s (t ∷ sub) e =
    let same : (c == s) ≡ true = ground arith in
    let (rest, q) = starts-Prefix str t sub (ground arith) in
    (rest, ap (λ x. x ∷ str) (==→eq c s same) ∙ ap (λ x. s ∷ x) q)

Prefix-starts : (s : ℕ) (sub rest : Text) → starts (s ∷ sub ++ rest) (s ∷ sub) ≡ true
unfolding starts
Prefix-starts s [] rest = ground arith
Prefix-starts s (t ∷ sub) rest = ground (arith, Prefix-starts t sub rest)

true-ne-false : ◌≢◌ {A = Bool} true false
true-ne-false e = cc

-- Where `strstr_from` with the index `i` of its first byte stops.
abbrev Found : ℕ → Text → Text → Option ℕ → Type 0
Found i str sub none = (j : ℕ) → starts (drop j str) sub ≡ false
Found i str sub (some p) =
    (k : ℕ) × (p ≡ i + k)
    × (starts (drop k str) sub ≡ true)
    × ((j : ℕ) → j < k → starts (drop j str) sub ≡ false)

starts-nil : (s : ℕ) (sub : Text) (j : ℕ) → starts (drop j []) (s ∷ sub) ≡ false
unfolding starts
starts-nil s sub zero = refl
starts-nil s sub (suc j) = refl

none-suc :
    (c : ℕ) (str sub : Text)
    → starts (c ∷ str) sub ≡ false
    → ((j : ℕ) → starts (drop j str) sub ≡ false)
    → (j : ℕ) → starts (drop j (c ∷ str)) sub ≡ false
none-suc c str sub e f zero = e
none-suc c str sub e f (suc j) = f j

before-suc :
    (c : ℕ) (str sub : Text) (k : ℕ)
    → starts (c ∷ str) sub ≡ false
    → ((j : ℕ) → j < k → starts (drop j str) sub ≡ false)
    → (j : ℕ) → j < suc k
    → starts (drop j (c ∷ str)) sub ≡ false
before-suc c str sub k e f zero h = e
before-suc c str sub k e f (suc j) h = f j (omega arith)

Found-suc :
    (i c : ℕ) (str sub : Text) (o : Option ℕ)
    → starts (c ∷ str) sub ≡ false
    → Found (suc i) str sub o
    → Found i (c ∷ str) sub o
Found-suc i c str sub none e f = none-suc c str sub e f
Found-suc i c str sub (some p) e (k, q, t, b) = (suc k, omega arith, t, before-suc c str sub k e b)

strstr_from-Found :
    (i : ℕ) (str : Text) (s : ℕ) (sub : Text) → Found i str (s ∷ sub) (strstr_from i str (s ∷ sub))
unfolding strstr_from
strstr_from-Found i [] s sub = starts-nil s sub
strstr_from-Found i (c ∷ str) s sub = elim (Bool-cases (starts (c ∷ str) (s ∷ sub))) [
  | inl e ↦ rw e (0, omega arith, e, λ j h. absurd (omega arith))
  | inr e ↦ rw e (Found-suc i c str (s ∷ sub) _ e (strstr_from-Found (suc i) str s sub))
]

-- For a string that is not empty, `strstr` returns the first place of `str` where it stands, and
-- nothing where it stands nowhere.
pub strstr_lem :
    (str : Text) (s : ℕ) (sub : Text)
    → ((i : ℕ)
        → strstr str (s ∷ sub) ≡ some i
        → Prefix (s ∷ sub) (drop i str) × ((j : ℕ) → j < i → ¬ Prefix (s ∷ sub) (drop j str)))
      × (strstr str (s ∷ sub) ≡ none → (j : ℕ) → ¬ Prefix (s ∷ sub) (drop j str))
unfolding strstr
strstr_lem str s sub = (found, missing)
  where
    nowhere : (t : Text) → starts t (s ∷ sub) ≡ false → ¬ Prefix (s ∷ sub) t
    nowhere t e (rest, q) =
        true-ne-false (sym (Prefix-starts s sub rest) ∙ sym (ap (λ x. starts x (s ∷ sub)) q) ∙ e)

    found :
        (i : ℕ)
        → strstr_from 0 str (s ∷ sub) ≡ some i
        → Prefix (s ∷ sub) (drop i str) × ((j : ℕ) → j < i → ¬ Prefix (s ∷ sub) (drop j str))
    found i e =
        let (k, p, t, b) = subst (Found 0 str (s ∷ sub)) e (strstr_from-Found 0 str s sub) in
        let same : k ≡ i = omega arith in
        (
          starts-Prefix (drop i str) s sub (ap (λ x. starts (drop x str) (s ∷ sub)) (sym same) ∙ t),
          λ j h. nowhere (drop j str) (b j (omega arith)),
        )

    missing : strstr_from 0 str (s ∷ sub) ≡ none → (j : ℕ) → ¬ Prefix (s ∷ sub) (drop j str)
    missing e j =
        nowhere (drop j str) (subst (Found 0 str (s ∷ sub)) e (strstr_from-Found 0 str s sub) j)
