-- ===== src/Proc/Sched/Lists.antt =====
-- Lists of pids without repetition.
use mosix_3d.Prelude.{
  ℕ, zero, suc, ◌+◌, ◌<◌, ◌≡◌, refl, Bool, true, false, ◌||◌, ◌&&◌, not, List, [], ◌∷◌, ◌++◌, some,
  ◌==◌, length, get_elem?, remove_at, arith,
}
use mosix_3d.Proc.Sched.{delete_first}

abbrev pub is_in : ℕ → List ℕ → Bool
is_in p [] = false
is_in p (q ∷ qs) = (q == p) || is_in p qs

abbrev pub Distinct : List ℕ → Type 0
Distinct [] = Unit {0}
Distinct (q ∷ qs) = (is_in q qs ≡ false) × Distinct qs

pub is_in-append : (p q : ℕ) (qs : List ℕ) → is_in p (qs ++ (q ∷ [])) ≡ (is_in p qs || (q == p))
is_in-append p q [] = ground arith
is_in-append p q (r ∷ qs) = ground (arith, is_in-append p q qs)

pub Distinct-append :
    (q : ℕ) (qs : List ℕ) → is_in q qs ≡ false → Distinct qs → Distinct (qs ++ (q ∷ []))
Distinct-append q [] h d = (refl, tt)
Distinct-append q (r ∷ qs) h d = ground (arith, Distinct-append q qs, is_in-append r q qs)

pub get_elem?-is_in : (xs : List ℕ) (i p : ℕ) → get_elem? xs i ≡ some p → is_in p xs ≡ true
get_elem?-is_in [] i p e = cc
get_elem?-is_in (x ∷ xs) zero p e = ground arith
get_elem?-is_in (x ∷ xs) (suc i) p e = ground (arith, get_elem?-is_in xs i p e)

pub get_elem?-some : (xs : List ℕ) (i : ℕ) → i < length xs → (p : ℕ) × (get_elem? xs i ≡ some p)
get_elem?-some [] i h = absurd (omega arith)
get_elem?-some (x ∷ xs) zero h = (x, refl)
get_elem?-some (x ∷ xs) (suc i) h = get_elem?-some xs i (omega arith)

pub get_elem?-lt : (xs : List ℕ) (i p : ℕ) → get_elem? xs i ≡ some p → i < length xs
get_elem?-lt [] i p e = cc
get_elem?-lt (x ∷ xs) zero p e = omega arith
get_elem?-lt (x ∷ xs) (suc i) p e = omega (arith, get_elem?-lt xs i p e)

-- The entry that is deleted is the one that stands at the process's index.
pub delete_first-remove_at :
    (xs : List ℕ) (i p : ℕ)
    → get_elem? xs i ≡ some p
    → Distinct xs
    → delete_first p xs ≡ remove_at xs i
unfolding delete_first
delete_first-remove_at [] i p e d = cc
delete_first-remove_at (x ∷ xs) zero p e d = ground arith
delete_first-remove_at (x ∷ xs) (suc i) p e d =
    ground (arith, delete_first-remove_at xs i p e d.1, get_elem?-is_in xs i p e)

pub is_in-delete_first :
    (p q : ℕ) (xs : List ℕ)
    → Distinct xs
    → is_in q (delete_first p xs) ≡ (is_in q xs && not (p == q))
unfolding delete_first
is_in-delete_first p q [] d = refl
is_in-delete_first p q (x ∷ xs) d = ground (arith, is_in-delete_first p q xs d.1)

pub Distinct-delete_first : (p : ℕ) (xs : List ℕ) → Distinct xs → Distinct (delete_first p xs)
unfolding delete_first
Distinct-delete_first p [] d = tt
Distinct-delete_first p (x ∷ xs) d =
    ground (arith, Distinct-delete_first p xs d.1, is_in-delete_first p x xs d.1)

pub length-delete_first :
    (p : ℕ) (xs : List ℕ) → is_in p xs ≡ true → length (delete_first p xs) + 1 ≡ length xs
unfolding delete_first
length-delete_first p [] h = cc
length-delete_first p (x ∷ xs) h = ground (arith, length-delete_first p xs)

pub get_elem?-append :
    (xs ys : List ℕ) (i p : ℕ) → get_elem? xs i ≡ some p → get_elem? (xs ++ ys) i ≡ some p
get_elem?-append [] ys i p e = cc
get_elem?-append (x ∷ xs) ys zero p e = e
get_elem?-append (x ∷ xs) ys (suc i) p e = get_elem?-append xs ys i p e
