-- ===== src/Exec/Library/Cache.antt =====
-- A library is loaded once.
use mathlib.Core.Path.{subst}
use mosix_3d.Prelude.{ℕ, ◌≡◌, refl, ap, sym, ◌∷◌, Option, none, some, eq→==, Option-cases, inl, inr}
use mosix_3d.Exec.Library.{
  Pedll, Dlls, insert_dll, search_dll, Located, located, missing, null_dll, load_pedll,
  locate_pedll,
}

search_found :
    (load : ℕ → Option Pedll) (dlls : Dlls) (node : ℕ) (d : Pedll)
    → search_dll dlls node ≡ some d
    → locate_pedll load dlls (some node) ≡ located d dlls
unfolding locate_pedll
search_found load dlls node d e =
    ap
      (λ o. elim o as (λ o. Located) [ none ↦ load_pedll load dlls node | some d ↦ located d dlls ])
      e

search_missed :
    (load : ℕ → Option Pedll) (dlls : Dlls) (node : ℕ)
    → search_dll dlls node ≡ none
    → locate_pedll load dlls (some node) ≡ load_pedll load dlls node
unfolding locate_pedll
search_missed load dlls node e =
    ap
      (λ o. elim o as (λ o. Located) [ none ↦ load_pedll load dlls node | some d ↦ located d dlls ])
      e

search_first :
    (d : Pedll) (dlls : Dlls) (node : ℕ) → d.actual ≡ node → search_dll (d ∷ dlls) node ≡ some d
unfolding search_dll
search_first d dlls node e = rw (eq→== d.actual node e) refl

-- The call on the list behind a result gives that result again.
abbrev pub Repeats : (ℕ → Option Pedll) → ℕ → Located → Type 0
Repeats load node (located d dlls) = locate_pedll load dlls (some node) ≡ located d dlls
Repeats load node missing = Unit {0}
Repeats load node null_dll = Unit {0}

loaded-Repeats :
    (load load' : ℕ → Option Pedll) (dlls : Dlls) (node : ℕ) (o : Option Pedll)
    → load node ≡ o
    → ((x : Pedll) → load node ≡ some x → x.actual ≡ node)
    → Repeats load' node (load_pedll load dlls node)
unfolding load_pedll insert_dll
loaded-Repeats load load' dlls node none e named =
    subst (Repeats load' node)
      (sym
        (ap (λ o. elim o as (λ o. Located) [ none ↦ null_dll | some d ↦ located d (d ∷ dlls) ]) e))
      tt
loaded-Repeats load load' dlls node (some d) e named =
    subst (Repeats load' node)
      (sym
        (ap (λ o. elim o as (λ o. Located) [ none ↦ null_dll | some d ↦ located d (d ∷ dlls) ]) e))
      (search_found load' (d ∷ dlls) node d (search_first d dlls node (named d e)))

-- A call that found or loaded a library finds the same one when it is repeated, whatever a load would
-- give then, and changes the list no more.
pub locate_pedll-Repeats :
    (load load' : ℕ → Option Pedll) (dlls : Dlls) (node : ℕ)
    → ((x : Pedll) → load node ≡ some x → x.actual ≡ node)
    → Repeats load' node (locate_pedll load dlls (some node))
locate_pedll-Repeats load load' dlls node named = elim (Option-cases (search_dll dlls node)) [
  | inl e ↦
      subst (Repeats load' node) (sym (search_missed load dlls node e))
        (loaded-Repeats load load' dlls node (load node) refl named)
  | inr (d, e) ↦
      subst (Repeats load' node) (sym (search_found load dlls node d e))
        (search_found load' dlls node d e)
]
