-- ===== src/Exec/Library/Place.antt =====
-- The libraries of a process do not overlap.
use mosix_3d.Prelude.{
  ℕ, ◌+◌, ◌≤◌, ◌<◌, ◌≡◌, refl, Bool, true, false, ◌&&◌, ◌||◌, [], ◌∷◌, arith, sub64,
}
use mosix_3d.Misc.Memory.Move.{within}
use mosix_3d.Exec.Library.{Actives, lowest, place_pedll, pedll_top}

-- Each library ends where the one mapped before it starts, or below.
unfoldable pub IsStacked : Actives → Type 0
unfolding lowest
IsStacked [] = Unit {0}
IsStacked (a ∷ older) = (a.base + a.size ≤ lowest older) × IsStacked older

-- The address lies in one of the libraries.
unfoldable pub covered : Actives → ℕ → Bool
covered [] x = false
covered (a ∷ older) x = within a.base a.size x || covered older x

lowest-covered :
    (actives : Actives) (x : ℕ) → IsStacked actives → x < lowest actives → covered actives x ≡ false
unfolding IsStacked covered lowest
lowest-covered [] x s l = refl
lowest-covered (a ∷ older) x (e, s) l = ground (arith, lowest-covered older x s)

lowest_top : (actives : Actives) → IsStacked actives → lowest actives ≤ pedll_top
unfolding IsStacked lowest
lowest_top [] s = omega arith
lowest_top (a ∷ older) (e, s) = omega (arith, lowest_top older s)

disjoint : (a b : Bool) → (a ≡ true → b ≡ false) → (a && b) ≡ false
disjoint true b h = h refl
disjoint false b h = refl

-- A library with room below the ones of a process is placed there: they stay stacked, and no address of
-- the new one lies in another.
pub place_pedll-IsStacked :
    (actives : Actives) (imgsize x : ℕ)
    → IsStacked actives
    → imgsize ≤ lowest actives
    → IsStacked (place_pedll actives imgsize)
      × (lowest (place_pedll actives imgsize) + imgsize ≡ lowest actives)
      × ((within (lowest (place_pedll actives imgsize)) imgsize x && covered actives x) ≡ false)
unfolding place_pedll IsStacked lowest
place_pedll-IsStacked actives imgsize x s l =
    let top = lowest_top actives s in
    let new = sub64 (lowest actives) imgsize in
    let exact : new + imgsize ≡ lowest actives = omega arith in
    (
      (omega (arith, exact), s),
      exact,
      disjoint (within new imgsize x) (covered actives x)
          (λ w. lowest-covered actives x s (ground (arith, exact))),
    )
