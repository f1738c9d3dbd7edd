-- ===== src/Prelude/Tables.antt =====
-- Properties that are checked by evaluation at all numbers below a bound.
use Prim.Native.Nat.{ℕ, zero, suc, ◌<◌}
use mathlib.Core.Path.{◌≡◌}
use mathlib.Core.Bool.{Bool, true, false}
use native.Mathlib.Omega.{arith}
use mosix_3d.Prelude.Tests.{if◌then◌else◌}

unfoldable pub passes : (ℕ → Bool) → ℕ → Bool
passes test zero = true
passes test (suc last) = if passes test last then test last else false

pub passes_at :
    (test : ℕ → Bool) (bound i : ℕ) → i < bound → passes test bound ≡ true → test i ≡ true
unfolding passes
passes_at test zero i l ok = absurd (omega arith)
passes_at test (suc last) i l ok = ground (arith, passes_at test last i)
