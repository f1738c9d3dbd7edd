-- ===== src/Ipc/Buffer/Queue.antt =====
-- The abstract buffer: a queue of at most `cap - 1` objects, oldest first.
use mosix_3d.Prelude.{ℕ, List, [], ◌∷◌, ◌++◌, ◌==◌, if◌then◌else◌, length, tail}

unfoldable pub read : List ℕ → ℕ → ℕ × List ℕ
read [] failed = (failed, [])
read (x ∷ q) failed = (x, q)

unfoldable pub write : ℕ → List ℕ → ℕ → ℕ → ℕ → ℕ × List ℕ
write room q value result failed =
    if length q == room then (failed, q) else (result, q ++ (value ∷ []))

unfoldable pub overwrite : ℕ → List ℕ → ℕ → ℕ → ℕ × List ℕ
overwrite room q value result =
    if length q == room then (result, tail q ++ (value ∷ [])) else (result, q ++ (value ∷ []))
