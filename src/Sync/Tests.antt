-- ===== src/Sync/Tests.antt =====
-- Runs of mutexes and signals, and the theorems at concrete states.
use mosix_3d.Prelude.{ℕ, ◌≡◌, refl, List, [], ◌∷◌, Option, none, some}
use mosix_3d.Sync.{Signal, init_mutex, ready, wait_signals}
use mosix_3d.Sync.Order.{first_set, wait_signals-first_set}

abbrev clear : List ℕ → Signal
clear ws = record { owned = 0; owner = none; waiters = ws; href = 0 }

abbrev waited : List (Option Signal)
waited = some (clear (3 ∷ [])) ∷ some (clear (5 ∷ 3 ∷ [])) ∷ []

second_is_set :
    wait_signals 3 (some (clear []) ∷ some init_mutex ∷ [])
    ≡ (ready 1, some (clear (3 ∷ [])) ∷ some init_mutex ∷ [])
unfolding wait_signals init_mutex
second_is_set = refl

wait_signals-first_set_example : (wait_signals 3 waited).0 ≡ first_set 0 waited
wait_signals-first_set_example = wait_signals-first_set 3 waited
