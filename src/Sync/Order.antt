-- ===== src/Sync/Order.antt =====
-- Who is woken, and in which order.
use mosix_3d.Prelude.{
  ℕ, zero, suc, ◌≡◌, refl, sym, ap, ◌∙◌, true, List, [], ◌∷◌, ◌++◌, Option, none, some, ◌==◌,
  if◌then◌else◌, length, arith,
}
use mathlib.Core.List.{append-nil, append_assoc}
use mosix_3d.Sync.{
  Mutex, Signal, block_of_mutex, release_mutex, is_waiting, Pass, null, ready, suspended,
  wait_signals_from, wait_signals,
}

-- Every process of `ps` blocks on the mutex, in order.
unfoldable pub block_all : List ℕ → Mutex → Mutex
unfolding block_of_mutex
block_all [] m = m
block_all (p ∷ ps) m = block_all ps (block_of_mutex p m)

-- `n` releases, and the processes that they ready, in order.
unfoldable pub release_times : ℕ → Mutex → List ℕ
unfolding release_mutex
release_times zero m = []
release_times (suc n) m = let (m', woken) = release_mutex m in woken ++ release_times n m'

release_times_waiters :
    (ws : List ℕ) (m : Mutex) → m.waiters ≡ ws → release_times (length ws) m ≡ ws
unfolding release_times release_mutex
release_times_waiters [] m e = refl
release_times_waiters (w ∷ ws) m e =
    rw (e, release_times, release_mutex)
      (ap (λ xs. w ∷ xs)
        (release_times_waiters ws (record m { owner = none; owned = 1; waiters = ws }) refl))

waiters-block_all : (ps : List ℕ) (m : Mutex) → (block_all ps m).waiters ≡ m.waiters ++ ps
unfolding block_all
waiters-block_all [] m = sym (append-nil m.waiters)
waiters-block_all (p ∷ ps) m =
    waiters-block_all ps (record m { waiters = m.waiters ++ (p ∷ []) })
    ∙ append_assoc m.waiters (p ∷ []) ps

-- Processes that block on a mutex are readied by its releases one at a time, in the order in which
-- they blocked.
pub release_times-block_all :
    (ps : List ℕ) (m : Mutex) → m.waiters ≡ [] → release_times (length ps) (block_all ps m) ≡ ps
release_times-block_all ps m e =
    release_times_waiters ps (block_all ps m) (waiters-block_all ps m ∙ rw e refl)

-- The index of the first set signal, unless a null pointer stands before it.
unfoldable pub first_set : ℕ → List (Option Signal) → Pass
first_set i [] = suspended
first_set i (none ∷ ss) = null
first_set i (some s ∷ ss) = if s.owned == 1 then ready i else first_set (suc i) ss

-- A pass of `wait_signals` returns the first set signal, and suspends where there is none.
wait_signals_from-first_set :
    (self i : ℕ) (ss : List (Option Signal)) → (wait_signals_from self i ss).0 ≡ first_set i ss
unfolding wait_signals_from first_set
wait_signals_from-first_set self i [] = refl
wait_signals_from-first_set self i (none ∷ ss) = refl
wait_signals_from-first_set self i (some s ∷ ss) =
    ground (arith, wait_signals_from-first_set self (suc i) ss)

-- `self` is on the wait list of every signal.
abbrev pub WaitsOnAll : ℕ → List (Option Signal) → Type 0
WaitsOnAll self [] = Unit {0}
WaitsOnAll self (none ∷ ss) = ⊥
WaitsOnAll self (some s ∷ ss) = (is_waiting self s.waiters ≡ true) × WaitsOnAll self ss

is_waiting-append : (self : ℕ) (ws : List ℕ) → is_waiting self (ws ++ (self ∷ [])) ≡ true
unfolding is_waiting
is_waiting-append self [] = ground arith
is_waiting-append self (w ∷ ws) = ground (arith, is_waiting-append self ws)

wait_signals_from-WaitsOnAll :
    (self i : ℕ) (ss : List (Option Signal))
    → first_set i ss ≡ suspended
    → WaitsOnAll self (wait_signals_from self i ss).1
unfolding wait_signals_from first_set
wait_signals_from-WaitsOnAll self i [] e = tt
wait_signals_from-WaitsOnAll self i (none ∷ ss) e = cc
wait_signals_from-WaitsOnAll self i (some s ∷ ss) e =
    ground (arith, wait_signals_from-WaitsOnAll self (suc i) ss, is_waiting-append self s.waiters)

-- Where no signal is set and no pointer is null, a pass of `wait_signals` suspends the caller, and
-- leaves it on the wait list of every signal.
pub wait_signals_lem :
    (self : ℕ) (ss : List (Option Signal))
    → first_set 0 ss ≡ suspended
    → ((wait_signals self ss).0 ≡ suspended) × WaitsOnAll self (wait_signals self ss).1
unfolding wait_signals
wait_signals_lem self ss e =
    (wait_signals_from-first_set self 0 ss ∙ e, wait_signals_from-WaitsOnAll self 0 ss e)

-- A pass of `wait_signals` returns the index of the first set signal, fails if a null pointer stands
-- before it, and suspends if there is neither.
pub wait_signals-first_set :
    (self : ℕ) (ss : List (Option Signal)) → (wait_signals self ss).0 ≡ first_set 0 ss
unfolding wait_signals
wait_signals-first_set self ss = wait_signals_from-first_set self 0 ss
