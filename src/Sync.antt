-- ===== src/Sync.antt =====
-- Mutexes and signals: kernel/misc/mutex.c over the structs of kernel/include/mutex.h.
--
-- A process is named by its pid. A call that readies processes returns the pids that it hands to
-- `ready_process`, in order. The spinlock of the wait list is held over each list operation, so a
-- call is one step; a function that suspends the caller stops at that point.
pub mod Order
mod Tests
use mosix_3d.Prelude.{
  ℕ, suc, ◌+◌, ◌-◌, Bool, true, false, ◌||◌, List, [], ◌∷◌, ◌++◌, Option, none, some, ltb, leb,
  ◌==◌, if◌then◌else◌, length, u8,
}

-- `Mutex`, which is also `Signal`: `owned` and `state` are one byte, and 1 means free or set.
pub record Mutex : Type 0 where
  pub owned : ℕ
  pub owner : Option ℕ
  pub waiters : List ℕ
  pub href : ℕ

abbrev pub Signal : Type 0
Signal = Mutex

unfoldable pub init_mutex : Mutex
init_mutex = record { owned = 1; owner = none; waiters = []; href = 0 }

-- `xchg` of `acquire_mutex`: the byte becomes 0, and the call goes on if it was not 0.
unfoldable pub try_acquire : Mutex → Bool × Mutex
try_acquire m = (ltb 0 m.owned, record m { owned = 0 })

-- `block_of_mutex` up to the suspension.
unfoldable pub block_of_mutex : ℕ → Mutex → Mutex
block_of_mutex self m = record m { waiters = m.waiters ++ (self ∷ []) }

wake_first : List ℕ → List ℕ × List ℕ
wake_first [] = ([], [])
wake_first (w ∷ ws) = (w ∷ [], ws)

unfoldable pub release_mutex : Mutex → Mutex × List ℕ
unfolding wake_first
release_mutex m =
    let (woken, rest) = wake_first m.waiters in
    (record m { owner = none; owned = 1; waiters = rest }, woken)

unfoldable pub release_mutex_wakeall : Mutex → Mutex × List ℕ
release_mutex_wakeall m = (record m { owner = none; owned = 1; waiters = [] }, m.waiters)

unfoldable pub set_signal : Signal → Signal × List ℕ
unfolding release_mutex_wakeall
set_signal s = release_mutex_wakeall s

unfoldable pub clear_signal : Signal → Signal
clear_signal s = record s { owned = 0 }

-- One round of the loop of `wait_signal`: the call returns (`true`), or the caller is queued and
-- suspended.
unfoldable pub wait_signal : ℕ → Signal → Bool × Signal
wait_signal self s =
    if s.owned == 1 then (true, s) else (false, record s { waiters = s.waiters ++ (self ∷ []) })

unfoldable pub is_waiting : ℕ → List ℕ → Bool
is_waiting self [] = false
is_waiting self (w ∷ ws) = (w == self) || is_waiting self ws

-- What one pass of the loop of `wait_signals` finds.
pub data Pass : Type 0 where
  null : Pass
  ready : ℕ → Pass
  suspended : Pass

-- One pass over the signals from index `i`; a null pointer in the list is `none`.
unfoldable pub wait_signals_from : ℕ → ℕ → List (Option Signal) → Pass × List (Option Signal)
unfolding is_waiting
wait_signals_from self i [] = (suspended, [])
wait_signals_from self i (none ∷ ss) = (null, none ∷ ss)
wait_signals_from self i (some s ∷ ss) =
    let (p, ss') = wait_signals_from self (suc i) ss in
    if s.owned == 1
    then (ready i, some s ∷ ss)
    else if is_waiting self s.waiters
    then (p, some s ∷ ss')
    else (p, some (record s { waiters = s.waiters ++ (self ∷ []) }) ∷ ss')

unfoldable pub wait_signals : ℕ → List (Option Signal) → Pass × List (Option Signal)
unfolding wait_signals_from
wait_signals self ss = wait_signals_from self 0 ss
