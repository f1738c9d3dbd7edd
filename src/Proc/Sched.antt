-- ===== src/Proc/Sched.antt =====
-- The scheduler of kernel/mp/proc.c over `Process` (kernel/include/proc.h), `ReadyList` and
-- `Processor` (kernel/include/smp.h).
--
-- A process is named by its pid. A ready list is the list of its live entries with the index `cur`.
-- Interrupts are off and the list's lock is held over each change, so a call is one step of its
-- processor. The context switch itself is the change of `cur` and of the states.
pub mod Lists
pub mod Invariant
pub mod Leave
pub mod Rotation
pub mod Choice
pub mod Wakeup
mod Tests
use mosix_3d.Prelude.{
  ℕ, zero, suc, ◌+◌, ◌-◌, ◌/◌, ◌%◌, ◌^◌, Bool, true, false, not, ◌&&◌, ◌||◌, List, [], ◌∷◌, ◌++◌,
  Option, none, some, ltb, leb, ◌==◌, if◌then◌else◌, get_elem?, set, length, remove_at, u16,
}

-- `ProcStatus`.
pub data Status : Type 0 where
  created running ready suspend stopped dead : Status

-- The fields of `Process` that the scheduler reads or writes.
pub record Process : Type 0 where
  pub stat : Status
  pub curcpu : ℕ
  pub affinity : ℕ

abbrev pub Processes : Type 0
Processes = ℕ → Process

abbrev pub update : Processes → ℕ → Process → Processes
update ps p v q = if p == q then v else ps q

abbrev pub set_stat : Processes → ℕ → Status → Processes
set_stat ps p s = update ps p (record (ps p) { stat = s })

pub record ReadyList : Type 0 where
  pub list : List ℕ
  pub cur : ℕ

-- `Processor`, without its descriptors and its local interrupt controller.
pub record Processor : Type 0 where
  pub stat : ℕ
  pub cur : ℕ
  pub tickleft : ℕ
  pub idle : ℕ
  pub ready : ReadyList

abbrev pub cpu_ready : ℕ
cpu_ready = 2

unfoldable pub add_ready : ℕ → ReadyList → ReadyList
add_ready p rl = record rl { list = rl.list ++ (p ∷ []) }

-- The loop of `del_ready`: the first entry of the process goes.
unfoldable pub delete_first : ℕ → List ℕ → List ℕ
delete_first p [] = []
delete_first p (q ∷ qs) = if q == p then qs else q ∷ delete_first p qs

unfoldable pub del_ready : ReadyList → ℕ → ReadyList
unfolding delete_first
del_ready rl p = record rl { list = delete_first p rl.list }

-- The loop of `choose_cpu_for` from processor `i` on, with the best processor so far.
unfoldable pub choose_from : ℕ → ℕ → ℕ → ℕ → List Processor → ℕ
choose_from affinity i best count [] = best
choose_from affinity i best count (c ∷ cs) =
    let better =
      (c.stat == cpu_ready) && (((affinity / 2 ^ i) % 2) == 1) && ltb (length c.ready.list) count in
    choose_from affinity (suc i) (if better then i else best)
      (if better then length c.ready.list else count) cs

-- Processor 0 is the first choice, whatever its state and the affinity are.
unfoldable pub choose_cpu_for : ℕ → List Processor → ℕ
unfolding choose_from
choose_cpu_for affinity [] = 0
choose_cpu_for affinity (c ∷ cs) = choose_from affinity 1 0 (length c.ready.list) cs

-- `cur++; if(cur == cnt) cur = 0;`
abbrev pub rotate : ReadyList → ReadyList
rotate rl = record rl { cur = if u16 (rl.cur + 1) == length rl.list then 0 else u16 (rl.cur + 1) }

-- `if(cur == cnt) cur = 0;`
abbrev pub wrap : ReadyList → ReadyList
wrap rl = record rl { cur = if rl.cur == length rl.list then 0 else rl.cur }

-- `sched`, the clock tick. It halts (`none`) where the next entry is out of the list.
unfoldable pub sched : Processor → Processes → Option (Processor × Processes)
sched p ps =
    let may = ltb 1 (length p.ready.list) || ((p.cur == p.idle) && ltb 0 (length p.ready.list)) in
    let r = rotate p.ready in
    if ltb 0 p.tickleft
    then some (record p { tickleft = p.tickleft - 1 }, ps)
    else if not may
    then some (p, ps)
    else elim (get_elem? r.list r.cur) [
      | none ↦ none
      | some next ↦ some (
        record p { cur = next; tickleft = 1; ready = r },
        set_stat (set_stat ps p.cur ready) next running,
      )
    ]

-- The choice that `sched_suspend` and `sched_exit` share: the entry at `cur`, or the idle process
-- where fewer than two are ready.
unfoldable pub next_process : Processor → Option ℕ
next_process p =
    let r = wrap p.ready in if ltb 1 (length r.list) then get_elem? r.list r.cur else some p.idle

unfoldable pub sched_suspend : Processor → Processes → Option (Processor × Processes)
sched_suspend p ps = elim (next_process p) [
  | none ↦ none
  | some next ↦ some (
    record p { cur = next; tickleft = 1; ready = wrap p.ready },
    set_stat (set_stat ps p.cur suspend) next running,
  )
]

-- `switch_context_exit` marks the process dead once it is off its stack.
unfoldable pub sched_exit : Processor → Processes → Option (Processor × Processes)
sched_exit p ps = elim (next_process p) [
  | none ↦ none
  | some next ↦ some (
    record p { cur = next; tickleft = 1; ready = wrap p.ready },
    set_stat (set_stat ps next running) p.cur dead,
  )
]

-- `suspend_process`, called by the process that runs on `p`.
unfoldable pub suspend_process : Processor → Processes → Option (Processor × Processes)
unfolding del_ready sched_suspend
suspend_process p ps = sched_suspend (record p { ready = del_ready p.ready p.cur }) ps

-- The results of `ready_process`.
pub data Readied : Type 0 where
  success proc_ready full : Readied

abbrev pub is_ready : Status → Bool
is_ready running = true
is_ready ready = true
is_ready _ = false

-- `cnt >= 32` is tested before the lock is taken; the model's call is one step.
unfoldable pub ready_process : ℕ → List Processor → Processes → Readied × List Processor × Processes
unfolding choose_cpu_for add_ready
ready_process t cpus ps =
    let i = choose_cpu_for (ps t).affinity cpus in
    if is_ready (ps t).stat then (proc_ready, cpus, ps) else elim (get_elem? cpus i) [
      | none ↦ (full, cpus, ps)
      | some c ↦ if leb 32 (length c.ready.list) then (full, cpus, ps) else (
        success,
        set cpus i (record c { ready = add_ready t c.ready }),
        update ps t (record (ps t) { curcpu = i; stat = ready }),
      )
    ]
