-- ===== src/Proc/Life.antt =====
-- The life of a process, kernel/mp/proc.c with the handles of processes in kernel/vfs/handle.c:
-- `alloc_process`, `free_process`, `find_process`, `wait_process`, `exit_process`, and the reference
-- counts that end in `reap_process`.
--
-- `pidmap` is the function from numbers to processes, and a null pointer is `none`. `reap_process` is a
-- result: `true` is one message of type SPMSG_REAP to the system process.
pub mod Reaped
pub mod Found
pub mod Exit
mod Tests
use mosix_3d.Prelude.{
  ℕ, zero, suc, ◌+◌, ◌-◌, ◌*◌, ◌/◌, ◌%◌, ◌^◌, Bool, true, false, List, [], ◌∷◌, Option, none, some,
  ◌==◌, if◌then◌else◌, get_or, get_elem?, set, u16, u32,
}
use mosix_3d.Misc.Text.{Text, strcmp}
use mosix_3d.Misc.Bitmap.{Bitmap, alloc_bit, free_bit}
use mosix_3d.Sync.{Signal, init_mutex, clear_signal, set_signal, wait_signal}
use mosix_3d.Vfs.Handle.{Table, no_handle, htab_insert, htab_delete}
use mosix_3d.Proc.Sched.{
  Status, created, running, ready, suspend, stopped, dead, Processor, Processes, set_stat,
  del_ready, sched_exit, ready_process,
}

-- A process is known by its place in `pidmap`. Its exception stack, its working directory, its handles and
-- what it runs are left out. `href` and `errno` are neighbours of 16 bits.
pub record Life : Type 0 where
  pub name : Text
  pub stat : Status
  pub affinity : ℕ
  pub lovedcpu : ℕ
  pub curcpu : ℕ
  pub vm : Option ℕ
  pub heap : Option ℕ
  pub argv : Option Text
  pub jbesp : ℕ
  pub deathsig : Signal
  pub href : ℕ
  pub errno : ℕ

-- `lock_inc` and `lock_dec` of `href` act on 32 bits, so a carry goes to `errno`.
abbrev both : Life → ℕ
both l = l.href + l.errno * 2 ^ 16

abbrev with_both : Life → ℕ → Life
with_both l w = record l { href = w % 2 ^ 16; errno = w / 2 ^ 16 }

unfoldable pub refer_process : Life → Life
refer_process l = with_both l (u32 (both l + 1))

unfoldable pub drop_process : Life → Life
drop_process l = with_both l (u32 (both l + 2 ^ 32 - 1))

pub record Pids : Type 0 where
  pub procmap : Bitmap
  pub pidmap : ℕ → Option Life

abbrev pub store_pid : (ℕ → Option Life) → ℕ → Option Life → ℕ → Option Life
store_pid pidmap pid o i = if i == pid then o else pidmap i

-- A new process, of which the heap leaves `errno` unset: `junk`.
unfoldable pub new_process : Text → ℕ → Life
unfolding init_mutex clear_signal
new_process name junk = record {
  name = name;
  stat = created;
  affinity = 0xffff;
  lovedcpu = 0;
  curcpu = 0;
  vm = none;
  heap = none;
  argv = none;
  jbesp = 0;
  deathsig = clear_signal init_mutex;
  href = 1;
  errno = junk;
}

-- The number that `alloc_bit` gives is not tested.
unfoldable pub alloc_process : Pids → Text → ℕ → ℕ × Pids
unfolding alloc_bit new_process
alloc_process t name junk =
    let (bit, map) = alloc_bit t.procmap in
    (
      u16 bit,
      record {
        procmap = map;
        pidmap = store_pid t.pidmap (u16 bit) (some (new_process name junk));
      },
    )

unfoldable pub free_process : Pids → ℕ → Pids
unfolding free_bit
free_process t pid = record {
  procmap = free_bit t.procmap pid;
  pidmap = store_pid t.pidmap pid none;
}

abbrev pub max_proc : ℕ
max_proc = 1984

-- The loop from number `i` on, over the `n` numbers that are left.
unfoldable pub find_from : (ℕ → Option Life) → Text → ℕ → ℕ → Option ℕ
find_from pidmap name zero i = none
find_from pidmap name (suc n) i =
    let rest = find_from pidmap name n (suc i) in
    elim (pidmap i) [ none ↦ rest | some l ↦ if strcmp l.name name == 0 then some i else rest ]

unfoldable pub find_process : Pids → Text → Option ℕ
unfolding find_from
find_process t name = find_from t.pidmap name max_proc 0

abbrev pub is_stopped : Status → Bool
is_stopped stopped = true
is_stopped created = false
is_stopped running = false
is_stopped ready = false
is_stopped suspend = false
is_stopped dead = false

-- `true` is a return; else the caller is queued and suspends.
unfoldable pub wait_process : ℕ → Life → Bool × Life
unfolding wait_signal
wait_process self l =
    if is_stopped l.stat
    then (true, l)
    else (let (back, s) = wait_signal self l.deathsig in (back, record l { deathsig = s }))

-- The last reference: one is dropped, and the process is reaped where none is left.
unfoldable pub close_process : Life → Life × Bool
unfolding drop_process
close_process l = (drop_process l, (drop_process l).href == 0)

-- What `exit_process` does to the process itself, with the processes that its signal wakes.
unfoldable pub end_process : Life → (Life × List ℕ) × Bool
unfolding set_signal close_process
end_process l =
    let (s, woken) = set_signal l.deathsig in
    let (l', reap) = close_process (record l { stat = stopped; deathsig = s }) in
    ((l', woken), reap)

-- `set_signal` readies those who wait, one after the other.
unfoldable pub ready_all : List ℕ → List Processor → Processes → List Processor × Processes
unfolding ready_process
ready_all [] cpus ps = (cpus, ps)
ready_all (t ∷ ts) cpus ps = let (_, cpus', ps') = ready_process t cpus ps in ready_all ts cpus' ps'

-- `sched_exit` on processor `i`.
unfoldable pub leave_cpu : ℕ → List Processor → Processes → Option (List Processor × Processes)
unfolding sched_exit
leave_cpu i cpus ps = elim (get_elem? cpus i) [
  | none ↦ none
  | some p ↦ elim (sched_exit p ps) [ none ↦ none | some (p', ps') ↦ some (set cpus i p', ps') ]
]

-- `exit_process` of the process that runs on processor `i`, with `l` for its own record: the processors, the
-- states, the record, and whether the process is reaped. `none` is a fault of `sched_exit`.
unfoldable pub exit_process :
    ℕ → List Processor → Processes → Life → Option ((List Processor × Processes) × (Life × Bool))
unfolding del_ready leave_cpu ready_all end_process
exit_process i cpus ps l = elim (get_elem? cpus i) [
  | none ↦ none
  | some p ↦
      let ((l', woken), reap) = end_process l in
      let (cpus', ps') =
        ready_all woken (set cpus i (record p { ready = del_ready p.ready p.cur }))
          (set_stat ps p.cur stopped) in
      elim (leave_cpu i cpus' ps') [
        | none ↦ none
        | some r ↦ some (r, (record l' { stat = dead }, reap))
      ]
]

abbrev pub handle_process : ℕ
handle_process = 1

-- A handle for the process that was found: the number, or `none` where the table is full.
unfoldable pub refer_at : Pids → Table → ℕ → Life → (Option ℕ × Table) × Pids
unfolding refer_process htab_insert
refer_at t htab pid l =
    let t' = record t { pidmap = store_pid t.pidmap pid (some (refer_process l)) } in
    elim (htab_insert htab pid handle_process) [
      | none ↦ ((none, htab), t')
      | some (k, htab') ↦ ((some k, htab'), t')
    ]

-- `none` is an access through the null pointer: `find_process` found none.
unfoldable pub hop_find_process : Pids → Table → Text → Option ((Option ℕ × Table) × Pids)
unfolding find_process refer_at
hop_find_process t htab name = elim (find_process t name) [
  | none ↦ none
  | some pid ↦ elim (t.pidmap pid) [ none ↦ none | some l ↦ some (refer_at t htab pid l) ]
]

-- The table, the processes, and whether the process is reaped; `none` is an access through a null pointer.
unfoldable pub hop_close_process : Pids → Table → ℕ → Option ((Table × Pids) × Bool)
unfolding close_process htab_delete
hop_close_process t htab number = elim ((get_or htab number no_handle).ptr) [
  | none ↦ none
  | some pid ↦ elim (t.pidmap pid) [
    | none ↦ none
    | some l ↦
        let (l', reap) = close_process l in
        some
          ((htab_delete htab number, record t { pidmap = store_pid t.pidmap pid (some l') }), reap)
  ]
]
