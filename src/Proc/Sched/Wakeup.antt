-- ===== src/Proc/Sched/Wakeup.antt =====
-- A wake-up that comes between the queueing of a process and its suspension.
use mosix_3d.Prelude.{ℕ, ◌≡◌, ◌≢◌, false, List, [], ◌∷◌, some, arith}
use mosix_3d.Sync.{Signal, wait_signal, set_signal}
use mosix_3d.Proc.Sched.{
  running, suspend, Processes, Processor, suspend_process, ready_process, proc_ready,
}
use mosix_3d.Proc.Sched.Lists.{is_in}
use mosix_3d.Proc.Sched.Invariant.{Scheduled}
use mosix_3d.Proc.Sched.Leave.{suspend_process-Scheduled}

pub ready_process_running :
    (t : ℕ) (cpus : List Processor) (ps : Processes)
    → (ps t).stat ≡ running
    → ready_process t cpus ps ≡ (proc_ready, cpus, ps)
unfolding ready_process
ready_process_running t cpus ps e = ground arith

-- Process `t` runs on `p` and waits for a clear signal that no other process waits for. If another
-- processor sets the signal after `t` is queued and before it is suspended, `ready_process` refuses
-- `t`, which still runs. Then `t` suspends, off the ready list of `p`, and the signal is set with
-- nobody queued.
pub wakeup_lost :
    (p : Processor) (ps : Processes) (others : List Processor) (s : Signal)
    → p.cur ≢ p.idle
    → Scheduled p ps
    → s.owned ≡ 0
    → s.waiters ≡ []
    → let queued = (wait_signal p.cur s).1 in
      let (set_s, woken) = set_signal queued in
      (p' : Processor) × (ps' : Processes) × ((wait_signal p.cur s).0 ≡ false)
      × (woken ≡ p.cur ∷ [])
      × (ready_process p.cur others ps ≡ (proc_ready, others, ps))
      × (suspend_process p ps ≡ some (p', ps'))
      × (is_in p.cur p'.ready.list ≡ false)
      × ((ps' p.cur).stat ≡ suspend)
      × (set_s.owned ≡ 1)
      × (set_s.waiters ≡ [])
unfolding wait_signal set_signal
wakeup_lost p ps others s busy sch clear alone =
    let r = suspend_process-Scheduled p ps busy sch in
    (
      r.0,
      r.1,
      ground arith,
      ground arith,
      ready_process_running p.cur others ps sch.runs,
      r.2,
      r.5,
      r.6,
      ground arith,
      ground arith,
    )
