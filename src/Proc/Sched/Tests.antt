-- ===== src/Proc/Sched/Tests.antt =====
-- Runs of the scheduler, and its theorems at concrete processors.
use mosix_3d.Prelude.{
  ℕ, ◌<◌, ◌≡◌, refl, ◌≢◌, inr, false, [], ◌∷◌, none, some, ◌==◌, if◌then◌else◌, arith,
}
use mosix_3d.Sync.{Signal, wait_signal, set_signal}
use mosix_3d.Proc.Sched.{
  running, ready, suspend, Processes, Processor, set_stat, add_ready, suspend_process,
  choose_cpu_for, ready_process, proc_ready,
}
use mosix_3d.Proc.Sched.Lists.{is_in}
use mosix_3d.Proc.Sched.Invariant.{Scheduled, add_ready-Scheduled}
use mosix_3d.Proc.Sched.Leave.{suspend_process-Scheduled}
use mosix_3d.Proc.Sched.Rotation.{ticks, double, ticks_reach}
use mosix_3d.Proc.Sched.Wakeup.{wakeup_lost}

-- Process 5 runs; 6 and 7 are ready; 1 is the idle process.
abbrev states : Processes
states q = record { stat = if q == 5 then running else ready; curcpu = 0; affinity = 0xffff }

abbrev cpu : Processor
cpu = record {
  stat = 2;
  cur = 5;
  tickleft = 0;
  idle = 1;
  ready = record { list = 6 ∷ 5 ∷ 7 ∷ []; cur = 1 };
}

-- A second processor with one ready process.
abbrev light : Processor
light = record cpu { cur = 8; ready = record { list = 8 ∷ []; cur = 0 } }

cpu-Scheduled : Scheduled cpu states
cpu-Scheduled = record {
  distinct = (refl, (refl, (refl, tt)));
  short = omega arith;
  idle_out = refl;
  points = (omega arith, inr refl);
  all_ready = (refl, (refl, (refl, tt)));
  runs = refl;
}

abbrev clear : Signal
clear = record { owned = 0; owner = none; waiters = []; href = 0 }

light_is_chosen : choose_cpu_for 0xffff (cpu ∷ light ∷ []) ≡ 1
unfolding choose_cpu_for
light_is_chosen = refl

add_ready-Scheduled_example :
    Scheduled (record cpu { ready = add_ready 9 cpu.ready }) (set_stat states 9 ready)
add_ready-Scheduled_example =
    add_ready-Scheduled cpu states 9 cpu-Scheduled refl (omega arith) (omega arith) (omega arith)

suspend_process-Scheduled_example :
    (p' : Processor) × (ps' : Processes) × (suspend_process cpu states ≡ some (p', ps'))
    × Scheduled p' ps'
    × (p'.cur ≢ 5)
    × (is_in 5 p'.ready.list ≡ false)
    × ((ps' 5).stat ≡ suspend)
suspend_process-Scheduled_example = suspend_process-Scheduled cpu states (omega arith) cpu-Scheduled

ticks_reach_example :
    (d : ℕ) × (p' : Processor) × (ps' : Processes) × (d < 3)
    × (ticks (double d) cpu states ≡ some (p', ps'))
    × (some 6 ≡ some p'.cur)
    × ((ps' p'.cur).stat ≡ running)
ticks_reach_example =
    ticks_reach cpu states 0 refl (omega arith) (omega arith) (omega arith) cpu-Scheduled

wakeup_lost_example :
    let queued = (wait_signal 5 clear).1 in
    let (set_s, woken) = set_signal queued in
    (p' : Processor) × (ps' : Processes) × ((wait_signal 5 clear).0 ≡ false)
    × (woken ≡ 5 ∷ [])
    × (ready_process 5 (light ∷ []) states ≡ (proc_ready, light ∷ [], states))
    × (suspend_process cpu states ≡ some (p', ps'))
    × (is_in 5 p'.ready.list ≡ false)
    × ((ps' 5).stat ≡ suspend)
    × (set_s.owned ≡ 1)
    × (set_s.waiters ≡ [])
wakeup_lost_example =
    wakeup_lost cpu states (light ∷ []) clear (omega arith) cpu-Scheduled refl refl
