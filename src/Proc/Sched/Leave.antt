-- ===== src/Proc/Sched/Leave.antt =====
-- The running process leaves its processor: `suspend_process`, and `sched_exit` at the end of an exit.
use mosix_3d.Prelude.{ℕ, ◌≤◌, ◌≡◌, sym, ◌∙◌, ◌≢◌, false, some, length, get_elem?, arith, inl, inr}
use mosix_3d.Proc.Sched.{
  running, suspend, stopped, dead, Processes, Processor, set_stat, wrap, delete_first, next_process,
  sched_exit, suspend_process,
}
use mosix_3d.Proc.Sched.Lists.{
  is_in, Distinct, get_elem?-is_in, is_in-delete_first, Distinct-delete_first, length-delete_first,
}
use mosix_3d.Proc.Sched.Invariant.{
  Points, AllReady, Scheduled, AllReady-update_out, AllReady-delete_first, switch-Scheduled,
  next_process_lem,
}

-- The processor after `del_ready` of its running process.
abbrev pub left : Processor → Processor
left p = record p { ready = record (p.ready) { list = delete_first p.cur p.ready.list } }

record Left (p : Processor) (ps : Processes) : Type 0 where
  next : ℕ
  chosen : next_process (left p) ≡ some next
  points : Points next p.idle (wrap (left p).ready)
  gone : is_in p.cur (left p).ready.list ≡ false
  other : next ≢ p.cur
  distinct : Distinct (left p).ready.list
  short : length (left p).ready.list ≤ 32
  idle_out : is_in p.idle (left p).ready.list ≡ false
  all_ready : AllReady ps (left p).ready.list

leave : (p : Processor) (ps : Processes) → p.cur ≢ p.idle → Scheduled p ps → Left p ps
leave p ps busy s =
    let at : get_elem? p.ready.list p.ready.cur ≡ some p.cur = elim (s.points.1) [
      | inl e ↦ absurd (busy e)
      | inr e ↦ e
    ] in
    let listed = get_elem?-is_in p.ready.list p.ready.cur p.cur at in
    let len = length-delete_first p.cur p.ready.list listed in
    let n =
      next_process_lem (left p) (omega (arith, s.short, len)) (omega (arith, s.points.0, len)) in
    let gone : is_in p.cur (delete_first p.cur p.ready.list) ≡ false =
      ground (arith, is_in-delete_first p.cur p.cur p.ready.list s.distinct) in
    record {
      next = n.0;
      chosen = n.1;
      points = n.2;
      gone = gone;
      other = elim (n.2.1) [
        | inl e ↦ λ same. busy (sym same ∙ e)
        | inr e ↦ λ same.
            let there = get_elem?-is_in (left p).ready.list (wrap (left p).ready).cur n.0 e in
            cc (there, gone, same)
      ];
      distinct = Distinct-delete_first p.cur p.ready.list s.distinct;
      short = omega (arith, s.short, len);
      idle_out =
          ground (arith, is_in-delete_first p.cur p.idle p.ready.list s.distinct, s.idle_out);
      all_ready = AllReady-delete_first ps p.cur p.ready.list s.all_ready;
    }

-- A process that suspends leaves the ready list and its processor, which goes on with a process of
-- the list or the idle process; the invariant is kept.
pub suspend_process-Scheduled :
    (p : Processor) (ps : Processes)
    → p.cur ≢ p.idle
    → Scheduled p ps
    → (p' : Processor) × (ps' : Processes) × (suspend_process p ps ≡ some (p', ps'))
      × Scheduled p' ps'
      × (p'.cur ≢ p.cur)
      × (is_in p.cur p'.ready.list ≡ false)
      × ((ps' p.cur).stat ≡ suspend)
unfolding suspend_process
suspend_process-Scheduled p ps busy s =
    let l = leave p ps busy s in
    (
      record p { cur = l.next; tickleft = 1; ready = wrap (left p).ready },
      set_stat (set_stat ps p.cur suspend) l.next running,
      ground (arith, l.chosen),
      switch-Scheduled (left p) (set_stat ps p.cur suspend) (wrap (left p).ready) l.next 1
          l.distinct l.short l.idle_out l.points
          (AllReady-update_out ps p.cur (record (ps p.cur) { stat = suspend }) (left p).ready.list
            l.gone l.all_ready),
      l.other,
      l.gone,
      ground (arith, l.other),
    )

-- A process that is off the ready list and stopped, as `exit_process` leaves it, is dead after
-- `sched_exit`, and its processor goes on with a process of the list or the idle process.
pub sched_exit-Scheduled :
    (p : Processor) (ps : Processes)
    → p.cur ≢ p.idle
    → Scheduled p ps
    → (p' : Processor) × (ps' : Processes) × (sched_exit (left p) (set_stat ps p.cur stopped)
        ≡ some (p', ps'))
      × Scheduled p' ps'
      × (p'.cur ≢ p.cur)
      × (is_in p.cur p'.ready.list ≡ false)
      × ((ps' p.cur).stat ≡ dead)
unfolding sched_exit
sched_exit-Scheduled p ps busy s =
    let l = leave p ps busy s in
    let stopped_ps = set_stat ps p.cur stopped in
    let running_ps = set_stat stopped_ps l.next running in
    let sw =
      switch-Scheduled (left p) stopped_ps (wrap (left p).ready) l.next 1 l.distinct l.short
        l.idle_out l.points
        (AllReady-update_out ps p.cur (record (ps p.cur) { stat = stopped }) (left p).ready.list
          l.gone l.all_ready) in
    (
      record p { cur = l.next; tickleft = 1; ready = wrap (left p).ready },
      set_stat running_ps p.cur dead,
      ground (arith, l.chosen),
      record {
        distinct = sw.distinct;
        short = sw.short;
        idle_out = sw.idle_out;
        points = sw.points;
        all_ready =
            AllReady-update_out running_ps p.cur (record (running_ps p.cur) { stat = dead })
              (left p).ready.list l.gone sw.all_ready;
        runs = ground (arith, sw.runs, l.other);
      },
      l.other,
      l.gone,
      ground arith,
    )
