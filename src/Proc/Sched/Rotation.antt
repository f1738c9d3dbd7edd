-- ===== src/Proc/Sched/Rotation.antt =====
-- No ready process starves: the clock tick goes round the ready list.
use mosix_3d.Prelude.{
  ℕ, zero, suc, ◌+◌, ◌-◌, ◌<◌, ◌≡◌, refl, ◌∙◌, ◌≢◌, ◌⊎◌, Option, none, some, if◌then◌else◌, length,
  get_elem?, arith, inl, inr, ltb,
}
use mosix_3d.Proc.Sched.{running, ready, Processes, Processor, set_stat, rotate, sched}
use mosix_3d.Proc.Sched.Lists.{get_elem?-some}
use mosix_3d.Proc.Sched.Invariant.{Scheduled, AllReady-update, switch-Scheduled, rotate-in}

-- `n` clock ticks with nothing between them.
unfoldable pub ticks : ℕ → Processor → Processes → Option (Processor × Processes)
ticks zero p ps = some (p, ps)
ticks (suc n) p ps = elim (sched p ps) [ none ↦ none | some (p', ps') ↦ ticks n p' ps' ]

abbrev pub double : ℕ → ℕ
double zero = 0
double (suc n) = suc (suc (double n))

-- A tick at which the running process's time is over.
record Switched (p : Processor) (ps : Processes) : Type 0 where
  next : ℕ
  at : get_elem? p.ready.list (rotate p.ready).cur ≡ some next
  result :
      sched p ps
      ≡ some (
        record p { cur = next; tickleft = 1; ready = rotate p.ready },
        set_stat (set_stat ps p.cur ready) next running,
      )
  keeps :
      Scheduled
        (record p { cur = next; tickleft = 0; ready = rotate p.ready })
        (set_stat (set_stat ps p.cur ready) next running)

switch :
    (p : Processor) (ps : Processes)
    → p.tickleft ≡ 0
    → 1 < length p.ready.list
    → Scheduled p ps
    → Switched p ps
unfolding sched
switch p ps t many s =
    let inside : (rotate p.ready).cur < length p.ready.list =
      rotate-in p.ready s.short (omega arith) s.points.0 in
    let next = get_elem?-some p.ready.list (rotate p.ready).cur inside in
    record {
      next = next.0;
      at = next.1;
      result = ground (arith, next.1);
      keeps =
          switch-Scheduled p (set_stat ps p.cur ready) (rotate p.ready) next.0 0 s.distinct s.short
            s.idle_out (omega arith, inr next.1)
            (AllReady-update ps p.cur (record (ps p.cur) { stat = ready }) p.ready.list refl
              s.all_ready);
    }

two_ticks :
    (n : ℕ) (p : Processor) (ps : Processes) (w : Switched p ps)
    → ticks (suc (suc n)) p ps
      ≡ ticks n
          (record p { cur = w.next; tickleft = 0; ready = rotate p.ready })
          (set_stat (set_stat ps p.cur ready) w.next running)
unfolding ticks sched
two_ticks n p ps w = rw (w.result, ticks) refl

turn :
    (d : ℕ) (p : Processor) (ps : Processes) (j : ℕ)
    → p.tickleft ≡ 0
    → 1 < length p.ready.list
    → j < length p.ready.list
    → (p.ready.cur + d ≡ j) ⊎ (p.ready.cur + d ≡ j + length p.ready.list)
    → get_elem? p.ready.list p.ready.cur ≡ some p.cur
    → Scheduled p ps
    → (p' : Processor) × (ps' : Processes) × (ticks (double d) p ps ≡ some (p', ps'))
      × Scheduled p' ps'
      × (get_elem? p.ready.list j ≡ some p'.cur)
turn zero p ps j t many h e at s =
    let here : p.ready.cur ≡ j = omega (arith, s.points.0) in
    (p, ps, unfold ticks in refl, s, rw (← here) at)
turn (suc d) p ps j t many h e at s =
    let w = switch p ps t many s in
    let r =
      turn d (record p { cur = w.next; tickleft = 0; ready = rotate p.ready })
        (set_stat (set_stat ps p.cur ready) w.next running) j refl many h
        (ground (arith, s.points.0, s.short)) w.at w.keeps in
    (r.0, r.1, two_ticks (double d) p ps w ∙ r.2, r.3, r.4)

abbrev distance : ℕ → ℕ → ℕ → ℕ
distance i j n = if ltb j i then j + n - i else j - i

-- While the clock only ticks, so that nothing is readied, suspends or exits: from a processor that keeps the
-- invariant, on which a process other than the idle one runs with no tick left, and whose ready list has two
-- entries or more, the process at any index `j` of that list runs after fewer than twice as many ticks as the
-- list has entries.
pub ticks_reach :
    (p : Processor) (ps : Processes) (j : ℕ)
    → p.tickleft ≡ 0
    → p.cur ≢ p.idle
    → 1 < length p.ready.list
    → j < length p.ready.list
    → Scheduled p ps
    → (d : ℕ) × (p' : Processor) × (ps' : Processes) × (d < length p.ready.list)
      × (ticks (double d) p ps ≡ some (p', ps'))
      × (get_elem? p.ready.list j ≡ some p'.cur)
      × ((ps' p'.cur).stat ≡ running)
ticks_reach p ps j t busy many h s =
    let i = p.ready.cur in
    let at : get_elem? p.ready.list i ≡ some p.cur = elim (s.points.1) [
      | inl e ↦ absurd (busy e)
      | inr e ↦ e
    ] in
    let d = distance i j (length p.ready.list) in
    let r = turn d p ps j t many h (ground (arith, s.points.0)) at s in
    (d, r.0, r.1, ground (arith, s.points.0), r.2, r.4, r.3.runs)
