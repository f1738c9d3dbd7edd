-- ===== src/Proc/Sched/Invariant.antt =====
-- What holds of a processor between two steps of the scheduler.
use mosix_3d.Prelude.{
  ℕ, ◌-◌, ◌≤◌, ◌<◌, ◌≡◌, refl, ◌≢◌, ◌⊎◌, true, false, ◌||◌, ◌&&◌, List, [], ◌∷◌, ◌++◌, some, ◌==◌,
  length, get_elem?, arith, Bool-cases, inl, inr, ltb, length-append,
}
use mosix_3d.Proc.Sched.{
  running, ready, Process, Processes, Processor, ReadyList, update, set_stat, is_ready, rotate,
  wrap, sched, add_ready, delete_first, next_process,
}
use mosix_3d.Proc.Sched.Lists.{
  is_in, Distinct, get_elem?-some, get_elem?-append, is_in-append, Distinct-append,
}

-- The index `cur` of the ready list fits it, and is the running process's own unless the processor
-- is idle.
abbrev pub Points : ℕ → ℕ → ReadyList → Type 0
Points now idle rl =
    (rl.cur ≤ length rl.list - 1) × ((now ≡ idle) ⊎ (get_elem? rl.list rl.cur ≡ some now))

-- Every process on the list is ready or runs.
abbrev pub AllReady : Processes → List ℕ → Type 0
AllReady ps [] = Unit {0}
AllReady ps (q ∷ qs) = (is_ready (ps q).stat ≡ true) × AllReady ps qs

pub record Scheduled (p : Processor) (ps : Processes) : Type 0 where
  pub distinct : Distinct p.ready.list
  pub short : length p.ready.list ≤ 32
  pub idle_out : is_in p.idle p.ready.list ≡ false
  pub points : Points p.cur p.idle p.ready
  pub all_ready : AllReady ps p.ready.list
  pub runs : (ps p.cur).stat ≡ running

pub AllReady-update :
    (ps : Processes) (q : ℕ) (v : Process) (qs : List ℕ)
    → is_ready v.stat ≡ true
    → AllReady ps qs
    → AllReady (update ps q v) qs
AllReady-update ps q v [] h a = tt
AllReady-update ps q v (r ∷ qs) h a = ground (arith, AllReady-update ps q v qs h a.1)

pub AllReady-update_out :
    (ps : Processes) (q : ℕ) (v : Process) (qs : List ℕ)
    → is_in q qs ≡ false
    → AllReady ps qs
    → AllReady (update ps q v) qs
AllReady-update_out ps q v [] h a = tt
AllReady-update_out ps q v (r ∷ qs) h a = ground (arith, AllReady-update_out ps q v qs)

pub AllReady-delete_first :
    (ps : Processes) (p : ℕ) (qs : List ℕ) → AllReady ps qs → AllReady ps (delete_first p qs)
unfolding delete_first
AllReady-delete_first ps p [] a = tt
AllReady-delete_first ps p (q ∷ qs) a = ground (arith, AllReady-delete_first ps p qs a.1)

AllReady-add :
    (ps : Processes) (t : ℕ) (qs : List ℕ)
    → AllReady ps qs
    → AllReady (set_stat ps t ready) (qs ++ (t ∷ []))
AllReady-add ps t [] a = ground arith
AllReady-add ps t (q ∷ qs) a = ground (arith, AllReady-add ps t qs a.1)

-- A new process that is not on the list may join it behind the running ones.
pub add_ready-Scheduled :
    (p : Processor) (ps : Processes) (t : ℕ)
    → Scheduled p ps
    → is_in t p.ready.list ≡ false
    → t ≢ p.idle
    → t ≢ p.cur
    → length p.ready.list < 32
    → Scheduled (record p { ready = add_ready t p.ready }) (set_stat ps t ready)
unfolding add_ready
add_ready-Scheduled p ps t s out ni nc h = record {
  distinct = Distinct-append t p.ready.list out s.distinct;
  short = omega (arith, length-append p.ready.list (t ∷ []));
  idle_out = ground (arith, is_in-append p.idle t p.ready.list, s.idle_out);
  points = (
    omega (arith, s.points.0, length-append p.ready.list (t ∷ [])),
    elim (s.points.1) [
      | inl e ↦ inl e
      | inr e ↦ inr (get_elem?-append p.ready.list (t ∷ []) p.ready.cur p.cur e)
    ],
  );
  all_ready = AllReady-add ps t p.ready.list s.all_ready;
  runs = ground (arith, s.runs);
}

-- The part of the invariant that a switch to `next` re-establishes.
pub switch-Scheduled :
    (p : Processor) (ps : Processes) (r : ReadyList) (next ticks : ℕ)
    → Distinct r.list
    → length r.list ≤ 32
    → is_in p.idle r.list ≡ false
    → Points next p.idle r
    → AllReady ps r.list
    → Scheduled (record p { cur = next; tickleft = ticks; ready = r }) (set_stat ps next running)
switch-Scheduled p ps r next ticks d l i pt a = record {
  distinct = d;
  short = l;
  idle_out = i;
  points = pt;
  all_ready = AllReady-update ps next (record (ps next) { stat = running }) r.list refl a;
  runs = ground arith;
}

pub rotate-in :
    (rl : ReadyList)
    → length rl.list ≤ 32
    → 0 < length rl.list
    → rl.cur ≤ length rl.list - 1
    → (rotate rl).cur < length rl.list
rotate-in rl l h c = ground arith

-- The clock tick never reads outside the ready list, and keeps the invariant.
pub sched-Scheduled :
    (p : Processor) (ps : Processes)
    → Scheduled p ps
    → (p' : Processor) × (ps' : Processes) × (sched p ps ≡ some (p', ps')) × Scheduled p' ps'
unfolding sched
sched-Scheduled p ps s = elim (Bool-cases (ltb 0 p.tickleft)) [
  | inl waits ↦ (
    record p { tickleft = p.tickleft - 1 },
    ps,
    rw waits refl,
    record {
      distinct = s.distinct;
      short = s.short;
      idle_out = s.idle_out;
      points = s.points;
      all_ready = s.all_ready;
      runs = s.runs;
    },
  )
  | inr over ↦
      elim (Bool-cases
        (ltb 1 (length p.ready.list) || ((p.cur == p.idle) && ltb 0 (length p.ready.list)))) [
          | inr stays ↦ (p, ps, rw (over, stays) refl, s)
          | inl may ↦
              let inside : (rotate p.ready).cur < length p.ready.list =
                rotate-in p.ready s.short (ground arith) s.points.0 in
              let next = get_elem?-some p.ready.list (rotate p.ready).cur inside in
              (
                record p { cur = next.0; tickleft = 1; ready = rotate p.ready },
                set_stat (set_stat ps p.cur ready) next.0 running,
                rw (over, may, next.1) refl,
                switch-Scheduled p (set_stat ps p.cur ready) (rotate p.ready) next.0 1 s.distinct
                    s.short s.idle_out (omega arith, inr next.1)
                    (AllReady-update ps p.cur (record (ps p.cur) { stat = ready }) p.ready.list refl
                      s.all_ready),
              )
        ]
]

-- The process that `sched_suspend` and `sched_exit` switch to, after the caller left the list.
pub next_process_lem :
    (p : Processor)
    → length p.ready.list ≤ 32
    → p.ready.cur ≤ length p.ready.list
    → (next : ℕ) × (next_process p ≡ some next) × Points next p.idle (wrap p.ready)
unfolding next_process
next_process_lem p l c = elim (Bool-cases (ltb 1 (length p.ready.list))) [
  | inl many ↦
      let inside : (wrap p.ready).cur < length p.ready.list = ground arith in
      let next = get_elem?-some p.ready.list (wrap p.ready).cur inside in
      (next.0, rw many next.1, (omega arith, inr next.1))
  | inr few ↦ (p.idle, rw few refl, (ground arith, inl refl))
]
