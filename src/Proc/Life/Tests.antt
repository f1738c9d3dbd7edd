-- ===== src/Proc/Life/Tests.antt =====
-- A process that is created, found, waited for and reaped, and the theorems at it.
use mosix_3d.Prelude.{
  ℕ, ◌==◌, ◌-◌, ◌^◌, ◌<◌, ◌≡◌, refl, [], ◌∷◌, Option, none, some, zero, suc, ap, sym, ◌∙◌, ne→==,
  ◌==◌, if◌then◌else◌, arith,
}
use mosix_3d.Misc.Bitmap.{alloc_bit, take_bit, first_clear, clear_bit}
use mosix_3d.Misc.Bitmap.Alloc.{bit, IsValid}
use mosix_3d.Proc.Sched.{Processor, Processes, running, ready}
use mosix_3d.Proc.Life.{
  Life, Pids, new_process, refer_process, alloc_process, find_process, handle_process, max_proc,
}
use mosix_3d.Vfs.Handle.{Table}
use mosix_3d.Proc.Life.Found.{
  IsUnnamed, IsTracked, used, alloc_process-IsTracked, find_process-alloc_process,
}

abbrev idle : Life
idle = record {
  name = [];
  stat = running;
  affinity = 0xffff;
  lovedcpu = 0;
  curcpu = 0;
  vm = none;
  heap = none;
  argv = none;
  jbesp = 0;
  deathsig = record { owned = 0; owner = none; waiters = 3 ∷ 4 ∷ []; href = 0 };
  href = 1;
  errno = 0;
}

abbrev lonely : Life
lonely = record idle { deathsig = record { owned = 0; owner = none; waiters = []; href = 0 } }

-- Only the number 0 is used.
abbrev one : Pids
one = record {
  procmap = record { max = 8; size = 0; bytes = 0x01 ∷ [] };
  pidmap = λ i. if i == 0 then some idle else none;
}

second : (alloc_process one (b'b' ∷ []) 7).0 ≡ 1
unfolding alloc_process alloc_bit take_bit first_clear clear_bit
second = refl

one-IsTracked : IsTracked one
one-IsTracked zero l = refl
one-IsTracked (suc zero) l = refl
one-IsTracked (suc (suc zero)) l = refl
one-IsTracked (suc (suc (suc zero))) l = refl
one-IsTracked (suc (suc (suc (suc zero)))) l = refl
one-IsTracked (suc (suc (suc (suc (suc zero))))) l = refl
one-IsTracked (suc (suc (suc (suc (suc (suc zero)))))) l = refl
one-IsTracked (suc (suc (suc (suc (suc (suc (suc zero))))))) l = refl
one-IsTracked (suc (suc (suc (suc (suc (suc (suc (suc i)))))))) l = absurd (omega arith)

one-IsValid : IsValid one.procmap
one-IsValid = omega arith

alloc_process-IsTracked_example :
    let (pid, t') = alloc_process one (b'b' ∷ []) 7 in
    (one.pidmap pid ≡ none) × ((i : ℕ) → i < 8 → bit t'.procmap.bytes i ≡ used (t'.pidmap i))
unfolding alloc_bit take_bit first_clear clear_bit
alloc_process-IsTracked_example =
    alloc_process-IsTracked one (b'b' ∷ []) 7 one-IsValid (omega arith) (omega arith) one-IsTracked

only_idle : IsUnnamed one.pidmap (b'b' ∷ [])
only_idle zero l e = λ q. absurd cc
only_idle (suc i) l e =
    let rest : Option Life = none in
    let q : rest ≡ some l =
      sym (ap (λ b. if b then some idle else none) (ne→== (suc i) 0 (λ z. absurd (omega arith))))
      ∙ e in
    absurd cc

one_fits : (alloc_process one (b'b' ∷ []) 7).0 < max_proc
unfolding alloc_process alloc_bit take_bit first_clear clear_bit
one_fits = omega arith

find_process-alloc_process_example :
    find_process (alloc_process one (b'b' ∷ []) 7).1 (b'b' ∷ [])
    ≡ some (alloc_process one (b'b' ∷ []) 7).0
find_process-alloc_process_example = find_process-alloc_process one (b'b' ∷ []) 7 one_fits only_idle

-- The count wraps into the error number.
carries : (refer_process (record (new_process [] 7) { href = 2 ^ 16 - 1 })).errno ≡ 8
unfolding refer_process new_process
carries = refl

-- Process 5 runs, 6 and 7 are ready, and 1 is idle.
abbrev states : Processes
states i = record { stat = if i == 5 then running else ready; curcpu = 0; affinity = 0xffff }

abbrev cpu : Processor
cpu = record {
  stat = 2;
  cur = 5;
  tickleft = 0;
  idle = 1;
  ready = record { list = 6 ∷ 5 ∷ 7 ∷ []; cur = 1 };
}

-- A table in which entry 1 is a handle of process 0, which nobody else refers to.
abbrev handles : Table
handles =
    record { ptr = none; type = 0; flag = 0 }
    ∷ record { ptr = some 0; type = handle_process; flag = 0 }
    ∷ []
