-- ===== src/Proc/Life/Exit.antt =====
-- What `exit_process` does to its processor and to those who wait for the process.
use mosix_3d.Prelude.{Bool, some, List, none, Option}
use mosix_3d.Proc.Sched.{Processor, Processes}
use mosix_3d.Proc.Life.{Life}

-- The end of `exit_process`.
abbrev finish :
    Option (List Processor × Processes)
    → Life × Bool
    → Option ((List Processor × Processes) × (Life × Bool))
finish o end = elim o [ none ↦ none | some r ↦ some (r, end) ]
