-- ===== src/Proc/Life/Reaped.antt =====
-- The handles of a process and its reference count.
use mosix_3d.Prelude.{ℕ, ◌+◌, ◌^◌, ◌<◌, ◌≡◌, [], ◌∷◌, none, some, ◌==◌, if◌then◌else◌}
use mosix_3d.Vfs.Handle.{Handle, Table}
use mosix_3d.Proc.Life.{Life, Pids, handle_process}

-- An entry that is a handle of process `pid`.
abbrev pub refers : ℕ → Handle → ℕ
refers pid h = elim h.ptr [
  | none ↦ 0
  | some p ↦ if p == pid then (if h.type == handle_process then 1 else 0) else 0
]

-- How many entries of the table are handles of `pid`.
abbrev pub references : ℕ → Table → ℕ
references pid [] = 0
references pid (h ∷ hs) = refers pid h + references pid hs

-- The count of process `pid` is the number of its handles in the table and of its `others`: the reference that
-- a process holds to itself until it exits, and its handles in the tables of other processes.
pub record IsCounted (htab : Table) (t : Pids) (pid others : ℕ) (l : Life) : Type 0 where
  pub found : t.pidmap pid ≡ some l
  pub counted : l.href ≡ references pid htab + others
  pub short : l.href < 2 ^ 16
  pub word : l.errno < 2 ^ 16
