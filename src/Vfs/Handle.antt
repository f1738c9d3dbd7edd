-- ===== src/Vfs/Handle.antt =====
-- Handle tables: kernel/vfs/handle.c over `Handle` and `HandleTable` of kernel/include/handle.h.
--
-- A table is the list of its 256 entries; a pointer is a number, and a null pointer `none`. The lock
-- is held over each change. An access outside the table changes nothing here. `opened` counts the
-- references of the open files, and `freed` names the files that `close` has freed.
pub mod Table
pub mod Reference
mod Tests
use mosix_3d.Prelude.{
  ℕ, zero, suc, ◌+◌, ◌-◌, ◌^◌, Bool, true, false, List, [], ◌∷◌, Option, none, some, ◌==◌,
  if◌then◌else◌, get_or, set, replicate, u32,
}
use mosix_3d.Sync.{Mutex, init_mutex}

pub record Handle : Type 0 where
  pub ptr : Option ℕ
  pub type : ℕ
  pub flag : ℕ

abbrev pub Table : Type 0
Table = List Handle

abbrev pub no_handle : Handle
no_handle = record { ptr = none; type = 0; flag = 0 }

abbrev pub max_handle : ℕ
max_handle = 256

abbrev pub handle_file : ℕ
handle_file = 2

-- The zeroed page of a new table.
unfoldable pub alloc_htab : Table
alloc_htab = replicate max_handle no_handle

-- The loop of `htab_insert`, from entry `i` on: the first free entry is taken.
unfoldable pub insert_from : ℕ → Table → ℕ → ℕ → Option (ℕ × Table)
insert_from i [] obj type = none
insert_from i (h ∷ hs) obj type =
    let rest = insert_from (suc i) hs obj type in
    elim (h.ptr) [
      | none ↦ some (i, record { ptr = some obj; type = type; flag = 0 } ∷ hs)
      | some p ↦ elim rest [ none ↦ none | some (k, hs') ↦ some (k, h ∷ hs') ]
    ]

-- `none` is the result -1.
unfoldable pub htab_insert : Table → ℕ → ℕ → Option (ℕ × Table)
unfolding insert_from
htab_insert htab obj type = insert_from 0 htab obj type

unfoldable pub htab_delete : Table → ℕ → Table
htab_delete htab n = set htab n (record (get_or htab n no_handle) { ptr = none })

unfoldable pub htab_assign : Table → ℕ → Option ℕ → ℕ → Table
htab_assign htab n ptr type = set htab n (record { ptr = ptr; type = type; flag = 0 })

unfoldable pub htab_copy : Table → Table → Table
htab_copy dst src = src

unfoldable pub handle_query : Table → ℕ → Option ℕ
handle_query htab n = (get_or htab n no_handle).ptr

unfoldable pub handle_dup : Table → ℕ → ℕ → Table
unfolding htab_assign
handle_dup htab old new =
    htab_assign htab new (get_or htab old no_handle).ptr (get_or htab old no_handle).type

pub record Files : Type 0 where
  pub table : Table
  pub href : ℕ → ℕ
  pub freed : List ℕ

abbrev pub count_at : (ℕ → ℕ) → ℕ → ℕ → ℕ → ℕ
count_at href f n g = if f == g then n else href g

-- What `hop_openfile` returns: it throws where `open` failed.
pub data Opened : Type 0 where
  thrown failed : Opened
  handle : ℕ → Opened

unfoldable opened_at : Files → Option (ℕ × Table) → Opened × Files
opened_at s none = (failed, s)
opened_at s (some (number, table)) = (handle number, record s { table = table })

-- The result of `open` is an argument.
unfoldable pub hop_openfile : Files → Option ℕ → Opened × Files
unfolding opened_at
hop_openfile s none = (thrown, s)
hop_openfile s (some f) =
    opened_at (record s { href = count_at s.href f (u32 (s.href f + 1)) })
      (htab_insert s.table f handle_file)

-- The file is closed at the last reference; `none` is an access through a null pointer.
unfoldable pub hop_closefile : Files → ℕ → Option Files
unfolding htab_delete
hop_closefile s number = elim ((get_or s.table number no_handle).ptr) [
  | none ↦ none
  | some f ↦
      let n = u32 (s.href f + 2 ^ 32 - 1) in
      some (record s {
        table = htab_delete s.table number;
        href = count_at s.href f n;
        freed = if n == 0 then f ∷ s.freed else s.freed;
      })
]

abbrev pub handle_mutex : ℕ
handle_mutex = 3

-- A new mutex at the pointer `m`, and its handle, if the table has room.
unfoldable pub hop_create_mutex : Table → ℕ → Mutex × Option (ℕ × Table)
unfolding init_mutex htab_insert
hop_create_mutex htab m =
    (record init_mutex { href = u32 (init_mutex.href + 1) }, htab_insert htab m handle_mutex)

-- The mutex is freed whatever its count is.
unfoldable pub hop_close_mutex : Table → ℕ → Option ℕ × Table
unfolding htab_delete
hop_close_mutex htab number = ((get_or htab number no_handle).ptr, htab_delete htab number)
