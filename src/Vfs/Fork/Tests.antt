-- ===== src/Vfs/Fork/Tests.antt =====
-- Runs on tables of three handles.
use mosix_3d.Prelude.{ℕ, ◌≡◌, refl, List, [], ◌∷◌, Option, none, some}
use mosix_3d.Vfs.Handle.{
  Handle, Table, Files, no_handle, handle_file, htab_assign, htab_delete, hop_closefile,
}
use mosix_3d.Vfs.Fork.{fork_setstdfp}

abbrev file_7 : Handle
file_7 = record { ptr = some 7; type = handle_file; flag = 0 }

abbrev empty_table : Table
empty_table = no_handle ∷ no_handle ∷ no_handle ∷ no_handle ∷ []

standard_test :
    fork_setstdfp (some empty_table) 7 ≡ some (file_7 ∷ file_7 ∷ file_7 ∷ no_handle ∷ [])
unfolding fork_setstdfp htab_assign
standard_test = refl

abbrev freed_by : Option Files → List ℕ
freed_by none = []
freed_by (some s) = s.freed

-- The copies are not counted: where the father holds the file once, the first close of the new process
-- frees it.
shared_test :
    freed_by (
      hop_closefile
        (record { table = file_7 ∷ file_7 ∷ file_7 ∷ no_handle ∷ []; href = λ f. 1; freed = [] })
        0)
    ≡ 7 ∷ []
unfolding hop_closefile htab_delete
shared_test = refl
