-- ===== src/Vfs/Handle/Tests.antt =====
-- Runs on a small handle table, and the theorems at concrete tables.
use mosix_3d.Prelude.{ℕ, ◌≡◌, refl, [], ◌∷◌, some, ◌==◌, if◌then◌else◌, arith}
use mosix_3d.Vfs.Handle.{Table, no_handle, htab_insert, Files, hop_openfile, hop_closefile}
use mosix_3d.Vfs.Handle.Table.{entry}
use mosix_3d.Vfs.Handle.Reference.{
  IsCounted, references, hop_openfile-IsCounted, hop_closefile-IsCounted,
}

abbrev small_table : Table
small_table = entry 7 2 ∷ no_handle ∷ entry 9 1 ∷ no_handle ∷ []

abbrev small_files : Files
small_files = record { table = small_table; href = references_of; freed = [] }
  where
    references_of : ℕ → ℕ
    references_of f = references f small_table

abbrev small_opened : Files
small_opened = (hop_openfile small_files (some 7)).1

abbrev small_counted : IsCounted small_files
small_counted = record { counted = λ f. refl; bound = omega arith }

hop_openfile-IsCounted_example : IsCounted small_opened
unfolding hop_openfile htab_insert
hop_openfile-IsCounted_example =
    hop_openfile-IsCounted small_files small_opened 7 1 small_counted refl

hop_closefile-IsCounted_example :
    (s' : Files) × (hop_closefile small_files 0 ≡ some s')
    × IsCounted s'
    × (s'.freed ≡ (if references 7 s'.table == 0 then 7 ∷ [] else []))
hop_closefile-IsCounted_example =
    hop_closefile-IsCounted small_files 7 0 small_counted refl (omega arith)
