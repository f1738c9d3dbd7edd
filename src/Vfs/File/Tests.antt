-- ===== src/Vfs/File/Tests.antt =====
-- Runs on a small file of the archive, and the theorems at it.
use mosix_3d.Prelude.{◌+◌, ◌-◌, ◌^◌, ◌≡◌, refl, true, List, [], ◌∷◌, arith}
use mosix_3d.Vfs.File.{
  Node, File, Memory, initfs_read, initfs_operations, write, read, lseek, negative,
}
use mosix_3d.Vfs.File.Refine.{Call, reading, seeking, AllInRange}

abbrev small_memory : Memory
small_memory a = a + 7

abbrev small_file : File
small_file = record { size = 10; off = 4; mode = 0; href = 1; data' = 100 }

abbrev small_node : Node
small_node = record { sb = true; child = 0; size = 10; attr = 0; data' = 100 }

-- Read 3 bytes, go back by 5, read 20, seek out of the file.
abbrev some_calls : List Call
some_calls = reading 3 ∷ seeking (2 ^ 64 - 5) 1 ∷ reading 20 ∷ seeking 11 0 ∷ []

abbrev some_calls_in_range : AllInRange some_calls
some_calls_in_range = (omega arith, (omega arith, (omega arith, (omega arith, tt))))

reads : (read initfs_operations small_memory small_file 3).1 ≡ 111 ∷ 112 ∷ 113 ∷ []
unfolding read initfs_operations initfs_read
reads = refl

writes_nothing : (write initfs_operations small_memory small_file 3).0 ≡ negative 1
unfolding write initfs_operations
writes_nothing = refl

seeks_to_end : (lseek initfs_operations small_file 2 2).0 ≡ 8
unfolding lseek initfs_operations
seeks_to_end = refl
