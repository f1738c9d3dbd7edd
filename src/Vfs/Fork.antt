-- ===== src/Vfs/Fork.antt =====
-- The handles that a new process gets, kernel/mp/fork.c: `fork_setstdfp`, `fork_dupall` and
-- `fork_dupstdfp`.
--
-- A process is its handle table here, and a null pointer is `none`: then nothing is done.
mod Tests
use mosix_3d.Prelude.{ℕ, List, [], ◌∷◌, Option, none, some}
use mosix_3d.Vfs.Handle.{Handle, Table, handle_file, htab_assign, htab_copy}

unfoldable pub fork_setstdfp : Option Table → ℕ → Option Table
unfolding htab_assign
fork_setstdfp none stdfp = none
fork_setstdfp (some new) stdfp =
    let new0 = htab_assign new 0 (some stdfp) handle_file in
    let new1 = htab_assign new0 1 (some stdfp) handle_file in
    some (htab_assign new1 2 (some stdfp) handle_file)

unfoldable pub fork_dupall : Option Table → Table → Option Table
unfolding htab_copy
fork_dupall none old = none
fork_dupall (some new) old = some (htab_copy new old)

-- `memcpy` of three entries.
abbrev copy_handles : Table → Table → Table
copy_handles (x ∷ y ∷ z ∷ new) (a ∷ b ∷ c ∷ old) = a ∷ b ∷ c ∷ new
copy_handles new old = new

unfoldable pub fork_dupstdfp : Option Table → Table → Option Table
fork_dupstdfp none old = none
fork_dupstdfp (some new) old = some (copy_handles new old)
