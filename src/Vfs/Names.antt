-- ===== src/Vfs/Names.antt =====
-- The names of nodes in kernel/vfs/vfs.c: `path_stringify`, `getcwd`, `chdir`, and the listing of a directory
-- by `nosb_getdents` and `getdents`.
--
-- The climb from a node has fuel. `none` is a fault: an access outside an array, or a climb that does not end.
pub mod Roundtrip
mod Tests
use mosix_3d.Prelude.{
  ℕ, zero, suc, ◌+◌, ◌-◌, ◌*◌, ◌/◌, ◌%◌, ◌^◌, Bool, true, false, not, ◌&&◌, List, [], ◌∷◌, ◌++◌,
  length, Option, none, some, ltb, leb, ◌==◌, if◌then◌else◌,
}
use mosix_3d.Vfs.Tree.{Nodes, Tree, TreePath, NodeOperations, Found, Mount, has_flag, path_walk}

abbrev pub prefixed : List ℕ → Option (List ℕ) → Option (List ℕ)
prefixed piece none = none
prefixed piece (some s) = some (piece ++ s)

-- The first loop, with `acc` for the entries of `nl`, the last one in front. There is room for 16.
unfoldable pub climb : ℕ → Tree → ℕ → ℕ → List ℕ → Option (List ℕ)
climb zero t mnt n acc = none
climb (suc fuel) t mnt n acc =
    let top = n == (t.nodes n).father in
    let m = t.mounts mnt in
    let out = climb fuel t m.father (t.nodes m.mntpoint).father (m.mntpoint ∷ acc) in
    let up = climb fuel t mnt (t.nodes n).father (n ∷ acc) in
    if top && (mnt == 0)
    then some acc
    else if leb 16 (length acc)
    then none
    else if top
    then out
    else up

abbrev pub taken : ℕ → List ℕ → List ℕ
taken zero s = []
taken (suc n) [] = []
taken (suc n) (c ∷ s) = c ∷ taken n s

-- The second loop: what is written from `j` on. A name that does not fit is cut, and one of which even the
-- '/' did not fit is copied with a size that wraps.
unfoldable pub print : Nodes → ℕ → ℕ → List ℕ → Option (List ℕ)
print s size j [] = some []
print s size j (n ∷ ns) =
    let name = (s n).name in
    let rest = print s size (j + 1 + length name) ns in
    if ltb size (j + 1 + length name)
    then (if ltb size (j + 1) then none else some (b'/' ∷ taken (size - (j + 1)) name))
    else prefixed (b'/' ∷ name) rest

abbrev pub printed : Nodes → ℕ → Option (List ℕ) → Option (List ℕ)
printed s size none = none
printed s size (some []) = some (b'/' ∷ [])
printed s size (some (n ∷ ns)) = print s size 0 (n ∷ ns)

-- The text in front of the 0. `size` does not count the 0.
unfoldable pub path_stringify : ℕ → Tree → TreePath → ℕ → Option (List ℕ)
unfolding climb print
path_stringify fuel t p size = printed t.nodes size (climb fuel t p.mnt p.node [])

unfoldable pub getcwd : ℕ → Tree → TreePath → ℕ → Option (List ℕ)
unfolding path_stringify
getcwd fuel t cwd size = path_stringify fuel t cwd size

-- The results of `chdir`: a new working directory, `-ENOENT`, `-ENOTDIR`.
pub data Changed : Type 0 where
  changed : TreePath → Tree → Changed
  no_entry not_directory : Changed

abbrev chdir_at : Found → Option Changed
chdir_at none = none
chdir_at (some (p, t)) =
    if p.node == 0
    then some no_entry
    else if has_flag (t.nodes p.node).attr 0
    then some (changed p t)
    else some not_directory

unfoldable pub chdir : ℕ → NodeOperations → Tree → ℕ → TreePath → List ℕ → Option Changed
unfolding path_walk
chdir fuel nops t root cwd path = chdir_at (path_walk fuel nops t root cwd path)

-- The names of up to `count` nodes from `c` on, and the node to go on with.
unfoldable pub nosb_getdents : Nodes → ℕ → ℕ → List (List ℕ) × ℕ
nosb_getdents s c zero = ([], c)
nosb_getdents s c (suc count) =
    let (names, next) = nosb_getdents s (s c).next count in
    if c == 0 then ([], 0) else ((s c).name ∷ names, next)

-- The operation `iterate` of the directory's file, if it has one, is a parameter; `none` is the result -1.
unfoldable pub getdents :
    Nodes → Option (ℕ → ℕ → List (List ℕ) × ℕ) → ℕ → ℕ → ℕ → Option (List (List ℕ) × ℕ)
unfolding nosb_getdents
getdents s iterate dir off count =
    if (s dir).sb == 0
    then some (nosb_getdents s off count)
    else elim iterate [ none ↦ none | some own ↦ some (own off count) ]
