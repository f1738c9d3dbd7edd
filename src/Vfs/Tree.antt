-- ===== src/Vfs/Tree.antt =====
-- The file tree of kernel/vfs/vfs.c: nodes and their children, mounts, and the walk along a path, over the
-- structs of kernel/include/vfs.h.
--
-- A pointer is a number and 0 is NULL; nodes and mounts are functions from pointers. Allocations succeed:
-- the pointer of the new object is an argument. The operations of a file system on its nodes are
-- parameters. `nops` that is null has none. The loop over the children has fuel.
pub mod Children
pub mod Unlink
pub mod Walk
mod Tests
use mosix_3d.Prelude.{
  ℕ, zero, suc, ◌+◌, ◌-◌, ◌*◌, ◌/◌, ◌%◌, ◌^◌, Bool, true, false, not, ◌&&◌, ◌||◌, List, [], ◌∷◌,
  ◌++◌, Option, none, some, ◌==◌, if◌then◌else◌,
}
use mosix_3d.Misc.Text.{strcmp}

-- The fields of a node that this code reads.
pub record TreeNode : Type 0 where
  pub name : List ℕ
  pub sb : ℕ
  pub ops : ℕ
  pub father : ℕ
  pub child : ℕ
  pub prev : ℕ
  pub next : ℕ
  pub attr : ℕ

pub record Mount : Type 0 where
  pub sb : ℕ
  pub father : ℕ
  pub mntpoint : ℕ
  pub origin : ℕ
  pub sbroot : ℕ

pub record TreePath : Type 0 where
  pub mnt : ℕ
  pub node : ℕ

abbrev pub Nodes : Type 0
Nodes = ℕ → TreeNode

unfoldable pub update {ℓ} : {A : Type ℓ} → (ℕ → A) → ℕ → (A → A) → ℕ → A
update s p f x = if x == p then f (s x) else s x

abbrev pub set_next : Nodes → ℕ → ℕ → Nodes
set_next s p v = update s p (λ n. record n { next = v })

abbrev pub set_prev : Nodes → ℕ → ℕ → Nodes
set_prev s p v = update s p (λ n. record n { prev = v })

-- `if(p) p->prev = v`.
unfoldable pub set_prev_if : Nodes → ℕ → ℕ → Nodes
set_prev_if s p v = if p == 0 then s else set_prev s p v

abbrev pub set_child : Nodes → ℕ → ℕ → Nodes
set_child s p v = update s p (λ n. record n { child = v })

-- `c` is the first child so far.
unfoldable pub link_child : Nodes → ℕ → ℕ → ℕ → Nodes
link_child s father child c =
    let s1 = set_prev_if (set_next s child c) c child in
    let s2 = set_prev (set_child s1 father child) child 0 in
    update s2 child (λ n. record n { sb = (s2 father).sb })

unfoldable pub add_node_child : Nodes → ℕ → ℕ → Nodes
unfolding link_child
add_node_child s father child =
    let s1 = update s child (λ n. record n { father = father }) in
    link_child s1 father child (s1 father).child

unfoldable pub del_node_child : Nodes → ℕ → Nodes
del_node_child s child =
    let f = (s child).father in
    let s1 =
      if (s f).child == child
      then set_child s f (s child).next
      else set_next s (s child).prev (s child).next in
    set_prev_if s1 (s1 child).next (s1 child).prev

-- `NODE_DIRECTORY`, `NODE_MOUNTED` and `NODE_HARDLINK` are the bits 0, 1 and 3.
abbrev pub has_flag : ℕ → ℕ → Bool
has_flag attr k = attr / 2 ^ k % 2 == 1

abbrev pub with_flag : ℕ → ℕ → ℕ
with_flag attr k = if has_flag attr k then attr else attr + 2 ^ k

abbrev pub without_flag : ℕ → ℕ → ℕ
without_flag attr k = if has_flag attr k then attr - 2 ^ k else attr

-- `alloc_node` at the pointer `p`: the rest of the memory is zero.
unfoldable pub alloc_node : Nodes → ℕ → List ℕ → ℕ → Nodes
alloc_node s p name flag = update s p (λ n. record {
  name = name;
  sb = 0;
  ops = 0;
  father = 0;
  child = 0;
  prev = 0;
  next = 0;
  attr = flag;
})

-- `ops` stands for `fops` and `nops`, and `sb_ops` for those of a superblock.
unfoldable pub create_subnode : (ℕ → ℕ) → Nodes → ℕ → ℕ → List ℕ → ℕ → Nodes
unfolding alloc_node add_node_child
create_subnode sb_ops s father p name flag =
    let s1 = add_node_child (alloc_node s p name flag) father p in
    update s1 p
      (λ n. record n { ops = if (s1 p).sb == 0 then (s1 father).ops else sb_ops (s1 p).sb })

-- The new directory is `p`; its links to itself and to its father are `p1` and `p2`.
unfoldable pub create_subdir : (ℕ → ℕ) → Nodes → ℕ → ℕ → ℕ → ℕ → List ℕ → ℕ → Nodes
unfolding create_subnode
create_subdir sb_ops s father p p1 p2 name flag =
    let s1 = create_subnode sb_ops s father p name (with_flag flag 0) in
    let s2 = set_child (create_subnode sb_ops s1 p p1 (b'.' ∷ []) 9) p1 p in
    set_child (create_subnode sb_ops s2 p p2 (b'.' ∷ b'.' ∷ []) 9) p2 father

pub record Tree : Type 0 where
  pub nodes : Nodes
  pub mounts : ℕ → Mount

-- A superblock with root `root` is mounted on the node of `point`; the list of a superblock's mounts has no
-- model.
unfoldable pub mount_on_node : Tree → TreePath → ℕ → ℕ → ℕ → Tree
mount_on_node t point m sb root =
    let n = point.node in
    record {
      nodes = set_child (update t.nodes n (λ x. record x { attr = with_flag x.attr 1 })) n m;
      mounts = update t.mounts m (λ x. record {
        sb = sb;
        father = point.mnt;
        mntpoint = n;
        origin = (t.nodes n).child;
        sbroot = root;
      });
    }

unfoldable pub unmount_from_node : Tree → TreePath → Tree
unmount_from_node t point =
    let n = point.node in
    let m = (t.nodes n).child in
    record t {
      nodes =
          set_child (update t.nodes n (λ x. record x { attr = without_flag x.attr 1 })) n
            (t.mounts m).origin;
    }

unfoldable pub follow_link : Tree → TreePath → TreePath
follow_link t p =
    let o = if has_flag (t.nodes p.node).attr 3 then (t.nodes p.node).child else p.node in
    if has_flag (t.nodes o).attr 1
    then record { mnt = (t.nodes o).child; node = (t.mounts (t.nodes o).child).sbroot }
    else record { mnt = p.mnt; node = o }

-- The operations of the file system of a node; a `compare` returns 0 where the name fits.
pub record NodeOperations : Type 0 where
  pub compare : ℕ → Option (List ℕ → ℕ)
  pub lookup : ℕ → Option (Tree → List ℕ → ℕ × Tree)

abbrev pub says_yes : Option (List ℕ → ℕ) → List ℕ → Bool
says_yes none name = false
says_yes (some own) name = own name == 0

unfoldable pub is_named : NodeOperations → Nodes → List ℕ → ℕ → Bool
is_named nops s name o = says_yes (nops.compare o) name || (strcmp (s o).name name == 0)

-- The loop over the children: the node of the name, or 0; `none` where the fuel is out.
unfoldable pub find_child : ℕ → NodeOperations → Nodes → List ℕ → ℕ → Option ℕ
unfolding is_named
find_child zero nops s name o = if o == 0 then some 0 else none
find_child (suc n) nops s name o =
    let rest = find_child n nops s name (s o).next in
    if o == 0 then some 0 else if is_named nops s name o then some o else rest

abbrev pub Found : Type 0
Found = Option (TreePath × Tree)

abbrev asked : Option (Tree → List ℕ → ℕ × Tree) → Tree → TreePath → List ℕ → Found
asked none t p name = some (record p { node = 0 }, t)
asked (some own) t p name = let (o, t') = own t name in some (record p { node = o }, t')

abbrev cached : NodeOperations → Tree → TreePath → List ℕ → Option ℕ → Found
cached nops t p name none = none
cached nops t p name (some o) =
    if o == 0
    then asked (nops.lookup p.node) t p name
    else some (follow_link t (record p { node = o }), t)

-- A missing node is 0; `errno` has no model.
unfoldable pub find_node_in : ℕ → NodeOperations → Tree → TreePath → List ℕ → Found
unfolding find_child follow_link
find_node_in fuel nops t p name =
    let r = t.nodes p.node in
    if (strcmp name (b'.' ∷ b'.' ∷ []) == 0) && (r.father == p.node)
    then (if p.mnt == 0
        then some (p, t)
        else some (
          record {
            mnt = (t.mounts p.mnt).father;
            node = (t.nodes (t.mounts p.mnt).mntpoint).father;
          },
          t,
        ))
    else cached nops t p name (find_child fuel nops t.nodes name r.child)

-- A step of the walk: it stops where there is no node.
abbrev pub then_from : Found → (Tree → TreePath → Found) → Found
then_from none continue = none
then_from (some (p, t)) continue = if p.node == 0 then some (p, t) else continue t p

-- The loop of `find_node_from`: `piece` is the text from `str + j` to `str + i`.
unfoldable pub find_piece : ℕ → NodeOperations → Tree → TreePath → List ℕ → List ℕ → Found
unfolding find_node_in
find_piece fuel nops t p piece [] = find_node_in fuel nops t p piece
find_piece fuel nops t p piece (c ∷ str) = elim (c == b'/') [
  | true ↦ then_from (find_node_in fuel nops t p piece) (λ t' q. find_piece fuel nops t' q [] str)
  | false ↦ find_piece fuel nops t p (piece ++ (c ∷ [])) str
]

unfoldable pub find_node_from : ℕ → NodeOperations → Tree → TreePath → List ℕ → Found
unfolding find_piece
find_node_from fuel nops t p name = find_piece fuel nops t p [] name

-- From the node `root`.
unfoldable pub path_walk_root : ℕ → NodeOperations → Tree → ℕ → List ℕ → Found
unfolding find_node_from
path_walk_root fuel nops t root [] = some (record { mnt = 0; node = root }, t)
path_walk_root fuel nops t root (c ∷ name) =
    find_node_from fuel nops t (record { mnt = 0; node = root }) (c ∷ name)

-- A path is absolute, empty, or taken from the working directory `cwd`.
unfoldable pub path_walk : ℕ → NodeOperations → Tree → ℕ → TreePath → List ℕ → Found
unfolding path_walk_root find_node_from
path_walk fuel nops t root cwd [] = some (record { mnt = 0; node = 0 }, t)
path_walk fuel nops t root cwd (c ∷ name) =
    if c == b'/'
    then path_walk_root fuel nops t root name
    else find_node_from fuel nops t cwd (c ∷ name)
