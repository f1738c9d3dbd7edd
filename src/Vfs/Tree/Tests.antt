-- ===== src/Vfs/Tree/Tests.antt =====
-- Runs on a root with two children, and the theorems at it.
use mosix_3d.Prelude.{
  ℕ, ◌≡◌, ◌≢◌, refl, ◌==◌, if◌then◌else◌, Option, none, some, arith, [], ◌∷◌, ◌++◌,
}
use mosix_3d.Misc.Text.{strcmp}
use mosix_3d.Vfs.Tree.{
  TreeNode, Nodes, Tree, TreePath, NodeOperations, update, set_prev_if, link_child, add_node_child,
  del_node_child, mount_on_node, find_child, is_named, follow_link, find_node_in, find_piece,
  find_node_from, path_walk_root, path_walk, create_subdir, create_subnode, alloc_node,
}
use mosix_3d.Vfs.Tree.Children.{IsChain, AreChildren, IsNew, Distinct, add_node_child-AreChildren}
use mosix_3d.Vfs.Tree.Unlink.{del_node_child-AreChildren}

abbrev blank : TreeNode
blank = record { name = []; sb = 0; ops = 0; father = 0; child = 0; prev = 0; next = 0; attr = 0 }

-- The root 1 has the children 2 and 3, named `a` and `b`.
abbrev small : Nodes
small x =
    if x == 1
    then record blank { father = 1; child = 2; attr = 1 }
    else if x == 2
    then record blank { name = b'a' ∷ []; father = 1; next = 3; attr = 1 }
    else if x == 3
    then record blank { name = b'b' ∷ []; father = 1; prev = 2 }
    else blank

abbrev no_operations : NodeOperations
no_operations = record { compare = λ o. none; lookup = λ o. none }

abbrev tree : Tree
tree = record {
  nodes = small;
  mounts = λ m. record { sb = 0; father = 0; mntpoint = 0; origin = 0; sbroot = 0 };
}

abbrev root_path : TreePath
root_path = record { mnt = 0; node = 1 }

abbrev found_node : Option (TreePath × Tree) → ℕ
found_node none = 99
found_node (some (p, t)) = p.node

walk_test : found_node (path_walk 8 no_operations tree 1 root_path (b'/' ∷ b'b' ∷ [])) ≡ 3
unfolding path_walk path_walk_root find_node_from find_piece find_node_in find_child is_named
    follow_link strcmp
walk_test = refl

missing_test : found_node (path_walk 8 no_operations tree 1 root_path (b'c' ∷ b'/' ∷ b'a' ∷ [])) ≡ 0
unfolding path_walk path_walk_root find_node_from find_piece find_node_in find_child is_named
    follow_link strcmp
missing_test = refl

-- The root of a mounted superblock is walked into, and `..` leads out of it.
mounted_test :
    found_node (
      path_walk 8 no_operations
        (mount_on_node tree (record { mnt = 0; node = 2 }) 7 0 4)
        1
        root_path
        (b'/' ∷ b'a' ∷ []))
    ≡ 4
unfolding mount_on_node update path_walk path_walk_root find_node_from find_piece find_node_in
    find_child is_named follow_link strcmp
mounted_test = refl

-- A new directory finds itself under `.` and its father under `..`.
dots_test :
    found_node (
      path_walk 8 no_operations
        (record tree { nodes = create_subdir (λ sb. 0) small 1 5 6 7 (b'd' ∷ []) 0 })
        1
        root_path
        (b'd' ∷ b'/' ∷ b'.' ∷ b'/' ∷ b'.' ∷ b'.' ∷ b'/' ∷ b'a' ∷ []))
    ≡ 2
unfolding create_subdir create_subnode alloc_node add_node_child link_child set_prev_if update
    path_walk path_walk_root find_node_from find_piece find_node_in find_child is_named follow_link
    strcmp
dots_test = refl

small_children : AreChildren small 1 (2 ∷ 3 ∷ [])
unfolding IsChain
small_children = (refl, omega arith, refl, refl, (refl, omega arith, refl, refl, refl))

small-Distinct : Distinct (2 ∷ 3 ∷ [])
unfolding Distinct IsNew
small-Distinct = ((omega arith, tt), (tt, tt))

IsNew-two : (x : ℕ) → 2 ≢ x → 3 ≢ x → IsNew x (2 ∷ 3 ∷ [])
unfolding IsNew
IsNew-two x p q = (p, (q, tt))

add_node_child-AreChildren_example : AreChildren (add_node_child small 1 4) 1 (4 ∷ 2 ∷ 3 ∷ [])
add_node_child-AreChildren_example =
    add_node_child-AreChildren small 1 4 (2 ∷ 3 ∷ []) small_children small-Distinct (omega arith)
      (omega arith) (IsNew-two 4 (omega arith) (omega arith))
      (IsNew-two 1 (omega arith) (omega arith))

del_node_child-AreChildren_example : AreChildren (del_node_child small 3) 1 ((2 ∷ []) ++ [])
del_node_child-AreChildren_example =
    del_node_child-AreChildren small 1 3 (2 ∷ []) [] small_children small-Distinct
      (IsNew-two 1 (omega arith) (omega arith)) (omega arith)
