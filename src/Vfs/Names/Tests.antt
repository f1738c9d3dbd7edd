-- ===== src/Vfs/Names/Tests.antt =====
-- Paths of a small tree, and the theorem at one of them.
use mosix_3d.Prelude.{ℕ, ◌≡◌, refl, ◌==◌, if◌then◌else◌, List, [], ◌∷◌, none, some, arith}
use mosix_3d.Misc.Text.{strcmp}
use mosix_3d.Vfs.Tree.{
  TreeNode, Nodes, Tree, NodeOperations, find_child, is_named, follow_link, find_node_in, path_walk,
  find_node_from, find_piece,
}
use mosix_3d.Vfs.Names.{path_stringify, climb, print, chdir, not_directory, nosb_getdents}
use mosix_3d.Vfs.Names.Roundtrip.{at, IsPlain, IsBranch, path_walk-path_stringify}

abbrev blank : TreeNode
blank = record { name = []; sb = 0; ops = 0; father = 0; child = 0; prev = 0; next = 0; attr = 0 }

-- The root 1 has the child 2, named `a`, and that the child 3, named `b`.
abbrev nodes : Nodes
nodes x =
    if x == 1
    then record blank { name = b'/' ∷ []; father = 1; child = 2; attr = 1 }
    else if x == 2
    then record blank { name = b'a' ∷ []; father = 1; child = 3; attr = 1 }
    else if x == 3
    then record blank { name = b'b' ∷ []; father = 2 }
    else blank

abbrev tree : Tree
tree = record {
  nodes = nodes;
  mounts = λ m. record { sb = 0; father = 0; mntpoint = 0; origin = 0; sbroot = 0 };
}

abbrev no_operations : NodeOperations
no_operations = record { compare = λ o. none; lookup = λ o. none }

path_of_b : path_stringify 8 tree (at 3) 40 ≡ some (b'/' ∷ b'a' ∷ b'/' ∷ b'b' ∷ [])
unfolding path_stringify climb print
path_of_b = refl

-- A name is cut where the buffer ends in it, and behind an exact end the copy wraps.
cut : path_stringify 8 tree (at 3) 3 ≡ some (b'/' ∷ b'a' ∷ b'/' ∷ [])
unfolding path_stringify climb print
cut = refl

wraps : path_stringify 8 tree (at 3) 2 ≡ none
unfolding path_stringify climb print
wraps = refl

b_is_no_directory :
    chdir 8 no_operations tree 1 (at 1) (b'a' ∷ b'/' ∷ b'b' ∷ []) ≡ some not_directory
unfolding chdir path_walk find_node_from find_piece find_node_in find_child is_named follow_link
    strcmp
b_is_no_directory = refl

lists_one : nosb_getdents nodes 2 5 ≡ ((b'a' ∷ []) ∷ [], 0)
unfolding nosb_getdents
lists_one = refl

branch : IsBranch 8 no_operations tree 1 3 (3 ∷ 2 ∷ [])
unfolding IsBranch IsPlain find_node_in find_child is_named follow_link strcmp
branch = (
  refl,
  omega arith,
  omega arith,
  (λ e. absurd cc),
  (refl, tt),
  refl,
  (refl, omega arith, omega arith, (λ e. absurd cc), (refl, tt), refl, (refl, refl)),
)

path_walk-path_stringify_example :
    (text : List ℕ) × (path_stringify 3 tree (at 3) 40 ≡ some text)
    × (path_walk 8 no_operations tree 1 (at 2) text ≡ some (at 3, tree))
path_walk-path_stringify_example =
    path_walk-path_stringify 8 3 40 no_operations tree 1 3 (at 2) (3 ∷ 2 ∷ []) branch (omega arith)
      (omega arith) (omega arith)
