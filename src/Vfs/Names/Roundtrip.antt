-- ===== src/Vfs/Names/Roundtrip.antt =====
-- The text of a node's path leads back to the node.
use mathlib.Core.List.{append_assoc, append-nil}
use mosix_3d.Prelude.{
  ℕ, zero, suc, ◌+◌, ◌≤◌, ◌<◌, ◌≡◌, ◌≢◌, refl, ap, ◌∙◌, sym, false, List, [], ◌∷◌, ◌++◌, length,
  length-append, some, lt→leb, le→ltb, ◌==◌, eq→==, ne→==, arith,
}
use mosix_3d.Vfs.Tree.{
  Nodes, Tree, TreePath, NodeOperations, Found, find_node_in, find_piece, find_node_from, then_from,
  path_walk, path_walk_root,
}
use mosix_3d.Vfs.Tree.Walk.{find_node_from-append, piece_grows}
use mosix_3d.Vfs.Names.{climb, print, printed, prefixed, path_stringify}

-- The path of a node that no mount is on.
abbrev pub at : ℕ → TreePath
at n = record { mnt = 0; node = n }

-- A name has characters, and none of them is '/'.
unfoldable pub IsPlain : List ℕ → Type 0
IsPlain [] = Unit {0}
IsPlain (c ∷ cs) = ((c == b'/') ≡ false) × IsPlain cs

-- The nodes `up` lead from `n` up to the root, which is left out: each is found by its name in its father.
unfoldable pub IsBranch : ℕ → NodeOperations → Tree → ℕ → ℕ → List ℕ → Type 0
unfolding IsPlain
IsBranch fuel nops t root n [] = (n ≡ root) × ((t.nodes root).father ≡ root)
IsBranch fuel nops t root n (x ∷ up) =
    (n ≡ x)
    × (x ≢ (t.nodes x).father)
    × (x ≢ 0)
    × ((t.nodes x).name ≢ [])
    × IsPlain (t.nodes x).name
    × (find_node_in fuel nops t (at (t.nodes x).father) (t.nodes x).name ≡ some (at x, t))
    × IsBranch fuel nops t root (t.nodes x).father up

-- The names from the root on, each behind a '/'.
abbrev pub joined : Nodes → List ℕ → List ℕ
joined s [] = []
joined s (x ∷ up) = joined s up ++ (b'/' ∷ (s x).name)

-- The text of a path; that of the root is '/'.
abbrev pub path_text : Nodes → List ℕ → List ℕ
path_text s [] = b'/' ∷ []
path_text s (x ∷ up) = joined s (x ∷ up)

onto : List ℕ → List ℕ → List ℕ
onto [] acc = acc
onto (x ∷ up) acc = onto up (x ∷ acc)

climbed :
    (fuel more : ℕ) (nops : NodeOperations) (t : Tree) (root n : ℕ) (up acc : List ℕ)
    → IsBranch fuel nops t root n up
    → length up + length acc ≤ 16
    → length up < more
    → climb more t 0 n acc ≡ some (onto up acc)
unfolding climb IsBranch onto
climbed fuel zero nops t root n up acc h l m = absurd (omega arith)
climbed fuel (suc more) nops t root n [] acc (e, f) l m =
    let top : n ≡ (t.nodes n).father = e ∙ sym f ∙ ap (λ z. (t.nodes z).father) (sym e) in
    rw (eq→== n (t.nodes n).father top) refl
climbed fuel (suc more) nops t root n (x ∷ up) acc (e, ne, nz, nn, pl, fd, h) l m =
    let inner : n ≢ (t.nodes n).father = λ q. ne (sym e ∙ q ∙ ap (λ z. (t.nodes z).father) e) in
    rw (ne→== n (t.nodes n).father inner, lt→leb 16 (length acc) (omega arith))
      (ap (λ z. climb more t 0 (t.nodes z).father (z ∷ acc)) e
        ∙ climbed fuel more nops t root (t.nodes x).father up (x ∷ acc) h (omega arith)
            (omega arith))

-- The names of the nodes in order, each behind a '/'.
listed : Nodes → List ℕ → List ℕ
listed s [] = []
listed s (n ∷ ns) = (b'/' ∷ (s n).name) ++ listed s ns

listed-onto : (s : Nodes) (up acc : List ℕ) → listed s (onto up acc) ≡ joined s up ++ listed s acc
unfolding listed onto
listed-onto s [] acc = refl
listed-onto s (x ∷ up) acc =
    listed-onto s up (x ∷ acc) ∙ sym (append_assoc (joined s up) (b'/' ∷ (s x).name) (listed s acc))

print-listed :
    (s : Nodes) (size j : ℕ) (ns : List ℕ)
    → j + length (listed s ns) ≤ size
    → print s size j ns ≡ some (listed s ns)
unfolding print listed
print-listed s size j [] l = refl
print-listed s size j (n ∷ ns) l =
    let fits = length-append (s n).name (listed s ns) in
    let short : j + 1 + length (s n).name ≤ size = omega (arith, fits) in
    rw (le→ltb size (j + 1 + length (s n).name) short) (
      ap (prefixed (b'/' ∷ (s n).name))
        (print-listed s size (j + 1 + length (s n).name) ns (omega (arith, fits))))

printed-onto :
    (s : Nodes) (size : ℕ) (up : List ℕ) (x : ℕ) (acc : List ℕ)
    → printed s size (some (onto up (x ∷ acc))) ≡ print s size 0 (onto up (x ∷ acc))
unfolding onto
printed-onto s size [] x acc = refl
printed-onto s size (y ∷ up) x acc = printed-onto s size up y (x ∷ acc)

shown :
    (s : Nodes) (size : ℕ) (up : List ℕ)
    → length (path_text s up) ≤ size
    → printed s size (some (onto up [])) ≡ some (path_text s up)
unfolding onto listed
shown s size [] l = refl
shown s size (x ∷ up) l =
    let whole : listed s (onto up (x ∷ [])) ≡ joined s (x ∷ up) =
      listed-onto s (x ∷ up) [] ∙ append-nil (joined s (x ∷ up)) in
    printed-onto s size up x []
    ∙ print-listed s size 0 (onto up (x ∷ [])) (omega (arith, l, ap length whole))
    ∙ ap some whole

stringified :
    (fuel more size : ℕ) (nops : NodeOperations) (t : Tree) (root n : ℕ) (up : List ℕ)
    → IsBranch fuel nops t root n up
    → length up ≤ 16
    → length up < more
    → length (path_text t.nodes up) ≤ size
    → path_stringify more t (at n) size ≡ some (path_text t.nodes up)
unfolding path_stringify
stringified fuel more size nops t root n up h l m fits =
    ap (printed t.nodes size) (climbed fuel more nops t root n up [] h (omega arith) m)
    ∙ shown t.nodes size up fits

-- The walk along a plain name is one step.
plain_step :
    (fuel : ℕ) (nops : NodeOperations) (t : Tree) (p : TreePath) (piece name : List ℕ)
    → IsPlain name
    → find_piece fuel nops t p piece name ≡ find_node_in fuel nops t p (piece ++ name)
unfolding find_piece IsPlain
plain_step fuel nops t p piece [] h = ap (find_node_in fuel nops t p) (sym (append-nil piece))
plain_step fuel nops t p piece (c ∷ name) (e, h) =
    piece_grows fuel nops t p piece c name e
    ∙ plain_step fuel nops t p (piece ++ (c ∷ [])) name h
    ∙ ap (find_node_in fuel nops t p) (append_assoc piece (c ∷ []) name)

plain_walk :
    (fuel : ℕ) (nops : NodeOperations) (t : Tree) (p : TreePath) (name : List ℕ)
    → IsPlain name
    → find_node_from fuel nops t p name ≡ find_node_in fuel nops t p name
unfolding find_node_from
plain_walk fuel nops t p name h = plain_step fuel nops t p [] name h

-- The text of a path without its first '/'.
trail : Nodes → ℕ → List ℕ → List ℕ
trail s x [] = (s x).name
trail s x (y ∷ up) = trail s y up ++ (b'/' ∷ (s x).name)

joined-trail : (s : Nodes) (x : ℕ) (up : List ℕ) → joined s (x ∷ up) ≡ b'/' ∷ trail s x up
unfolding trail
joined-trail s x [] = refl
joined-trail s x (y ∷ up) = ap (λ z. z ++ (b'/' ∷ (s x).name)) (joined-trail s y up)

go_on :
    (t : Tree) (y : ℕ) (f : Tree → TreePath → Found)
    → y ≢ 0
    → then_from (some (at y, t)) f ≡ f t (at y)
go_on t y f n = rw (ne→== y 0 n) refl

walked :
    (fuel : ℕ) (nops : NodeOperations) (t : Tree) (root n x : ℕ) (up : List ℕ)
    → IsBranch fuel nops t root n (x ∷ up)
    → find_node_from fuel nops t (at root) (trail t.nodes x up) ≡ some (at x, t)
unfolding IsBranch trail
walked fuel nops t root n x [] (e, ne, nz, nn, pl, fd, h) =
    plain_walk fuel nops t (at root) (t.nodes x).name pl
    ∙ ap (λ z. find_node_in fuel nops t (at z) (t.nodes x).name) (sym h.0)
    ∙ fd
walked fuel nops t root n x (y ∷ up) (e, ne, nz, nn, pl, fd, h) =
    let name = (t.nodes x).name in
    let next = λ (t' : Tree) (q : TreePath). find_node_from fuel nops t' q name in
    find_node_from-append fuel nops t (at root) (trail t.nodes y up) name
    ∙ ap (λ o. then_from o next) (walked fuel nops t root (t.nodes x).father y up h)
    ∙ go_on t y next h.2
    ∙ plain_walk fuel nops t (at y) name pl
    ∙ ap (λ z. find_node_in fuel nops t (at z) name) (sym h.0)
    ∙ fd

root_walk :
    (fuel : ℕ) (nops : NodeOperations) (t : Tree) (root : ℕ) (name : List ℕ)
    → name ≢ []
    → path_walk_root fuel nops t root name ≡ find_node_from fuel nops t (at root) name
unfolding path_walk_root
root_walk fuel nops t root [] n = absurd (n refl)
root_walk fuel nops t root (c ∷ name) n = refl

append_nonempty : (xs ys : List ℕ) (c : ℕ) → xs ++ (c ∷ ys) ≢ []
append_nonempty [] ys c e = absurd cc
append_nonempty (x ∷ xs) ys c e = absurd cc

trail_nonempty : (s : Nodes) (x : ℕ) (up : List ℕ) → (s x).name ≢ [] → trail s x up ≢ []
unfolding trail
trail_nonempty s x [] n = n
trail_nonempty s x (y ∷ up) n = append_nonempty (trail s y up) (s x).name b'/'

found :
    (fuel : ℕ) (nops : NodeOperations) (t : Tree) (root n : ℕ) (cwd : TreePath) (up : List ℕ)
    → IsBranch fuel nops t root n up
    → path_walk fuel nops t root cwd (path_text t.nodes up) ≡ some (at n, t)
unfolding path_walk IsBranch path_walk_root
found fuel nops t root n cwd [] (e, f) = ap (λ z. some (at z, t)) (sym e)
found fuel nops t root n cwd (x ∷ up) (e, ne, nz, nn, pl, fd, h) =
    ap (path_walk fuel nops t root cwd) (joined-trail t.nodes x up)
    ∙ root_walk fuel nops t root (trail t.nodes x up) (trail_nonempty t.nodes x up nn)
    ∙ walked fuel nops t root n x up (e, ne, nz, nn, pl, fd, h)
    ∙ ap (λ z. some (at z, t)) (sym e)

-- For a node below the root, at a depth of at most 16 and without mounts on the way, where each node of the
-- way is found by its name in its father: the text of its path has no fault if it fits, and a walk along this
-- text from any working directory finds the node again.
pub path_walk-path_stringify :
    (fuel more size : ℕ) (nops : NodeOperations) (t : Tree) (root n : ℕ) (cwd : TreePath)
    (up : List ℕ)
    → IsBranch fuel nops t root n up
    → length up ≤ 16
    → length up < more
    → length (path_text t.nodes up) ≤ size
    → (text : List ℕ) × (path_stringify more t (at n) size ≡ some text)
      × (path_walk fuel nops t root cwd text ≡ some (at n, t))
path_walk-path_stringify fuel more size nops t root n cwd up h l m fits = (
  path_text t.nodes up,
  stringified fuel more size nops t root n up h l m fits,
  found fuel nops t root n cwd up h,
)
