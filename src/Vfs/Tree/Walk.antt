-- ===== src/Vfs/Tree/Walk.antt =====
-- The search among the children, and the walk along a path.
use mosix_3d.Prelude.{
  ℕ, zero, suc, ◌≤◌, ◌≡◌, ◌≢◌, refl, ap, ◌∙◌, sym, true, false, List, [], ◌∷◌, ◌++◌, length, some,
  none, ◌==◌, if◌then◌else◌, arith, eq→==, ne→==, Bool-cases, inl, inr,
}
use mosix_3d.Vfs.Tree.{
  Nodes, Tree, TreePath, NodeOperations, Found, is_named, find_child, find_node_in, find_piece,
  find_node_from, then_from,
}
use mosix_3d.Vfs.Tree.Children.{IsChain, AreChildren}

-- The first node of a list that has the name, or 0.
unfoldable pub first_named : NodeOperations → Nodes → List ℕ → List ℕ → ℕ
first_named nops s name [] = 0
first_named nops s name (c ∷ cs) =
    let rest = first_named nops s name cs in if is_named nops s name c then c else rest

no_room : (n : ℕ) → suc n ≤ 0 → n ≢ n
no_room n l = omega arith

-- The turn at a node.
find_turn :
    (n : ℕ) (nops : NodeOperations) (s : Nodes) (name : List ℕ) (c : ℕ) (r : ℕ)
    → c ≢ 0
    → find_child n nops s name (s c).next ≡ some r
    → find_child (suc n) nops s name c ≡ some (if is_named nops s name c then c else r)
unfolding find_child
find_turn n nops s name c r nz e = elim (Bool-cases (is_named nops s name c)) [
  | inl q ↦ rw (ne→== c 0 nz, q) refl
  | inr q ↦ rw (ne→== c 0 nz, q) e
]

chain_named :
    (fuel : ℕ) (nops : NodeOperations) (s : Nodes) (name : List ℕ) (f before first : ℕ)
    (cs : List ℕ)
    → IsChain s f before first cs
    → length cs ≤ fuel
    → find_child fuel nops s name first ≡ some (first_named nops s name cs)
unfolding find_child first_named IsChain
chain_named zero nops s name f before first [] h l = rw (eq→== first 0 h) refl
chain_named (suc n) nops s name f before first [] h l = rw (eq→== first 0 h) refl
chain_named zero nops s name f before first (c ∷ cs) h l = elim (no_room (length cs) l refl) [ ]
chain_named (suc n) nops s name f before first (c ∷ cs) (e, nz, hf, hp, h) l =
    ap (find_child (suc n) nops s name) e
    ∙ find_turn n nops s name c (first_named nops s name cs) nz
        (chain_named n nops s name f c (s c).next cs h (omega arith))

-- The search among the children of a node ends, with fuel for as many nodes, and finds the first child that
-- has the name, by the file system's comparison or by the name in the node, or 0.
pub find_child-first :
    (fuel : ℕ) (nops : NodeOperations) (s : Nodes) (name : List ℕ) (f : ℕ) (cs : List ℕ)
    → AreChildren s f cs
    → length cs ≤ fuel
    → find_child fuel nops s name (s f).child ≡ some (first_named nops s name cs)
find_child-first fuel nops s name f cs h l = chain_named fuel nops s name f 0 (s f).child cs h l

-- Two steps behind a result are one.
then_from_twice :
    (o : Found) (F G H : Tree → TreePath → Found)
    → ((t : Tree) (q : TreePath) → F t q ≡ then_from (G t q) H)
    → then_from o F ≡ then_from (then_from o G) H
then_from_twice none F G H h = refl
then_from_twice (some (q, t)) F G H h = elim (Bool-cases (q.node == 0)) [
  | inl e ↦ rw e (rw e refl)
  | inr e ↦ rw e (h t q)
]

-- A character of the path: the end of a piece, or one more of it.
piece_ends :
    (fuel : ℕ) (nops : NodeOperations) (t : Tree) (p : TreePath) (piece : List ℕ) (c : ℕ)
    (str : List ℕ)
    → (c == b'/') ≡ true
    → find_piece fuel nops t p piece (c ∷ str)
      ≡ then_from (find_node_in fuel nops t p piece) (λ t' q. find_piece fuel nops t' q [] str)
unfolding find_piece
piece_ends fuel nops t p piece c str e =
    ap
      (λ b. elim b as (λ b. Found) [
        | true ↦
            then_from (find_node_in fuel nops t p piece) (λ t' q. find_piece fuel nops t' q [] str)
        | false ↦ find_piece fuel nops t p (piece ++ (c ∷ [])) str
      ])
      e

pub piece_grows :
    (fuel : ℕ) (nops : NodeOperations) (t : Tree) (p : TreePath) (piece : List ℕ) (c : ℕ)
    (str : List ℕ)
    → (c == b'/') ≡ false
    → find_piece fuel nops t p piece (c ∷ str) ≡ find_piece fuel nops t p (piece ++ (c ∷ [])) str
unfolding find_piece
piece_grows fuel nops t p piece c str e =
    ap
      (λ b. elim b as (λ b. Found) [
        | true ↦
            then_from (find_node_in fuel nops t p piece) (λ t' q. find_piece fuel nops t' q [] str)
        | false ↦ find_piece fuel nops t p (piece ++ (c ∷ [])) str
      ])
      e

find_piece-append :
    (fuel : ℕ) (nops : NodeOperations) (t : Tree) (p : TreePath) (piece x y : List ℕ)
    → find_piece fuel nops t p piece (x ++ (b'/' ∷ y))
      ≡ then_from (find_piece fuel nops t p piece x) (λ t' q. find_piece fuel nops t' q [] y)
unfolding find_piece
find_piece-append fuel nops t p piece [] y = refl
find_piece-append fuel nops t p piece (c ∷ x) y = elim (Bool-cases (c == b'/')) [
  | inl e ↦
      piece_ends fuel nops t p piece c (x ++ (b'/' ∷ y)) e
      ∙ then_from_twice (find_node_in fuel nops t p piece)
          (λ t' q. find_piece fuel nops t' q [] (x ++ (b'/' ∷ y)))
          (λ t' q. find_piece fuel nops t' q [] x) (λ t' q. find_piece fuel nops t' q [] y)
          (λ t' q. find_piece-append fuel nops t' q [] x y)
      ∙ ap (λ o. then_from o (λ t' q. find_piece fuel nops t' q [] y))
          (sym (piece_ends fuel nops t p piece c x e))
  | inr e ↦
      piece_grows fuel nops t p piece c (x ++ (b'/' ∷ y)) e
      ∙ find_piece-append fuel nops t p (piece ++ (c ∷ [])) x y
      ∙ ap (λ o. then_from o (λ t' q. find_piece fuel nops t' q [] y))
          (sym (piece_grows fuel nops t p piece c x e))
]

-- Where a path is cut at any '/', the walk along it is the walk along the first part and then, from
-- the node found, the walk along the second; where the first finds no node, its result is the result.
pub find_node_from-append :
    (fuel : ℕ) (nops : NodeOperations) (t : Tree) (p : TreePath) (x y : List ℕ)
    → find_node_from fuel nops t p (x ++ (b'/' ∷ y))
      ≡ then_from (find_node_from fuel nops t p x) (λ t' q. find_node_from fuel nops t' q y)
unfolding find_node_from
find_node_from-append fuel nops t p x y = find_piece-append fuel nops t p [] x y
