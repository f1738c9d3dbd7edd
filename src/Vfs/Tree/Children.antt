-- ===== src/Vfs/Tree/Children.antt =====
-- The list of a node's children, and what `add_node_child` and `del_node_child` do to it.
use mathlib.Core.Path.{subst}
use mosix_3d.Prelude.{
  ℕ, ◌≡◌, ◌≢◌, refl, ap, ◌∙◌, sym, List, [], ◌∷◌, ◌==◌, eq→==, ne→==, Bool-cases, inl, inr,
}
use mosix_3d.Vfs.Tree.{
  TreeNode, Nodes, update, set_next, set_prev, set_prev_if, set_child, link_child, add_node_child,
}

-- The nodes from `first` on, linked both ways, behind the node `before`.
unfoldable pub IsChain : Nodes → ℕ → ℕ → ℕ → List ℕ → Type 0
IsChain s f before first [] = first ≡ 0
IsChain s f before first (c ∷ cs) =
    (first ≡ c) × (c ≢ 0) × ((s c).father ≡ f) × ((s c).prev ≡ before) × IsChain s f c (s c).next cs

abbrev pub AreChildren : Nodes → ℕ → List ℕ → Type 0
AreChildren s f cs = IsChain s f 0 (s f).child cs

-- The node is not one of the list.
unfoldable pub IsNew : ℕ → List ℕ → Type 0
IsNew x [] = Unit {0}
IsNew x (c ∷ cs) = (c ≢ x) × IsNew x cs

-- Two memories with the same links at the nodes of a list.
unfoldable pub Agree : Nodes → Nodes → List ℕ → Type 0
Agree s s' [] = Unit {0}
Agree s s' (c ∷ cs) =
    ((s' c).father ≡ (s c).father)
    × ((s' c).prev ≡ (s c).prev)
    × ((s' c).next ≡ (s c).next)
    × Agree s s' cs

pub IsChain-Agree :
    (s s' : Nodes) (f before first : ℕ) (cs : List ℕ)
    → Agree s s' cs
    → IsChain s f before first cs
    → IsChain s' f before first cs
unfolding IsChain Agree
IsChain-Agree s s' f before first [] a h = h
IsChain-Agree s s' f before first (c ∷ cs) (ef, ep, en, a) (e, nz, hf, hp, h) = (
  e,
  nz,
  ef ∙ hf,
  ep ∙ hp,
  subst (λ k. IsChain s' f c k cs) (sym en) (IsChain-Agree s s' f c (s c).next cs a h),
)

unfoldable pub Distinct : List ℕ → Type 0
unfolding IsNew
Distinct [] = Unit {0}
Distinct (c ∷ cs) = IsNew c cs × Distinct cs

-- A memory that differs at three nodes only agrees on a list without them.
pub Agree-new :
    (s s' : Nodes) (p q r : ℕ) (cs : List ℕ)
    → IsNew p cs
    → IsNew q cs
    → IsNew r cs
    → ((x : ℕ) → x ≢ p → x ≢ q → x ≢ r → s' x ≡ s x)
    → Agree s s' cs
unfolding IsNew Agree
Agree-new s s' p q r [] np nq nr h = tt
Agree-new s s' p q r (c ∷ cs) (ep, np) (eq, nq) (er, nr) h =
    let e = h c ep eq er in
    (
      ap (λ n. n.father) e,
      ap (λ n. n.prev) e,
      ap (λ n. n.next) e,
      Agree-new s s' p q r cs np nq nr h,
    )

pub update_at : (s : Nodes) (p : ℕ) (g : TreeNode → TreeNode) → update s p g p ≡ g (s p)
unfolding update
update_at s p g = rw (eq→== p p refl) refl

pub update_off :
    (s : Nodes) (p : ℕ) (g : TreeNode → TreeNode) (x : ℕ) → x ≢ p → update s p g x ≡ s x
unfolding update
update_off s p g x ne = rw (ne→== x p ne) refl

pub prev_at : (s : Nodes) (p v : ℕ) → p ≢ 0 → set_prev_if s p v p ≡ record (s p) { prev = v }
unfolding set_prev_if
prev_at s p v nz = rw (ne→== p 0 nz) (update_at s p (λ n. record n { prev = v }))

pub prev_off : (s : Nodes) (p v x : ℕ) → x ≢ p → set_prev_if s p v x ≡ s x
unfolding set_prev_if
prev_off s p v x ne = elim (Bool-cases (p == 0)) [
  | inl e ↦ rw e refl
  | inr e ↦ rw e (update_off s p (λ n. record n { prev = v }) x ne)
]

-- The links that `link_child` makes.
linked_child : (s : Nodes) (f c k : ℕ) → f ≢ c → (link_child s f c k f).child ≡ c
unfolding link_child
linked_child s f c k ne =
    ap (λ n. n.child)
      (update_off _ c _ f ne
        ∙ update_off _ c _ f ne
        ∙ update_at (set_prev_if (set_next s c k) k c) f (λ n. record n { child = c }))

linked_self :
    (s : Nodes) (f c k : ℕ)
    → f ≢ c
    → k ≢ c
    → ((link_child s f c k c).father ≡ (s c).father)
      × ((link_child s f c k c).prev ≡ 0)
      × ((link_child s f c k c).next ≡ k)
unfolding link_child
linked_self s f c k nf nk =
    let s1 = set_prev_if (set_next s c k) k c in
    let s2 = set_prev (set_child s1 f c) c 0 in
    let e1 = update_at s2 c (λ n. record n { sb = (s2 f).sb }) in
    let e2 = update_at (set_child s1 f c) c (λ n. record n { prev = 0 }) in
    let e3 =
      update_off s1 f (λ n. record n { child = c }) c (λ e. nf (sym e))
      ∙ prev_off (set_next s c k) k c c (λ e. nk (sym e)) in
    let e4 = update_at s c (λ n. record n { next = k }) in
    (
      ap (λ n. n.father) e1 ∙ ap (λ n. n.father) e2 ∙ ap (λ n. n.father) e3 ∙ ap (λ n. n.father) e4,
      ap (λ n. n.prev) e1 ∙ ap (λ n. n.prev) e2,
      ap (λ n. n.next) e1 ∙ ap (λ n. n.next) e2 ∙ ap (λ n. n.next) e3 ∙ ap (λ n. n.next) e4,
    )

linked_first :
    (s : Nodes) (f c k : ℕ)
    → k ≢ 0
    → k ≢ c
    → k ≢ f
    → ((link_child s f c k k).father ≡ (s k).father)
      × ((link_child s f c k k).prev ≡ c)
      × ((link_child s f c k k).next ≡ (s k).next)
unfolding link_child
linked_first s f c k nz nc nf =
    let e =
      update_off _ c _ k nc
      ∙ update_off _ c _ k nc
      ∙ update_off _ f _ k nf
      ∙ prev_at (set_next s c k) k c nz in
    let e' = update_off s c (λ n. record n { next = k }) k nc in
    (
      ap (λ n. n.father) e ∙ ap (λ n. n.father) e',
      ap (λ n. n.prev) e,
      ap (λ n. n.next) e ∙ ap (λ n. n.next) e',
    )

linked_others : (s : Nodes) (f c k x : ℕ) → x ≢ f → x ≢ c → x ≢ k → link_child s f c k x ≡ s x
unfolding link_child
linked_others s f c k x nf nc nk =
    update_off _ c _ x nc
    ∙ update_off _ c _ x nc
    ∙ update_off _ f _ x nf
    ∙ prev_off (set_next s c k) k c x nk
    ∙ update_off s c (λ n. record n { next = k }) x nc

-- The chain behind the new child.
linked-IsChain :
    (s : Nodes) (f c k : ℕ) (cs : List ℕ)
    → IsChain s f 0 k cs
    → IsNew c cs
    → IsNew f cs
    → Distinct cs
    → IsChain (link_child s f c k) f c k cs
unfolding IsChain IsNew Distinct
linked-IsChain s f c k [] h nc nf d = h
linked-IsChain s f c k (x ∷ xs) (e, nz, hf, hp, h) (nc, ncs) (nf, nfs) (nx, d) =
    let (ef, ep, en) = linked_first s f c x nz nc nf in
    subst (λ k. IsChain (link_child s f c k) f c k (x ∷ xs)) (sym e)
      (
        refl,
        nz,
        ef ∙ hf,
        ep,
        subst (λ m. IsChain (link_child s f c x) f x m xs) (sym en)
            (IsChain-Agree s (link_child s f c x) f x (s x).next xs
              (Agree-new s (link_child s f c x) f c x xs nfs ncs nx (linked_others s f c x)) h),
      )

pub first_other :
    (s : Nodes) (f before k c : ℕ) (cs : List ℕ)
    → IsChain s f before k cs
    → IsNew c cs
    → c ≢ 0
    → k ≢ c
unfolding IsChain IsNew
first_other s f before k c [] h n nz e = nz (sym e ∙ h)
first_other s f before k c (x ∷ xs) (h, _, _, _, _) (n, _) nz e = n (sym h ∙ e)

-- What `link_child` makes of a list of children.
link_child-AreChildren :
    (s : Nodes) (f c : ℕ) (cs : List ℕ)
    → AreChildren s f cs
    → Distinct cs
    → c ≢ 0
    → f ≢ c
    → IsNew c cs
    → IsNew f cs
    → (s c).father ≡ f
    → AreChildren (link_child s f c (s f).child) f (c ∷ cs)
unfolding IsChain
link_child-AreChildren s f c cs h d nz ne nc nf e =
    let k = (s f).child in
    let (ef, ep, en) = linked_self s f c k ne (first_other s f 0 k c cs h nc nz) in
    (
      linked_child s f c k ne,
      nz,
      ef ∙ e,
      ep,
      subst (λ m. IsChain (link_child s f c k) f c m cs) (sym en)
          (linked-IsChain s f c k cs h nc nf d),
    )

-- `add_node_child` puts a node that is not among the children, and is not the father, in front of the
-- children: the list stays linked in both directions and all its nodes have the father.
pub add_node_child-AreChildren :
    (s : Nodes) (f c : ℕ) (cs : List ℕ)
    → AreChildren s f cs
    → Distinct cs
    → c ≢ 0
    → f ≢ c
    → IsNew c cs
    → IsNew f cs
    → AreChildren (add_node_child s f c) f (c ∷ cs)
unfolding add_node_child
add_node_child-AreChildren s f c cs h d nz ne nc nf =
    let s1 = update s c (λ n. record n { father = f }) in
    let off = update_off s c (λ n. record n { father = f }) in
    link_child-AreChildren s1 f c cs
      (subst (λ k. IsChain s1 f 0 k cs) (sym (ap (λ n. n.child) (off f ne)))
        (IsChain-Agree s s1 f 0 (s f).child cs
          (Agree-new s s1 c c c cs nc nc nc (λ x p q r. off x p)) h))
      d nz ne nc nf (ap (λ n. n.father) (update_at s c (λ n. record n { father = f })))
