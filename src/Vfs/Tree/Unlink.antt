-- ===== src/Vfs/Tree/Unlink.antt =====
-- What `del_node_child` does to the list of a node's children.
use mathlib.Core.Path.{subst}
use mosix_3d.Prelude.{ℕ, ◌≡◌, ◌≢◌, refl, ap, ◌∙◌, sym, List, [], ◌∷◌, ◌++◌, eq→==, ne→==}
use mosix_3d.Vfs.Tree.{Nodes, set_next, set_prev_if, set_child, del_node_child}
use mosix_3d.Vfs.Tree.Children.{
  IsChain, AreChildren, IsNew, Distinct, IsChain-Agree, Agree-new, first_other, update_at,
  update_off, prev_at, prev_off,
}

IsNew-behind : (x c : ℕ) (front back : List ℕ) → IsNew x (front ++ (c ∷ back)) → IsNew x back
unfolding IsNew
IsNew-behind x c [] back (_, h) = h
IsNew-behind x c (y ∷ front) back (_, h) = IsNew-behind x c front back h

IsNew-at : (x c : ℕ) (front back : List ℕ) → IsNew x (front ++ (c ∷ back)) → c ≢ x
unfolding IsNew
IsNew-at x c [] back (h, _) = h
IsNew-at x c (y ∷ front) back (_, h) = IsNew-at x c front back h

IsNew-front : (x : ℕ) (front rest : List ℕ) → IsNew x (front ++ rest) → IsNew x front
unfolding IsNew
IsNew-front x [] rest h = tt
IsNew-front x (y ∷ front) rest (n, h) = (n, IsNew-front x front rest h)

Distinct-front : (c : ℕ) (front back : List ℕ) → Distinct (front ++ (c ∷ back)) → IsNew c front
unfolding Distinct IsNew
Distinct-front c [] back d = tt
Distinct-front c (y ∷ front) back (n, d) =
    (λ e. IsNew-at y c front back n (sym e), Distinct-front c front back d)

Distinct-behind :
    (c : ℕ) (front back : List ℕ) → Distinct (front ++ (c ∷ back)) → IsNew c back × Distinct back
unfolding Distinct
Distinct-behind c [] back h = h
Distinct-behind c (y ∷ front) back (_, h) = Distinct-behind c front back h

-- A node of a chain: its father, and the chain behind it.
IsChain-behind :
    (s : Nodes) (f before first c : ℕ) (front back : List ℕ)
    → IsChain s f before first (front ++ (c ∷ back))
    → ((s c).father ≡ f) × (c ≢ 0) × IsChain s f c (s c).next back
unfolding IsChain
IsChain-behind s f before first c [] back (_, nz, ef, _, h) = (ef, nz, h)
IsChain-behind s f before first c (y ∷ front) back (_, _, _, _, h) =
    IsChain-behind s f y (s y).next c front back h

-- The node in front of a node of the chain is one of the chain.
IsChain-prev :
    (s : Nodes) (f before first c x y : ℕ) (front back : List ℕ)
    → IsChain s f before first (y ∷ (front ++ (c ∷ back)))
    → IsNew x (y ∷ front)
    → x ≢ (s c).prev
unfolding IsChain IsNew
IsChain-prev s f before first c x y [] back (_, _, _, _, (_, _, _, ep, _)) (n, _) e =
    n (sym (e ∙ ep))
IsChain-prev s f before first c x y (z ∷ front) back (_, _, _, _, h) (_, n) e =
    IsChain-prev s f y (s y).next c x z front back h n e

-- Another `prev` at the head of a chain.
rejoin :
    (s : Nodes) (f q p n : ℕ) (back : List ℕ)
    → IsChain s f q n back
    → Distinct back
    → IsChain (set_prev_if s n p) f p n back
unfolding IsChain Distinct
rejoin s f q p n [] h d = h
rejoin s f q p n (b ∷ bs) (e, nz, ef, ep, h) (nb, d) =
    let at = prev_at s b p nz in
    subst (λ n. IsChain (set_prev_if s n p) f p n (b ∷ bs)) (sym e)
      (
        refl,
        nz,
        ap (λ m. m.father) at ∙ ef,
        ap (λ m. m.prev) at,
        subst (λ m. IsChain (set_prev_if s b p) f b m bs) (sym (ap (λ m. m.next) at))
            (IsChain-Agree s (set_prev_if s b p) f b (s b).next bs
              (Agree-new s (set_prev_if s b p) b b b bs nb nb nb (λ x i j k. prev_off s b p x i))
              h),
      )

-- The node behind `y` is unlinked: `n` is the next one.
unlink_second :
    (s : Nodes) (f before first y n q : ℕ) (back : List ℕ)
    → (first ≡ y) × (y ≢ 0) × ((s y).father ≡ f) × ((s y).prev ≡ before)
    → IsChain s f q n back
    → IsNew y back
    → Distinct back
    → IsChain (set_prev_if (set_next s y n) n y) f before first (y ∷ back)
unfolding IsChain
unlink_second s f before first y n q back (e, nz, ef, ep) h ny d =
    let s1 = set_next s y n in
    let yn = first_other s f q n y back h ny nz in
    let same = prev_off s1 n y y (λ i. yn (sym i)) ∙ update_at s y (λ m. record m { next = n }) in
    (
      e,
      nz,
      ap (λ m. m.father) same ∙ ef,
      ap (λ m. m.prev) same ∙ ep,
      subst (λ m. IsChain (set_prev_if s1 n y) f y m back) (sym (ap (λ m. m.next) same))
          (rejoin s1 f q y n back
            (IsChain-Agree s s1 f q n back
              (Agree-new s s1 y y y back ny ny ny
                (λ x i j k. update_off s y (λ m. record m { next = n }) x i))
              h)
            d),
    )

-- A node is unlinked behind the node in front of it.
unlink-IsChain :
    (s : Nodes) (f before first c y : ℕ) (front back : List ℕ)
    → IsChain s f before first (y ∷ (front ++ (c ∷ back)))
    → Distinct (y ∷ (front ++ (c ∷ back)))
    → IsChain
        (set_prev_if (set_next s (s c).prev (s c).next) (s c).next (s c).prev)
        f
        before
        first
        (y ∷ (front ++ back))
unfolding IsChain Distinct IsNew
unlink-IsChain s f before first c y [] back (e, nz, ef, ep, (_, _, _, cp, h)) ((_, ny), (_, d)) =
    let n = (s c).next in
    subst (λ p. IsChain (set_prev_if (set_next s p n) n p) f before first (y ∷ back)) (sym cp)
      (unlink_second s f before first y n c back (e, nz, ef, ep) h ny d)
unlink-IsChain s f before first c y (z ∷ front) back (e, nz, ef, ep, h) (ny, d) =
    let p = (s c).prev in
    let n = (s c).next in
    let (_, _, hb) = IsChain-behind s f y (s y).next c (z ∷ front) back h in
    let yn = first_other s f c n y back hb (IsNew-behind y c (z ∷ front) back ny) nz in
    let yp =
      IsChain-prev s f y (s y).next c y z front back h (IsNew-front y (z ∷ front) (c ∷ back) ny) in
    let same =
      prev_off (set_next s p n) n p y (λ i. yn (sym i))
      ∙ update_off s p (λ m. record m { next = n }) y yp in
    (
      e,
      nz,
      ap (λ m. m.father) same ∙ ef,
      ap (λ m. m.prev) same ∙ ep,
      subst (λ m. IsChain (set_prev_if (set_next s p n) n p) f y m (z ∷ (front ++ back)))
          (sym (ap (λ m. m.next) same)) (unlink-IsChain s f y (s y).next c z front back h d),
    )

-- `del_node_child` with its test decided.
del_first :
    (s : Nodes) (c : ℕ)
    → c ≢ (s c).father
    → (s (s c).father).child ≡ c
    → del_node_child s c ≡ set_prev_if (set_child s (s c).father (s c).next) (s c).next (s c).prev
unfolding del_node_child
del_first s c ne e = rw (eq→== (s (s c).father).child c e) (
    ap (λ m. set_prev_if (set_child s (s c).father (s c).next) m.next m.prev)
      (update_off s (s c).father (λ m. record m { child = (s c).next }) c ne))

del_other :
    (s : Nodes) (c : ℕ)
    → c ≢ (s c).prev
    → (s (s c).father).child ≢ c
    → del_node_child s c ≡ set_prev_if (set_next s (s c).prev (s c).next) (s c).next (s c).prev
unfolding del_node_child
del_other s c ne n = rw (ne→== (s (s c).father).child c n) (
    ap (λ m. set_prev_if (set_next s (s c).prev (s c).next) m.next m.prev)
      (update_off s (s c).prev (λ m. record m { next = (s c).next }) c ne))

drop_first :
    (s : Nodes) (f c : ℕ) (back : List ℕ)
    → AreChildren s f (c ∷ back)
    → Distinct (c ∷ back)
    → IsNew f (c ∷ back)
    → f ≢ 0
    → AreChildren (del_node_child s c) f back
unfolding IsChain Distinct IsNew
drop_first s f c back (e, nz, ef, ep, h) (_, d) (nf, nfs) fz =
    let n = (s c).next in
    let p = (s c).prev in
    let s1 = set_child s f n in
    let off = update_off s f (λ m. record m { child = n }) in
    let same =
      prev_off s1 n p f (λ i. first_other s f c n f back h nfs fz (sym i))
      ∙ update_at s f (λ m. record m { child = n }) in
    let chain =
      rejoin s1 f c p n back
        (IsChain-Agree s s1 f c n back (Agree-new s s1 f f f back nfs nfs nfs (λ x i j k. off x i))
          h)
        d in
    subst (λ r. AreChildren r f back)
      (sym (
        del_first s c (λ i. nf (i ∙ ef)) (ap (λ g. (s g).child) ef ∙ e)
        ∙ ap (λ g. set_prev_if (set_child s g n) n p) ef))
      (subst (λ k. IsChain (set_prev_if s1 n p) f 0 k back) (sym (ap (λ m. m.child) same))
        (subst (λ q. IsChain (set_prev_if s1 n p) f q n back) ep chain))

starts_elsewhere :
    (s : Nodes) (f c y : ℕ) (front back : List ℕ)
    → AreChildren s f (y ∷ (front ++ (c ∷ back)))
    → Distinct (y ∷ (front ++ (c ∷ back)))
    → (s f).child ≢ c
unfolding IsChain Distinct
starts_elsewhere s f c y front back (e, _, _, _, _) (n, _) i = IsNew-at y c front back n (sym i ∙ e)

drop_other :
    (s : Nodes) (f c y : ℕ) (front back : List ℕ)
    → AreChildren s f (y ∷ (front ++ (c ∷ back)))
    → Distinct (y ∷ (front ++ (c ∷ back)))
    → IsNew f (y ∷ (front ++ (c ∷ back)))
    → f ≢ 0
    → AreChildren (del_node_child s c) f (y ∷ (front ++ back))
drop_other s f c y front back h d nf fz =
    let n = (s c).next in
    let p = (s c).prev in
    let s1 = set_next s p n in
    let (ef, cz, hb) = IsChain-behind s f 0 (s f).child c (y ∷ front) back h in
    let fp =
      IsChain-prev s f 0 (s f).child c f y front back h (IsNew-front f (y ∷ front) (c ∷ back) nf) in
    let cp =
      IsChain-prev s f 0 (s f).child c c y front back h (Distinct-front c (y ∷ front) back d) in
    let fn = first_other s f c n f back hb (IsNew-behind f c (y ∷ front) back nf) fz in
    let same =
      prev_off s1 n p f (λ i. fn (sym i)) ∙ update_off s p (λ m. record m { next = n }) f fp in
    subst (λ r. AreChildren r f (y ∷ (front ++ back)))
      (sym (
        del_other s c cp
          (λ i. starts_elsewhere s f c y front back h d (ap (λ g. (s g).child) (sym ef) ∙ i))))
      (subst (λ k. IsChain (set_prev_if s1 n p) f 0 k (y ∷ (front ++ back)))
        (sym (ap (λ m. m.child) same)) (unlink-IsChain s f 0 (s f).child c y front back h d))

-- `del_node_child` takes a child out of the list of its father's children, wherever it stands: the other
-- children keep their order and stay linked in both directions.
pub del_node_child-AreChildren :
    (s : Nodes) (f c : ℕ) (front back : List ℕ)
    → AreChildren s f (front ++ (c ∷ back))
    → Distinct (front ++ (c ∷ back))
    → IsNew f (front ++ (c ∷ back))
    → f ≢ 0
    → AreChildren (del_node_child s c) f (front ++ back)
del_node_child-AreChildren s f c [] back h d nf fz = drop_first s f c back h d nf fz
del_node_child-AreChildren s f c (y ∷ front) back h d nf fz =
    drop_other s f c y front back h d nf fz
