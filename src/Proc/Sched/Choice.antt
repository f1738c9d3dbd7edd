-- ===== src/Proc/Sched/Choice.antt =====
-- Which processor `choose_cpu_for` picks.
use mosix_3d.Prelude.{
  ℕ, suc, ◌+◌, ◌/◌, ◌%◌, ◌^◌, ◌≤◌, ◌≡◌, refl, sym, ap, ◌∙◌, ◌⊎◌, inl, inr, Bool, true, ◌&&◌, List,
  [], ◌∷◌, some, ◌==◌, if◌then◌else◌, length, get_elem?, ltb, arith, Bool-cases,
}
use mosix_3d.Proc.Sched.{Processor, cpu_ready, choose_from, choose_cpu_for}

-- Processor `i` is up, and the affinity allows it.
abbrev pub allowed : ℕ → ℕ → Processor → Bool
allowed affinity i c = (c.stat == cpu_ready) && (((affinity / 2 ^ i) % 2) == 1)

abbrev pub load : Processor → ℕ
load c = length c.ready.list

-- Every allowed processor of the list, whose first has number `i`, has at least `m` ready processes.
abbrev pub AtLeast : ℕ → ℕ → ℕ → List Processor → Type 0
AtLeast affinity i m [] = Unit {0}
AtLeast affinity i m (c ∷ cs) =
    (if allowed affinity i c then m ≤ load c else 0 ≤ m) × AtLeast affinity (suc i) m cs

record Best (affinity i best count : ℕ) (cs : List Processor) (k : ℕ) : Type 0 where
  m : ℕ
  m-le : m ≤ count
  least : AtLeast affinity i m cs
  found :
      ((k ≡ best) × (m ≡ count))
      ⊎ ((j : ℕ) × (c : Processor) × (k ≡ i + j)
          × (get_elem? cs j ≡ some c)
          × (allowed affinity (i + j) c ≡ true)
          × (load c ≡ m))

-- What was found behind the first processor, seen from the first.
shift :
    (affinity i m k : ℕ) (c : Processor) (cs : List Processor)
    → ((j : ℕ) × (d : Processor) × (k ≡ suc i + j)
        × (get_elem? cs j ≡ some d)
        × (allowed affinity (suc i + j) d ≡ true)
        × (load d ≡ m))
    → (j : ℕ) × (d : Processor) × (k ≡ i + j)
      × (get_elem? (c ∷ cs) j ≡ some d)
      × (allowed affinity (i + j) d ≡ true)
      × (load d ≡ m)
shift affinity i m k c cs (j, d, at, here, may, l) =
    let e : suc i + j ≡ i + suc j = omega arith in
    (suc j, d, at ∙ e, here, (ap (λ n. allowed affinity n d) (sym e)) ∙ may, l)

choose_from-Best :
    (affinity i best count : ℕ) (cs : List Processor)
    → Best affinity i best count cs (choose_from affinity i best count cs)
unfolding choose_from
choose_from-Best affinity i best count [] = record {
  m = count;
  m-le = omega arith;
  least = tt;
  found = inl (refl, refl);
}
choose_from-Best affinity i best count (c ∷ cs) =
    elim (Bool-cases (allowed affinity i c && ltb (load c) count)) [
      | inl better ↦
          let r = choose_from-Best affinity (suc i) i (load c) cs in
          let here : i ≡ i + 0 = omega arith in
          rw (same, better)
            (record {
              m = r.m;
              m-le = ground (arith, r.m-le);
              least = (ground (arith, r.m-le), r.least);
              found = elim (r.found) [
                | inl (k, l) ↦ inr (
                  0,
                  c,
                  k ∙ here,
                  refl,
                  ap (λ n. allowed affinity n c) (sym here) ∙ (and-left better),
                  sym l,
                )
                | inr later ↦ inr (shift affinity i r.m _ c cs later)
              ];
            })
      | inr worse ↦
          let r = choose_from-Best affinity (suc i) best count cs in
          rw (same, worse)
            (record {
              m = r.m;
              m-le = r.m-le;
              least = (ground (arith, r.m-le), r.least);
              found = elim (r.found) [
                | inl here ↦ inl here
                | inr later ↦ inr (shift affinity i r.m _ c cs later)
              ];
            })
    ]
  where
    same :
        ((c.stat == cpu_ready)
          && (((affinity / 2 ^ i) % 2) == 1)
          && ltb (length c.ready.list) count)
        ≡ (allowed affinity i c && ltb (load c) count)
    same = ground arith

    and-left : (allowed affinity i c && ltb (load c) count) ≡ true → allowed affinity i c ≡ true
    and-left h = ground arith

-- `choose_cpu_for` picks processor 0 or an allowed one; none that is allowed, and not processor 0,
-- has fewer ready processes.
pub choose_cpu_for-least :
    (affinity : ℕ) (c : Processor) (cs : List Processor)
    → let k = choose_cpu_for affinity (c ∷ cs) in
      (d : Processor) × (get_elem? (c ∷ cs) k ≡ some d)
      × ((k ≡ 0) ⊎ (allowed affinity k d ≡ true))
      × (load d ≤ load c)
      × AtLeast affinity 1 (load d) cs
unfolding choose_cpu_for
choose_cpu_for-least affinity c cs =
    let k = choose_from affinity 1 0 (load c) cs in
    let r = choose_from-Best affinity 1 0 (load c) cs in
    elim (r.found) [
      | inl (e, l) ↦ (c, ap (get_elem? (c ∷ cs)) e, inl e, omega arith, rw l at r.least)
      | inr (j, d, e, at, may, l) ↦
          let next : k ≡ suc j = e ∙ omega arith in
          (
            d,
            ap (get_elem? (c ∷ cs)) next ∙ at,
            inr (ap (λ n. allowed affinity n d) e ∙ may),
            omega (arith, r.m-le),
            rw (← l) at r.least,
          )
    ]
