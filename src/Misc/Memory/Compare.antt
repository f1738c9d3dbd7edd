-- ===== src/Misc/Memory/Compare.antt =====
-- What `memcmp` tells about the bytes of two ranges.
use mosix_3d.Prelude.{
  ℕ, zero, suc, ◌+◌, ◌<◌, ◌≡◌, refl, ◌==◌, arith, ap, ◌∙◌, ◌↔◌, Bool-cases, sym, ==→eq, ==→ne, inl,
  inr,
}
use mosix_3d.Misc.Memory.{Memory, memcmp}

abbrev pub Same : Memory → ℕ → ℕ → ℕ → Type 0
Same mem v1 v2 n = (i : ℕ) → i < n → mem (v1 + i) ≡ mem (v2 + i)

abbrev pub AreBytes : Memory → Type 0
AreBytes mem = (a : ℕ) → mem a < 256

Same-suc :
    (mem : Memory) (v1 v2 n : ℕ)
    → mem v1 ≡ mem v2
    → Same mem (v1 + 1) (v2 + 1) n
    → Same mem v1 v2 (suc n)
Same-suc mem v1 v2 n e s zero h = ground arith
Same-suc mem v1 v2 n e s (suc i) h =
    let p : v1 + suc i ≡ v1 + 1 + i = omega arith in
    let q : v2 + suc i ≡ v2 + 1 + i = omega arith in ap mem p ∙ s i (omega arith) ∙ ap mem (sym q)

Same-tail : (mem : Memory) (v1 v2 n : ℕ) → Same mem v1 v2 (suc n) → Same mem (v1 + 1) (v2 + 1) n
Same-tail mem v1 v2 n s i h =
    let p : v1 + 1 + i ≡ v1 + suc i = omega arith in
    let q : v2 + 1 + i ≡ v2 + suc i = omega arith in
    ap mem p ∙ s (suc i) (omega arith) ∙ ap mem (sym q)

-- `memcmp` returns 0 exactly where the `n` bytes of the two ranges are the same.
pub memcmp-zero :
    (mem : Memory) (v1 v2 n : ℕ) → AreBytes mem → (memcmp mem v1 v2 n ≡ 0) ↔ Same mem v1 v2 n
unfolding memcmp
memcmp-zero mem v1 v2 zero b = ((λ e i h. absurd (omega arith)), (λ s. refl))
memcmp-zero mem v1 v2 (suc n) b =
    let ih = memcmp-zero mem (v1 + 1) (v2 + 1) n b in
    let b1 = b v1 in
    let b2 = b v2 in
    elim (Bool-cases (mem v1 == mem v2)) [
      | inl e ↦ rw e (
        (λ z. Same-suc mem v1 v2 n (==→eq (mem v1) (mem v2) e) (ih.0 z)),
        (λ s. ih.1 (Same-tail mem v1 v2 n s)),
      )
      | inr e ↦ rw e (
        (λ z. absurd (==→ne (mem v1) (mem v2) e (omega arith))),
        (λ s.
            let p : v1 + 0 ≡ v1 = omega arith in
            let q : v2 + 0 ≡ v2 = omega arith in
            absurd (==→ne (mem v1) (mem v2) e (ap mem (sym p) ∙ s 0 (omega arith) ∙ ap mem q))),
      )
    ]
