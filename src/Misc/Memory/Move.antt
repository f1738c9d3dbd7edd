-- ===== src/Misc/Memory/Move.antt =====
-- What a copy leaves in memory, also where the two ranges overlap.
use mosix_3d.Prelude.{
  ℕ, zero, suc, ◌+◌, ◌-◌, ◌≤◌, ◌≡◌, refl, Bool, true, false, ◌&&◌, ltb, leb, ◌==◌, if◌then◌else◌,
  u8, arith, ap, ◌∙◌, ◌⊎◌, inl, inr, Bool-cases,
}
use mosix_3d.Misc.Memory.{Memory, put, copy_up, copy_down, memmove, memset}

-- `x` lies in the `n` bytes from `p` on.
abbrev pub within : ℕ → ℕ → ℕ → Bool
within p n x = leb p x && ltb x (p + n)

-- The memory behind a copy of the `n` bytes at `src`, as they were before it.
abbrev pub copied : Memory → ℕ → ℕ → ℕ → ℕ → ℕ
copied mem dst src n x = if within dst n x then mem (src + (x - dst)) else mem x

index_up : (dst src x : ℕ) → dst + 1 ≤ x → src + 1 + (x - (dst + 1)) ≡ src + (x - dst)
index_up dst src x h = omega arith

-- The bytes not yet copied keep clear of the byte at `dst`.
copy_up-copied :
    (mem : Memory) (dst src n x : ℕ)
    → (dst ≤ src) ⊎ (src + n ≤ dst)
    → copy_up mem dst src n x ≡ copied mem dst src n x
unfolding copy_up
copy_up-copied mem dst src zero x h = ground arith
copy_up-copied mem dst src (suc n) x h =
    let mem' = put mem dst (mem src) in
    let later : (dst + 1 ≤ src + 1) ⊎ (src + 1 + n ≤ dst + 1) = ground arith in
    let ih = copy_up-copied mem' (dst + 1) (src + 1) n x later in
    elim (Bool-cases (within (dst + 1) n x)) [
      | inl e ↦
          let q : src + 1 + (x - (dst + 1)) ≡ src + (x - dst) = ground arith in
          let keep : (dst == src + 1 + (x - (dst + 1))) ≡ false = ground arith in
          let w : within dst (suc n) x ≡ true = ground arith in rw w (ih ∙ rw (e, keep) (ap mem q))
      | inr e ↦ elim (Bool-cases (dst == x)) [
        | inl here ↦
            let w : within dst (suc n) x ≡ true = ground arith in
            let q : src ≡ src + (x - dst) = ground arith in rw w (ih ∙ rw (e, here) (ap mem q))
        | inr there ↦
            let w : within dst (suc n) x ≡ false = ground arith in rw w (ih ∙ rw (e, there) refl)
      ]
    ]

copy_down-copied :
    (mem : Memory) (dst src n x : ℕ)
    → src ≤ dst
    → copy_down mem dst src n x ≡ copied mem dst src n x
unfolding copy_down
copy_down-copied mem dst src zero x h = ground arith
copy_down-copied mem dst src (suc n) x h =
    let ih = copy_down-copied (put mem (dst + n) (mem (src + n))) dst src n x h in
    elim (Bool-cases (within dst n x)) [
      | inl e ↦
          let keep : (dst + n == src + (x - dst)) ≡ false = ground arith in
          let w : within dst (suc n) x ≡ true = ground arith in rw w (ih ∙ rw (e, keep) refl)
      | inr e ↦ elim (Bool-cases (dst + n == x)) [
        | inl here ↦
            let w : within dst (suc n) x ≡ true = ground arith in
            let q : src + n ≡ src + (x - dst) = ground arith in rw w (ih ∙ rw (e, here) (ap mem q))
        | inr there ↦
            let w : within dst (suc n) x ≡ false = ground arith in rw w (ih ∙ rw (e, there) refl)
      ]
    ]

-- `memmove` leaves at `dst` the `n` bytes that stood at `src` before the call, also where the two
-- ranges overlap, and changes no other byte.
pub memmove-copied :
    (mem : Memory) (dst src n x : ℕ) → memmove mem dst src n x ≡ copied mem dst src n x
unfolding memmove
memmove-copied mem dst src n x = elim (Bool-cases (ltb src dst && ltb dst (src + n))) [
  | inl e ↦ rw e (copy_down-copied mem dst src n x (ground arith))
  | inr e ↦ rw e (copy_up-copied mem dst src n x (ground arith))
]

pub memset_lem :
    (mem : Memory) (dst val n x : ℕ)
    → memset mem dst val n x ≡ (if within dst n x then u8 val else mem x)
unfolding memset
memset_lem mem dst val zero x = ground arith
memset_lem mem dst val (suc n) x =
    ground (arith, memset_lem (put mem dst (u8 val)) (dst + 1) val n x)
