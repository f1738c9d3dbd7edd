-- ===== src/Ipc/Span.antt =====
-- A run of slots of a circular array, visited by the code's own step from slot to slot.
use mosix_3d.Prelude.{
  ℕ, zero, suc, ◌+◌, ◌≤◌, ◌<◌, ◌≡◌, refl, sym, ap, ◌∙◌, ◌⊎◌, ◌≢◌, List, [], ◌∷◌, ◌++◌, get_or, set,
  length, get_or-set_self, get_or-set_ne, arith,
}

-- The next slot of an array of `cap` slots is one up, and slot 0 behind the last.
abbrev pub Steps : ℕ → (ℕ → ℕ) → Type 0
Steps cap step =
    (i : ℕ) → i < cap → (step i < cap) × ((step i ≡ i + 1) ⊎ ((step i ≡ 0) × (i + 1 ≡ cap)))

module _ {A : Type 0} (d : A) (step : ℕ → ℕ) where
  -- The `k` values from slot `i` on.
  abbrev pub span : List A → ℕ → ℕ → List A
  span xs i zero = []
  span xs i (suc k) = get_or xs i d ∷ span xs (step i) k

  pub length-span : (xs : List A) (i k : ℕ) → length (span xs i k) ≡ k
  length-span xs i zero = refl
  length-span xs i (suc k) = ap suc (length-span xs (step i) k)

  pub span_of_ne_zero :
      (xs : List A) (i k k' : ℕ) → k' + 1 ≡ k → span xs i k ≡ get_or xs i d ∷ span xs (step i) k'
  span_of_ne_zero xs i zero k' e = absurd (omega arith)
  span_of_ne_zero xs i (suc k) k' e =
      let e' : k ≡ k' = omega arith in ap (λ n. get_or xs i d ∷ span xs (step i) n) e'

  -- Storing in the slot behind a span adds the value at its end.
  pub span-set :
      (cap : ℕ) (xs : List A) (i k j : ℕ) (value : A)
      → Steps cap step
      → cap ≤ length xs
      → i < cap
      → j < cap
      → k < cap
      → (j ≡ i + k) ⊎ (j + cap ≡ i + k)
      → span (set xs j value) i (suc k) ≡ span xs i k ++ (value ∷ [])
  span-set cap xs i zero j value st h p q r e =
      let same : i ≡ j = omega arith in
      let hit : get_or (set xs i value) i d ≡ value = get_or-set_self xs i value d (omega arith) in
      let start : get_or (set xs j value) i d ≡ value =
        ap (λ n. get_or (set xs n value) i d) (sym same) ∙ hit in
      ap (λ x. x ∷ []) start
  span-set cap xs i (suc k) j value st h p q r e =
      let apart : j ≢ i = omega arith in
      let next = st i p in
      rw (get_or-set_ne xs {i = j} {j = i} value d apart) (
        ap (λ ys. get_or xs i d ∷ ys)
          (span-set cap xs (step i) k j value st h next.0 q (omega arith) (ground arith)))
