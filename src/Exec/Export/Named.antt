-- ===== src/Exec/Export/Named.antt =====
-- Which function `GetProcAddrByName` gives.
use mosix_3d.Prelude.{
  ℕ, zero, suc, ◌+◌, ◌*◌, ◌≤◌, ◌<◌, ◌≡◌, ◌≢◌, refl, ap, ◌∙◌, sym, true, false, ◌==◌, arith, eq→==,
  ne→==, ==→eq, ==→ne, Bool-cases, inl, inr,
}
use mosix_3d.Misc.Text.{Text, strcmp}
use mosix_3d.Misc.Text.Equal.{strcmp-zero}
use mosix_3d.Exec.Image.{Bytes, word, dword}
use mosix_3d.Exec.Export.{export_directory, proc_by_ord, search_name, proc_by_name}

-- The exported name `i`, and its ordinal.
abbrev pub name_at : Bytes → (ℕ → Text) → ℕ → ℕ → ℕ → Text
name_at mem text base edata i =
    text (dword mem ((export_directory mem (base + edata)).name_table + base + i * 4) + base)

abbrev pub ordinal_at : Bytes → ℕ → ℕ → ℕ → ℕ
ordinal_at mem base edata i =
    word mem ((export_directory mem (base + edata)).ordinal_table + base + i * 2)

differs : (a b : Text) → b ≢ a → (strcmp a b == 0) ≡ false
differs a b n = ne→== (strcmp a b) 0 (λ e. n (sym ((strcmp-zero a b).0 e)))

equal : (a b : Text) → b ≡ a → (strcmp a b == 0) ≡ true
equal a b e = eq→== (strcmp a b) 0 ((strcmp-zero a b).1 (sym e))

search_none :
    (mem : Bytes) (text : ℕ → Text) (base edata : ℕ) (name : Text) (n i : ℕ)
    → ((j : ℕ) → i ≤ j → j < i + n → name_at mem text base edata j ≢ name)
    → search_name mem text base edata name n i ≡ 0
unfolding search_name
search_none mem text base edata name zero i h = refl
search_none mem text base edata name (suc n) i h =
    rw (differs name (name_at mem text base edata i) (h i (omega arith) (omega arith)))
      (search_none mem text base edata name n (i + 1) (λ j l m. h j (omega arith) (omega arith)))

search_some :
    (mem : Bytes) (text : ℕ → Text) (base edata : ℕ) (name : Text) (n i k : ℕ)
    → i ≤ k
    → k < i + n
    → name_at mem text base edata k ≡ name
    → ((j : ℕ) → i ≤ j → j < k → name_at mem text base edata j ≢ name)
    → search_name mem text base edata name n i
      ≡ proc_by_ord mem base edata (ordinal_at mem base edata k)
unfolding search_name
search_some mem text base edata name zero i k l m e h = absurd (omega arith)
search_some mem text base edata name (suc n) i k l m e h = elim (Bool-cases (i == k)) [
  | inl q ↦
      let same = ==→eq i k q in
      rw (equal name (name_at mem text base edata i) (ap (name_at mem text base edata) same ∙ e))
        (ap (λ z. proc_by_ord mem base edata (ordinal_at mem base edata z)) same)
  | inr q ↦
      let lt : i < k = omega (arith, ==→ne i k q) in
      rw (differs name (name_at mem text base edata i) (h i (omega arith) lt)) (
        search_some mem text base edata name n (i + 1) k (omega arith) (omega arith) e
          (λ j l m. h j (omega arith) (omega arith)))
]

-- The first exported name that is the string sought gives the function of its ordinal.
pub proc_by_name-first :
    (mem : Bytes) (text : ℕ → Text) (base edata : ℕ) (name : Text) (k : ℕ)
    → k < (export_directory mem (base + edata)).names
    → name_at mem text base edata k ≡ name
    → ((j : ℕ) → j < k → name_at mem text base edata j ≢ name)
    → proc_by_name mem text base edata name
      ≡ proc_by_ord mem base edata (ordinal_at mem base edata k)
unfolding proc_by_name
proc_by_name-first mem text base edata name k l e h =
    search_some mem text base edata name (export_directory mem (base + edata)).names 0 k
      (omega arith) (omega arith) e (λ j z. h j)

-- A string that is no exported name gives 0.
pub proc_by_name-none :
    (mem : Bytes) (text : ℕ → Text) (base edata : ℕ) (name : Text)
    → ((j : ℕ)
        → j < (export_directory mem (base + edata)).names
        → name_at mem text base edata j ≢ name)
    → proc_by_name mem text base edata name ≡ 0
unfolding proc_by_name
proc_by_name-none mem text base edata name h =
    search_none mem text base edata name (export_directory mem (base + edata)).names 0
      (λ j z m. h j (omega arith))
