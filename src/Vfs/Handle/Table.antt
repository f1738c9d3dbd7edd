-- ===== src/Vfs/Handle/Table.antt =====
-- The table as a map from handle numbers to objects: kernel/vfs/handle.c, `htab_insert`.
use mosix_3d.Prelude.{
  ℕ, zero, suc, ◌+◌, ◌<◌, ◌≡◌, refl, ap, ◌≢◌, [], ◌∷◌, Option, none, some, get_or, set, length, inl,
  inr, arith, Option-cases,
}
use mathlib.Core.Path.{subst}
use mosix_3d.Vfs.Handle.{Handle, Table, no_handle, insert_from, htab_insert}

abbrev pub ptr_at : Table → ℕ → Option ℕ
ptr_at htab i = (get_or htab i no_handle).ptr

abbrev pub entry : ℕ → ℕ → Handle
entry obj type = record { ptr = some obj; type = type; flag = 0 }

-- The first `k` entries are in use.
abbrev pub Used : Table → ℕ → Type 0
Used htab k = (j : ℕ) → j < k → ptr_at htab j ≢ none

-- Entry `k` is the first free one, and gets the object.
pub record Inserted (htab : Table) (obj type k : ℕ) (new : Table) : Type 0 where
  pub inside : k < length htab
  pub free : ptr_at htab k ≡ none
  pub used : Used htab k
  pub table : new ≡ set htab k (entry obj type)

Used-cons : (h : Handle) (hs : Table) {k : ℕ} → h.ptr ≢ none → Used hs k → Used (h ∷ hs) (suc k)
Used-cons h hs n u zero l = n
Used-cons h hs n u (suc j) l = u j (omega arith)

Inserted-cons :
    (h : Handle) (hs : Table) {obj type k : ℕ} {new : Table}
    → h.ptr ≢ none
    → Inserted hs obj type k new
    → Inserted (h ∷ hs) obj type (suc k) (h ∷ new)
Inserted-cons h hs n r = record {
  inside = let l = r.inside in omega arith;
  free = r.free;
  used = Used-cons h hs n r.used;
  table = ap (λ t. h ∷ t) r.table;
}

abbrev Insertion : ℕ → Table → ℕ → ℕ → Option (ℕ × Table) → Type 0
Insertion i htab obj type none = Used htab (length htab)
Insertion i htab obj type (some (number, new)) =
    (k : ℕ) × (number ≡ i + k) × Inserted htab obj type k new

insert_step :
    (i : ℕ) (h : Handle) (hs : Table) (obj type : ℕ) (p : Option ℕ) (rest : Option (ℕ × Table))
    → h.ptr ≡ p
    → Insertion (suc i) hs obj type rest
    → Insertion i (h ∷ hs) obj type (elim p [
      | none ↦ some (i, entry obj type ∷ hs)
      | some q ↦ elim rest [ none ↦ none | some (k, hs') ↦ some (k, h ∷ hs') ]
    ])
insert_step i h hs obj type none rest e r = (
  0,
  omega arith,
  record { inside = omega arith; free = e; used = λ j l. absurd (omega arith); table = refl },
)
insert_step i h hs obj type (some q) none e r = Used-cons h hs (λ n. cc) r
insert_step i h hs obj type (some q) (some (number, new)) e (k, m, t) =
    (suc k, omega arith, Inserted-cons h hs (λ n. cc) t)

insert_from_lem :
    (i : ℕ) (htab : Table) (obj type : ℕ) → Insertion i htab obj type (insert_from i htab obj type)
unfolding insert_from
insert_from_lem i [] obj type = λ j l. absurd (omega arith)
insert_from_lem i (h ∷ hs) obj type =
    insert_step i h hs obj type h.ptr (insert_from (suc i) hs obj type) refl
      (insert_from_lem (suc i) hs obj type)

insert_from_all :
    (htab : Table) (obj type : ℕ) (o : Option (ℕ × Table))
    → htab_insert htab obj type ≡ o
    → Insertion 0 htab obj type o
unfolding htab_insert
insert_from_all htab obj type o e =
    subst (Insertion 0 htab obj type) e (insert_from_lem 0 htab obj type)

-- The number that `htab_insert` returns is the first entry that is free, and the table changes in
-- this entry only: it gets the object and its type, with flag 0.
pub htab_insert-Inserted :
    (htab : Table) (obj type number : ℕ) (new : Table)
    → htab_insert htab obj type ≡ some (number, new)
    → Inserted htab obj type number new
htab_insert-Inserted htab obj type number new e =
    let (k, m, r) = insert_from_all htab obj type (some (number, new)) e in
    let q : k ≡ number = omega arith in subst (λ n. Inserted htab obj type n new) q r

-- `htab_insert` fails exactly where every entry of the table is in use.
pub htab_insert_full :
    (htab : Table) (obj type : ℕ)
    → ((htab_insert htab obj type ≡ none) → Used htab (length htab))
      × (Used htab (length htab) → htab_insert htab obj type ≡ none)
htab_insert_full htab obj type = (insert_from_all htab obj type none, full)
  where
    full : Used htab (length htab) → htab_insert htab obj type ≡ none
    full u = elim (Option-cases (htab_insert htab obj type)) [
      | inl e ↦ e
      | inr ((number, new), e) ↦
          let r = htab_insert-Inserted htab obj type number new e in
          absurd (u number r.inside r.free)
    ]
