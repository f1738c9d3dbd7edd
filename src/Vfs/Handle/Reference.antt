-- ===== src/Vfs/Handle/Reference.antt =====
-- The reference counts of open files: kernel/vfs/handle.c, `hop_openfile`, `hop_closefile` and
-- `handle_dup`.
use mosix_3d.Prelude.{
  ℕ, zero, suc, ◌+◌, ◌-◌, ◌^◌, ◌≤◌, ◌<◌, ◌≡◌, refl, sym, ap, ◌∙◌, ◌≢◌, true, List, [], ◌∷◌, Option,
  none, some, ◌==◌, if◌then◌else◌, get_or, set, length, get_or-set_self, get_or-set_ne, length-set,
  arith, u32,
}
use mathlib.Core.Path.{subst}
use mosix_3d.Vfs.Handle.{
  Handle, Table, no_handle, max_handle, handle_file, htab_insert, htab_delete, htab_assign,
  handle_query, handle_dup, Files, handle, hop_openfile, hop_closefile, count_at, opened_at,
}
use mosix_3d.Vfs.Handle.Table.{htab_insert-Inserted, ptr_at, entry}

abbrev pub refers : ℕ → Option ℕ → ℕ
refers f none = 0
refers f (some p) = if p == f then 1 else 0

-- How many entries of the table refer to `f`.
abbrev pub references : ℕ → Table → ℕ
references f [] = 0
references f (h ∷ hs) = refers f h.ptr + references f hs

refers_le : (f : ℕ) (p : Option ℕ) → refers f p ≤ 1
refers_le f none = omega arith
refers_le f (some p) = ground arith

refers_at : (f : ℕ) (p : Option ℕ) → p ≡ some f → refers f p ≡ 1
refers_at f none e = absurd cc
refers_at f (some p) e = let q : p ≡ f = cc in ground arith

refers_other : (f g : ℕ) (p : Option ℕ) → p ≡ some f → f ≢ g → refers g p ≡ 0
refers_other f g none e n = refl
refers_other f g (some p) e n = let q : p ≡ f = cc in ground arith

references_le : (f : ℕ) (htab : Table) → references f htab ≤ length htab
references_le f [] = omega arith
references_le f (h ∷ hs) = let a = refers_le f h.ptr in let b = references_le f hs in omega arith

references-set :
    (f : ℕ) (htab : Table) (k : ℕ) (h : Handle)
    → k < length htab
    → references f (set htab k h) + refers f (ptr_at htab k) ≡ references f htab + refers f h.ptr
references-set f [] k h l = absurd (omega arith)
references-set f (x ∷ xs) zero h l = omega arith
references-set f (x ∷ xs) (suc k) h l = let r = references-set f xs k h (omega arith) in omega arith

-- Each file counts its handles, of a table of at most 256 entries.
pub record IsCounted (s : Files) : Type 0 where
  pub counted : (f : ℕ) → s.href f ≡ references f s.table
  pub bound : length s.table ≤ max_handle

-- `s` after entry `k` was set to `h`, and `n` became the count of `f`.
abbrev recounted : Files → ℕ → Handle → ℕ → ℕ → List ℕ → Files
recounted s k h f n fs = record { table = set s.table k h; href = count_at s.href f n; freed = fs }

recounted-IsCounted :
    (s : Files) (k : ℕ) (h : Handle) (f n : ℕ) (fs : List ℕ)
    → IsCounted s
    → k < length s.table
    → n + refers f (ptr_at s.table k) ≡ s.href f + refers f h.ptr
    → ((g : ℕ) → f ≢ g → refers g (ptr_at s.table k) ≡ refers g h.ptr)
    → IsCounted (recounted s k h f n fs)
recounted-IsCounted s k h f n fs c l q o = record {
  counted = λ g.
      let r = references-set g s.table k h l in let d = c.counted g in let m = o g in grind arith;
  bound = let b = c.bound in let z = length-set s.table k h in omega arith;
}

opened-IsCounted :
    (s s' : Files) (f number : ℕ) (o : Option (ℕ × Table))
    → IsCounted s
    → htab_insert s.table f handle_file ≡ o
    → opened_at (record s { href = count_at s.href f (u32 (s.href f + 1)) }) o ≡ (handle number, s')
    → IsCounted s'
unfolding opened_at
opened-IsCounted s s' f number none c q e = absurd cc
opened-IsCounted s s' f number (some (m, new)) c q e =
    let i = htab_insert-Inserted s.table f handle_file m new q in
    let b = c.bound in
    let d = c.counted f in
    let l = references_le f s.table in
    let a : refers f (ptr_at s.table m) ≡ 0 = ap (refers f) i.free in
    let one = refers_at f (some f) refl in
    let t =
      recounted-IsCounted s m (entry f handle_file) f (u32 (s.href f + 1)) s.freed c i.inside
        (omega arith) (λ g n. ap (refers g) i.free ∙ sym (refers_other f g (some f) refl n)) in
    let x =
      ap (λ z. record { table = z; href = count_at s.href f (u32 (s.href f + 1)); freed = s.freed })
        (sym i.table)
      ∙ ap (λ r. r.1) e in
    subst IsCounted x t

-- An `open` that returns a handle keeps each file's count equal to the number of its handles.
pub hop_openfile-IsCounted :
    (s s' : Files) (f number : ℕ)
    → IsCounted s
    → hop_openfile s (some f) ≡ (handle number, s')
    → IsCounted s'
unfolding hop_openfile
hop_openfile-IsCounted s s' f number c e =
    opened-IsCounted s s' f number (htab_insert s.table f handle_file) c refl e

-- The last of `n` entries that name a file leaves none.
lowered :
    (s : Files) (f number : ℕ)
    → IsCounted s
    → ptr_at s.table number ≡ some f
    → number < length s.table
    → u32 (s.href f + 2 ^ 32 - 1) + 1 ≡ s.href f
lowered s f number c p l =
    let r = references-set f s.table number no_handle l in
    let a = refers_at f (ptr_at s.table number) p in
    let b = references_le f s.table in let d = c.counted f in let m = c.bound in omega arith

abbrev closed : Files → ℕ → ℕ → Files
closed s f number =
    let n = u32 (s.href f + 2 ^ 32 - 1) in
    recounted s number (record (get_or s.table number no_handle) { ptr = none }) f n
      (if n == 0 then f ∷ s.freed else s.freed)

closed-IsCounted :
    (s : Files) (f number : ℕ)
    → IsCounted s
    → ptr_at s.table number ≡ some f
    → number < length s.table
    → IsCounted (closed s f number)
closed-IsCounted s f number c p l =
    let n = u32 (s.href f + 2 ^ 32 - 1) in
    let d = lowered s f number c p l in
    let a = refers_at f (ptr_at s.table number) p in
    recounted-IsCounted s number (record (get_or s.table number no_handle) { ptr = none }) f n
      (if n == 0 then f ∷ s.freed else s.freed) c l (omega arith)
      (λ g m. refers_other f g (ptr_at s.table number) p m)

hop_closefile-closed :
    (s : Files) (f number : ℕ)
    → ptr_at s.table number ≡ some f
    → hop_closefile s number ≡ some (closed s f number)
unfolding hop_closefile htab_delete
hop_closefile-closed s f number p = rw (p, hop_closefile) refl

-- A `close` of a handle that refers to a file ends, keeps each file's count equal to the number of its
-- handles, and frees the file exactly when no entry refers to it any more.
pub hop_closefile-IsCounted :
    (s : Files) (f number : ℕ)
    → IsCounted s
    → ptr_at s.table number ≡ some f
    → number < length s.table
    → (s' : Files) × (hop_closefile s number ≡ some s')
      × IsCounted s'
      × (s'.freed ≡ (if references f s'.table == 0 then f ∷ s.freed else s.freed))
unfolding hop_closefile htab_delete
hop_closefile-IsCounted s f number c p l =
    let i = closed-IsCounted s f number c p l in
    let k : u32 (s.href f + 2 ^ 32 - 1) ≡ references f (closed s f number).table =
      (let d = i.counted f in ground arith) in
    (
      closed s f number,
      hop_closefile-closed s f number p,
      i,
      ap (λ n. if n == 0 then f ∷ s.freed else s.freed) k,
    )

abbrev duplicate : Files → ℕ → Handle
duplicate s old = record {
  ptr = ptr_at s.table old;
  type = (get_or s.table old no_handle).type;
  flag = 0;
}

-- `handle_dup` does not count: where a file has one handle, closing that handle frees the file
-- although its duplicate still refers to it.
pub handle_dup_frees :
    (s : Files) (f old new : ℕ)
    → ptr_at s.table old ≡ some f
    → s.href f ≡ 1
    → new < length s.table
    → old ≢ new
    → (s' : Files) × (hop_closefile (record s { table = handle_dup s.table old new }) old ≡ some s')
      × (s'.freed ≡ f ∷ s.freed)
      × (handle_query s'.table new ≡ some f)
unfolding hop_closefile htab_delete handle_query handle_dup htab_assign
handle_dup_frees s f old new p h l n =
    let t = record s { table = handle_dup s.table old new } in
    let a = get_or-set_ne s.table (duplicate s old) no_handle (λ q. n (sym q)) in
    let b = get_or-set_self s.table new (duplicate s old) no_handle l in
    let u =
      get_or-set_ne t.table (record (get_or t.table old no_handle) { ptr = none }) no_handle n in
    (
      closed t f old,
      hop_closefile-closed t f old (ap (λ x. x.ptr) a ∙ p),
      (let z : (u32 (s.href f + 2 ^ 32 - 1) == 0) ≡ true = ground arith in
          ap (λ x. if x then f ∷ s.freed else s.freed) z),
      ap (λ x. x.ptr) u ∙ ap (λ x. x.ptr) b ∙ p,
    )
