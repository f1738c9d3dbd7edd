-- ===== src/Proc/Life/Found.antt =====
-- Numbers and names of processes: `alloc_process` and `find_process`.
use mosix_3d.Prelude.{
  ℕ, zero, suc, ◌+◌, ◌^◌, ◌≤◌, ◌<◌, ◌≡◌, ◌≢◌, refl, ap, ◌∙◌, sym, true, false, ◌==◌, if◌then◌else◌,
  arith, u16, Option, none, some, Bool-cases, inl, inr, ==→eq, ==→ne, eq→==, ne→==, ◌⊎◌,
}
use mosix_3d.Misc.Text.{Text, strcmp}
use mosix_3d.Misc.Text.Equal.{strcmp-zero}
use mosix_3d.Misc.Bitmap.{alloc_bit}
use mosix_3d.Misc.Bitmap.Alloc.{bit, IsValid, alloc_bit-least, bit-alloc_bit}
use mosix_3d.Proc.Life.{
  Life, Pids, store_pid, new_process, alloc_process, find_from, find_process, max_proc,
}

-- 1 where there is a process.
abbrev pub used : Option Life → ℕ
used none = 0
used (some l) = 1

-- The numbers of the processes are the bits that are set.
abbrev pub IsTracked : Pids → Type 0
IsTracked t = (i : ℕ) → i < t.procmap.max → bit t.procmap.bytes i ≡ used (t.pidmap i)

unused : (o : Option Life) → used o ≡ 0 → o ≡ none
unused none e = refl
unused (some l) e = absurd (omega arith)

tracked_store :
    (pidmap : ℕ → Option Life) (pid i b : ℕ) (l : Life)
    → b ≡ used (pidmap i)
    → (if i == pid then 1 else b) ≡ used (store_pid pidmap pid (some l) i)
tracked_store pidmap pid i b l e = elim (Bool-cases (i == pid)) [
  | inl q ↦ rw q refl
  | inr q ↦ rw q e
]

small : (k max : ℕ) → k < max → max ≤ 2 ^ 16 → u16 k ≡ k
small k max l m = omega arith

clear_at : (k max b : ℕ) → k < max → (k ≡ max) ⊎ (b ≡ 0) → b ≡ 0
clear_at k max b l (inl e) = absurd (omega arith)
clear_at k max b l (inr e) = e

-- Unless all numbers are used, a new process gets a number that no process has, and the numbers that are
-- used stay those of the processes.
pub alloc_process-IsTracked :
    (t : Pids) (name : Text) (junk : ℕ)
    → IsValid t.procmap
    → t.procmap.max ≤ 2 ^ 16
    → (alloc_bit t.procmap).0 < t.procmap.max
    → IsTracked t
    → let (pid, t') = alloc_process t name junk in
      (t.pidmap pid ≡ none)
      × ((i : ℕ) → i < t.procmap.max → bit t'.procmap.bytes i ≡ used (t'.pidmap i))
unfolding alloc_process
alloc_process-IsTracked t name junk v word free tracked =
    let k = (alloc_bit t.procmap).0 in
    let same = small k t.procmap.max free word in
    let least = alloc_bit-least t.procmap v in
    let clear = clear_at k t.procmap.max (bit t.procmap.bytes k) free least.2 in
    (
      ap t.pidmap same ∙ unused (t.pidmap k) (sym (tracked k free) ∙ clear),
      λ i l.
          bit-alloc_bit t.procmap i v l
          ∙ ap (λ z. if i == z then 1 else bit t.procmap.bytes i) (sym same)
          ∙ tracked_store t.pidmap (u16 k) i (bit t.procmap.bytes i) (new_process name junk)
              (tracked i l),
    )

-- No process has the name.
abbrev pub IsUnnamed : (ℕ → Option Life) → Text → Type 0
IsUnnamed pidmap name = (i : ℕ) (l : Life) → pidmap i ≡ some l → l.name ≢ name

differs : (a b : Text) → a ≢ b → (strcmp a b == 0) ≡ false
differs a b n = ne→== (strcmp a b) 0 (λ e. n ((strcmp-zero a b).0 e))

equal : (a b : Text) → a ≡ b → (strcmp a b == 0) ≡ true
equal a b e = eq→== (strcmp a b) 0 ((strcmp-zero a b).1 e)

-- A turn of the loop.
abbrev turn : Option Life → Text → ℕ → Option ℕ → Option ℕ
turn o name i rest = elim o [
  | none ↦ rest
  | some l ↦ if strcmp l.name name == 0 then some i else rest
]

turn_other :
    (o : Option Life) (name : Text) (i : ℕ) (rest : Option ℕ)
    → ((l : Life) → o ≡ some l → l.name ≢ name)
    → turn o name i rest ≡ rest
turn_other none name i rest h = refl
turn_other (some l) name i rest h = rw (differs l.name name (h l refl)) refl

find_new :
    (pidmap : ℕ → Option Life) (l : Life) (pid n i : ℕ)
    → i ≤ pid
    → pid < i + n
    → IsUnnamed pidmap l.name
    → find_from (store_pid pidmap pid (some l)) l.name n i ≡ some pid
unfolding find_from
find_new pidmap l pid zero i a b h = absurd (omega arith)
find_new pidmap l pid (suc n) i a b h =
    let rest = find_from (store_pid pidmap pid (some l)) l.name n (suc i) in
    elim (Bool-cases (i == pid)) [
      | inl q ↦
          ap (λ b. turn (if b then some l else pidmap i) l.name i rest) q
          ∙ ap (λ b. if b then some i else rest) (equal l.name l.name refl)
          ∙ ap some (==→eq i pid q)
      | inr q ↦
          let lt : i < pid = omega (arith, ==→ne i pid q) in
          ap (λ b. turn (if b then some l else pidmap i) l.name i rest) q
          ∙ turn_other (pidmap i) l.name i rest (h i)
          ∙ find_new pidmap l pid n (suc i) (omega arith) (omega arith) h
    ]

-- A new process whose name no other has is found by its name, under the number that it was given.
pub find_process-alloc_process :
    (t : Pids) (name : Text) (junk : ℕ)
    → (alloc_process t name junk).0 < max_proc
    → IsUnnamed t.pidmap name
    → find_process (alloc_process t name junk).1 name ≡ some (alloc_process t name junk).0
unfolding find_process alloc_process new_process
find_process-alloc_process t name junk l h =
    find_new t.pidmap (new_process name junk) (u16 (alloc_bit t.procmap).0) max_proc 0 (omega arith)
      (omega arith) h
