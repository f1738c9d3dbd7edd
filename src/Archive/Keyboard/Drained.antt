-- ===== src/Archive/Keyboard/Drained.antt =====
-- The end of the decoder's loop: every turn takes a scan code out of `kbdp` at least.
use mathlib.Core.Path.{subst}
use mosix_3d.Prelude.{
  ℕ, zero, suc, ◌-◌, ◌≤◌, ◌≡◌, ◌⊎◌, refl, ap, sym, List, [], ◌∷◌, length, ◌==◌, arith, Bool-cases,
  inl, inr, Option, none, some, true,
}
use mosix_3d.Ipc.Buffer.{
  FifoBuffer, read_buffer, minus_one, buffer_empty, buffer_full, write_buffer32,
}
use mosix_3d.Ipc.Buffer.Queue
use mosix_3d.Ipc.Buffer.Refine.{IsValid, contents, read_buffer_refines, contents-empty}
use mosix_3d.Archive.Keyboard.{
  Keyboard, read_kbdp, extended, getkbdchar, decoded, dkbd_decode, commit_char, Driver, drained,
  suspends, faults, drain,
}
use mosix_3d.Sync.{Signal, wait_signal}
use mosix_3d.Ipc.Wait.{Waited, null_signal, sleeps, ends, wait_on, wait_write_buffer32}

-- `b'` is what one read of `b`, or more, leaves.
record Shorter (b b' : FifoBuffer) : Type 0 where
  valid : IsValid b'
  short : length (contents b') ≤ length (contents b) - 1

read_length : (q : List ℕ) (failed : ℕ) → length (Queue.read q failed).1 ≤ length q - 1
unfolding Queue.read
read_length [] failed = omega arith
read_length (x ∷ q) failed = omega arith

read_kbdp-Shorter : (b : FifoBuffer) → IsValid b → Shorter b (read_kbdp b).1
unfolding read_kbdp
read_kbdp-Shorter b v =
    let r = read_buffer_refines b v in
    let l = read_length (contents b) minus_one in
    let e : length (contents (read_buffer b).1) ≡ length (Queue.read (contents b) minus_one).1 =
      ap (λ p. length p.1) r.0 in
    record { valid = r.1; short = omega arith }

Shorter-Shorter : (a b c : FifoBuffer) → Shorter a b → Shorter b c → Shorter a c
Shorter-Shorter a b c p q =
    let x = p.short in let y = q.short in record { valid = q.valid; short = omega arith }

extended_buffer :
    (beyond : ℕ → ℕ) (code : ℕ) (b : FifoBuffer)
    → ((extended beyond code b).1 ≡ b)
      ⊎ ((extended beyond code b).1 ≡ (read_kbdp (read_kbdp b).1).1)
unfolding extended
extended_buffer beyond code b = ground arith

getkbdchar_buffer :
    (beyond : ℕ → ℕ) (k : Keyboard)
    → let b1 = (read_kbdp k.kbdp).1 in
      let b2 = (read_kbdp b1).1 in
      let b = (getkbdchar beyond k).1 in
      (b ≡ b1) ⊎ ((b ≡ (extended beyond (read_kbdp b1).0 b2).1) ⊎ (b ≡ (read_kbdp b2).1))
unfolding getkbdchar
getkbdchar_buffer beyond k = ground arith

-- A read more behind one.
read_again : (a b : FifoBuffer) → Shorter a b → Shorter a (read_kbdp b).1
read_again a b p = Shorter-Shorter a b (read_kbdp b).1 p (read_kbdp-Shorter b p.valid)

extended-Shorter :
    (beyond : ℕ → ℕ) (code : ℕ) (a b : FifoBuffer)
    → Shorter a b
    → Shorter a (extended beyond code b).1
extended-Shorter beyond code a b p = elim (extended_buffer beyond code b) [
  | inl e ↦ subst (Shorter a) (sym e) p
  | inr e ↦ subst (Shorter a) (sym e) (read_again a (read_kbdp b).1 (read_again a b p))
]

getkbdchar-Shorter :
    (beyond : ℕ → ℕ) (k : Keyboard) → IsValid k.kbdp → Shorter k.kbdp (getkbdchar beyond k).1
getkbdchar-Shorter beyond k v =
    let b1 = (read_kbdp k.kbdp).1 in
    let s1 = read_kbdp-Shorter k.kbdp v in
    let s2 = read_again k.kbdp b1 s1 in
    elim (getkbdchar_buffer beyond k) [
      | inl e ↦ subst (Shorter k.kbdp) (sym e) s1
      | inr (inl e) ↦
          subst (Shorter k.kbdp) (sym e)
            (extended-Shorter beyond (read_kbdp b1).0 k.kbdp (read_kbdp b1).1 s2)
      | inr (inr e) ↦ subst (Shorter k.kbdp) (sym e) (read_again k.kbdp (read_kbdp b1).1 s2)
    ]

decoded_buffer : (k : Keyboard) (code : ℕ) → (decoded k code).0.kbdp ≡ k.kbdp
unfolding decoded
decoded_buffer k code = ground arith

length-zero : (q : List ℕ) → length q ≤ 0 → q ≡ []
length-zero [] h = refl
length-zero (x ∷ q) h = absurd (omega arith)

dkbd_decode-Shorter :
    (beyond : ℕ → ℕ) (k : Keyboard) → IsValid k.kbdp → Shorter k.kbdp (dkbd_decode beyond k).0.kbdp
unfolding dkbd_decode
dkbd_decode-Shorter beyond k v =
    let (code, b) = getkbdchar beyond k in
    subst (Shorter k.kbdp) (sym (decoded_buffer (record k { kbdp = b }) code))
      (getkbdchar-Shorter beyond k v)

-- A word that is not committed finds `ascp` full.
abbrev Committed : FifoBuffer → Waited → Type 0
Committed ascp null_signal = (buffer_full ascp ≡ true) × (ascp.writers ≡ none)
Committed ascp (sleeps ascp') = buffer_full ascp' ≡ true
Committed ascp (ends o) = Unit {0}

waited-Committed :
    (self : ℕ) (ascp : FifoBuffer) (w : ℕ) (o : Option Signal)
    → ascp.writers ≡ o
    → buffer_full ascp ≡ true
    → Committed ascp
        (wait_on self o (λ s. record ascp { writers = some s }) (λ b. write_buffer32 b w))
unfolding wait_on buffer_full
waited-Committed self ascp w none e f = (f, e)
waited-Committed self ascp w (some s) e f = elim (Bool-cases ((wait_signal self s).0)) [
  | inl p ↦ rw p tt
  | inr p ↦ rw p f
]

commit_char-Committed :
    (self : ℕ) (ascp : FifoBuffer) (w : ℕ) → Committed ascp (commit_char self ascp w)
unfolding commit_char wait_write_buffer32
commit_char-Committed self ascp w = elim (Bool-cases (buffer_full ascp)) [
  | inl f ↦ rw f (waited-Committed self ascp w ascp.writers refl f)
  | inr f ↦ rw f tt
]

-- The loop went on until `kbdp` is empty, or stopped at a word for which `ascp` has no room.
pub Ended : Driver → Type 0
Ended (drained k ascp) = contents k.kbdp ≡ []
Ended (suspends k ascp w) = buffer_full ascp ≡ true
Ended (faults ascp) = (buffer_full ascp ≡ true) × (ascp.writers ≡ none)

abbrev go_on : Keyboard → FifoBuffer → ℕ → (FifoBuffer → Driver) → Waited → Driver
go_on k ascp w rest r = elim r [
  | null_signal ↦ faults ascp
  | sleeps ascp' ↦ suspends k ascp' w
  | ends (_, ascp', _) ↦ rest ascp'
]

go_on-Ended :
    (k : Keyboard) (ascp : FifoBuffer) (w : ℕ) (rest : FifoBuffer → Driver) (r : Waited)
    → Committed ascp r
    → ((a : FifoBuffer) → Ended (rest a))
    → Ended (go_on k ascp w rest r)
unfolding Ended
go_on-Ended k ascp w rest null_signal c h = c
go_on-Ended k ascp w rest (sleeps a) c h = c
go_on-Ended k ascp w rest (ends (x, a, ws)) c h = h a

turn-Ended :
    (self : ℕ) (k : Keyboard) (ascp : FifoBuffer) (word : Option ℕ) (rest : FifoBuffer → Driver)
    → ((a : FifoBuffer) → Ended (rest a))
    → Ended
        (elim word [ none ↦ rest ascp | some w ↦ go_on k ascp w rest (commit_char self ascp w) ])
turn-Ended self k ascp none rest h = h ascp
turn-Ended self k ascp (some w) rest h =
    go_on-Ended k ascp w rest (commit_char self ascp w) (commit_char-Committed self ascp w) h

-- With a turn for each scan code that is held, the loop of `dkbd_entry` ends with no code left, or earlier, at a
-- word for which `ascp` has no room: there the driver suspends, or faults where `ascp` has no signal for writers.
pub drain_ends :
    (self : ℕ) (beyond : ℕ → ℕ) (n : ℕ) (k : Keyboard) (ascp : FifoBuffer)
    → IsValid k.kbdp
    → length (contents k.kbdp) ≤ n
    → Ended (drain self beyond n k ascp)
unfolding drain buffer_empty Ended
drain_ends self beyond zero k ascp v h = length-zero (contents k.kbdp) h
drain_ends self beyond (suc n) k ascp v h =
    let s = dkbd_decode-Shorter beyond k v in
    let l = s.short in
    elim (Bool-cases (k.kbdp.read == k.kbdp.write)) [
      | inl e ↦ rw e (contents-empty k.kbdp v e)
      | inr e ↦
          let (k', word) = dkbd_decode beyond k in
          rw e (
            turn-Ended self k' ascp word (drain self beyond n k')
              (λ a. drain_ends self beyond n k' a s.valid (omega arith)))
    ]
