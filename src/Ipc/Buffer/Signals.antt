-- ===== src/Ipc/Buffer/Signals.antt =====
-- The signals of a buffer follow its fill: the readers' signal is set while it holds an object, the
-- writers' while it has room.
use mosix_3d.Prelude.{
  ℕ, ◌*◌, ◌/◌, ◌^◌, ◌≤◌, ◌<◌, ◌≡◌, refl, sym, ap, ◌∙◌, inl, inr, Bool, true, false, not, Option,
  none, some, if◌then◌else◌, arith, Bool-cases, length-replicate, u8, u16, [],
}
use mosix_3d.Sync.{Signal, clear_signal, init_mutex}
use mosix_3d.Ipc.Buffer.{
  FifoBuffer, buffer_full, buffer_empty, next, set_if, clear_if, take_object, store_object,
  put_object, force_object, read_buffer, write_buffer, overwrite_buffer, init_buffer,
}
use mosix_3d.Ipc.Buffer.Refine.{IsValid, contents}

abbrev pub Follows : Option Signal → Bool → Type 0
Follows none c = Unit {0}
Follows (some s) c = s.owned ≡ (if c then 1 else 0)

pub record IsSignalled (b : FifoBuffer) : Type 0 where
  pub readable : Follows b.readers (not (buffer_empty b))
  pub writable : Follows b.writers (not (buffer_full b))

-- A signal that followed `c` follows `c'` once it is set where `c` turns into `c'` upwards.
set_if-Follows :
    (o : Option Signal) (test c : Bool)
    → test ≡ not c
    → Follows o c
    → Follows (set_if test o).0 true
unfolding set_if
set_if-Follows none test c e f = tt
set_if-Follows (some s) test c e f = ground arith

clear_if-Follows :
    (o : Option Signal) (test : Bool) → Follows o true → Follows (clear_if test o) (not test)
unfolding clear_if
clear_if-Follows none test f = tt
clear_if-Follows (some s) test f = ground arith

next_facts :
    (b : FifoBuffer)
    → IsValid b
    → 2 ≤ b.cap
    → (buffer_empty b ≡ false → buffer_full (record b { read = next b.cap b.read }) ≡ false)
      × (buffer_full b ≡ false → buffer_empty (record b { write = next b.cap b.write }) ≡ false)
      × (buffer_full b ≡ true → buffer_empty b ≡ false)
unfolding buffer_full buffer_empty next
next_facts b v two = ground arith

Follows-eq : (o : Option Signal) {c c' : Bool} → c ≡ c' → Follows o c → Follows o c'
Follows-eq o {c} {c'} e f = rw (← e) f

not-not : (c : Bool) → c ≡ not (not c)
not-not true = refl
not-not false = refl

take_object-IsSignalled :
    (b : FifoBuffer)
    → IsValid b
    → 2 ≤ b.cap
    → buffer_empty b ≡ false
    → IsSignalled b
    → IsSignalled (take_object b).1
unfolding take_object buffer_full buffer_empty
take_object-IsSignalled b v two e s =
    let room = (next_facts b v two).0 e in
    record {
      readable = clear_if-Follows b.readers _ (Follows-eq b.readers (ap not e) s.readable);
      writable =
          Follows-eq (set_if (buffer_full b) b.writers).0 (ap not (sym room))
            (set_if-Follows b.writers (buffer_full b) (not (buffer_full b)) (not-not _) s.writable);
    }

store_object-IsSignalled :
    (b : FifoBuffer) (value : ℕ)
    → IsValid b
    → 2 ≤ b.cap
    → buffer_full b ≡ false
    → Follows b.readers true
    → Follows b.writers true
    → IsSignalled (store_object b value)
unfolding store_object buffer_full buffer_empty
store_object-IsSignalled b value v two e r w =
    let filled = (next_facts b v two).1 e in
    record {
      readable = Follows-eq b.readers (ap not (sym filled)) r;
      writable = clear_if-Follows b.writers _ w;
    }

same_full :
    (b : FifoBuffer) (rs : Option Signal) → buffer_full (record b { readers = rs }) ≡ buffer_full b
unfolding buffer_full
same_full b rs = refl

put_object-IsSignalled :
    (b : FifoBuffer) (value result : ℕ)
    → IsValid b
    → 2 ≤ b.cap
    → IsSignalled b
    → IsSignalled (put_object b value result).1
unfolding put_object
put_object-IsSignalled b value result v two s = elim (Bool-cases (buffer_full b)) [
  | inl e ↦ rw e s
  | inr e ↦ rw e (
      store_object-IsSignalled (record b { readers = (set_if (buffer_empty b) b.readers).0 }) value
        (record { holds = v.holds; word = v.word; read_in = v.read_in; write_in = v.write_in }) two
        (same_full b (set_if (buffer_empty b) b.readers).0 ∙ e)
        (set_if-Follows b.readers (buffer_empty b) (not (buffer_empty b)) (not-not _) s.readable)
        (Follows-eq b.writers (ap not e) s.writable))
]

clear_if-Follows-false :
    (o : Option Signal) (test : Bool) → Follows o false → Follows (clear_if test o) false
unfolding clear_if
clear_if-Follows-false none test f = tt
clear_if-Follows-false (some s) test f = ground arith

-- Dropping an object and storing one leaves a full buffer full.
full_again :
    (b : FifoBuffer)
    → IsValid b
    → buffer_full b ≡ true
    → 2 ≤ b.cap
    → (buffer_full (record b { read = next b.cap b.read; write = next b.cap b.write }) ≡ true)
      × (buffer_empty (record b { read = next b.cap b.read; write = next b.cap b.write }) ≡ false)
unfolding buffer_full buffer_empty next
full_again b v e two = ground arith

force_full-IsSignalled :
    (b : FifoBuffer) (value : ℕ)
    → IsValid b
    → 2 ≤ b.cap
    → buffer_full b ≡ true
    → IsSignalled b
    → IsSignalled (store_object (record b { read = next b.cap b.read }) value)
unfolding store_object buffer_full buffer_empty
force_full-IsSignalled b value v two e s =
    let again = full_again b v e two in
    let held = (next_facts b v two).2 e in
    record {
      readable = Follows-eq b.readers (ap not held ∙ sym (ap not again.1)) s.readable;
      writable =
          Follows-eq (clear_if _ b.writers) (sym (ap not again.0))
            (clear_if-Follows-false b.writers _ (Follows-eq b.writers (ap not e) s.writable));
    }

force_object-IsSignalled :
    (b : FifoBuffer) (value result : ℕ)
    → IsValid b
    → 2 ≤ b.cap
    → IsSignalled b
    → IsSignalled (force_object b value result).1
unfolding force_object
force_object-IsSignalled b value result v two s = elim (Bool-cases (buffer_full b)) [
  | inl e ↦ rw e (force_full-IsSignalled b value v two e s)
  | inr e ↦ rw e (
      store_object-IsSignalled (record b { readers = (set_if (buffer_empty b) b.readers).0 }) value
        (record { holds = v.holds; word = v.word; read_in = v.read_in; write_in = v.write_in }) two
        (same_full b (set_if (buffer_empty b) b.readers).0 ∙ e)
        (set_if-Follows b.readers (buffer_empty b) (not (buffer_empty b)) (not-not _) s.readable)
        (Follows-eq b.writers (ap not e) s.writable))
]

-- Every operation on bytes keeps the readers' signal set exactly while an object is held, and the
-- writers' exactly while there is room.
pub buffer_ops-IsSignalled :
    (b : FifoBuffer) (d : ℕ)
    → IsValid b
    → 2 ≤ b.cap
    → IsSignalled b
    → IsSignalled (read_buffer b).1
      × IsSignalled (write_buffer b d).1
      × IsSignalled (overwrite_buffer b d).1
unfolding read_buffer write_buffer overwrite_buffer
buffer_ops-IsSignalled b d v two s = (
  elim (Bool-cases (buffer_empty b)) [
    | inl e ↦ rw e s
    | inr e ↦ rw e (take_object-IsSignalled b v two e s)
  ],
  put_object-IsSignalled b (u8 d) d v two s,
  force_object-IsSignalled b (u8 d) d v two s,
)

-- A new buffer whose byte size fits 16 bits is well formed, is empty, and has its signals right.
pub init_buffer-IsSignalled :
    (junk objsz count : ℕ) (rsig wsig : Bool)
    → 0 < objsz
    → objsz * count < 2 ^ 16
    → 2 ≤ count
    → let b = init_buffer junk objsz count rsig wsig in
      IsValid b × IsSignalled b × (contents b ≡ [])
unfolding init_buffer buffer_full buffer_empty init_mutex clear_signal
init_buffer-IsSignalled junk objsz count rsig wsig o w two =
    let fits : count < 2 ^ 16 = grind arith in
    let whole : u16 (objsz * count) / objsz ≡ count = grind arith in
    (
      record {
        holds = omega (arith, length-replicate (u16 (objsz * count) / objsz) junk);
        word = fits;
        read_in = omega arith;
        write_in = omega arith;
      },
      record { readable = ground arith; writable = ground arith },
      refl,
    )
