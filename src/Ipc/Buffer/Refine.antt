-- ===== src/Ipc/Buffer/Refine.antt =====
-- A buffer behaves as the bounded queue of the objects between its `read` and `write` indices.
use mosix_3d.Prelude.{
  ℕ, suc, ◌+◌, ◌-◌, ◌^◌, ◌≤◌, ◌<◌, ◌≡◌, refl, ap, ◌∙◌, inl, inr, ◌≢◌, true, false, List, [], ◌∷◌,
  ◌++◌, leb, ◌==◌, if◌then◌else◌, set, length, length-set, u8, u32, arith, Bool-cases,
}
use mosix_3d.Ipc.Span
use mosix_3d.Ipc.Buffer.Queue
use mosix_3d.Ipc.Buffer.{
  FifoBuffer, minus_one, buffer_full, buffer_empty, next, set_if, take_object, store_object,
  put_object, force_object, read_buffer, read_buffer32, write_buffer, write_buffer32,
  overwrite_buffer, overwrite_buffer32,
}

pub record IsValid (b : FifoBuffer) : Type 0 where
  pub holds : b.cap ≤ length b.buf
  pub word : b.cap < 2 ^ 16
  pub read_in : b.read < b.cap
  pub write_in : b.write < b.cap

-- The `k` objects from index `i` on, in the order in which the code visits them.
abbrev pub span : List ℕ → ℕ → ℕ → ℕ → List ℕ
span buf cap i k = Span.span 0 (next cap) buf i k

abbrev pub count : FifoBuffer → ℕ
count b = if leb b.read b.write then b.write - b.read else b.write + b.cap - b.read

abbrev pub contents : FifoBuffer → List ℕ
contents b = span b.buf b.cap b.read (count b)

pub length-contents : (b : FifoBuffer) → length (contents b) ≡ count b
length-contents b = Span.length-span 0 (next b.cap) b.buf b.read (count b)

pub next-in : (cap i : ℕ) → i < cap → cap < 2 ^ 16 → next cap i < cap
unfolding next
next-in cap i h w = ground arith

next-Steps : (cap : ℕ) → cap < 2 ^ 16 → Span.Steps cap (next cap)
unfolding next
next-Steps cap w i h = ground arith

buffer_empty-count : (b : FifoBuffer) → IsValid b → buffer_empty b ≡ (count b == 0)
unfolding buffer_empty
buffer_empty-count b v = ground arith

pub buffer_full-count : (b : FifoBuffer) → IsValid b → buffer_full b ≡ (count b == b.cap - 1)
unfolding buffer_full
buffer_full-count b v = ground arith

-- The index arithmetic of the three moves.
count-read :
    (b : FifoBuffer)
    → IsValid b
    → count b ≢ 0
    → count (record b { read = next b.cap b.read }) + 1 ≡ count b
unfolding next
count-read b v h = ground arith

count-write :
    (b : FifoBuffer)
    → IsValid b
    → count b ≢ b.cap - 1
    → count (record b { write = next b.cap b.write }) ≡ suc (count b)
unfolding next
count-write b v h = ground arith

take_object_lem :
    (b : FifoBuffer)
    → IsValid b
    → buffer_empty b ≡ false
    → let (r, b', _) = take_object b in (contents b ≡ r ∷ contents b') × IsValid b'
unfolding take_object
take_object_lem b v e =
    let some' : count b ≢ 0 = ground (arith, buffer_empty-count b v) in
    (
      Span.span_of_ne_zero 0 (next b.cap) b.buf b.read (count b) _ (count-read b v some'),
      record {
        holds = v.holds;
        word = v.word;
        read_in = next-in b.cap b.read v.read_in v.word;
        write_in = v.write_in;
      },
    )

store_object_lem :
    (b : FifoBuffer) (value : ℕ)
    → IsValid b
    → count b ≢ b.cap - 1
    → let b' = store_object b value in (contents b' ≡ contents b ++ (value ∷ [])) × IsValid b'
unfolding store_object
store_object_lem b value v e = (
  ap (span (set b.buf b.write value) b.cap b.read) (count-write b v e)
      ∙ Span.span-set 0 (next b.cap) b.cap b.buf b.read (count b) b.write value
          (next-Steps b.cap v.word) v.holds v.read_in v.write_in (ground arith) (ground arith),
  record {
    holds = omega (arith, v.holds, length-set b.buf b.write value);
    word = v.word;
    read_in = v.read_in;
    write_in = next-in b.cap b.write v.write_in v.word;
  },
)

pub contents-empty : (b : FifoBuffer) → IsValid b → buffer_empty b ≡ true → contents b ≡ []
contents-empty b v e =
    let none' : count b ≡ 0 = ground (arith, buffer_empty-count b v) in
    ap (span b.buf b.cap b.read) none'

read_refines :
    (b : FifoBuffer)
    → IsValid b
    → let (r, b', _) = if buffer_empty b then (minus_one, b, []) else take_object b in
      ((r, contents b') ≡ Queue.read (contents b) minus_one) × IsValid b'
unfolding Queue.read
read_refines b v = elim (Bool-cases (buffer_empty b)) [
  | inl e ↦ rw e (rw (contents-empty b v e) refl, v)
  | inr e ↦ let t = take_object_lem b v e in rw e (rw t.0 refl, t.1)
]

-- `read_buffer` and `read_buffer32` return the oldest object and remove it, or return -1 where there
-- is none; the buffer stays well formed.
pub read_buffer_refines :
    (b : FifoBuffer)
    → IsValid b
    → let (r, b', _) = read_buffer b in
      let (r32, b32, _) = read_buffer32 b in
      ((r, contents b') ≡ Queue.read (contents b) minus_one)
      × IsValid b'
      × ((r32, contents b32) ≡ Queue.read (contents b) minus_one)
      × IsValid b32
unfolding read_buffer read_buffer32
read_buffer_refines b v = let t = read_refines b v in (t.0, t.1, t.0, t.1)

put_refines :
    (b : FifoBuffer) (value result : ℕ)
    → IsValid b
    → let (r, b', _) = put_object b value result in
      ((r, contents b') ≡ Queue.write (b.cap - 1) (contents b) value result minus_one) × IsValid b'
unfolding put_object Queue.write
put_refines b value result v =
    let rs = set_if (buffer_empty b) b.readers in
    let full = buffer_full-count b v in
    let stored =
      store_object_lem (record b { readers = rs.0 }) value
        (record { holds = v.holds; word = v.word; read_in = v.read_in; write_in = v.write_in }) in
    elim (Bool-cases (buffer_full b)) [
      | inl e ↦ rw (e, length-contents b, ← full, e) (refl, v)
      | inr e ↦
          let t = stored (ground (arith, full)) in
          rw (e, length-contents b, ← full, e) (rw t.0 refl, t.1)
    ]

-- `write_buffer` and `write_buffer32` add the low 8 or 32 bits of their argument at the end and
-- return it, or return -1 where `cap - 1` objects are held; the buffer stays well formed.
pub write_buffer_refines :
    (b : FifoBuffer) (d : ℕ)
    → IsValid b
    → let (r, b', _) = write_buffer b d in
      let (r32, b32, _) = write_buffer32 b d in
      ((r, contents b') ≡ Queue.write (b.cap - 1) (contents b) (u8 d) d minus_one)
      × IsValid b'
      × ((r32, contents b32) ≡ Queue.write (b.cap - 1) (contents b) (u32 d) d minus_one)
      × IsValid b32
unfolding write_buffer write_buffer32
write_buffer_refines b d v =
    let t = put_refines b (u8 d) d v in
    let t32 = put_refines b (u32 d) d v in (t.0, t.1, t32.0, t32.1)

force_refines :
    (b : FifoBuffer) (value result : ℕ)
    → IsValid b
    → 2 ≤ b.cap
    → let (r, b', _) = force_object b value result in
      ((r, contents b') ≡ Queue.overwrite (b.cap - 1) (contents b) value result) × IsValid b'
unfolding force_object Queue.overwrite
force_refines b value result v two =
    let rs = set_if (buffer_empty b) b.readers in
    let full = buffer_full-count b v in
    let stored =
      store_object_lem (record b { readers = rs.0 }) value
        (record { holds = v.holds; word = v.word; read_in = v.read_in; write_in = v.write_in }) in
    let dropped : FifoBuffer = record b { read = next b.cap b.read } in
    let dropped_valid : IsValid dropped = record {
      holds = v.holds;
      word = v.word;
      read_in = next-in b.cap b.read v.read_in v.word;
      write_in = v.write_in;
    } in
    elim (Bool-cases (buffer_full b)) [
      | inl e ↦
          let some' : count b ≢ 0 = ground (arith, full) in
          let moved = count-read b v some' in
          let front = Span.span_of_ne_zero 0 (next b.cap) b.buf b.read (count b) _ moved in
          let t = store_object_lem dropped value dropped_valid (ground (arith, full, moved)) in
          rw (e, length-contents b, ← full, e) (rw (t.0, front) refl, t.1)
      | inr e ↦
          let t = stored (ground (arith, full)) in
          rw (e, length-contents b, ← full, e) (rw t.0 refl, t.1)
    ]

-- `overwrite_buffer` and `overwrite_buffer32` always add their object; where `cap - 1` objects are
-- held, the oldest makes room.
pub overwrite_buffer_refines :
    (b : FifoBuffer) (d : ℕ)
    → IsValid b
    → 2 ≤ b.cap
    → let (r, b', _) = overwrite_buffer b d in
      let (r32, b32, _) = overwrite_buffer32 b d in
      ((r, contents b') ≡ Queue.overwrite (b.cap - 1) (contents b) (u8 d) d)
      × IsValid b'
      × ((r32, contents b32) ≡ Queue.overwrite (b.cap - 1) (contents b) (u32 d) d)
      × IsValid b32
unfolding overwrite_buffer overwrite_buffer32
overwrite_buffer_refines b d v two =
    let t = force_refines b (u8 d) d v two in
    let t32 = force_refines b (u32 d) d v two in (t.0, t.1, t32.0, t32.1)
