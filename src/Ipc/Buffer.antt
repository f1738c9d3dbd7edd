-- ===== src/Ipc/Buffer.antt =====
-- `FifoBuffer` of kernel/vfs/msglist.c and kernel/include/msglist.h: a circular buffer that keeps
-- one slot free, with an optional signal for readers and one for writers.
--
-- `buf` holds the objects of the buffer's memory, bytes or 32-bit words. An `int` is its bit pattern.
-- The `lock_` functions hold the spinlock over one call, so they are that call. Each call returns its
-- result, the buffer and the processes that it readied.
pub mod Queue
pub mod Refine
pub mod Signals
mod Tests
use mosix_3d.Prelude.{
  ℕ, suc, ◌+◌, ◌-◌, ◌*◌, ◌/◌, ◌^◌, Bool, true, false, ◌||◌, List, [], ◌∷◌, ◌++◌, Option, none, some,
  leb, ◌==◌, if◌then◌else◌, get_or, set, replicate, u8, u16, u32,
}
use mosix_3d.Sync.{Signal, init_mutex, set_signal, clear_signal}

pub record FifoBuffer : Type 0 where
  pub readers : Option Signal
  pub writers : Option Signal
  pub buf : List ℕ
  pub cap : ℕ
  pub read : ℕ
  pub write : ℕ
  pub size : ℕ

-- The `int` -1.
abbrev pub minus_one : ℕ
minus_one = 2 ^ 32 - 1

-- The macros compare as `int`, where `read - 1` may be -1.
unfoldable pub buffer_full : FifoBuffer → Bool
buffer_full b = (b.write + 1 == b.read) || (b.write + 1 == b.read + b.cap)

unfoldable pub buffer_empty : FifoBuffer → Bool
buffer_empty b = b.read == b.write

-- `i ++; if(i >= cap) i = 0;` on a `u16`.
unfoldable pub next : ℕ → ℕ → ℕ
next cap i = if leb cap (u16 (i + 1)) then 0 else u16 (i + 1)

-- `if(s && test) set_signal(s);`
unfoldable pub set_if : Bool → Option Signal → Option Signal × List ℕ
unfolding set_signal
set_if test none = (none, [])
set_if test (some s) = if test then (some (set_signal s).0, (set_signal s).1) else (some s, [])

-- `if(s && test) clear_signal(s);`
unfoldable pub clear_if : Bool → Option Signal → Option Signal
unfolding clear_signal
clear_if test none = none
clear_if test (some s) = if test then some (clear_signal s) else some s

-- Objects of uninitialised memory read as `junk`. The byte size of the memory is a `u16`.
unfoldable pub init_buffer : ℕ → ℕ → ℕ → Bool → Bool → FifoBuffer
unfolding init_mutex clear_signal
init_buffer junk objsz count rsig wsig = record {
  readers = if rsig then some (clear_signal init_mutex) else none;
  writers = if wsig then some init_mutex else none;
  buf = replicate (u16 (objsz * count) / objsz) junk;
  cap = count;
  read = 0;
  write = 0;
  size = u16 (objsz * count);
}

abbrev pub Outcome : Type 0
Outcome = ℕ × FifoBuffer × List ℕ

-- The part of `read_buffer` behind the test for an empty buffer, and of `read_buffer32`.
unfoldable pub take_object : FifoBuffer → Outcome
unfolding buffer_full buffer_empty next set_if clear_if
take_object b =
    let (ws, woken) = set_if (buffer_full b) b.writers in
    let b' = record b { writers = ws; read = next b.cap b.read } in
    (get_or b.buf b.read 0, record b' { readers = clear_if (buffer_empty b') b'.readers }, woken)

unfoldable pub read_buffer : FifoBuffer → Outcome
unfolding buffer_empty take_object
read_buffer b = if buffer_empty b then (minus_one, b, []) else take_object b

unfoldable pub read_buffer32 : FifoBuffer → Outcome
unfolding buffer_empty take_object
read_buffer32 b = if buffer_empty b then (minus_one, b, []) else take_object b

-- The store and the move of `write`, with the test for a full buffer behind them.
unfoldable pub store_object : FifoBuffer → ℕ → FifoBuffer
unfolding buffer_full next clear_if
store_object b value =
    let b' = record b { buf = set b.buf b.write value; write = next b.cap b.write } in
    record b' { writers = clear_if (buffer_full b') b'.writers }

unfoldable pub put_object : FifoBuffer → ℕ → ℕ → Outcome
unfolding buffer_full buffer_empty set_if store_object
put_object b value data' =
    let (rs, woken) = set_if (buffer_empty b) b.readers in
    if buffer_full b
    then (minus_one, b, [])
    else (data', store_object (record b { readers = rs }) value, woken)

-- The store keeps the low 8 or 32 bits; the argument is returned.
unfoldable pub write_buffer : FifoBuffer → ℕ → Outcome
unfolding put_object
write_buffer b d = put_object b (u8 d) d

unfoldable pub write_buffer32 : FifoBuffer → ℕ → Outcome
unfolding put_object
write_buffer32 b d = put_object b (u32 d) d

-- A full buffer loses its oldest object.
unfoldable pub force_object : FifoBuffer → ℕ → ℕ → Outcome
unfolding buffer_full buffer_empty next set_if store_object
force_object b value data' =
    let (rs, woken) = set_if (buffer_empty b) b.readers in
    if buffer_full b
    then (data', store_object (record b { read = next b.cap b.read }) value, [])
    else (data', store_object (record b { readers = rs }) value, woken)

unfoldable pub overwrite_buffer : FifoBuffer → ℕ → Outcome
unfolding force_object
overwrite_buffer b d = force_object b (u8 d) d

unfoldable pub overwrite_buffer32 : FifoBuffer → ℕ → Outcome
unfolding force_object
overwrite_buffer32 b d = force_object b (u32 d) d
