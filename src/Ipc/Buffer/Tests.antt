-- ===== src/Ipc/Buffer/Tests.antt =====
-- Runs of the buffer operations, and the theorems at concrete buffers.
use mosix_3d.Prelude.{ℕ, ◌≡◌, refl, [], ◌∷◌, arith, none, some, u8, u32}
use mosix_3d.Sync.{Signal}
use mosix_3d.Ipc.Buffer.Queue
use mosix_3d.Ipc.Buffer.{
  FifoBuffer, minus_one, next, buffer_full, buffer_empty, read_buffer, read_buffer32, write_buffer,
  write_buffer32, overwrite_buffer,
}
use mosix_3d.Ipc.Buffer.Refine.{IsValid, contents, read_buffer_refines, write_buffer_refines}
use mosix_3d.Ipc.Buffer.Signals.{IsSignalled, buffer_ops-IsSignalled}

abbrev signal : ℕ → Signal
signal s = record { owned = s; owner = none; waiters = 7 ∷ []; href = 0 }

-- Three slots, two of them in use round the end, so the buffer is full; process 7 waits to write.
abbrev wrapped : FifoBuffer
wrapped = record {
  readers = some (signal 1);
  writers = some (signal 0);
  buf = 20 ∷ 30 ∷ 10 ∷ [];
  cap = 3;
  read = 2;
  write = 1;
  size = 3;
}

abbrev wrapped-IsValid : IsValid wrapped
wrapped-IsValid = omega arith

contents-wrapped : contents wrapped ≡ 10 ∷ 20 ∷ []
unfolding next
contents-wrapped = refl

read_wakes_writer : (read_buffer wrapped).0 ≡ 10
unfolding read_buffer
read_wakes_writer = refl

read_wakes_writer' : (read_buffer wrapped).2 ≡ 7 ∷ []
unfolding read_buffer
read_wakes_writer' = refl

write_fails_when_full : (write_buffer wrapped 5).0 ≡ minus_one
unfolding write_buffer
write_fails_when_full = refl

read_buffer_refines_example :
    let (r, b', _) = read_buffer wrapped in
    let (r32, b32, _) = read_buffer32 wrapped in
    ((r, contents b') ≡ Queue.read (10 ∷ 20 ∷ []) minus_one)
    × IsValid b'
    × ((r32, contents b32) ≡ Queue.read (10 ∷ 20 ∷ []) minus_one)
    × IsValid b32
unfolding next
read_buffer_refines_example = read_buffer_refines wrapped wrapped-IsValid

write_buffer_refines_example :
    let (r, b', _) = write_buffer wrapped 300 in
    let (r32, b32, _) = write_buffer32 wrapped 300 in
    ((r, contents b') ≡ Queue.write 2 (10 ∷ 20 ∷ []) (u8 300) 300 minus_one)
    × IsValid b'
    × ((r32, contents b32) ≡ Queue.write 2 (10 ∷ 20 ∷ []) (u32 300) 300 minus_one)
    × IsValid b32
unfolding next
write_buffer_refines_example = write_buffer_refines wrapped 300 wrapped-IsValid

wrapped-IsSignalled : IsSignalled wrapped
unfolding buffer_full buffer_empty
wrapped-IsSignalled = record { readable = refl; writable = refl }

buffer_ops-IsSignalled_example :
    IsSignalled (read_buffer wrapped).1
    × IsSignalled (write_buffer wrapped 5).1
    × IsSignalled (overwrite_buffer wrapped 5).1
buffer_ops-IsSignalled_example =
    buffer_ops-IsSignalled wrapped 5 wrapped-IsValid (omega arith) wrapped-IsSignalled
