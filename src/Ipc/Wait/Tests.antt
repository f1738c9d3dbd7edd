-- ===== src/Ipc/Wait/Tests.antt =====
-- A reader and a writer on an empty buffer of four slots, and the theorem at it.
use mosix_3d.Prelude.{◌≡◌, refl, true, [], ◌∷◌, ◌++◌, none, some, arith, u8}
use mosix_3d.Sync.{Signal}
use mosix_3d.Ipc.Buffer.{FifoBuffer, buffer_full, buffer_empty, read_buffer, write_buffer}
use mosix_3d.Ipc.Buffer.Refine.{IsValid}
use mosix_3d.Ipc.Wait.{sleeps, null_signal, wait_on, wait_read_buffer, wait_write_buffer}
use mosix_3d.Ipc.Wait.Wakeup.{queued, blocked_reader_wakes}

-- Process 5 waits already.
abbrev readers_signal : Signal
readers_signal = record { owned = 0; owner = none; waiters = 5 ∷ []; href = 0 }

abbrev empty_buffer : FifoBuffer
empty_buffer = record {
  readers = some readers_signal;
  writers = none;
  buf = 0 ∷ 0 ∷ 0 ∷ 0 ∷ [];
  cap = 4;
  read = 1;
  write = 1;
  size = 4;
}

empty_buffer-IsValid : IsValid empty_buffer
empty_buffer-IsValid = record {
  holds = omega arith;
  word = omega arith;
  read_in = omega arith;
  write_in = omega arith;
}

-- Without a signal for writers a full buffer is a null pointer's access.
null_test : wait_write_buffer 9 (record empty_buffer { read = 2 }) 7 ≡ null_signal
unfolding wait_write_buffer buffer_full wait_on
null_test = refl

is_empty : buffer_empty empty_buffer ≡ true
unfolding buffer_empty
is_empty = refl

blocked_reader_wakes_example :
    (wait_read_buffer 9 empty_buffer ≡ sleeps (queued 9 empty_buffer readers_signal))
    × ((write_buffer (queued 9 empty_buffer readers_signal) 65).2
        ≡ readers_signal.waiters ++ (9 ∷ []))
    × ((read_buffer (write_buffer (queued 9 empty_buffer readers_signal) 65).1).0 ≡ u8 65)
blocked_reader_wakes_example =
    blocked_reader_wakes 9 empty_buffer readers_signal 65 empty_buffer-IsValid (omega arith) refl
      refl is_empty
