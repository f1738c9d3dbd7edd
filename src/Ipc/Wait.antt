-- ===== src/Ipc/Wait.antt =====
-- The calls of kernel/vfs/msglist.c that wait on a FIFO buffer: `wait_read_buffer`, `wait_write_buffer` and
-- their forms for words.
--
-- A call runs to its end, or to its suspension in `wait_signal`; a process that is woken goes on with the
-- call that locks. A buffer made without the signal has a null pointer there.
pub mod Wakeup
mod Tests
use mosix_3d.Prelude.{ℕ, Bool, true, false, Option, none, some, if◌then◌else◌}
use mosix_3d.Sync.{Signal, wait_signal}
use mosix_3d.Ipc.Buffer.{
  FifoBuffer, Outcome, buffer_full, buffer_empty, read_buffer, write_buffer, read_buffer32,
  write_buffer32,
}

pub data Waited : Type 0 where
  null_signal : Waited
  sleeps : FifoBuffer → Waited
  ends : Outcome → Waited

-- The signal behind the wait, put back by `put`, and the call that goes on.
unfoldable pub wait_on : ℕ → Option Signal → (Signal → FifoBuffer) → (FifoBuffer → Outcome) → Waited
unfolding wait_signal
wait_on self none put call = null_signal
wait_on self (some s) put call =
    let (passed, s') = wait_signal self s in
    if passed then ends (call (put s')) else sleeps (put s')

unfoldable pub wait_read_buffer : ℕ → FifoBuffer → Waited
unfolding wait_on buffer_empty
wait_read_buffer self b =
    if buffer_empty b
    then wait_on self b.readers (λ s. record b { readers = some s }) read_buffer
    else ends (read_buffer b)

unfoldable pub wait_read_buffer32 : ℕ → FifoBuffer → Waited
unfolding wait_on buffer_empty
wait_read_buffer32 self b =
    if buffer_empty b
    then wait_on self b.readers (λ s. record b { readers = some s }) read_buffer32
    else ends (read_buffer32 b)

unfoldable pub wait_write_buffer : ℕ → FifoBuffer → ℕ → Waited
unfolding wait_on buffer_full
wait_write_buffer self b d =
    if buffer_full b
    then wait_on self b.writers (λ s. record b { writers = some s }) (λ b'. write_buffer b' d)
    else ends (write_buffer b d)

unfoldable pub wait_write_buffer32 : ℕ → FifoBuffer → ℕ → Waited
unfolding wait_on buffer_full
wait_write_buffer32 self b d =
    if buffer_full b
    then wait_on self b.writers (λ s. record b { writers = some s }) (λ b'. write_buffer32 b' d)
    else ends (write_buffer32 b d)
