-- ===== src/Ipc/Wait/Wakeup.antt =====
-- Readers on an empty buffer, and the writer that wakes them.
use mosix_3d.Prelude.{
  ℕ, ◌-◌, ◌≤◌, ◌≡◌, ◌≢◌, refl, ap, ◌∙◌, true, false, [], ◌∷◌, ◌++◌, some, arith, ne→==, u8,
}
use mosix_3d.Sync.{Signal, set_signal, wait_signal, release_mutex_wakeall}
use mosix_3d.Ipc.Buffer.{
  FifoBuffer, buffer_full, buffer_empty, set_if, put_object, read_buffer, write_buffer, minus_one,
  Outcome,
}
use mosix_3d.Ipc.Buffer.Queue
use mosix_3d.Ipc.Buffer.Refine.{IsValid, contents-empty, read_buffer_refines, write_buffer_refines}
use mosix_3d.Ipc.Wait.{sleeps, wait_on, wait_read_buffer}

-- The reader queued on the signal.
abbrev pub queued : ℕ → FifoBuffer → Signal → FifoBuffer
queued self b s = record b { readers = some (record s { waiters = s.waiters ++ (self ∷ []) }) }

write_empty :
    (room x result failed : ℕ) → 0 ≢ room → (Queue.write room [] x result failed).1 ≡ x ∷ []
unfolding Queue.write
write_empty room x result failed ne = rw (ne→== 0 room ne) refl

not_full : (b : FifoBuffer) → 2 ≤ b.cap → buffer_empty b ≡ true → buffer_full b ≡ false
unfolding buffer_full buffer_empty
not_full b two e = ground arith

waits_on :
    (self : ℕ) (s : Signal) (put : Signal → FifoBuffer) (call : FifoBuffer → Outcome)
    → s.owned ≡ 0
    → wait_on self (some s) put call
      ≡ sleeps (put (record s { waiters = s.waiters ++ (self ∷ []) }))
unfolding wait_on wait_signal
waits_on self s put call o = rw o refl

-- A write into an empty buffer wakes the readers.
write_wakes :
    (b : FifoBuffer) (s : Signal) (d : ℕ)
    → 2 ≤ b.cap
    → b.readers ≡ some s
    → buffer_empty b ≡ true
    → (write_buffer b d).2 ≡ s.waiters
unfolding write_buffer put_object set_if set_signal release_mutex_wakeall
write_wakes b s d two e m = rw (not_full b two m, m, e) refl

-- A write into an empty buffer, and the read behind it.
write_then_read :
    (b : FifoBuffer) (d : ℕ)
    → IsValid b
    → 2 ≤ b.cap
    → buffer_empty b ≡ true
    → (read_buffer (write_buffer b d).1).0 ≡ u8 d
unfolding Queue.read
write_then_read b d v two e =
    let (w, v', _, _) = write_buffer_refines b d v in
    let (r, _, _, _) = read_buffer_refines (write_buffer b d).1 v' in
    ap (λ p. p.0) r
    ∙ ap (λ q. (Queue.read q minus_one).0)
        (ap (λ p. p.1) w
          ∙ ap (λ q. (Queue.write (b.cap - 1) q (u8 d) d minus_one).1) (contents-empty b v e)
          ∙ write_empty (b.cap - 1) (u8 d) d minus_one (omega arith))

-- A reader that finds the buffer empty is queued behind the readers that wait already; the next write
-- readies all of them in that order, and the first one that reads gets the byte that was written.
pub blocked_reader_wakes :
    (self : ℕ) (b : FifoBuffer) (s : Signal) (d : ℕ)
    → IsValid b
    → 2 ≤ b.cap
    → b.readers ≡ some s
    → s.owned ≡ 0
    → buffer_empty b ≡ true
    → (wait_read_buffer self b ≡ sleeps (queued self b s))
      × ((write_buffer (queued self b s) d).2 ≡ s.waiters ++ (self ∷ []))
      × ((read_buffer (write_buffer (queued self b s) d).1).0 ≡ u8 d)
unfolding wait_read_buffer buffer_empty
blocked_reader_wakes self b s d v two e o m =
    let q = queued self b s in
    let vq : IsValid q = record {
      holds = v.holds;
      word = v.word;
      read_in = v.read_in;
      write_in = v.write_in;
    } in
    (
      rw m (
          ap (λ z. wait_on self z (λ s'. record b { readers = some s' }) read_buffer) e
          ∙ waits_on self s (λ s'. record b { readers = some s' }) read_buffer o),
      write_wakes q (record s { waiters = s.waiters ++ (self ∷ []) }) d two refl m,
      write_then_read q d vq two m,
    )
