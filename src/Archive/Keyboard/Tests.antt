-- ===== src/Archive/Keyboard/Tests.antt =====
-- Runs of the decoder, and the theorems at concrete keyboards.
use mosix_3d.Prelude.{ℕ, ◌≡◌, refl, true, false, [], ◌∷◌, none, some, arith}
use mosix_3d.Ipc.Buffer.{FifoBuffer, read_buffer, write_buffer32, put_object}
use mosix_3d.Ipc.Wait.{wait_write_buffer32}
use mosix_3d.Ipc.Buffer.Refine.{IsValid}
use mosix_3d.Archive.Keyboard.{
  Keyboard, key_map, key_map_s, basic_make, modify, dkbd_decode, commit_char, suspends, drain,
  getkbdchar, read_kbdp, extended, basic_break, swap_case,
}
use mosix_3d.Archive.Keyboard.Modifiers.{IsConsistent, dkbd_decode-IsConsistent}
use mosix_3d.Archive.Keyboard.Drained.{Ended, drain_ends}

abbrev nothing : ℕ → ℕ
nothing a = 0

-- Left shift goes down, `a` goes down, left shift goes up, `a` goes down.
abbrev typed : FifoBuffer
typed = record {
  readers = none;
  writers = none;
  buf = 0x2a ∷ 0x1e ∷ 0xaa ∷ 0x1e ∷ 0 ∷ [];
  cap = 5;
  read = 0;
  write = 4;
  size = 5;
}

abbrev keyboard : Keyboard
keyboard = record { keystat = 0; nmlk = true; capslk = false; scrlk = false; kbdp = typed }

abbrev keyboard_valid : IsValid typed
keyboard_valid = record {
  holds = omega arith;
  word = omega arith;
  read_in = omega arith;
  write_in = omega arith;
}

-- Room for one word.
abbrev narrow : FifoBuffer
narrow = record {
  readers = none;
  writers = some (record { owned = 1; owner = none; waiters = []; href = 0 });
  buf = 0 ∷ 0 ∷ [];
  cap = 2;
  read = 0;
  write = 0;
  size = 2;
}

types_letters :
    (k : Keyboard) × (a : FifoBuffer) × (drain 7 nothing 4 keyboard narrow ≡ suspends k a 0x61)
unfolding drain commit_char wait_write_buffer32 write_buffer32 put_object dkbd_decode getkbdchar
    read_kbdp read_buffer basic_make extended basic_break modify swap_case key_map key_map_s
types_letters = (_, _, refl)

keyboard-IsConsistent : IsConsistent keyboard
keyboard-IsConsistent = record { range = omega arith; summary = refl; caps = refl }

dkbd_decode-IsConsistent_example : IsConsistent (dkbd_decode nothing keyboard).0
dkbd_decode-IsConsistent_example = dkbd_decode-IsConsistent nothing keyboard keyboard-IsConsistent

drain_ends_example : Ended (drain 7 nothing 4 keyboard narrow)
drain_ends_example = drain_ends 7 nothing 4 keyboard narrow keyboard_valid (omega arith)
