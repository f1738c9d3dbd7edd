-- ===== src/Ipc/MessageList/Tests.antt =====
-- Runs of the message list, and the theorems at concrete lists.
use mosix_3d.Prelude.{ℕ, ◌≡◌, refl, List, [], ◌∷◌, ◌++◌, none, some, arith, replicate, ◌<◌}
use mosix_3d.Sync.{Signal}
use mosix_3d.Ipc.MessageList.{
  Message, MessageList, create_msglist, do_send_message, do_recv_message,
}
use mosix_3d.Ipc.MessageList.Refine.{
  IsValid, contents, create_msglist-IsValid, do_send_message_refines, do_recv_message_refines,
}
use mosix_3d.Ipc.MessageList.Overrun.{Call, sends, receives, run_calls, create_msglist_overruns}

abbrev msg : ℕ → Message
msg n = record { type = 1; id = n; arg32 = 0; arg64 = 0 }

abbrev signal : ℕ → List ℕ → Signal
signal s ws = record { owned = s; owner = none; waiters = ws; href = 0 }

-- A list as `create_msglist` makes it, of which one message was received and two are held; process 8 waits.
abbrev partial : MessageList
partial = record (create_msglist 4 (msg 0)) {
  sender = signal 1 (8 ∷ []);
  list = msg 20 ∷ msg 10 ∷ msg 11 ∷ replicate 253 (msg 0);
  head = 1;
  size = 2;
}

partial-IsValid : IsValid partial
unfolding create_msglist
partial-IsValid = record {
  within = omega arith;
  word = omega arith;
  head_in = omega arith;
  size_in = omega arith;
  signalled = refl;
}

-- The list is new and holds nothing.
first_send :
    (ml' : MessageList) × (do_send_message (create_msglist 4 (msg 0)) (msg 30) ≡ some (ml', 4 ∷ []))
    × (contents ml' ≡ msg 30 ∷ [])
    × IsValid ml'
unfolding create_msglist
first_send =
    do_send_message_refines (create_msglist 4 (msg 0)) (msg 30) (create_msglist-IsValid 4 (msg 0))
      (omega arith) (omega arith)

do_send_message_refines_example :
    (ml' : MessageList) × (do_send_message partial (msg 30) ≡ some (ml', []))
    × (contents ml' ≡ contents partial ++ (msg 30 ∷ []))
    × IsValid ml'
unfolding create_msglist
do_send_message_refines_example =
    do_send_message_refines partial (msg 30) partial-IsValid (omega arith) (omega arith)

do_recv_message_refines_example :
    (m : Message) × (ml' : MessageList) × (do_recv_message partial ≡ some (m, ml', 8 ∷ []))
    × (contents partial ≡ m ∷ contents ml')
    × IsValid ml'
unfolding create_msglist
do_recv_message_refines_example =
    do_recv_message_refines partial partial-IsValid (omega arith) (omega arith)

-- Two messages are sent and one is received, and then 254 more are sent.
abbrev calls : List Call
calls = sends (msg 1) ∷ sends (msg 2) ∷ receives ∷ replicate 254 (sends (msg 3))

create_msglist_overruns_example :
    (ml : MessageList) × (run_calls (create_msglist 4 (msg 0)) calls ≡ some ml)
    × (ml.size < ml.cap)
    × (do_send_message ml (msg 2) ≡ none)
create_msglist_overruns_example = create_msglist_overruns 4 (msg 0) (msg 2) calls (omega arith)
