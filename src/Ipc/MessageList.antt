-- ===== src/Ipc/MessageList.antt =====
-- `MessageList` of kernel/vfs/msglist.c and kernel/include/msglist.h: a circular array of messages
-- for one receiver, with a signal for senders.
--
-- `list` holds the messages of the memory that the list owns. A store or a load outside it is a fault,
-- `none`. A process is its pid; a call also returns the processes that it readied. The functions that
-- lock hold the spinlock over the whole call.
pub mod Refine
pub mod Overrun
mod Tests
use mosix_3d.Prelude.{
  ℕ, suc, ◌+◌, ◌-◌, ◌*◌, ◌/◌, ◌^◌, Bool, true, false, List, [], ◌∷◌, ◌++◌, Option, none, some, ltb,
  leb, ◌==◌, if◌then◌else◌, get_elem?, set, length, replicate, u16,
}
use mosix_3d.Sync.{Signal, init_mutex, set_signal, clear_signal, wait_signal}

pub record Message : Type 0 where
  pub type : ℕ
  pub id : ℕ
  pub arg32 : ℕ
  pub arg64 : ℕ

pub record MessageList : Type 0 where
  pub sender : Signal
  pub waiter : ℕ
  pub list : List Message
  pub cap : ℕ
  pub head : ℕ
  pub size : ℕ

abbrev pub message_size : ℕ
message_size = 16

abbrev pub page_size : ℕ
page_size = 4096

-- One page for the messages, and a capacity of 512. `junk` is what the new page holds.
unfoldable pub create_msglist : ℕ → Message → MessageList
unfolding init_mutex
create_msglist self junk = record {
  sender = init_mutex;
  waiter = self;
  list = replicate (page_size / message_size) junk;
  cap = 512;
  head = 0;
  size = 0;
}

unfoldable pub send_slot : MessageList → ℕ
send_slot ml =
    let pos = u16 (ml.head + ml.size) in if leb ml.cap pos then u16 (pos + 2 ^ 16 - ml.cap) else pos

unfoldable pub do_send_message : MessageList → Message → Option (MessageList × List ℕ)
unfolding send_slot clear_signal
do_send_message ml msg =
    let woken = if ml.size == 0 then ml.waiter ∷ [] else [] in
    let size = u16 (ml.size + 1) in
    let sender = if size == ml.cap then clear_signal ml.sender else ml.sender in
    if ltb (send_slot ml) (length ml.list)
    then some
        (record ml { list = set ml.list (send_slot ml) msg; size = size; sender = sender }, woken)
    else none

unfoldable pub do_recv_message : MessageList → Option (Message × MessageList × List ℕ)
unfolding set_signal
do_recv_message ml =
    let (sender, woken) = set_signal ml.sender in
    let up = u16 (ml.head + 1) in
    let head = if up == ml.cap then 0 else up in
    let ml' = record ml { sender = sender; head = head; size = u16 (ml.size + 2 ^ 16 - 1) } in
    elim (get_elem? ml.list ml.head) [ none ↦ none | some msg ↦ some (msg, ml', woken) ]

-- A call that may suspend the caller: it faults, waits, or is done.
pub data Progress (A : Type 0) : Type 0 where
  fault : Progress A
  waits : MessageList → Progress A
  done : A → Progress A

abbrev pub finish : {A : Type 0} → Option A → Progress A
finish none = fault
finish (some a) = done a

-- `send_message` from its start to its end, or to its suspension in `wait_signal`.
unfoldable pub send_message : ℕ → MessageList → Message → Progress (MessageList × List ℕ)
unfolding wait_signal
send_message self ml msg =
    let (passed, sender) = wait_signal self ml.sender in
    if ml.size == ml.cap
    then (if passed then finish (do_send_message ml msg) else waits (record ml { sender = sender }))
    else finish (do_send_message ml msg)

-- `recv_message`: it suspends the receiver while there is no message.
unfoldable pub recv_message : MessageList → Progress (Message × MessageList × List ℕ)
recv_message ml = if ml.size == 0 then waits ml else finish (do_recv_message ml)
