-- ===== src/Ipc/MessageList/Refine.antt =====
-- A message list is a queue as long as its messages end inside the memory that it owns. `create_msglist` makes
-- such a list, whose memory is shorter than its capacity.
use mosix_3d.Prelude.{
  ℕ, suc, ◌+◌, ◌-◌, ◌^◌, ◌≤◌, ◌<◌, ◌≡◌, ◌∙◌, sym, List, [], ◌∷◌, ◌++◌, some, ◌==◌, if◌then◌else◌,
  get_or, set, length, length-set, get_or-set_self, get_or-set_ne, ap, refl, zero, ◌≢◌,
  get_elem?-eq-get_or, u16, arith,
}
use mosix_3d.Ipc.Span
use mosix_3d.Sync.{set_signal, clear_signal}
use mosix_3d.Ipc.MessageList.{
  Message, MessageList, create_msglist, send_slot, do_send_message, do_recv_message,
}

pub record IsValid (ml : MessageList) : Type 0 where
  pub within : ml.head + ml.size ≤ length ml.list
  pub word : ml.cap < 2 ^ 15
  pub head_in : ml.head < ml.cap
  pub size_in : ml.size ≤ ml.cap
  pub signalled : ml.sender.owned ≡ (if ml.size == ml.cap then 0 else 1)

abbrev pub no_message : Message
no_message = record { type = 0; id = 0; arg32 = 0; arg64 = 0 }

-- The move of `head`.
abbrev pub advance : ℕ → ℕ → ℕ
advance cap i = if u16 (i + 1) == cap then 0 else u16 (i + 1)

abbrev pub contents : MessageList → List Message
contents ml = Span.span no_message (advance ml.cap) ml.list ml.head ml.size

send_slot_lem :
    (ml : MessageList) → IsValid ml → ml.head + ml.size < ml.cap → send_slot ml ≡ ml.head + ml.size
unfolding send_slot
send_slot_lem ml v h = ground arith

-- A store behind a run of slots that ends before the capacity.
contents-set :
    (limit : ℕ) (list : List Message) (i k : ℕ) (msg : Message)
    → limit < 2 ^ 15
    → i + k < limit
    → i + k < length list
    → Span.span no_message (advance limit) (set list (i + k) msg) i (suc k)
      ≡ Span.span no_message (advance limit) list i k ++ (msg ∷ [])
contents-set limit list i zero msg w h l =
    let at : i + 0 ≡ i = omega arith in
    ap (λ x. x ∷ [])
      (ap (λ n. get_or (set list n msg) i no_message) at
        ∙ get_or-set_self list i msg no_message (omega arith))
contents-set limit list i (suc k) msg w h l =
    let apart : i + suc k ≢ i = omega arith in
    let up : advance limit i ≡ i + 1 = ground arith in
    let same : i + suc k ≡ i + 1 + k = omega arith in
    let ih = contents-set limit list (i + 1) k msg w (omega arith) (omega arith) in
    let run = Span.span no_message (advance limit) in
    rw (get_or-set_ne list {i = i + suc k} {j = i} msg no_message apart) (
      ap (λ ys. get_or list i no_message ∷ ys)
        (ap (λ n. run (set list n msg) (advance limit i) (suc k)) same
          ∙ ap (λ j. run (set list (i + 1 + k) msg) j (suc k)) up
          ∙ ih
          ∙ ap (λ j. run list j k ++ (msg ∷ [])) (sym up)))

-- The list that `create_msglist` makes: 256 messages in a page, and a capacity of 512.
pub create_msglist-IsValid : (self : ℕ) (junk : Message) → IsValid (create_msglist self junk)
unfolding create_msglist
create_msglist-IsValid self junk = record {
  within = omega arith;
  word = omega arith;
  head_in = omega arith;
  size_in = omega arith;
  signalled = refl;
}

-- While the messages end before the end of the list's memory and before its capacity, `do_send_message` adds the
-- message at the end, readies the receiver exactly where the list was empty, and keeps the list well formed.
pub do_send_message_refines :
    (ml : MessageList) (msg : Message)
    → IsValid ml
    → ml.head + ml.size < length ml.list
    → ml.head + ml.size < ml.cap
    → (ml' : MessageList) × (do_send_message ml msg
        ≡ some (ml', if ml.size == 0 then ml.waiter ∷ [] else []))
      × (contents ml' ≡ contents ml ++ (msg ∷ []))
      × IsValid ml'
unfolding do_send_message clear_signal
do_send_message_refines ml msg v l h =
    let slot = send_slot_lem ml v h in
    (
      record ml {
        list = set ml.list (ml.head + ml.size) msg;
        size = suc ml.size;
        sender = if u16 (ml.size + 1) == ml.cap then clear_signal ml.sender else ml.sender;
      },
      ground arith,
      contents-set ml.cap ml.list ml.head ml.size msg v.word h l,
      record {
        within = omega (arith, length-set ml.list (ml.head + ml.size) msg);
        word = v.word;
        head_in = v.head_in;
        size_in = omega arith;
        signalled = ground arith;
      },
    )

-- Where a message is held and the messages do not reach over the capacity, `do_recv_message` returns the oldest and removes it, readies every sender
-- that waits, and keeps the list well formed.
pub do_recv_message_refines :
    (ml : MessageList)
    → IsValid ml
    → ml.head + ml.size ≤ ml.cap
    → 0 < ml.size
    → (msg : Message) × (ml' : MessageList) × (do_recv_message ml
        ≡ some (msg, ml', ml.sender.waiters))
      × (contents ml ≡ msg ∷ contents ml')
      × IsValid ml'
unfolding do_recv_message set_signal
do_recv_message_refines ml v c h =
    let ml' = record ml {
      head = advance ml.cap ml.head;
      size = u16 (ml.size + 2 ^ 16 - 1);
      sender = (set_signal ml.sender).0;
    } in
    (
      get_or ml.list ml.head no_message,
      ml',
      let f : ml.head < length ml.list = (let w = v.within in omega arith) in
          ground (arith, get_elem?-eq-get_or ml.list ml.head no_message),
      Span.span_of_ne_zero no_message (advance ml.cap) ml.list ml.head ml.size _ (omega arith),
      record {
        within = ground arith;
        word = v.word;
        head_in = ground arith;
        size_in = omega arith;
        signalled = ground arith;
      },
    )
