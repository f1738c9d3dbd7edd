-- ===== src/Ipc/MessageList/Overrun.antt =====
-- `create_msglist` sets a capacity of 512 messages and allocates one page, which holds 256.
use mosix_3d.Prelude.{
  ℕ, suc, ◌+◌, ◌-◌, ◌^◌, ◌≤◌, ◌<◌, ◌≡◌, refl, ◌∙◌, List, [], ◌∷◌, Option, none, some, ◌==◌,
  if◌then◌else◌, length, length-set, set, get_or, get_elem?-eq-get_or, u16, arith, false,
  Bool-cases, inl, inr,
}
use mosix_3d.Sync.{clear_signal, set_signal}
use mosix_3d.Ipc.MessageList.{
  Message, MessageList, create_msglist, send_slot, do_send_message, do_recv_message,
}
use mosix_3d.Ipc.MessageList.Refine.{no_message}

-- What senders and the receiver do, in order.
pub data Call : Type 0 where
  sends : Message → Call
  receives : Call

abbrev pub count_sends : List Call → ℕ
count_sends [] = 0
count_sends (sends m ∷ cs) = suc (count_sends cs)
count_sends (receives ∷ cs) = count_sends cs

-- The calls in this order; a receiver that finds no message waits. `none` is a fault.
unfoldable pub run_calls : MessageList → List Call → Option MessageList
run_calls ml [] = some ml
run_calls ml (sends m ∷ cs) = elim (do_send_message ml m) [
  | none ↦ none
  | some (ml', _) ↦ run_calls ml' cs
]
run_calls ml (receives ∷ cs) =
    let skip = run_calls ml cs in
    let next : Option MessageList = elim (do_recv_message ml) [
      | none ↦ none
      | some (_, ml', _) ↦ run_calls ml' cs
    ] in
    if ml.size == 0 then skip else next

-- What a list looks like to which `k` messages were sent.
record IsFilling (ml : MessageList) (k : ℕ) : Type 0 where
  page : length ml.list ≡ 256
  cap : ml.cap ≡ 512
  total : ml.head + ml.size ≡ k

send-IsFilling :
    (ml : MessageList) (m : Message) (k : ℕ)
    → k < 256
    → IsFilling ml k
    → (ml' : MessageList) × (w : List ℕ) × (do_send_message ml m ≡ some (ml', w))
      × IsFilling ml' (suc k)
unfolding do_send_message send_slot
send-IsFilling ml m k h f = (
  record ml {
    list = set ml.list (send_slot ml) m;
    size = u16 (ml.size + 1);
    sender = if u16 (ml.size + 1) == ml.cap then clear_signal ml.sender else ml.sender;
  },
  (if ml.size == 0 then ml.waiter ∷ [] else []),
  (let t = f.total in ground arith),
  record {
    page = omega (arith, f.page, length-set ml.list (send_slot ml) m);
    cap = f.cap;
    total = let t = f.total in omega arith;
  },
)

receive-IsFilling :
    (ml : MessageList) (k : ℕ)
    → k ≤ 256
    → (ml.size == 0) ≡ false
    → IsFilling ml k
    → (m : Message) × (ml' : MessageList) × (w : List ℕ) × (do_recv_message ml ≡ some (m, ml', w))
      × IsFilling ml' k
unfolding do_recv_message set_signal
receive-IsFilling ml k h e f =
    let t = f.total in
    let p = f.page in
    let c = f.cap in
    let l : ml.head < length ml.list = ground arith in
    (
      get_or ml.list ml.head no_message,
      record ml {
        sender = (set_signal ml.sender).0;
        head = if u16 (ml.head + 1) == ml.cap then 0 else u16 (ml.head + 1);
        size = u16 (ml.size + 2 ^ 16 - 1);
      },
      ml.sender.waiters,
      ground (arith, get_elem?-eq-get_or ml.list ml.head no_message),
      record { page = f.page; cap = f.cap; total = ground arith },
    )

run_calls-IsFilling :
    (cs : List Call) (ml : MessageList) (k : ℕ)
    → k + count_sends cs ≤ 256
    → IsFilling ml k
    → (ml' : MessageList) × (run_calls ml cs ≡ some ml') × IsFilling ml' (k + count_sends cs)
unfolding run_calls
run_calls-IsFilling [] ml k h f =
    (ml, refl, record { page = f.page; cap = f.cap; total = f.total ∙ omega arith })
run_calls-IsFilling (sends m ∷ cs) ml k h f =
    let s = send-IsFilling ml m k (omega arith) f in
    let r = run_calls-IsFilling cs s.0 (suc k) (omega arith) s.3 in
    (
      r.0,
      rw (s.2, run_calls) r.1,
      record { page = r.2.page; cap = r.2.cap; total = r.2.total ∙ omega arith },
    )
run_calls-IsFilling (receives ∷ cs) ml k h f = elim (Bool-cases (ml.size == 0)) [
  | inl e ↦ let r = run_calls-IsFilling cs ml k h f in (r.0, rw (e, run_calls) r.1, r.2)
  | inr e ↦
      let s = receive-IsFilling ml k (omega arith) e f in
      let r = run_calls-IsFilling cs s.1 k h s.4 in (r.0, rw (e, s.3, run_calls) r.1, r.2)
]

-- A new list takes 256 messages, whatever is received between them. The next message is stored behind the end of
-- its page, while the list reports room for it.
pub create_msglist_overruns :
    (self : ℕ) (junk m : Message) (cs : List Call)
    → count_sends cs ≡ 256
    → (ml : MessageList) × (run_calls (create_msglist self junk) cs ≡ some ml)
      × (ml.size < ml.cap)
      × (do_send_message ml m ≡ none)
unfolding create_msglist do_send_message send_slot
create_msglist_overruns self junk m cs e =
    let r =
      run_calls-IsFilling cs (create_msglist self junk) 0 (omega arith)
        (record { page = refl; cap = refl; total = refl }) in
    let s = r.2 in
    let t = s.total in let p = s.page in let c = s.cap in (r.0, r.1, omega arith, ground arith)
