-- ===== src/Agate/Private/Defects.antt =====
-- Where src/agate/private_mailbox.cpp departs from what a mailbox promises.
use jemsys.Base.{ℕ, ◌<◌, ◌≡◌, refl, some, List, [], arith}
use jemsys.Agate.Message.{success, SendFlags, Slot, Message, read_msg, set_sent}
use jemsys.Agate.Private.{PrivateMailbox, send, receive, free_hold, return_message}
use jemsys.Agate.Private.Rep.{Rep, Outside, send-Rep}
use jemsys.Agate.Private.Receive.{receive-Rep}

queued-free_hold :
    (m : PrivateMailbox) (x : ℕ) → (free_hold m x).queued_message_count ≡ m.queued_message_count
unfolding free_hold return_message
queued-free_hold m x = ground arith

-- `receive` tests `queued_message_count`, which no call decreases: once a message has been sent, a
-- `receive` from an empty queue succeeds, with whatever slot the link of the last message names.
pub receive-drained :
    (m : PrivateMailbox) (free : List ℕ)
    → Rep m free []
    → 0 < m.queued_message_count
    → (msg : Message) × (m' : PrivateMailbox) × (receive m ≡ (success, some msg, m'))
      × (msg.cookie ≡ m.slots.next m.prev_received_message)
      × (m'.queued_message_count ≡ m.queued_message_count)
unfolding receive read_msg
receive-drained m free r h = (
  read_msg (free_hold m m.prev_received_message).slots (m.slots.next m.prev_received_message),
  record (free_hold m m.prev_received_message) {
    prev_received_message = m.slots.next m.prev_received_message;
  },
  ground arith,
  refl,
  queued-free_hold m m.prev_received_message,
)

-- `send` does not copy the slot's id to the message (AGT_prep_slot, which the other kinds of
-- mailbox use): the receiver sees the id that the message had before.
pub receive-send_id :
    (m : PrivateMailbox) (slot : Slot) (f : SendFlags) (free : List ℕ)
    → Rep m free []
    → Outside m free [] slot.cookie
    → (msg : Message) × (m' : PrivateMailbox) × (receive (send m slot f).1
        ≡ (success, some msg, m'))
      × (msg.cookie ≡ slot.cookie)
      × (msg.id ≡ m.slots.id slot.cookie)
unfolding send set_sent read_msg
receive-send_id m slot f free r o =
    let (m', e, _, _) =
      receive-Rep (send m slot f).1 slot.cookie free [] (send-Rep m slot f free [] r o) in
    (_, m', e, refl, refl)
