-- ===== src/Agate/Private/Rep.antt =====
-- What a private mailbox holds: a stack of free slots and a queue of messages sent and not yet
-- received, both threaded through the slots.
use jemsys.Base.{
  ℕ, ◌-◌, ◌≤◌, ◌≡◌, ◌≢◌, ltb, false, none, some, List, [], ◌∷◌, ◌++◌, arith, length, length-append,
  Fresh, Distinct, Disjoint, Stack, Links, member, member-append, Distinct-append, Disjoint-append,
  Stack-update, Links-append, Links-Fresh,
}
use jemsys.Agate.Message.{
  success, error_mailbox_is_full, SendFlags, Slot, uninit_id, set_sent, init_slot,
}
use jemsys.Agate.Private.{PrivateMailbox, acquire_slot, send}

pub record Rep (m : PrivateMailbox) (free pending : List ℕ) : Type 0 where
  pub stack : Stack m.slots.next m.next_free_slot free
  pub available : length free ≡ m.available_slot_count
  pub links : Links m.slots.next m.prev_received_message pending m.prev_queued_message
  pub counted : length pending ≤ m.queued_message_count
  pub free_once : Distinct free
  pub queued_once : Distinct (m.prev_received_message ∷ pending)
  pub apart : Disjoint free (m.prev_received_message ∷ pending)
  pub flagged : (x : ℕ) → x ≢ m.prev_received_message → (m.slots.flags x).in_use ≡ member x pending

-- A slot that is neither free nor in the queue is in the hands of a sender or of the receiver.
abbrev pub Outside : PrivateMailbox → List ℕ → List ℕ → ℕ → Type 0
Outside m free pending x = Fresh x free × (x ≢ m.prev_received_message) × Fresh x pending

acquire_slot-full :
    (m : PrivateMailbox) (pending : List ℕ) (size : ℕ)
    → Rep m [] pending
    → acquire_slot m size ≡ (error_mailbox_is_full, none, m)
unfolding acquire_slot
acquire_slot-full m pending size r = ground (arith, r.available)

-- The mailbox after a successful `acquire_slot`.
abbrev acquired : PrivateMailbox → ℕ → PrivateMailbox
acquired m size = record m {
  slots = (init_slot m.slots m.next_free_slot size).1;
  available_slot_count = m.available_slot_count - 1;
  next_free_slot = m.slots.next m.next_free_slot;
}

acquire_slot_eq :
    (m : PrivateMailbox) (x : ℕ) (free pending : List ℕ) (size : ℕ)
    → Rep m (x ∷ free) pending
    → ltb m.slot_size size ≡ false
    → acquire_slot m size ≡ (success, some (record { cookie = x; id = uninit_id }), acquired m size)
unfolding acquire_slot init_slot
acquire_slot_eq m x free pending size r e = ground (arith, r.available)

acquired-Rep :
    (m : PrivateMailbox) (x : ℕ) (free pending : List ℕ) (size : ℕ)
    → Rep m (x ∷ free) pending
    → Rep (acquired m size) free pending
unfolding init_slot
acquired-Rep m x free pending size r = record {
  stack = rw r.stack.0 r.stack.1;
  available = omega (arith, r.available);
  links = r.links;
  counted = r.counted;
  free_once = r.free_once.1;
  queued_once = r.queued_once;
  apart = r.apart.1;
  flagged = r.flagged;
}

-- On a mailbox with a free slot, `acquire_slot` with a size that fits hands out the slot on top of
-- the stack, which is then in neither list.
pub acquire_slot-Rep :
    (m : PrivateMailbox) (x : ℕ) (free pending : List ℕ) (size : ℕ)
    → Rep m (x ∷ free) pending
    → ltb m.slot_size size ≡ false
    → (m' : PrivateMailbox) × (acquire_slot m size
        ≡ (success, some (record { cookie = x; id = uninit_id }), m'))
      × Rep m' free pending
      × Outside m' free pending x
acquire_slot-Rep m x free pending size r e = (
  acquired m size,
  acquire_slot_eq m x free pending size r e,
  acquired-Rep m x free pending size r,
  (r.free_once.0, r.apart.0.0, r.apart.0.1),
)

-- The message of a slot in a sender's hands, once sent, stands at the end of the queue.
pub send-Rep :
    (m : PrivateMailbox) (slot : Slot) (f : SendFlags) (free pending : List ℕ)
    → Rep m free pending
    → Outside m free pending slot.cookie
    → Rep (send m slot f).1 free (pending ++ slot.cookie ∷ [])
unfolding send set_sent
send-Rep m slot f free pending r (ff, np, fp) = record {
  stack = Stack-update _ _ free _ _ (Links-Fresh _ free _ pending _ r.apart r.links) r.stack;
  available = r.available;
  links =
      Links-append m.slots.next m.prev_received_message pending m.prev_queued_message slot.cookie
        r.queued_once r.links;
  counted = omega (arith, length-append pending (slot.cookie ∷ []), r.counted);
  free_once = r.free_once;
  queued_once =
      Distinct-append (m.prev_received_message ∷ pending) slot.cookie r.queued_once (np, fp);
  apart = Disjoint-append free (m.prev_received_message ∷ pending) slot.cookie r.apart ff;
  flagged = λ x n. ground (arith, member-append x pending slot.cookie, r.flagged x n);
}
