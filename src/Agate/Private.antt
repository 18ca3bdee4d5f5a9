-- ===== src/Agate/Private.antt =====
-- src/agate/private_mailbox.cpp, with `make_private_mailbox` and `init_slots` of
-- src/agate/agate.cpp and the templates of src/agate/common.hpp at this class of mailbox.
pub mod Rep
pub mod Receive
pub mod Fifo
pub mod Defects
use jemsys.Base.{
  ℕ, suc, ◌+◌, ◌-◌, ltb, ◌==◌, if◌then◌else◌, Bool, true, false, Option, none, some, [], update,
}
use jemsys.Agate.Message.{
  Status, success, error_mailbox_is_full, error_mailbox_is_empty, error_message_too_large,
  error_too_many_senders, error_too_many_receivers, error_status_not_set, ConnectAction,
  attach_sender, detach_sender, attach_receiver, detach_receiver, SendFlags, Slots, Slot, Message,
  no_flags, init_slot, read_msg, set_sent, sent_signal, cleanup_message, reset_in_use,
  set_condemned,
}

pub record PrivateMailbox : Type 0 where
  pub slots : Slots
  pub slot_count : ℕ
  pub slot_size : ℕ
  pub available_slot_count : ℕ
  pub queued_message_count : ℕ
  pub next_free_slot : ℕ
  pub prev_received_message : ℕ
  pub prev_queued_message : ℕ
  pub is_sender_claimed : Bool
  pub is_receiver_claimed : Bool

-- `init_slots`: each slot points to the one behind it.
unfoldable pub init_slots : Slots
init_slots = record {
  next = suc;
  payload_size = λ _. 0;
  flags = λ _. no_flags;
  is_ready = λ _. false;
  open_handles = λ _. 1;
  status = λ _. error_status_not_set;
  sender = λ _. none;
  id = λ _. 0;
  payload = λ _. [];
}

unfoldable pub make_private_mailbox : ℕ → ℕ → PrivateMailbox
unfolding init_slots
make_private_mailbox slot_count slot_size = record {
  slots = init_slots;
  slot_count = slot_count;
  slot_size = slot_size;
  available_slot_count = slot_count - 1;
  queued_message_count = 0;
  next_free_slot = 0;
  prev_received_message = slot_count - 1;
  prev_queued_message = slot_count - 1;
  is_sender_claimed = false;
  is_receiver_claimed = false;
}

unfoldable pub connect : PrivateMailbox → ConnectAction → Status × PrivateMailbox
connect m attach_sender = (
  if m.is_sender_claimed then error_too_many_senders else success,
  record m { is_sender_claimed = true },
)
connect m detach_sender = (success, record m { is_sender_claimed = false })
connect m attach_receiver = (
  if m.is_receiver_claimed then error_too_many_receivers else success,
  record m { is_receiver_claimed = true },
)
connect m detach_receiver = (success, record m { is_receiver_claimed = false })

-- The slot is written on success only.
unfoldable pub acquire_slot : PrivateMailbox → ℕ → Status × Option Slot × PrivateMailbox
acquire_slot m size =
    if m.available_slot_count == 0
    then (error_mailbox_is_full, none, m)
    else if ltb m.slot_size size
    then (error_message_too_large, none, m)
    else (let (slot, slots) = init_slot m.slots m.next_free_slot size in
        (
          success,
          some slot,
          record m {
            slots = slots;
            available_slot_count = m.available_slot_count - 1;
            next_free_slot = m.slots.next m.next_free_slot;
          },
        ))

unfoldable pub send : PrivateMailbox → Slot → SendFlags → Option ℕ × PrivateMailbox
send m slot f =
    let flagged = set_sent m.slots slot.cookie f in
    (
      sent_signal slot.cookie f,
      record m {
        slots = record flagged { next = update flagged.next m.prev_queued_message slot.cookie };
        prev_queued_message = slot.cookie;
        queued_message_count = m.queued_message_count + 1;
      },
    )

unfoldable pub return_message : PrivateMailbox → ℕ → PrivateMailbox
return_message m message = record m {
  slots = record slots { next = update next message m.next_free_slot };
  available_slot_count = m.available_slot_count + 1;
  next_free_slot = message;
}
  where
    open m use {slots}
    open slots use {next}

unfoldable pub free_hold : PrivateMailbox → ℕ → PrivateMailbox
free_hold m message =
    let (condemned, slots) = reset_in_use m.slots message in
    if condemned
    then return_message (record m { slots = cleanup_message slots message }) message
    else record m { slots = slots }

unfoldable pub receive : PrivateMailbox → Status × Option Message × PrivateMailbox
receive m =
    if m.queued_message_count == 0
    then (error_mailbox_is_empty, none, m)
    else (let cookie = m.slots.next m.prev_received_message in
        let freed = free_hold m m.prev_received_message in
        (
          success,
          some (read_msg freed.slots cookie),
          record freed { prev_received_message = cookie },
        ))

-- `condemn`, and `destroy_message` with it.
unfoldable pub condemn : PrivateMailbox → ℕ → PrivateMailbox
condemn m message =
    let (unused, slots) = set_condemned m.slots message in
    if unused
    then return_message (record m { slots = cleanup_message slots message }) message
    else record m { slots = slots }
