-- ===== src/Agate/Local/Mpmc.antt =====
-- src/agate/mpmc_mailbox.cpp, with `make_local_mpmc_mailbox` of src/agate/agate.cpp and `free_hold`
-- of src/agate/common.hpp. A call is run alone, so its compare-exchange succeeds; Local/Race has
-- the steps of `send`. The free slots are a stack.
pub mod Rep
use jemsys.Base.{ℕ, ◌+◌, ◌-◌, ltb, if◌then◌else◌, Option, none, some, [], ◌∷◌, update}
use jemsys.Support.Semaphore.{Timeout, release}
use jemsys.Agate.Message.{
  success, error_mailbox_is_full, error_mailbox_is_empty, error_message_too_large, ConnectAction,
  SendFlags, Slots, Slot, Message, init_slot, prep_slot, read_msg, set_sent, sent_signal,
  cleanup_message, reset_in_use,
}
use jemsys.Agate.Private.{init_slots}
use jemsys.Agate.Local.{Reply, replied, waits, with_permit, Places, connect}

pub record MpmcMailbox : Type 0 where
  pub slots : Slots
  pub slot_count : ℕ
  pub slot_size : ℕ
  pub slot_semaphore : ℕ
  pub next_free_slot : ℕ
  pub last_queued_slot : ℕ
  pub previous_received_message : ℕ
  pub queued_messages : ℕ
  pub places : Places

unfoldable pub make_local_mpmc_mailbox : ℕ → ℕ → ℕ → ℕ → MpmcMailbox
unfolding init_slots
make_local_mpmc_mailbox max_senders max_receivers slot_count slot_size = record {
  slots = init_slots;
  slot_count = slot_count;
  slot_size = slot_size;
  slot_semaphore = slot_count - 1;
  next_free_slot = 0;
  last_queued_slot = slot_count - 1;
  previous_received_message = slot_count - 1;
  queued_messages = 0;
  places = record { producers = max_senders; consumers = max_receivers };
}

unfoldable pub connect_local : MpmcMailbox → ConnectAction → Timeout → Reply MpmcMailbox Unit
unfolding connect release
connect_local m action timeout =
    elim (connect (λ v. release v 1) (λ v. release v 1) m.places action timeout) [
      | replied status r places ↦ replied status r (record m { places = places })
      | waits ↦ waits
    ]

-- The mailbox once the first free slot is taken, with `permits` left.
unfoldable pub get_free_slot : MpmcMailbox → ℕ → ℕ → MpmcMailbox
unfolding init_slot
get_free_slot m size permits = record m {
  slots = (init_slot m.slots m.next_free_slot size).1;
  slot_semaphore = permits;
  next_free_slot = m.slots.next m.next_free_slot;
}

unfoldable pub acquire_slot : MpmcMailbox → ℕ → Timeout → Reply MpmcMailbox Slot
unfolding with_permit get_free_slot init_slot
acquire_slot m size timeout =
    if ltb m.slot_size size
    then replied error_message_too_large none m
    else with_permit m.slot_semaphore timeout error_mailbox_is_full m (λ permits.
      replied success (some (init_slot m.slots m.next_free_slot size).0)
        (get_free_slot m size permits))

unfoldable pub send : MpmcMailbox → Slot → SendFlags → Option ℕ × MpmcMailbox
unfolding prep_slot set_sent sent_signal release
send m slot f =
    let flagged = set_sent (prep_slot m.slots slot) slot.cookie f in
    (
      sent_signal slot.cookie f,
      record m {
        slots = record flagged { next = update flagged.next m.last_queued_slot slot.cookie };
        last_queued_slot = slot.cookie;
        queued_messages = release m.queued_messages 1;
      },
    )

unfoldable pub return_message : MpmcMailbox → ℕ → MpmcMailbox
unfolding release
return_message m message = record m {
  slots = record slots { next = update slots.next message m.next_free_slot };
  next_free_slot = message;
  slot_semaphore = release m.slot_semaphore 1;
}
  where
    open m use {slots}

unfoldable pub free_hold : MpmcMailbox → ℕ → MpmcMailbox
unfolding reset_in_use return_message cleanup_message
free_hold m message =
    let (condemned, slots) = reset_in_use m.slots message in
    if condemned
    then return_message (record m { slots = cleanup_message slots message }) message
    else record m { slots = slots }

-- The mailbox once the next message has taken the place of the last one, whose hold is released.
unfoldable pub get_queued_message : MpmcMailbox → MpmcMailbox
unfolding free_hold
get_queued_message m = record (free_hold m m.previous_received_message) {
  previous_received_message = m.slots.next m.previous_received_message;
}

unfoldable pub received : MpmcMailbox → ℕ → Reply MpmcMailbox Message
unfolding get_queued_message read_msg
received m left =
    let m' = get_queued_message (record m { queued_messages = left }) in
    replied success (some (read_msg m'.slots m'.previous_received_message)) m'

unfoldable pub receive : MpmcMailbox → Timeout → Reply MpmcMailbox Message
unfolding with_permit received
receive m timeout = with_permit m.queued_messages timeout error_mailbox_is_empty m (received m)
