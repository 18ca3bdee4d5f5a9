-- ===== src/Agate/Local/Spsc.antt =====
-- src/agate/spsc_mailbox.cpp, with `make_local_spsc_mailbox` of src/agate/agate.cpp and `free_hold`
-- of src/agate/common.hpp. A call is run alone.
use jemsys.Base.{ℕ, ◌-◌, ltb, if◌then◌else◌, Option, none, some, update}
use jemsys.Support.Semaphore.{Timeout, release}
use jemsys.Agate.Message.{
  success, error_mailbox_is_full, error_mailbox_is_empty, error_message_too_large, ConnectAction,
  SendFlags, Slots, Slot, Message, init_slot, prep_slot, read_msg, set_sent, sent_signal,
  cleanup_message, reset_in_use,
}
use jemsys.Agate.Private.{init_slots}
use jemsys.Agate.Local.{Reply, replied, waits, with_permit, Places, release_binary, connect}

pub record SpscMailbox : Type 0 where
  pub slots : Slots
  pub slot_count : ℕ
  pub slot_size : ℕ
  pub slot_semaphore : ℕ
  pub producer_next_free_slot : ℕ
  pub producer_previous_queued_msg : ℕ
  pub last_free_slot : ℕ
  pub consumer_previous_msg : ℕ
  pub queued_messages : ℕ
  pub places : Places

unfoldable pub make_local_spsc_mailbox : ℕ → ℕ → SpscMailbox
unfolding init_slots
make_local_spsc_mailbox slot_count slot_size = record {
  slots = init_slots;
  slot_count = slot_count;
  slot_size = slot_size;
  slot_semaphore = slot_count - 1;
  producer_next_free_slot = 0;
  producer_previous_queued_msg = slot_count - 1;
  last_free_slot = slot_count - 2;
  consumer_previous_msg = slot_count - 1;
  queued_messages = 0;
  places = record { producers = 1; consumers = 1 };
}

unfoldable pub connect_local : SpscMailbox → ConnectAction → Timeout → Reply SpscMailbox Unit
unfolding connect release release_binary
connect_local m action timeout =
    elim (connect release_binary release_binary m.places action timeout) [
      | replied status r places ↦ replied status r (record m { places = places })
      | waits ↦ waits
    ]

-- The mailbox once the first free slot is taken, with `permits` left.
unfoldable pub get_free_slot : SpscMailbox → ℕ → ℕ → SpscMailbox
unfolding init_slot
get_free_slot m size permits = record m {
  slots = (init_slot m.slots m.producer_next_free_slot size).1;
  slot_semaphore = permits;
  producer_next_free_slot = m.slots.next m.producer_next_free_slot;
}

unfoldable pub acquire_slot : SpscMailbox → ℕ → Timeout → Reply SpscMailbox Slot
unfolding with_permit get_free_slot init_slot
acquire_slot m size timeout =
    if ltb m.slot_size size
    then replied error_message_too_large none m
    else with_permit m.slot_semaphore timeout error_mailbox_is_full m (λ permits.
      replied success (some (init_slot m.slots m.producer_next_free_slot size).0)
        (get_free_slot m size permits))

unfoldable pub send : SpscMailbox → Slot → SendFlags → Option ℕ × SpscMailbox
unfolding prep_slot set_sent sent_signal release
send m slot f =
    let flagged = set_sent (prep_slot m.slots slot) slot.cookie f in
    (
      sent_signal slot.cookie f,
      record m {
        slots = record flagged {
          next = update flagged.next m.producer_previous_queued_msg slot.cookie;
        };
        producer_previous_queued_msg = slot.cookie;
        queued_messages = release m.queued_messages 1;
      },
    )

unfoldable pub return_message : SpscMailbox → ℕ → SpscMailbox
unfolding release
return_message m message = record m {
  slots = record slots { next = update slots.next m.last_free_slot message };
  last_free_slot = message;
  slot_semaphore = release m.slot_semaphore 1;
}
  where
    open m use {slots}

unfoldable pub free_hold : SpscMailbox → ℕ → SpscMailbox
unfolding reset_in_use return_message cleanup_message
free_hold m message =
    let (condemned, slots) = reset_in_use m.slots message in
    if condemned
    then return_message (record m { slots = cleanup_message slots message }) message
    else record m { slots = slots }

-- The mailbox once the next message has taken the place of the last one, whose hold is released.
unfoldable pub get_queued_message : SpscMailbox → SpscMailbox
unfolding free_hold
get_queued_message m = record (free_hold m m.consumer_previous_msg) {
  consumer_previous_msg = m.slots.next m.consumer_previous_msg;
}

unfoldable pub received : SpscMailbox → ℕ → Reply SpscMailbox Message
unfolding get_queued_message read_msg
received m left =
    let m' = get_queued_message (record m { queued_messages = left }) in
    replied success (some (read_msg m'.slots m'.consumer_previous_msg)) m'

unfoldable pub receive : SpscMailbox → Timeout → Reply SpscMailbox Message
unfolding with_permit received
receive m timeout = with_permit m.queued_messages timeout error_mailbox_is_empty m (received m)
