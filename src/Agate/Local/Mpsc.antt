-- ===== src/Agate/Local/Mpsc.antt =====
-- src/agate/mpsc_mailbox.cpp, with `make_local_mpsc_mailbox` of src/agate/agate.cpp and `free_hold`
-- of src/agate/common.hpp. A call is run alone, so its compare-exchange succeeds; Local/Race has
-- the steps of `send`. The second write of `return_message` to `next` repeats the first.
pub mod Rep
use jemsys.Base.{ℕ, ◌+◌, ◌-◌, ltb, if◌then◌else◌, Option, none, some, [], ◌∷◌, update}
use jemsys.Support.Wake.{expired, Outcome, acquired, refused, blocked}
use jemsys.Support.Semaphore.{Timeout, release}
use jemsys.Support.Counter.{Counter, increase, decrease, try_decrease, try_decrease_for}
use jemsys.Agate.Message.{
  success, error_mailbox_is_full, error_mailbox_is_empty, error_message_too_large, ConnectAction,
  SendFlags, Slots, Slot, Message, init_slot, prep_slot, read_msg, set_sent, sent_signal,
  cleanup_message, reset_in_use,
}
use jemsys.Agate.Private.{init_slots}
use jemsys.Agate.Local.{Reply, replied, waits, with_permit, Places, release_binary, connect}

pub record MpscMailbox : Type 0 where
  pub slots : Slots
  pub slot_count : ℕ
  pub slot_size : ℕ
  pub slot_semaphore : ℕ
  pub next_free_slot : ℕ
  pub last_queued_slot : ℕ
  pub last_free_slot : ℕ
  pub previous_received_message : ℕ
  pub queued_message_count : Counter
  pub places : Places

unfoldable pub make_local_mpsc_mailbox : ℕ → ℕ → ℕ → MpscMailbox
unfolding init_slots
make_local_mpsc_mailbox max_places slot_count slot_size = record {
  slots = init_slots;
  slot_count = slot_count;
  slot_size = slot_size;
  slot_semaphore = slot_count - 2;
  next_free_slot = 0;
  last_queued_slot = slot_count - 1;
  last_free_slot = slot_count - 2;
  previous_received_message = slot_count - 1;
  queued_message_count = record { mp_value = 0; sc_value = 0 };
  places = record { producers = max_places; consumers = 1 };
}

unfoldable pub connect_local : MpscMailbox → ConnectAction → Timeout → Reply MpscMailbox Unit
unfolding connect release release_binary
connect_local m action timeout =
    elim (connect (λ v. release v 1) release_binary m.places action timeout) [
      | replied status r places ↦ replied status r (record m { places = places })
      | waits ↦ waits
    ]

-- The mailbox once the first free slot is taken, with `permits` left.
unfoldable pub get_free_slot : MpscMailbox → ℕ → ℕ → MpscMailbox
unfolding init_slot
get_free_slot m size permits = record m {
  slots = (init_slot m.slots m.next_free_slot size).1;
  slot_semaphore = permits;
  next_free_slot = m.slots.next m.next_free_slot;
}

unfoldable pub acquire_slot : MpscMailbox → ℕ → Timeout → Reply MpscMailbox Slot
unfolding with_permit get_free_slot init_slot
acquire_slot m size timeout =
    if ltb m.slot_size size
    then replied error_message_too_large none m
    else with_permit m.slot_semaphore timeout error_mailbox_is_full m (λ permits.
      replied success (some (init_slot m.slots m.next_free_slot size).0)
        (get_free_slot m size permits))

unfoldable pub send : MpscMailbox → Slot → SendFlags → Option ℕ × MpscMailbox
unfolding prep_slot set_sent sent_signal increase
send m slot f =
    let flagged = set_sent (prep_slot m.slots slot) slot.cookie f in
    (
      sent_signal slot.cookie f,
      record m {
        slots = record flagged { next = update flagged.next m.last_queued_slot slot.cookie };
        last_queued_slot = slot.cookie;
        queued_message_count = increase m.queued_message_count 1;
      },
    )

unfoldable pub return_message : MpscMailbox → ℕ → MpscMailbox
unfolding release
return_message m message = record m {
  slots = record slots { next = update slots.next m.last_free_slot message };
  last_free_slot = message;
  slot_semaphore = release m.slot_semaphore 1;
}
  where
    open m use {slots}

unfoldable pub free_hold : MpscMailbox → ℕ → MpscMailbox
unfolding reset_in_use return_message cleanup_message
free_hold m message =
    let (condemned, slots) = reset_in_use m.slots message in
    if condemned
    then return_message (record m { slots = cleanup_message slots message }) message
    else record m { slots = slots }

-- The mailbox once the next message has taken the place of the last one, whose hold is released.
unfoldable pub get_queued_message : MpscMailbox → MpscMailbox
unfolding free_hold
get_queued_message m = record (free_hold m m.previous_received_message) {
  previous_received_message = m.slots.next m.previous_received_message;
}

unfoldable pub received : MpscMailbox → Counter → Reply MpscMailbox Message
unfolding get_queued_message read_msg
received m left =
    let m' = get_queued_message (record m { queued_message_count = left }) in
    replied success (some (read_msg m'.slots m'.previous_received_message)) m'

-- The `switch` of `receive` on its timeout.
unfoldable pub take_token : Counter → Timeout → Outcome Counter
unfolding decrease try_decrease try_decrease_for
take_token c Timeout.wait = decrease c 1 (expired ∷ [])
take_token c Timeout.do_not_wait = try_decrease c 1 []
take_token c Timeout.within = try_decrease_for c 1 (expired ∷ [])

unfoldable pub receive : MpscMailbox → Timeout → Reply MpscMailbox Message
unfolding received take_token
receive m timeout = elim (take_token m.queued_message_count timeout) [
  | acquired left _ ↦ received m left
  | refused left _ ↦ replied error_mailbox_is_empty none (record m { queued_message_count = left })
  | blocked ↦ waits
]
