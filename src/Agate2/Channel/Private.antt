-- ===== src/Agate2/Channel/Private.antt =====
-- src/agate2/channels.cpp, PrivateChannel and the life of its messages. A message is named by its
-- address; in `return_handle` 0 is nullptr. Asserts are off.
pub mod Lifecycle
use jemsys.Base.{
  ℕ, zero, suc, ◌+◌, ◌-◌, ◌*◌, ◌%◌, ◌^◌, Bool, true, false, not, ltb, ◌==◌, ◌||◌, if◌then◌else◌,
  Option, none, some, update,
}
use jemsys.Agate2.Async.{Memory, data_drop}

pub record MessageFlags : Type 0 where
  pub is_shared : Bool
  pub is_out_of_line : Bool
  pub is_multi_frame : Bool
  pub should_do_fast_cleanup : Bool
  pub external_memory : Bool
  pub external_ownership : Bool

abbrev pub no_flags : MessageFlags
no_flags = record {
  is_shared = false;
  is_out_of_line = false;
  is_multi_frame = false;
  should_do_fast_cleanup = false;
  external_memory = false;
  external_ownership = false;
}

pub record MessageState : Type 0 where
  pub is_queued : Bool
  pub is_on_hold : Bool
  pub is_condemned : Bool

abbrev pub default_state : MessageState
default_state = record { is_queued = false; is_on_hold = false; is_condemned = false }

pub record Messages : Type 0 where
  pub next : ℕ → ℕ
  pub return_handle : ℕ → ℕ
  pub async_data : ℕ → Option ℕ
  pub async_data_key : ℕ → ℕ
  pub flags : ℕ → MessageFlags
  pub state : ℕ → MessageState
  pub ref_count : ℕ → ℕ
  pub id : ℕ → ℕ
  pub payload_size : ℕ → ℕ
  pub inline_buffer : ℕ → ℕ → ℕ

pub record PrivateChannel : Type 0 where
  pub messages : Messages
  pub asyncs : Memory
  pub inline_buffer_size : ℕ
  pub supports_out_of_line : Bool
  pub available_slot_count : ℕ
  pub queued_message_count : ℕ
  pub next_free_slot : ℕ
  pub prev_received_message : ℕ
  pub prev_queued_message : ℕ

pub data Status : Type 0 where
  success mailbox_is_full mailbox_is_empty message_too_large not_yet_implemented : Status

-- Where a payload stands: in the message, at an address, or in frames, for which getPayload returns
-- nullptr.
pub data Payload : Type 0 where
  inline : Payload
  address : ℕ → Payload
  frames : Payload

-- A number in `n` bytes, the lowest first.
unfoldable pub read_word : ℕ → (ℕ → ℕ) → ℕ
read_word zero f = 0
read_word (suc n) f = f 0 + 256 * read_word n (λ i. f (suc i))

unfoldable pub get_payload : Messages → ℕ → Payload
unfolding read_word
get_payload m x =
    if not (m.flags x).is_out_of_line
    then inline
    else if not (m.flags x).is_multi_frame
    then address (read_word 8 (m.inline_buffer x))
    else frames

-- Payloads outside the message are not in the model.
unfoldable pub zero_message_data : ℕ → Messages → Messages
unfolding get_payload
zero_message_data x m = elim (get_payload m x) [
  | inline ↦ record m {
    inline_buffer =
        update m.inline_buffer x (λ i. if ltb i (m.payload_size x) then 0 else m.inline_buffer x i);
  }
  | address _ ↦ m
  | frames ↦ m
]

unfoldable pub do_slow_cleanup : ℕ → Messages → Messages
do_slow_cleanup x m =
    let m' = zero_message_data x m in
    record m' {
      return_handle = update m'.return_handle x 0;
      id = update m'.id x 0;
      payload_size = update m'.payload_size x 0;
    }

-- The start of cleanupMessage.
unfoldable pub reset_message : ℕ → Messages → Messages
reset_message x m = record m {
  state = update m.state x default_state;
  ref_count = update m.ref_count x 1;
  flags = update m.flags x no_flags;
}

unfoldable pub drop_async : Option ℕ → ℕ → Memory → Memory
drop_async none key asyncs = asyncs
drop_async (some a) key asyncs = data_drop asyncs a key

-- The end of cleanupMessage.
unfoldable pub finish_cleanup : ℕ → PrivateChannel → PrivateChannel
finish_cleanup x c =
    if (c.messages.flags x).should_do_fast_cleanup
    then c
    else record c { messages = do_slow_cleanup x c.messages }

unfoldable pub cleanup_message : ℕ → PrivateChannel → PrivateChannel
cleanup_message x c = finish_cleanup x (record c {
  messages = reset_message x c.messages;
  asyncs = drop_async (c.messages.async_data x) (c.messages.async_data_key x) c.asyncs;
})

unfoldable pub release_message : ℕ → PrivateChannel → PrivateChannel
release_message x c = record c {
  available_slot_count = c.available_slot_count + 1;
  messages = record (c.messages) { next = update c.messages.next x c.next_free_slot };
  next_free_slot = x;
}

unfoldable pub destroy_message : ℕ → PrivateChannel → PrivateChannel
destroy_message x c = release_message x (cleanup_message x c)

unfoldable pub set_state : ℕ → MessageState → PrivateChannel → PrivateChannel
set_state x s c = record c {
  messages = record (c.messages) { state = update c.messages.state x s };
}

unfoldable pub place_hold : ℕ → PrivateChannel → PrivateChannel
unfolding set_state
place_hold x c = set_state x (record (c.messages.state x) { is_on_hold = true }) c

unfoldable pub release_hold : ℕ → PrivateChannel → PrivateChannel
unfolding set_state
release_hold x c =
    let c' = set_state x (record (c.messages.state x) { is_on_hold = false }) c in
    if (c.messages.state x).is_condemned then destroy_message x c' else c'

unfoldable pub condemn : ℕ → PrivateChannel → PrivateChannel
unfolding set_state
condemn x c =
    let c' = set_state x (record (c.messages.state x) { is_condemned = true }) c in
    if (c.messages.state x).is_on_hold then c' else destroy_message x c'

-- acquireSlot, on a channel that has a slot.
unfoldable pub acquire_slot : PrivateChannel → PrivateChannel × ℕ
acquire_slot c = (
  record c {
    available_slot_count = c.available_slot_count - 1;
    next_free_slot = c.messages.next c.next_free_slot;
  },
  c.next_free_slot,
)

-- The message and the size that `stage` writes to the staged message.
unfoldable pub stage : ℕ → PrivateChannel → Status × Option (ℕ × ℕ) × PrivateChannel
unfolding acquire_slot
stage size c =
    if c.available_slot_count == 0
    then (mailbox_is_full, none, c)
    else if ltb c.inline_buffer_size size
    then (if c.supports_out_of_line then not_yet_implemented else message_too_large, none, c)
    else (
      success,
      some ((acquire_slot c).1, if size == 0 then c.inline_buffer_size else size),
      (acquire_slot c).0,
    )

unfoldable pub send : ℕ → PrivateChannel → PrivateChannel
unfolding place_hold
send x c =
    let c' = place_hold x c in
    record c' {
      messages = record (c'.messages) { next = update c'.messages.next c'.prev_queued_message x };
      prev_queued_message = x;
      queued_message_count = c'.queued_message_count + 1;
    }

pub record MessageInfo : Type 0 where
  pub message : ℕ
  pub size : ℕ
  pub id : ℕ
  pub payload : Payload

unfoldable pub message_info : ℕ → Messages → MessageInfo
message_info x m = record {
  message = x;
  size = m.payload_size x;
  id = m.id x;
  payload = get_payload m x;
}

unfoldable pub receive : PrivateChannel → Status × Option MessageInfo × PrivateChannel
receive c =
    if c.queued_message_count == 0
    then (mailbox_is_empty, none, c)
    else (let cookie = c.messages.next c.prev_received_message in
        let c' = record (release_hold c.prev_received_message c) {
          prev_received_message = cookie;
        } in
        (success, some (message_info cookie c'.messages), c'))
