-- ===== src/Quartz/Mailbox.antt =====
-- src/quartz/internal.hpp, struct qtz_mailbox, and src/quartz/mailbox.cpp: the slots, the queue,
-- the handlers of each kind of request and the entry points. A call runs with no other thread in
-- between.
pub mod Rep
pub mod Process
pub mod Take
use jemsys.Base.{
  ℕ, suc, ◌+◌, ◌-◌, ◌==◌, if◌then◌else◌, Bool, true, false, ◌||◌, Option, none, some, List, [], ◌∷◌,
  ◌++◌, update,
}
use jemsys.Support.Wake.{Outcome, acquired, refused, blocked, expired}
use jemsys.Support.Semaphore.{Timeout, acquire_semaphore, release}
use jemsys.Support.Counter.{Counter, increase, decrease}
use jemsys.Quartz.Request.{
  MessageKind, noop, kill, kind_2, allocate_mailbox, free_mailbox, kind_3, kind_4, kind_5, kind_6,
  kind_7, kind_8, kind_9, kind_10, kind_11, register_object, unregister_object, link_objects,
  unlink_objects, open_object_handle, destroy_object, log_message, execute_callback,
  execute_callback_with_buffer, MessageAction, do_nothing, notify_sender, destroy, RequestStatus,
  success, error_not_implemented, error_bad_size, error_ipc_support_unavailable, error_bad_alloc,
  RequestFlags, Payload, Requests, fresh_flags, init, lock, discard, action_notify_sender,
  action_destroy, unlock,
}

-- What the handlers do outside the mailbox, in order.
pub data Effect : Type 0 where
  free_block : ℕ → Effect
  aligned_free : ℕ → Effect
  write_handle : ℕ → ℕ → Effect
  write_block : ℕ → ℕ → Effect
  log_request : ℕ → List ℕ → Effect
  call_back : ℕ → ℕ → Effect
  notify_all : ℕ → Effect

pub record Mailbox : Type 0 where
  pub slot_semaphore : ℕ
  pub next_free_slot : ℕ
  pub last_queued_slot : ℕ
  pub queued_messages : Counter
  pub total_slot_count : ℕ
  pub default_priority : ℕ
  pub exit_code : ℕ
  pub start_time : ℕ
  pub kill_request : ℕ
  pub should_close_mailbox : Bool
  pub previous_request : ℕ
  pub message_slots : Requests
  pub effects : List Effect

-- What the allocators answer during a call: `mailboxPool.alloc_block()` and `_aligned_malloc`, null
-- being `none`.
pub record Allocators : Type 0 where
  pub block : Option ℕ
  pub memory : Option ℕ

unfoldable pub make_mailbox : ℕ → Requests → Mailbox
unfolding init
make_mailbox slot_count memory = record {
  slot_semaphore = slot_count - 1;
  next_free_slot = 0;
  last_queued_slot = slot_count - 1;
  queued_messages = record { mp_value = 0; sc_value = 0 };
  total_slot_count = slot_count;
  default_priority = 100;
  exit_code = 0;
  start_time = 0;
  kill_request = 0;
  should_close_mailbox = false;
  previous_request = slot_count - 1;
  message_slots = init memory;
  effects = [];
}

unfoldable pub get_free_request_slot : Mailbox → ℕ × Mailbox
get_free_request_slot m =
    (m.next_free_slot, record m { next_free_slot = m.message_slots.next_slot m.next_free_slot })

-- `acquire_slot` with the three ways to wait that it chooses from. A refusal is the null pointer.
-- Nothing arrives while it waits.
unfoldable pub acquire_slot : Mailbox → Timeout → Outcome (Option ℕ × Mailbox)
acquire_slot m t = elim (acquire_semaphore m.slot_semaphore t (expired ∷ [])) [
  | acquired v w ↦
      (let (slot, m') = get_free_request_slot (record m { slot_semaphore = v }) in
        acquired (some slot, m') w)
  | refused v w ↦ refused (none, record m { slot_semaphore = v }) w
  | blocked ↦ blocked
]

unfoldable pub enqueue_request : Mailbox → ℕ → Mailbox
enqueue_request m slot = record m {
  last_queued_slot = slot;
  message_slots = record slots { next_slot = update slots.next_slot m.last_queued_slot slot };
  queued_messages = increase m.queued_messages 1;
}
  where
    slots : Requests
    slots = m.message_slots

unfoldable pub destroy_request : Mailbox → ℕ → Mailbox
destroy_request m slot = record m {
  message_slots = record slots {
    flags = update slots.flags slot fresh_flags;
    from_foreign_process = update slots.from_foreign_process slot false;
    message_kind = update slots.message_kind slot none;
    next_slot = update slots.next_slot slot m.next_free_slot;
  };
  next_free_slot = slot;
  slot_semaphore = release m.slot_semaphore 1;
}
  where
    slots : Requests
    slots = m.message_slots

abbrev set_flags : Mailbox → ℕ → RequestFlags → Mailbox
set_flags m slot f = record m { message_slots = record slots { flags = update slots.flags slot f } }
  where
    slots : Requests
    slots = m.message_slots

-- The calls on a request: its flags, and the slot's return if that is due.
unfoldable pub lock_request : Mailbox → ℕ → Mailbox
lock_request m slot = set_flags m slot (lock (m.message_slots.flags slot))

unfoldable pub discard_request : Mailbox → ℕ → Mailbox
discard_request m slot =
    let (f, dead) = discard (m.message_slots.flags slot) in
    if dead then destroy_request (set_flags m slot f) slot else set_flags m slot f

unfoldable pub notify_request : Mailbox → ℕ → Mailbox
notify_request m slot =
    let (f, dead) = action_notify_sender (m.message_slots.flags slot) in
    if dead
    then destroy_request (set_flags m slot f) slot
    else if f.is_discarded
    then set_flags m slot f
    else record (set_flags m slot f) { effects = m.effects ++ notify_all slot ∷ [] }

unfoldable pub destroy_by_action : Mailbox → ℕ → Mailbox
destroy_by_action m slot =
    let (f, dead) = action_destroy (m.message_slots.flags slot) in
    if dead then destroy_request (set_flags m slot f) slot else set_flags m slot f

unfoldable pub unlock_request : Mailbox → ℕ → Mailbox
unlock_request m slot =
    let (f, dead) = unlock (m.message_slots.flags slot) in
    if dead then destroy_request (set_flags m slot f) slot else set_flags m slot f

-- Once a token is there: the next request is locked, the last one unlocked.
unfoldable pub take_next_request : Mailbox → ℕ × Mailbox
take_next_request m =
    let next = m.message_slots.next_slot m.previous_request in
    (
      next,
      record (unlock_request (lock_request m next) m.previous_request) { previous_request = next },
    )

unfoldable pub acquire_next_queued_request : Mailbox → Outcome (ℕ × Mailbox)
acquire_next_queued_request m = elim (decrease m.queued_messages 1 []) [
  | acquired c w ↦ acquired (take_next_request (record m { queued_messages = c })) w
  | refused c w ↦ blocked
  | blocked ↦ blocked
]
