-- ===== src/Quartz/Mailbox/Process.antt =====
-- src/quartz/mailbox.cpp: the handlers, the dispatch of a request and the entry points of a client.
pub mod Laws
pub mod Client
pub mod Defects
use jemsys.Base.{
  ℕ, suc, ◌+◌, ◌-◌, ◌*◌, ◌%◌, ◌^◌, ◌==◌, if◌then◌else◌, Bool, true, false, ◌||◌, Option, none, some,
  List, [], ◌∷◌, ◌++◌, update,
}
use jemsys.Support.Wake.{Outcome, acquired, refused, blocked, expired}
use jemsys.Support.Semaphore.{Timeout}
use jemsys.Quartz.Request.{
  MessageKind, noop, kill, kind_2, allocate_mailbox, free_mailbox, kind_3, kind_4, kind_5, kind_6,
  kind_7, kind_8, kind_9, kind_10, kind_11, register_object, unregister_object, link_objects,
  unlink_objects, open_object_handle, destroy_object, log_message, execute_callback,
  execute_callback_with_buffer, MessageAction, do_nothing, notify_sender, destroy, RequestStatus,
  success, error_not_implemented, error_bad_size, error_ipc_support_unavailable, error_bad_alloc,
  RequestFlags, Payload, Requests,
}
use jemsys.Quartz.Mailbox.{
  Effect, free_block, aligned_free, write_handle, write_block, log_request, call_back, notify_all,
  Mailbox, Allocators, acquire_slot, enqueue_request, discard_request, notify_request,
  destroy_by_action, acquire_next_queued_request,
}

abbrev set_status : Mailbox → ℕ → RequestStatus → Mailbox
set_status m r s = record m { message_slots = record slots { status = update slots.status r s } }
  where
    slots : Requests
    slots = m.message_slots

abbrev emit : Mailbox → Effect → Mailbox
emit m e = record m { effects = m.effects ++ e ∷ [] }

-- A handler that faults has no result.
abbrev pub Handler : Type 0
Handler = Mailbox → ℕ → Option (MessageAction × Mailbox)

unfoldable pub proc_noop : Handler
proc_noop m r = some (destroy, m)

unfoldable pub proc_kill : Handler
proc_kill m r = some (
  do_nothing,
  record m {
    should_close_mailbox = true;
    exit_code = (m.message_slots.payload r).exit_code;
    kill_request = r;
  },
)

unfoldable pub proc_placeholder2 : Handler
proc_placeholder2 m r =
    some (destroy, record m { start_time = (m.message_slots.payload r).start_time })

-- The placeholders 3 to 11 and the requests about objects.
unfoldable pub not_implemented : Handler
not_implemented m r = some (notify_sender, set_status m r error_not_implemented)

-- The bytes of the slots, a product of two words.
unfoldable pub slots_size : Payload → ℕ
slots_size payload = payload.slot_size * payload.slot_count % 2 ^ 64

-- The slots are cleared before their address is tested: where the allocation failed that is a
-- write through null, unless they have no bytes. A null handle is written through too.
unfoldable pub proc_alloc_mailbox : Allocators → Handler
proc_alloc_mailbox a m r =
    let payload = m.message_slots.payload r in
    if payload.is_shared
    then some (notify_sender, set_status m r error_ipc_support_unavailable)
    else if payload.slot_size == 0
    then some (notify_sender, set_status m r error_bad_size)
    else elim a.block [
      | none ↦ some (notify_sender, set_status m r error_bad_alloc)
      | some block ↦ elim a.memory [
        | none ↦
            if slots_size payload == 0
            then some (notify_sender, set_status (emit m (free_block block)) r error_bad_alloc)
            else none
        | some slots ↦
            if payload.handle == 0
            then none
            else some (
              notify_sender,
              set_status
                  (emit (emit m (write_handle payload.handle block)) (write_block block slots)) r
                  success,
            )
      ]
    ]

unfoldable pub proc_free_mailbox : Handler
proc_free_mailbox m r =
    let payload = m.message_slots.payload r in
    some (destroy, emit (emit m (free_block payload.handle)) (aligned_free payload.slots_address))

unfoldable pub proc_log_message : Handler
proc_log_message m r =
    let slots = m.message_slots in
    some (destroy, emit m (log_request (slots.sender_object r) (slots.payload r).message))

-- Both kinds of callback; a null callback faults.
unfoldable pub proc_execute_callback : Handler
proc_execute_callback m r =
    let payload = m.message_slots.payload r in
    if payload.callback == 0
    then none
    else some (notify_sender, emit m (call_back payload.callback payload.user_data))

-- The dispatch table.
unfoldable pub dispatch : Allocators → MessageKind → Handler
dispatch a noop = proc_noop
dispatch a kill = proc_kill
dispatch a kind_2 = proc_placeholder2
dispatch a allocate_mailbox = proc_alloc_mailbox a
dispatch a free_mailbox = proc_free_mailbox
dispatch a kind_3 = not_implemented
dispatch a kind_4 = not_implemented
dispatch a kind_5 = not_implemented
dispatch a kind_6 = not_implemented
dispatch a kind_7 = not_implemented
dispatch a kind_8 = not_implemented
dispatch a kind_9 = not_implemented
dispatch a kind_10 = not_implemented
dispatch a kind_11 = not_implemented
dispatch a register_object = not_implemented
dispatch a unregister_object = not_implemented
dispatch a link_objects = not_implemented
dispatch a unlink_objects = not_implemented
dispatch a open_object_handle = not_implemented
dispatch a destroy_object = not_implemented
dispatch a log_message = proc_log_message
dispatch a execute_callback = proc_execute_callback
dispatch a execute_callback_with_buffer = proc_execute_callback

unfoldable pub finish : MessageAction → Mailbox → ℕ → Mailbox
finish do_nothing m r = m
finish notify_sender m r = notify_request m r
finish destroy m r = destroy_by_action m r

-- The kind of a request in the queue is always set; a table access beyond it faults.
unfoldable pub handle : Allocators → Mailbox → ℕ → Option Mailbox
handle a m r = elim (m.message_slots.message_kind r) [
  | none ↦ none
  | some k ↦ elim (dispatch a k m r) [ none ↦ none | some (action, m') ↦ some (finish action m' r) ]
]

-- `none` inside an acquired outcome is a fault.
unfoldable pub process_next_message : Allocators → Mailbox → Outcome (Option Mailbox)
process_next_message a m = elim (acquire_next_queued_request m) [
  | acquired (r, m') w ↦ acquired (handle a m' r) w
  | refused x w ↦ blocked
  | blocked ↦ blocked
]

abbrev is_noop : MessageKind → Bool
is_noop noop = true
is_noop _ = false

-- What `qtz_send` writes to the slot. The payload is copied unless the kind is NOOP.
unfoldable pub fill_request : Mailbox → ℕ → Bool → ℕ → ℕ → MessageKind → Payload → Mailbox
fill_request m r foreign sender priority kind payload =
    let slots = m.message_slots in
    record m {
      message_slots = record slots {
        message_kind = update slots.message_kind r (some kind);
        sender_object = update slots.sender_object r sender;
        queue_priority =
            update slots.queue_priority r (if priority == 0 then m.default_priority else priority);
        from_foreign_process = update slots.from_foreign_process r foreign;
        payload = update slots.payload r (if is_noop kind then slots.payload r else payload);
      };
    }

-- `qtz_send` to a mailbox; `foreign` says that it is another process's.
unfoldable pub qtz_send :
    Mailbox → Bool → ℕ → ℕ → MessageKind → Payload → Timeout → Outcome (Option ℕ × Mailbox)
qtz_send m foreign sender priority kind payload t = elim (acquire_slot m t) [
  | acquired (none, m') w ↦ acquired (none, m') w
  | acquired (some r, m') w ↦
      acquired (some r, enqueue_request (fill_request m' r foreign sender priority kind payload) r)
        w
  | refused x w ↦ refused x w
  | blocked ↦ blocked
]

-- `qtz_wait`, which nothing else runs beside: the status and the discarded request, if the request
-- is ready; else a refusal, QTZ_NOT_READY, or no return.
unfoldable pub qtz_wait : Mailbox → ℕ → Timeout → Outcome (RequestStatus × Mailbox)
qtz_wait m r t =
    let status = m.message_slots.status r in
    if (m.message_slots.flags r).is_ready
    then acquired (status, discard_request m r) []
    else elim t [ Timeout.wait ↦ blocked | _ ↦ refused (status, m) [] ]

-- The end of a round of the mailbox thread: with the exit code, if the mailbox closes.
unfoldable pub close_if_due : Mailbox → Option ℕ × Mailbox
close_if_due m =
    let slots = m.message_slots in
    let r = m.kill_request in
    if m.should_close_mailbox
    then (
      some m.exit_code,
      record m {
        message_slots = record slots {
          flags = update slots.flags r (record (slots.flags r) { is_ready = true });
        };
        effects = m.effects ++ notify_all r ∷ [];
      },
    )
    else (none, m)

-- One round of the mailbox thread.
unfoldable pub main_round : Allocators → Mailbox → Outcome (Option (Option ℕ × Mailbox))
main_round a m = elim (process_next_message a m) [
  | acquired none w ↦ acquired none w
  | acquired (some m') w ↦ acquired (some (close_if_due m')) w
  | refused x w ↦ blocked
  | blocked ↦ blocked
]
