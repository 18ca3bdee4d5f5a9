-- ===== src/Quartz/Request.antt =====
-- src/quartz/internal.hpp, struct qtz_request: the request slots of a mailbox, the kinds of request
-- and the flags that decide when a slot is free again. A pointer to a slot is its index.
pub mod Lifecycle
use jemsys.Base.{
  ℕ, suc, ◌==◌, if◌then◌else◌, Bool, true, false, ◌&&◌, not, Option, none, some, List, update,
}

pub data MessageKind : Type 0 where
  noop kill kind_2 allocate_mailbox free_mailbox kind_3 kind_4 kind_5 kind_6 kind_7 : MessageKind
  kind_8 kind_9 kind_10 kind_11 register_object unregister_object link_objects : MessageKind
  unlink_objects open_object_handle destroy_object log_message execute_callback : MessageKind
  execute_callback_with_buffer : MessageKind

pub data MessageAction : Type 0 where
  do_nothing notify_sender destroy : MessageAction

-- The statuses that the mailbox writes.
pub data RequestStatus : Type 0 where
  success error_not_implemented error_bad_size error_ipc_support_unavailable : RequestStatus
  error_bad_alloc : RequestStatus

-- QTZ_MESSAGE_IS_READY, QTZ_MESSAGE_IS_DISCARDED, QTZ_MESSAGE_NOT_PRESERVED: the bits of the word.
pub record RequestFlags : Type 0 where
  pub is_ready : Bool
  pub is_discarded : Bool
  pub not_preserved : Bool

-- The members that the handlers read through `payload_as`.
pub record Payload : Type 0 where
  pub exit_code : ℕ
  pub start_time : ℕ
  pub handle : ℕ
  pub slots_address : ℕ
  pub slot_size : ℕ
  pub slot_count : ℕ
  pub is_shared : Bool
  pub message : List ℕ
  pub callback : ℕ
  pub user_data : ℕ

-- The slots, a function for each member. `thisSlot` is the index itself; the kind
-- (qtz_message_kind_t)-1 of a destroyed request is `none`.
pub record Requests : Type 0 where
  pub next_slot : ℕ → ℕ
  pub message_kind : ℕ → Option MessageKind
  pub queue_priority : ℕ → ℕ
  pub flags : ℕ → RequestFlags
  pub status : ℕ → RequestStatus
  pub sender_object : ℕ → ℕ
  pub from_foreign_process : ℕ → Bool
  pub payload : ℕ → Payload

abbrev pub fresh_flags : RequestFlags
fresh_flags = record { is_ready = false; is_discarded = false; not_preserved = true }

-- `init` of every slot, over what the memory held.
unfoldable pub init : Requests → Requests
init r = record r {
  next_slot = suc;
  flags = λ s. record (r.flags s) { not_preserved = true };
  from_foreign_process = λ s. false;
}

-- The atomic part of each call on a request: the new flags, and whether the call goes on to destroy
-- the request.
unfoldable pub lock : RequestFlags → RequestFlags
lock f = record f { not_preserved = false }

unfoldable pub discard : RequestFlags → RequestFlags × Bool
discard f = (record f { is_discarded = true }, f.not_preserved && f.is_ready)

unfoldable pub action_notify_sender : RequestFlags → RequestFlags × Bool
action_notify_sender f = (record f { is_ready = true }, f.not_preserved && f.is_discarded)

unfoldable pub action_destroy : RequestFlags → RequestFlags × Bool
action_destroy f = (record f { is_ready = true; is_discarded = true }, f.not_preserved)

unfoldable pub unlock : RequestFlags → RequestFlags × Bool
unlock f = (record f { not_preserved = true }, f.is_ready && f.is_discarded)
