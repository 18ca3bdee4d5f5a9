-- ===== src/Agate/Message.antt =====
-- include/agate.h (statuses, flags, slots, messages) and src/agate/common.hpp (the message slot
-- `agt_cookie`, its flags and what becomes of it). A pointer to a slot is the slot's index.
use jemsys.Base.{
  ◌%◌, ◌^◌, ℕ, zero, suc, if◌then◌else◌, Bool, true, false, not, ◌||◌, Option, none, some, List, [],
  ◌∷◌, update,
}

pub data Status : Type 0 where
  success not_ready deferred cancelled timed_out error_unknown error_unbound_agent : Status
  error_foreign_sender error_status_not_set error_unknown_message_type error_invalid_flags : Status
  error_invalid_message error_invalid_signal error_cannot_discard error_message_too_large : Status
  error_insufficient_slots error_bad_size error_invalid_argument : Status
  error_bad_encoding_in_name error_name_too_long error_name_already_in_use error_bad_alloc : Status
  error_mailbox_is_full error_mailbox_is_empty error_too_many_senders : Status
  error_too_many_receivers error_already_received error_initialization_failed : Status
  error_not_yet_implemented : Status

pub data ConnectAction : Type 0 where
  attach_sender detach_sender attach_receiver detach_receiver : ConnectAction

-- The bits of a word of flags are the fields of a record.
pub record SendFlags : Type 0 where
  pub must_check_result : Bool
  pub ignore_result : Bool
  pub fast_cleanup : Bool

pub record MessageFlags : Type 0 where
  pub must_check_result : Bool
  pub ignore_result : Bool
  pub fast_cleanup : Bool
  pub in_use : Bool
  pub has_been_checked : Bool
  pub is_condemned : Bool

abbrev pub no_flags : MessageFlags
no_flags = record {
  must_check_result = false;
  ignore_result = false;
  fast_cleanup = false;
  in_use = false;
  has_been_checked = false;
  is_condemned = false;
}

-- All the `agt_cookie`s of a mailbox with their `agt_signal`s, a function for each member. The
-- members `mailbox`, `thisIndex` and `flags` are written once, when the mailbox is made.
pub record Slots : Type 0 where
  pub next : ℕ → ℕ
  pub payload_size : ℕ → ℕ
  pub flags : ℕ → MessageFlags
  pub is_ready : ℕ → Bool
  pub open_handles : ℕ → ℕ
  pub status : ℕ → Status
  pub sender : ℕ → Option ℕ
  pub id : ℕ → ℕ
  pub payload : ℕ → List ℕ

-- `agt_slot_t` and `agt_message_t`; the payload is that of the cookie.
pub record Slot : Type 0 where
  pub cookie : ℕ
  pub id : ℕ

pub record Message : Type 0 where
  pub cookie : ℕ
  pub size : ℕ
  pub id : ℕ

abbrev pub uninit_id : ℕ
uninit_id = 0xffff_ffff_ffff_ffff

-- memset(payload, 0, n)
pub zero_bytes : ℕ → List ℕ → List ℕ
zero_bytes zero bs = bs
zero_bytes (suc n) [] = []
zero_bytes (suc n) (b ∷ bs) = 0 ∷ zero_bytes n bs

-- AGT_init_slot, of a debug build.
unfoldable pub init_slot : Slots → ℕ → ℕ → Slot × Slots
init_slot s m size = (
  record { cookie = m; id = uninit_id },
  record s { payload_size = update s.payload_size m (size % 2 ^ 32) },
)

-- AGT_prep_slot
unfoldable pub prep_slot : Slots → Slot → Slots
prep_slot s slot = record s { id = update s.id slot.cookie slot.id }

-- AGT_read_msg
unfoldable pub read_msg : Slots → ℕ → Message
read_msg s m = record { cookie = m; size = s.payload_size m; id = s.id m }

-- message->signal.flags.set(flags | agt::message_in_use)
unfoldable pub set_sent : Slots → ℕ → SendFlags → Slots
set_sent s m f = record s { flags = update s.flags m sent }
  where
    old : MessageFlags
    old = s.flags m

    sent : MessageFlags
    sent = record old {
      must_check_result = old.must_check_result || f.must_check_result;
      ignore_result = old.ignore_result || f.ignore_result;
      fast_cleanup = old.fast_cleanup || f.fast_cleanup;
      in_use = true;
    }

-- What a send returns: the message's signal, or null.
unfoldable pub sent_signal : ℕ → SendFlags → Option ℕ
sent_signal m f = if f.ignore_result then none else some m

unfoldable pub cleanup_message : Slots → ℕ → Slots
unfolding zero_bytes
cleanup_message s m = if (s.flags m).fast_cleanup then cleared else scrubbed
  where
    cleared : Slots
    cleared = record s {
      is_ready = update s.is_ready m false;
      open_handles = update s.open_handles m 1;
      flags = update s.flags m no_flags;
    }

    scrubbed : Slots
    scrubbed = record cleared {
      payload = update s.payload m (zero_bytes (s.payload_size m) (s.payload m));
      sender = update s.sender m none;
      id = update s.id m 0;
      status = update s.status m error_status_not_set;
    }

-- flags.set(message_in_use)
unfoldable pub place_hold : Slots → ℕ → Slots
place_hold s m = record s { flags = update s.flags m (record (s.flags m) { in_use = true }) }

-- The atomic part of `free_hold`: flags.fetch_and_reset(message_in_use); true if the message is to
-- be cleaned up and returned.
unfoldable pub reset_in_use : Slots → ℕ → Bool × Slots
reset_in_use s m = (
  (s.flags m).is_condemned,
  record s { flags = update s.flags m (record (s.flags m) { in_use = false }) },
)

-- The atomic part of `condemn`: flags.fetch_and_set(message_is_condemned); true if the message is
-- to be destroyed.
unfoldable pub set_condemned : Slots → ℕ → Bool × Slots
set_condemned s m = (
  not (s.flags m).in_use,
  record s { flags = update s.flags m (record (s.flags m) { is_condemned = true }) },
)
