-- ===== src/Quartz/Mailbox/Process/Defects.antt =====
-- Where src/quartz/mailbox.cpp departs from what it means to do.
use jemsys.Base.{ℕ, suc, ◌≡◌, ◌≢◌, ◌↔◌, ◌⊎◌, false, none, List, arith}
use jemsys.Quartz.Request.{init}
use jemsys.Quartz.Request.{
  MessageKind, noop, allocate_mailbox, execute_callback, execute_callback_with_buffer, Payload,
  Requests,
}
use jemsys.Quartz.Mailbox.{make_mailbox, Mailbox, Allocators}
use jemsys.Quartz.Mailbox.Take.{released}
use jemsys.Quartz.Mailbox.Process.{
  dispatch, slots_size, proc_noop, proc_kill, proc_placeholder2, not_implemented,
  proc_alloc_mailbox, proc_free_mailbox, proc_log_message, proc_execute_callback,
}

-- What makes the mailbox fault on a request.
abbrev pub Faulty : Allocators → MessageKind → Payload → Type 0
Faulty a k payload =
    ((k ≡ allocate_mailbox)
      × (payload.is_shared ≡ false)
      × (payload.slot_size ≢ 0)
      × (a.block ≢ none)
      × (((a.memory ≡ none) × (slots_size payload ≢ 0))
          ⊎ ((a.memory ≢ none) × (payload.handle ≡ 0))))
    ⊎ (((k ≡ execute_callback) ⊎ (k ≡ execute_callback_with_buffer)) × (payload.callback ≡ 0))

pub dispatch-faults :
    (a : Allocators) (k : MessageKind) (m : Mailbox) (r : ℕ)
    → (dispatch a k m r ≡ none) ↔ Faulty a k (m.message_slots.payload r)
unfolding dispatch proc_noop proc_kill proc_placeholder2 not_implemented proc_alloc_mailbox
    proc_free_mailbox proc_log_message proc_execute_callback
dispatch-faults a noop m r = ground arith
dispatch-faults a _ m r = ground arith

-- A mailbox made with `n + 1` slots never gets its last slot back: it is the predecessor of the
-- first request, which is neither answered nor discarded when that request is taken, so that no
-- free slot is gained.
pub make_mailbox-leaks :
    (n : ℕ) (memory : Requests) (free : List ℕ)
    → (memory.flags n).is_discarded ≡ false
    → released (make_mailbox (suc n) memory) free ≡ free
unfolding make_mailbox init
make_mailbox-leaks n memory free h = ground arith
