-- ===== src/Quartz/Mailbox/Process/Laws.antt =====
-- src/quartz/mailbox.cpp and process_next_message of src/quartz/internal.hpp: what processing a
-- request does to the slots of the mailbox.
use jemsys.Base.{
  ℕ, suc, ◌<◌, ◌≡◌, refl, subst, ap, ◌∙◌, inl, inr, true, false, none, some, List, [], ◌∷◌, ◌++◌,
  arith, if◌then◌else◌, ◌==◌, ◌||◌, length, Option-cases,
}
use jemsys.Support.Wake.{acquired}
use jemsys.Support.Counter.{u32}
use jemsys.Quartz.Request.{
  MessageKind, noop, kill, kind_2, allocate_mailbox, free_mailbox, kind_3, kind_4, kind_5, kind_6,
  kind_7, kind_8, kind_9, kind_10, kind_11, register_object, unregister_object, link_objects,
  unlink_objects, open_object_handle, destroy_object, log_message, execute_callback,
  execute_callback_with_buffer, MessageAction, do_nothing, notify_sender, destroy, RequestStatus,
  success, error_not_implemented, error_bad_size, error_ipc_support_unavailable, error_bad_alloc,
  Payload, action_notify_sender, action_destroy,
}
use jemsys.Quartz.Mailbox.{
  Mailbox, Allocators, notify_request, destroy_by_action, Effect, free_block, aligned_free,
  log_request, call_back, notify_all, write_handle, write_block,
}
use jemsys.Quartz.Mailbox.Rep.{Rep}
use jemsys.Quartz.Mailbox.Take.{released, Kept, acquire_next-Kept}
use jemsys.Quartz.Mailbox.Process.Defects.{Faulty, dispatch-faults}
use jemsys.Quartz.Mailbox.Process.{
  dispatch, finish, handle, process_next_message, proc_noop, proc_kill, proc_placeholder2,
  not_implemented, proc_alloc_mailbox, proc_free_mailbox, proc_log_message, proc_execute_callback,
}

-- The members by which slots are found are the same.
pub record SameLinks (m m' : Mailbox) : Type 0 where
  pub semaphore : m'.slot_semaphore ≡ m.slot_semaphore
  pub next_free : m'.next_free_slot ≡ m.next_free_slot
  pub last_queued : m'.last_queued_slot ≡ m.last_queued_slot
  pub queued : m'.queued_messages ≡ m.queued_messages
  pub previous : m'.previous_request ≡ m.previous_request
  pub next_slot : m'.message_slots.next_slot ≡ m.message_slots.next_slot

SameLinks-Rep :
    (m m' : Mailbox) (free pending : List ℕ)
    → SameLinks m m'
    → Rep m free pending
    → Rep m' free pending
SameLinks-Rep m m' free pending s r = rep
  where
    rep : Rep m' free pending
    rep = record {
      stack = rw (s.next_slot, s.next_free) r.stack;
      available = s.semaphore ∙ r.available;
      links = rw (s.next_slot, s.previous, s.last_queued) r.links;
      counted = rw s.queued r.counted;
      free_once = r.free_once;
      queued_once = rw s.previous r.queued_once;
      apart = rw s.previous r.apart;
    }

-- No handler touches them.
dispatch-SameLinks :
    (a : Allocators) (k : MessageKind) (m : Mailbox) (r : ℕ) {act : MessageAction} {m' : Mailbox}
    → dispatch a k m r ≡ some (act, m')
    → SameLinks m m'
unfolding dispatch proc_noop proc_kill proc_placeholder2 not_implemented proc_alloc_mailbox
    proc_free_mailbox proc_log_message proc_execute_callback
dispatch-SameLinks a noop m r e = ground arith
dispatch-SameLinks a _ m r e = ground arith

flags-dispatch :
    (a : Allocators) (k : MessageKind) (m : Mailbox) (r : ℕ) {act : MessageAction} {m' : Mailbox}
    → dispatch a k m r ≡ some (act, m')
    → m'.message_slots.flags ≡ m.message_slots.flags
unfolding dispatch proc_noop proc_kill proc_placeholder2 not_implemented proc_alloc_mailbox
    proc_free_mailbox proc_log_message proc_execute_callback
flags-dispatch a noop m r e = ground arith
flags-dispatch a _ m r e = ground arith

-- A locked request survives its answer.
finish-SameLinks :
    (act : MessageAction) (m : Mailbox) (r : ℕ)
    → (m.message_slots.flags r).not_preserved ≡ false
    → SameLinks m (finish act m r)
unfolding finish notify_request destroy_by_action action_notify_sender action_destroy
finish-SameLinks do_nothing m r h = ground arith
finish-SameLinks notify_sender m r h = ground arith
finish-SameLinks destroy m r h = ground arith

-- The request is marked as answered after the effects `es`; unless it has been discarded, its
-- sender is woken then.
abbrev pub Notified : Mailbox → ℕ → List Effect → Type 0
Notified n r es =
    ((n.message_slots.flags r).is_ready ≡ true)
    × (n.effects ≡ (if (n.message_slots.flags r).is_discarded then es else es ++ notify_all r ∷ []))

-- It is answered, and nobody waits for it.
abbrev pub Destroyed : Mailbox → ℕ → Type 0
Destroyed m r =
    ((m.message_slots.flags r).is_ready ≡ true) × ((m.message_slots.flags r).is_discarded ≡ true)

-- A request that the library does not implement yet.
abbrev pub Unimplemented : Mailbox → Mailbox → ℕ → Type 0
Unimplemented m n r = Notified n r m.effects × (n.message_slots.status r ≡ error_not_implemented)

-- The answer to a request for a mailbox, and what is written.
abbrev pub alloc_status : Allocators → Payload → RequestStatus
alloc_status a payload =
    if payload.is_shared
    then error_ipc_support_unavailable
    else if payload.slot_size == 0
    then error_bad_size
    else elim a.block [
      | none ↦ error_bad_alloc
      | some b ↦ elim a.memory [ none ↦ error_bad_alloc | some slots ↦ success ]
    ]

abbrev pub alloc_effects : Allocators → Payload → List Effect → List Effect
alloc_effects a payload es =
    if payload.is_shared || payload.slot_size == 0 then es else elim a.block [
      | none ↦ es
      | some b ↦ elim a.memory [
        | none ↦ es ++ free_block b ∷ []
        | some slots ↦ (es ++ write_handle payload.handle b ∷ []) ++ write_block b slots ∷ []
      ]
    ]

-- The callback is called.
abbrev pub Called : Mailbox → Mailbox → ℕ → Type 0
Called m n r = Notified n r (
    m.effects
    ++ call_back (m.message_slots.payload r).callback (m.message_slots.payload r).user_data ∷ [])

-- What the answer to request `r` of each kind is, from the mailbox `m` to `n`.
abbrev pub Answered : MessageKind → Allocators → Mailbox → Mailbox → ℕ → Type 0
Answered noop a m n r = Destroyed n r × (n.effects ≡ m.effects)
Answered kill a m n r =
    (n.should_close_mailbox ≡ true)
    × (n.kill_request ≡ r)
    × (n.exit_code ≡ (m.message_slots.payload r).exit_code)
    × (n.effects ≡ m.effects)
Answered kind_2 a m n r =
    Destroyed n r
    × (n.start_time ≡ (m.message_slots.payload r).start_time)
    × (n.effects ≡ m.effects)
Answered allocate_mailbox a m n r =
    Notified n r (alloc_effects a (m.message_slots.payload r) m.effects)
    × (n.message_slots.status r ≡ alloc_status a (m.message_slots.payload r))
Answered free_mailbox a m n r =
    Destroyed n r
    × (n.effects
        ≡ (m.effects ++ free_block (m.message_slots.payload r).handle ∷ [])
          ++ aligned_free (m.message_slots.payload r).slots_address ∷ [])
Answered log_message a m n r =
    Destroyed n r
    × (n.effects
        ≡ m.effects
          ++ log_request (m.message_slots.sender_object r) (m.message_slots.payload r).message ∷ [])
Answered execute_callback a m n r = Called m n r
Answered execute_callback_with_buffer a m n r = Called m n r
Answered kind_3 a m n r = Unimplemented m n r
Answered kind_4 a m n r = Unimplemented m n r
Answered kind_5 a m n r = Unimplemented m n r
Answered kind_6 a m n r = Unimplemented m n r
Answered kind_7 a m n r = Unimplemented m n r
Answered kind_8 a m n r = Unimplemented m n r
Answered kind_9 a m n r = Unimplemented m n r
Answered kind_10 a m n r = Unimplemented m n r
Answered kind_11 a m n r = Unimplemented m n r
Answered register_object a m n r = Unimplemented m n r
Answered unregister_object a m n r = Unimplemented m n r
Answered link_objects a m n r = Unimplemented m n r
Answered unlink_objects a m n r = Unimplemented m n r
Answered open_object_handle a m n r = Unimplemented m n r
Answered destroy_object a m n r = Unimplemented m n r

dispatch-Answered :
    (a : Allocators) (k : MessageKind) (m : Mailbox) (r : ℕ) {act : MessageAction} {m' : Mailbox}
    → (m.message_slots.flags r).not_preserved ≡ false
    → dispatch a k m r ≡ some (act, m')
    → Answered k a m (finish act m' r) r
unfolding dispatch finish proc_noop proc_kill proc_placeholder2 not_implemented proc_alloc_mailbox
    proc_free_mailbox proc_log_message proc_execute_callback notify_request destroy_by_action
    action_notify_sender action_destroy
dispatch-Answered a noop m r h e = ground arith
dispatch-Answered a _ m r h e = ground arith

-- Where nothing makes it fault, it has an answer.
dispatch-some :
    (a : Allocators) (k : MessageKind) (m : Mailbox) (r : ℕ)
    → ¬ Faulty a k (m.message_slots.payload r)
    → (act : MessageAction) × (m' : Mailbox) × (dispatch a k m r ≡ some (act, m'))
dispatch-some a k m r h = elim (Option-cases (dispatch a k m r)) [
  | inl f ↦ absurd (h ((dispatch-faults a k m r).0 f))
  | inr (p, e) ↦ (p.0, p.1, e)
]

handle_eq :
    (a : Allocators) (m : Mailbox) (r : ℕ) (k : MessageKind) (act : MessageAction) (m' : Mailbox)
    → m.message_slots.message_kind r ≡ some k
    → dispatch a k m r ≡ some (act, m')
    → handle a m r ≡ some (finish act m' r)
unfolding handle
handle_eq a m r k act m' e d = ground (arith, e, d)

handle-Rep :
    (a : Allocators) (m : Mailbox) (r : ℕ) (k : MessageKind) (free pending : List ℕ)
    → Rep m free pending
    → (m.message_slots.flags r).not_preserved ≡ false
    → m.message_slots.message_kind r ≡ some k
    → ¬ Faulty a k (m.message_slots.payload r)
    → (m' : Mailbox) × (handle a m r ≡ some m')
      × Rep m' free pending
      × (m'.previous_request ≡ m.previous_request)
      × Answered k a m m' r
handle-Rep a m r k free pending p h e mem =
    let (act, m1, ed) = dispatch-some a k m r mem in
    let s1 = dispatch-SameLinks a k m r ed in
    let s2 = finish-SameLinks act m1 r (rw (flags-dispatch a k m r ed) h) in
    (
      finish act m1 r,
      handle_eq a m r k act m1 e ed,
      SameLinks-Rep m1 _ free pending s2 (SameLinks-Rep m m1 free pending s1 p),
      s2.previous ∙ s1.previous,
      dispatch-Answered a k m r h ed,
    )

-- Only these members of the mailbox before are read.
Answered-Kept :
    (k : MessageKind) (a : Allocators) (m m1 n : Mailbox) (r : ℕ)
    → Kept m m1
    → Answered k a m1 n r
    → Answered k a m n r
Answered-Kept noop a m m1 n r (p, s, e) w = ground arith
Answered-Kept _ a m m1 n r (p, s, e) w = ground arith

-- One round of the mailbox thread, where fewer than 2^32 requests are queued and nothing about the
-- oldest one makes the mailbox fault: it takes that request off the queue, answers it as its kind
-- asks for, waking its sender last unless the request has been discarded, and frees no slot but
-- that of the request before it.
pub process_next_message-Rep :
    (a : Allocators) (m : Mailbox) (x : ℕ) (k : MessageKind) (free pending : List ℕ)
    → Rep m free (x ∷ pending)
    → suc (length pending) < u32
    → m.message_slots.message_kind x ≡ some k
    → ¬ Faulty a k (m.message_slots.payload x)
    → (m' : Mailbox) × (process_next_message a m ≡ acquired (some m') [])
      × Rep m' (released m free) pending
      × (m'.previous_request ≡ x)
      × Answered k a m m' x
unfolding process_next_message
process_next_message-Rep a m x k free pending r small e sane =
    let (m1, e1, r1, p1, l1, k1, kept) = acquire_next-Kept m x free pending r small in
    let same : m1.message_slots.payload x ≡ m.message_slots.payload x = ap (λ f. f x) kept.0 in
    let (m2, e2, r2, p2, w2) =
      handle-Rep a m1 x k (released m free) pending r1 l1 (k1 ∙ e)
        (λ f. sane (subst (Faulty a k) same f)) in
    (m2, rw (e1, process_next_message, e2) refl, r2, p2 ∙ p1, Answered-Kept k a m m1 m2 x kept w2)
