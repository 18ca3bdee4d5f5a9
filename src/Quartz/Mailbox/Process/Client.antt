-- ===== src/Quartz/Mailbox/Process/Client.antt =====
-- A client's side of the request mailbox: sending a request and waiting for its answer.
use jemsys.Base.{
  ℕ, ◌+◌, ◌<◌, ◌≡◌, refl, ◌∙◌, ◌==◌, if◌then◌else◌, Bool, true, none, some, List, [], ◌∷◌, ◌++◌,
  arith, length, update,
}
use jemsys.Support.Wake.{acquired, refused, blocked, expired}
use jemsys.Support.Counter.{u32}
use jemsys.Support.Semaphore.{Timeout}
use jemsys.Quartz.Request.{discard}
use jemsys.Quartz.Request.{MessageKind, Payload, Requests}
use jemsys.Quartz.Mailbox.{enqueue_request, discard_request, Mailbox, destroy_request}
use jemsys.Quartz.Mailbox.Rep.{
  Rep, Outside, taken, request_slot-Rep, request_slot-full, enqueue_request-Rep,
  destroy_request-Rep,
}
use jemsys.Quartz.Mailbox.Process.{fill_request, qtz_send, qtz_wait}

-- The slots and the queue stay as they are while a request is written.
pub fill_request-Rep :
    (m : Mailbox) (x : ℕ) (free pending : List ℕ) (foreign : Bool) (sender priority : ℕ)
    (kind : MessageKind) (payload : Payload)
    → Rep m free pending
    → Rep (fill_request m x foreign sender priority kind payload) free pending
unfolding fill_request
fill_request-Rep m x free pending foreign sender priority kind payload r = record {
  stack = r.stack;
  available = r.available;
  links = r.links;
  counted = r.counted;
  free_once = r.free_once;
  queued_once = r.queued_once;
  apart = r.apart;
}

sent_fields :
    (m : Mailbox) (x : ℕ) (foreign : Bool) (sender priority : ℕ) (kind : MessageKind)
    (payload : Payload)
    → let filled = fill_request m x foreign sender priority kind payload in
      (filled.previous_request ≡ m.previous_request)
      × ((enqueue_request filled x).message_slots.message_kind x ≡ some kind)
      × ((enqueue_request filled x).message_slots.queue_priority x
          ≡ (if priority == 0 then m.default_priority else priority))
unfolding fill_request enqueue_request
sent_fields m x foreign sender priority kind payload = (refl, ground arith, ground arith)

-- With a slot free and fewer than 2^32 requests in the queue, `qtz_send` puts the request that it
-- returns at the end of the queue, with its kind and a priority that is the default one where the
-- caller gives none.
pub qtz_send-Rep :
    (m : Mailbox) (x : ℕ) (free pending : List ℕ) (foreign : Bool) (sender priority : ℕ)
    (kind : MessageKind) (payload : Payload) (t : Timeout)
    → Rep m (x ∷ free) pending
    → length pending + 1 < u32
    → (m' : Mailbox) × (qtz_send m foreign sender priority kind payload t
        ≡ acquired (some x, m') (expired ∷ []))
      × Rep m' free (pending ++ x ∷ [])
      × (m'.message_slots.message_kind x ≡ some kind)
      × (m'.message_slots.queue_priority x
          ≡ (if priority == 0 then m.default_priority else priority))
unfolding qtz_send
qtz_send-Rep m x free pending foreign sender priority kind payload t r small =
    let (e, r1, out) = request_slot-Rep m x free pending t r in
    let filled = fill_request (taken m) x foreign sender priority kind payload in
    let (prev, k, p) = sent_fields (taken m) x foreign sender priority kind payload in
    (
      enqueue_request filled x,
      rw (e, qtz_send) refl,
      enqueue_request-Rep filled x free pending
          (fill_request-Rep (taken m) x free pending foreign sender priority kind payload r1) small
          (out.0, (λ h. out.1 (h ∙ prev)), out.2),
      k,
      p,
    )

-- With no slot free, nothing is sent and the mailbox is unchanged; only JEM_WAIT does not return.
pub qtz_send-full :
    (m : Mailbox) (pending : List ℕ) (foreign : Bool) (sender priority : ℕ) (kind : MessageKind)
    (payload : Payload)
    → Rep m [] pending
    → (qtz_send m foreign sender priority kind payload Timeout.wait ≡ blocked)
      × (qtz_send m foreign sender priority kind payload Timeout.do_not_wait
          ≡ refused (none, m) (expired ∷ []))
      × (qtz_send m foreign sender priority kind payload Timeout.within ≡ refused (none, m) [])
unfolding qtz_send
qtz_send-full m pending foreign sender priority kind payload r =
    let (a, b, c) = request_slot-full m pending r in
    (rw (a, qtz_send) refl, rw (b, qtz_send) refl, rw (c, qtz_send) refl)

-- The mailbox once the client has marked its request as discarded.
abbrev discarded : Mailbox → ℕ → Mailbox
discarded m x = record m {
  message_slots = record slots { flags = update slots.flags x (discard (slots.flags x)).0 };
}
  where
    slots : Requests
    slots = m.message_slots

discard_request_eq :
    (m : Mailbox) (x : ℕ)
    → (m.message_slots.flags x).is_ready ≡ true
    → (m.message_slots.flags x).not_preserved ≡ true
    → discard_request m x ≡ destroy_request (discarded m x) x
unfolding discard_request discard
discard_request_eq m x a b = ground arith

discarded-Rep :
    (m : Mailbox) (x : ℕ) (free pending : List ℕ)
    → Rep m free pending
    → Rep (discarded m x) free pending
discarded-Rep m x free pending r = record {
  stack = r.stack;
  available = r.available;
  links = r.links;
  counted = r.counted;
  free_once = r.free_once;
  queued_once = r.queued_once;
  apart = r.apart;
}

-- Waiting for a request that is answered and unlocked returns its status and frees its slot.
pub qtz_wait-Rep :
    (m : Mailbox) (x : ℕ) (free pending : List ℕ) (t : Timeout)
    → Rep m free pending
    → Outside m free pending x
    → (m.message_slots.flags x).is_ready ≡ true
    → (m.message_slots.flags x).not_preserved ≡ true
    → (m' : Mailbox) × (qtz_wait m x t ≡ acquired (m.message_slots.status x, m') [])
      × Rep m' (x ∷ free) pending
unfolding qtz_wait
qtz_wait-Rep m x free pending t r o a b = (
  destroy_request (discarded m x) x,
  rw (a, discard_request_eq m x a b) refl,
  destroy_request-Rep (discarded m x) x free pending (discarded-Rep m x free pending r) o,
)
