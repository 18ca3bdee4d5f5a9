-- ===== src/Quartz/Mailbox/Rep.antt =====
-- What a request mailbox holds: a stack of free slots, counted by the semaphore, and a queue of
-- requests behind the one that was taken last, counted by the tokens.
use jemsys.Base.{
  ℕ, suc, ◌+◌, ◌-◌, ◌<◌, ◌≡◌, ◌≢◌, refl, none, some, List, [], ◌∷◌, ◌++◌, arith, length,
  length-append, Fresh, Distinct, Disjoint, Stack, Links, Distinct-append, Disjoint-append,
  Stack-update, Stack-push, Links-update, Links-append, Links-Fresh, count_up, length-count_up,
  Distinct-count_up, Stack-count_up, Disjoint-count_up,
}
use jemsys.Support.Wake.{acquired, refused, blocked, expired}
use jemsys.Support.Semaphore.{
  Timeout, acquire_semaphore, release, acquire, try_acquire, try_acquire_until,
}
use jemsys.Support.Counter.{increase, u32}
use jemsys.Quartz.Request.{Requests}
use jemsys.Quartz.Mailbox.{
  Mailbox, make_mailbox, get_free_request_slot, acquire_slot, enqueue_request, destroy_request,
}

pub record Rep (m : Mailbox) (free pending : List ℕ) : Type 0 where
  pub stack : Stack m.message_slots.next_slot m.next_free_slot free
  pub available : m.slot_semaphore ≡ length free
  pub links : Links m.message_slots.next_slot m.previous_request pending m.last_queued_slot
  pub counted : m.queued_messages.mp_value + m.queued_messages.sc_value ≡ length pending
  pub free_once : Distinct free
  pub queued_once : Distinct (m.previous_request ∷ pending)
  pub apart : Disjoint free (m.previous_request ∷ pending)

-- A slot that is neither free nor in the queue is in the hands of a client.
abbrev pub Outside : Mailbox → List ℕ → List ℕ → ℕ → Type 0
Outside m free pending x = Fresh x free × (x ≢ m.previous_request) × Fresh x pending

-- A mailbox made with `n + 1` slots: `n` are free, the last is the initial predecessor.
pub request_mailbox-Rep :
    (n : ℕ) (memory : Requests) → Rep (make_mailbox (suc n) memory) (count_up 0 n) []
unfolding make_mailbox
request_mailbox-Rep n memory = record {
  stack = Stack-count_up 0 n;
  available = omega (arith, length-count_up 0 n);
  links = refl;
  counted = omega arith;
  free_once = Distinct-count_up 0 n;
  queued_once = (tt, tt);
  apart = Disjoint-count_up 0 n (suc n - 1) (omega arith);
}

-- The mailbox after a successful `acquire_slot`.
abbrev pub taken : Mailbox → Mailbox
taken m = record m {
  slot_semaphore = m.slot_semaphore - 1;
  next_free_slot = m.message_slots.next_slot m.next_free_slot;
}

taken-Rep :
    (m : Mailbox) (x : ℕ) (free pending : List ℕ)
    → Rep m (x ∷ free) pending
    → Rep (taken m) free pending
taken-Rep m x free pending r = record {
  stack = rw r.stack.0 r.stack.1;
  available = omega (arith, r.available);
  links = r.links;
  counted = r.counted;
  free_once = r.free_once.1;
  queued_once = r.queued_once;
  apart = r.apart.1;
}

-- With a slot free, `acquire_slot` hands out the one on top, whatever the timeout.
pub request_slot-Rep :
    (m : Mailbox) (x : ℕ) (free pending : List ℕ) (t : Timeout)
    → Rep m (x ∷ free) pending
    → (acquire_slot m t ≡ acquired (some x, taken m) (expired ∷ []))
      × Rep (taken m) free pending
      × Outside (taken m) free pending x
unfolding acquire_slot acquire_semaphore get_free_request_slot acquire try_acquire try_acquire_until
request_slot-Rep m x free pending t r =
    (eq t, taken-Rep m x free pending r, (r.free_once.0, r.apart.0.0, r.apart.0.1))
  where
    eq : (t : Timeout) → acquire_slot m t ≡ acquired (some x, taken m) (expired ∷ [])
    eq Timeout.wait = ground (arith, r.available, r.stack.0)
    eq Timeout.do_not_wait = ground (arith, r.available, r.stack.0)
    eq Timeout.within = ground (arith, r.available, r.stack.0)

-- With none free, the call is refused, and the mailbox unchanged, unless it may wait for ever.
pub request_slot-full :
    (m : Mailbox) (pending : List ℕ)
    → Rep m [] pending
    → (acquire_slot m Timeout.wait ≡ blocked)
      × (acquire_slot m Timeout.do_not_wait ≡ refused (none, m) (expired ∷ []))
      × (acquire_slot m Timeout.within ≡ refused (none, m) [])
unfolding acquire_slot acquire_semaphore acquire try_acquire try_acquire_until
request_slot-full m pending r =
    (ground (arith, r.available), ground (arith, r.available), ground (arith, r.available))

-- A request that is enqueued goes to the end of the queue.
pub enqueue_request-Rep :
    (m : Mailbox) (x : ℕ) (free pending : List ℕ)
    → Rep m free pending
    → length pending + 1 < u32
    → Outside m free pending x
    → Rep (enqueue_request m x) free (pending ++ x ∷ [])
unfolding enqueue_request increase
enqueue_request-Rep m x free pending r small (ff, np, fp) = record {
  stack = Stack-update _ _ free _ _ (Links-Fresh _ free _ pending _ r.apart r.links) r.stack;
  available = r.available;
  links = Links-append _ _ pending _ x r.queued_once r.links;
  counted = omega (arith, length-append pending (x ∷ []), r.counted);
  free_once = r.free_once;
  queued_once = Distinct-append (m.previous_request ∷ pending) x r.queued_once (np, fp);
  apart = Disjoint-append free (m.previous_request ∷ pending) x r.apart ff;
}

-- A slot that is in nobody's hands goes to the top of the free stack.
pub destroy_request-Rep :
    (m : Mailbox) (x : ℕ) (free pending : List ℕ)
    → Rep m free pending
    → Outside m free pending x
    → Rep (destroy_request m x) (x ∷ free) pending
unfolding destroy_request release
destroy_request-Rep m x free pending r (ff, np, fp) = record {
  stack = Stack-push _ _ free x ff r.stack;
  available = omega (arith, r.available);
  links = Links-update _ _ pending _ x _ np fp r.links;
  counted = r.counted;
  free_once = (ff, r.free_once);
  queued_once = r.queued_once;
  apart = ((np, fp), r.apart);
}
