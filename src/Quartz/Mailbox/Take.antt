-- ===== src/Quartz/Mailbox/Take.antt =====
-- The mailbox thread's side: the next request in the queue, and the slot of the one before it.
use jemsys.Base.{
  ℕ, suc, ◌+◌, ◌<◌, ◌≡◌, ◌≢◌, refl, sym, ◌∙◌, subst, ap, inl, inr, if◌then◌else◌, Bool, true, false,
  ◌&&◌, List, [], ◌∷◌, arith, length, update, Stack, Links, Disjoint-tail, Disjoint-head,
  Bool-cases,
}
use jemsys.Support.Wake.{acquired}
use jemsys.Support.Counter.{Counter, u32, take, settle}
use jemsys.Support.Counter.Laws.{tokens, decrease-ready}
use jemsys.Quartz.Request.{Requests, RequestFlags, lock, unlock}
use jemsys.Quartz.Mailbox.{
  Mailbox, destroy_request, lock_request, unlock_request, take_next_request,
  acquire_next_queued_request,
}
use jemsys.Quartz.Mailbox.Rep.{Rep, Outside, destroy_request-Rep}

-- Answered and discarded: both sides are done with the request.
abbrev pub dead : RequestFlags → Bool
dead f = f.is_ready && f.is_discarded

-- The free slots once the request before the next one is unlocked: its slot is free again if it was
-- answered and discarded.
abbrev pub released : Mailbox → List ℕ → List ℕ
released m free =
    if dead (m.message_slots.flags m.previous_request) then m.previous_request ∷ free else free

-- The head of the queue becomes the predecessor; the flags are any.
moved-Rep :
    (m : Mailbox) (c : Counter) (s : Requests) (x : ℕ) (free pending : List ℕ)
    → Rep m free (x ∷ pending)
    → tokens c + 1 ≡ tokens m.queued_messages
    → s.next_slot ≡ m.message_slots.next_slot
    → Rep (record m { queued_messages = c; message_slots = s; previous_request = x }) free pending
moved-Rep m c s x free pending r t e = record {
  stack = subst (λ n. Stack n m.next_free_slot free) (sym e) r.stack;
  available = r.available;
  links = subst (λ n. Links n x pending m.last_queued_slot) (sym e) r.links.1;
  counted = omega (arith, r.counted);
  free_once = r.free_once;
  queued_once = r.queued_once.1;
  apart = Disjoint-tail free m.previous_request (x ∷ pending) r.apart;
}

-- The slots after the next request is locked and the last one unlocked.
abbrev turned : Mailbox → ℕ → Requests
turned m x = record slots { flags = update locked p (unlock (locked p)).0 }
  where
    slots : Requests
    slots = m.message_slots

    p : ℕ
    p = m.previous_request

    locked : ℕ → RequestFlags
    locked = update slots.flags x (lock (slots.flags x))

flags-turn :
    (m : Mailbox) (x : ℕ)
    → m.previous_request ≢ x
    → (lock_request m x).message_slots.flags m.previous_request
      ≡ m.message_slots.flags m.previous_request
unfolding lock_request
flags-turn m x n = ground arith

next-turn :
    (m : Mailbox) (x : ℕ) → (lock_request m x).message_slots.next_slot ≡ m.message_slots.next_slot
unfolding lock_request
next-turn m x = refl

abbrev moved : Mailbox → ℕ → Mailbox
moved m x = record m { message_slots = turned m x; previous_request = x }

take_next_dead :
    (m : Mailbox) (x : ℕ)
    → m.message_slots.next_slot m.previous_request ≡ x
    → m.previous_request ≢ x
    → dead (m.message_slots.flags m.previous_request) ≡ true
    → take_next_request m ≡ (x, destroy_request (moved m x) m.previous_request)
unfolding take_next_request unlock_request lock_request unlock destroy_request
take_next_dead m x e n d = ground arith

take_next_alive :
    (m : Mailbox) (x : ℕ)
    → m.message_slots.next_slot m.previous_request ≡ x
    → m.previous_request ≢ x
    → dead (m.message_slots.flags m.previous_request) ≡ false
    → take_next_request m ≡ (x, moved m x)
unfolding take_next_request unlock_request lock_request unlock destroy_request
take_next_alive m x e n d = ground arith

locked-turn :
    (m : Mailbox) (x : ℕ) → m.previous_request ≢ x → ((turned m x).flags x).not_preserved ≡ false
unfolding lock
locked-turn m x n = ground arith

destroyed-turn :
    (m : Mailbox) (p x : ℕ)
    → p ≢ x
    → ((destroy_request m p).previous_request ≡ m.previous_request)
      × ((destroy_request m p).message_slots.flags x ≡ m.message_slots.flags x)
      × ((destroy_request m p).message_slots.message_kind x ≡ m.message_slots.message_kind x)
unfolding destroy_request
destroyed-turn m p x n = (refl, ground arith, ground arith)

-- What neither the lock nor the release of a slot touches.
abbrev pub Kept : Mailbox → Mailbox → Type 0
Kept m m' =
    (m'.message_slots.payload ≡ m.message_slots.payload)
    × (m'.message_slots.sender_object ≡ m.message_slots.sender_object)
    × (m'.effects ≡ m.effects)

destroy_request-Kept : (m : Mailbox) (p : ℕ) → Kept m (destroy_request m p)
unfolding destroy_request
destroy_request-Kept m p = (refl, refl, refl)

take_next-Rep :
    (m : Mailbox) (c : Counter) (x : ℕ) (free pending : List ℕ)
    → Rep m free (x ∷ pending)
    → tokens c + 1 ≡ tokens m.queued_messages
    → (m' : Mailbox) × (take_next_request (record m { queued_messages = c }) ≡ (x, m'))
      × Rep m' (released m free) pending
      × (m'.previous_request ≡ x)
      × ((m'.message_slots.flags x).not_preserved ≡ false)
      × (m'.message_slots.message_kind x ≡ m.message_slots.message_kind x)
      × Kept m m'
take_next-Rep m c x free pending r t =
    elim (Bool-cases (dead (m.message_slots.flags m.previous_request))) [
      | inl d ↦ rw d (
        destroy_request (moved m1 x) m.previous_request,
        take_next_dead m1 x r.links.0 r.queued_once.0.0 d,
        destroy_request-Rep (moved m1 x) m.previous_request free pending after outside,
        (destroyed-turn (moved m1 x) m.previous_request x r.queued_once.0.0).0,
        ap (λ (f : RequestFlags). f.not_preserved)
              (destroyed-turn (moved m1 x) m.previous_request x r.queued_once.0.0).1
            ∙ locked-turn m x r.queued_once.0.0,
        (destroyed-turn (moved m1 x) m.previous_request x r.queued_once.0.0).2,
        destroy_request-Kept (moved m1 x) m.previous_request,
      )
      | inr d ↦ rw d (
        moved m1 x,
        take_next_alive m1 x r.links.0 r.queued_once.0.0 d,
        after,
        refl,
        locked-turn m x r.queued_once.0.0,
        refl,
        (refl, refl, refl),
      )
    ]
  where
    m1 : Mailbox
    m1 = record m { queued_messages = c }

    after : Rep (moved m1 x) free pending
    after = moved-Rep m c (turned m1 x) x free pending r t refl

    outside : Outside (moved m1 x) free pending m.previous_request
    outside = (
      Disjoint-head free m.previous_request (x ∷ pending) r.apart,
      r.queued_once.0.0,
      r.queued_once.0.1,
    )

pub acquire_next-Kept :
    (m : Mailbox) (x : ℕ) (free pending : List ℕ)
    → Rep m free (x ∷ pending)
    → suc (length pending) < u32
    → (m' : Mailbox) × (acquire_next_queued_request m ≡ acquired (x, m') [])
      × Rep m' (released m free) pending
      × (m'.previous_request ≡ x)
      × ((m'.message_slots.flags x).not_preserved ≡ false)
      × (m'.message_slots.message_kind x ≡ m.message_slots.message_kind x)
      × Kept m m'
unfolding acquire_next_queued_request
acquire_next-Kept m x free pending r small =
    let (ready, left) =
      decrease-ready m.queued_messages 1 (omega (arith, r.counted)) (omega (arith, r.counted)) in
    let (m', e, r', p, l, k, kept) =
      take_next-Rep m (take (settle m.queued_messages 1) 1) x free pending r left in
    (m', rw (ready, acquire_next_queued_request, e) refl, r', p, l, k, kept)

-- With a request in the queue, and fewer than 2^32 there, the mailbox thread takes the oldest one
-- without waiting and locks it; its kind is the one it was sent with. The request before it keeps
-- its slot, unless it has been answered and discarded.
pub acquire_next_queued_request-Rep :
    (m : Mailbox) (x : ℕ) (free pending : List ℕ)
    → Rep m free (x ∷ pending)
    → suc (length pending) < u32
    → (m' : Mailbox) × (acquire_next_queued_request m ≡ acquired (x, m') [])
      × Rep m' (released m free) pending
      × (m'.previous_request ≡ x)
      × ((m'.message_slots.flags x).not_preserved ≡ false)
      × (m'.message_slots.message_kind x ≡ m.message_slots.message_kind x)
acquire_next_queued_request-Rep m x free pending r small =
    let (m', e, r', p, l, k, kept) = acquire_next-Kept m x free pending r small in
    (m', e, r', p, l, k)
