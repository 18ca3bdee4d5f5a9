-- ===== src/Agate/Private/Receive.antt =====
-- Receiving and condemning messages of a private mailbox, and where their slots go.
use jemsys.Base.{
  ℕ, ◌≡◌, ◌≢◌, refl, sym, ◌∙◌, subst, inl, inr, ◌==◌, if◌then◌else◌, true, false, not, some, List,
  ◌∷◌, arith, update, Stack, Links, member-Fresh, Disjoint-tail, Disjoint-head, Stack-push,
  Links-update, Bool-cases, eq-cases,
}
use jemsys.Agate.Message.{success, Slots, read_msg, cleanup_message, set_condemned, reset_in_use}
use jemsys.Agate.Private.{PrivateMailbox, receive, return_message, free_hold, condemn}
use jemsys.Agate.Private.Rep.{Rep, Outside}

-- A slot in nobody's list, once cleaned up, goes to the top of the free stack.
returned-Rep :
    (m : PrivateMailbox) (x : ℕ) (free pending : List ℕ) (s : Slots)
    → Rep m free pending
    → Outside m free pending x
    → s.next ≡ m.slots.next
    → ((y : ℕ) → y ≢ x → (s.flags y).in_use ≡ (m.slots.flags y).in_use)
    → (s.flags x).in_use ≡ false
    → Rep (return_message (record m { slots = s }) x) (x ∷ free) pending
unfolding return_message
returned-Rep m x free pending s r (ff, np, fp) n u o = record {
  stack =
      subst (λ nx. Stack (update nx x m.next_free_slot) x (x ∷ free)) (sym n)
        (Stack-push _ _ free x ff r.stack);
  available = omega (arith, r.available);
  links =
      subst
        (λ nx.
          Links (update nx x m.next_free_slot) m.prev_received_message pending
            m.prev_queued_message)
        (sym n) (Links-update _ _ pending _ x _ np fp r.links);
  counted = r.counted;
  free_once = (ff, r.free_once);
  queued_once = r.queued_once;
  apart = ((np, fp), r.apart);
  flagged = λ y ny. elim (eq-cases y x) [
    | inl e ↦ rw e (o ∙ sym (member-Fresh x pending fp))
    | inr e ↦ u y e ∙ r.flagged y ny
  ];
}

-- What `cleanup_message` does to the links and to the flag in_use.
pub next-cleanup_message : (s : Slots) (x : ℕ) → (cleanup_message s x).next ≡ s.next
unfolding cleanup_message
next-cleanup_message s x = ground arith

pub in_use-cleanup_message :
    (s : Slots) (x y : ℕ)
    → ((cleanup_message s x).flags y).in_use ≡ (if x == y then false else (s.flags y).in_use)
unfolding cleanup_message
in_use-cleanup_message s x y = ground arith

-- The free stack once the hold on `x` is released.
abbrev pub released : PrivateMailbox → ℕ → List ℕ → List ℕ
released m x free = if (m.slots.flags x).is_condemned then x ∷ free else free

-- The mailbox once the hold on the last received message is released and `x` is the one on hold.
abbrev unheld : PrivateMailbox → ℕ → PrivateMailbox
unheld m x = record m {
  slots = (reset_in_use m.slots m.prev_received_message).1;
  prev_received_message = x;
}

unheld-Rep :
    (m : PrivateMailbox) (x : ℕ) (free pending : List ℕ)
    → Rep m free (x ∷ pending)
    → Rep (unheld m x) free pending
unfolding reset_in_use
unheld-Rep m x free pending r = record {
  stack = r.stack;
  available = r.available;
  links = r.links.1;
  counted = omega (arith, r.counted);
  free_once = r.free_once;
  queued_once = r.queued_once.1;
  apart = Disjoint-tail free m.prev_received_message (x ∷ pending) r.apart;
  flagged = λ y n. elim (eq-cases y m.prev_received_message) [
    | inl e ↦ rw e (ground (arith, member-Fresh m.prev_received_message pending r.queued_once.0.1))
    | inr e ↦ ground (arith, r.flagged y e)
  ];
}

in_use-reset : (s : Slots) (x : ℕ) → ((reset_in_use s x).1.flags x).in_use ≡ false
unfolding reset_in_use
in_use-reset s x = ground arith

free_hold_eq :
    (m : PrivateMailbox) (x : ℕ)
    → free_hold m x ≡ (
        if (m.slots.flags x).is_condemned
        then return_message (record m { slots = cleanup_message (reset_in_use m.slots x).1 x }) x
        else record m { slots = (reset_in_use m.slots x).1 })
unfolding free_hold reset_in_use
free_hold_eq m x = refl

-- The next message becomes the one on hold, and the last one leaves the queue: to the free slots,
-- if the receiver has condemned it.
free_hold-Rep :
    (m : PrivateMailbox) (x : ℕ) (free pending : List ℕ)
    → Rep m free (x ∷ pending)
    → Rep
        (record (free_hold m m.prev_received_message) { prev_received_message = x })
        (released m m.prev_received_message free)
        pending
unfolding return_message
free_hold-Rep m x free pending r = elim (Bool-cases (m.slots.flags p).is_condemned) [
  | inl c ↦ rw (free_hold_eq m m.prev_received_message, c) back
  | inr c ↦ rw (free_hold_eq m m.prev_received_message, c) (unheld-Rep m x free pending r)
]
  where
    p : ℕ
    p = m.prev_received_message

    s : Slots
    s = (reset_in_use m.slots m.prev_received_message).1

    back :
        Rep
          (return_message (record (unheld m x) { slots = cleanup_message s p }) p)
          (p ∷ free)
          pending
    back =
        returned-Rep (unheld m x) p free pending (cleanup_message s p)
          (unheld-Rep m x free pending r)
          (Disjoint-head free p (x ∷ pending) r.apart, r.queued_once.0.0, r.queued_once.0.1)
          (next-cleanup_message s p) (λ y n. ground (arith, in_use-cleanup_message s p y))
          (ground (arith, in_use-cleanup_message s p p))

read_msg-free_hold :
    (m : PrivateMailbox) (p x : ℕ) → p ≢ x → read_msg (free_hold m p).slots x ≡ read_msg m.slots x
unfolding read_msg free_hold return_message cleanup_message reset_in_use
read_msg-free_hold m p x n = ground arith

receive_eq :
    (m : PrivateMailbox) (x : ℕ) (free pending : List ℕ)
    → Rep m free (x ∷ pending)
    → receive m ≡ (
      success,
      some (read_msg m.slots x),
      record (free_hold m m.prev_received_message) { prev_received_message = x },
    )
unfolding receive
receive_eq m x free pending r =
    ground (
      arith,
      r.counted,
      r.links.0,
      read_msg-free_hold m m.prev_received_message x r.queued_once.0.0,
    )

-- With a message pending, `receive` takes the oldest one.
pub receive-Rep :
    (m : PrivateMailbox) (x : ℕ) (free pending : List ℕ)
    → Rep m free (x ∷ pending)
    → (m' : PrivateMailbox) × (receive m ≡ (success, some (read_msg m.slots x), m'))
      × Rep m' (released m m.prev_received_message free) pending
      × (m'.prev_received_message ≡ x)
receive-Rep m x free pending r = (
  record (free_hold m m.prev_received_message) { prev_received_message = x },
  receive_eq m x free pending r,
  free_hold-Rep m x free pending r,
  refl,
)

condemn_eq :
    (m : PrivateMailbox) (x : ℕ)
    → condemn m x ≡ (
        if not (m.slots.flags x).in_use
        then return_message (record m { slots = cleanup_message (set_condemned m.slots x).1 x }) x
        else record m { slots = (set_condemned m.slots x).1 })
unfolding condemn set_condemned
condemn_eq m x = refl

in_use-set_condemned :
    (s : Slots) (x y : ℕ) → ((set_condemned s x).1.flags y).in_use ≡ (s.flags y).in_use
unfolding set_condemned
in_use-set_condemned s x y = ground arith

next-set_condemned : (s : Slots) (x : ℕ) → (set_condemned s x).1.next ≡ s.next
unfolding set_condemned
next-set_condemned s x = refl

-- A receiver that is done with a message whose successor it has received frees the slot at once.
pub condemn-Rep :
    (m : PrivateMailbox) (x : ℕ) (free pending : List ℕ)
    → Rep m free pending
    → Outside m free pending x
    → Rep (condemn m x) (x ∷ free) pending
condemn-Rep m x free pending r o = rw (condemn_eq m x, idle) freed
  where
    idle : (m.slots.flags x).in_use ≡ false
    idle = r.flagged x o.1 ∙ member-Fresh x pending o.2

    s : Slots
    s = (set_condemned m.slots x).1

    freed : Rep (return_message (record m { slots = cleanup_message s x }) x) (x ∷ free) pending
    freed =
        returned-Rep m x free pending (cleanup_message s x) r o
          (next-cleanup_message s x ∙ next-set_condemned m.slots x)
          (λ y n. ground (arith, in_use-cleanup_message s x y, in_use-set_condemned m.slots x y))
          (ground (arith, in_use-cleanup_message s x x))

-- Of the message received last, the slot stays on hold: it is only marked.
pub condemn_held-Rep :
    (m : PrivateMailbox) (free pending : List ℕ)
    → Rep m free pending
    → (m.slots.flags m.prev_received_message).in_use ≡ true
    → Rep (condemn m m.prev_received_message) free pending
      × (((condemn m m.prev_received_message).slots.flags m.prev_received_message).is_condemned
          ≡ true)
unfolding condemn set_condemned
condemn_held-Rep m free pending r h =
    rw (h, condemn)
      (
        record {
          stack = r.stack;
          available = r.available;
          links = r.links;
          counted = r.counted;
          free_once = r.free_once;
          queued_once = r.queued_once;
          apart = r.apart;
          flagged = λ x n. ground (arith, r.flagged x n);
        },
        ground arith,
      )
