-- ===== src/Agate/Local/Spmc/Rep.antt =====
-- What a mailbox of spmc_mailbox.cpp holds between the calls, and how each call changes it.
use jemsys.Base.{
  ℕ, suc, ◌+◌, ◌-◌, ◌≡◌, ◌≢◌, refl, sym, ap, ◌∙◌, subst, ltb, if◌then◌else◌, Bool, true, false,
  some, List, [], ◌∷◌, ◌++◌, arith, length, length-append, Links, Links-count_up, count_up,
  length-count_up, Distinct-count_up, Disjoint-count_up,
}
use jemsys.Support.Semaphore.{Timeout, release}
use jemsys.Agate.Message.{
  success, error_mailbox_is_full, error_mailbox_is_empty, SendFlags, Slots, Slot, uninit_id,
  init_slot, prep_slot, read_msg, set_sent, cleanup_message, reset_in_use,
}
use jemsys.Agate.Private.Receive.{next-cleanup_message}
use jemsys.Agate.Local.{replied, with_permit_eq, denied}
use jemsys.Agate.Local.Chains.{Chains, Off, take-Chains, put-Chains, send-Chains, advance-Chains}
use jemsys.Agate.Local.Spmc.{
  SpmcMailbox, make_local_spmc_mailbox, acquire_slot, get_free_slot, send, return_message,
  free_hold, get_queued_message, received, receive,
}

-- `free` are the slots behind the first free one, which is handed out when another stands behind
-- it.
pub record Rep (m : SpmcMailbox) (free pending : List ℕ) : Type 0 where
  pub chains :
      Chains m.slots.next m.next_free_slot free m.last_free_slot m.previous_received_message pending
        m.last_queued_slot
  pub available : length free ≡ m.slot_semaphore
  pub counted : length pending ≡ m.queued_messages

abbrev pub Outside : SpmcMailbox → List ℕ → List ℕ → ℕ → Type 0
Outside m free pending x = Off m.next_free_slot free m.previous_received_message pending x

-- A mailbox made with `n + 2` slots: `n` permits, and one slot stays at the end of each chain.
pub spmc_make-Rep :
    (places n size : ℕ) → Rep (make_local_spmc_mailbox places (suc (suc n)) size) (count_up 1 n) []
unfolding make_local_spmc_mailbox
spmc_make-Rep places n size = record {
  chains = record {
    free_links = subst (Links suc 0 (count_up 1 n)) (omega arith) (Links-count_up 0 n);
    links = refl;
    free_once = Distinct-count_up 0 (suc n);
    queued_once = (tt, tt);
    apart = Disjoint-count_up 0 (suc n) (suc (suc n) - 1) (omega arith);
  };
  available = omega (arith, length-count_up 1 n);
  counted = refl;
}

-- Without a permit, `acquire_slot` reports a full mailbox or waits.
spmc_acquire_slot-full :
    (m : SpmcMailbox) (pending : List ℕ) (size : ℕ) (timeout : Timeout)
    → Rep m [] pending
    → ltb m.slot_size size ≡ false
    → acquire_slot m size timeout ≡ denied timeout error_mailbox_is_full m
unfolding acquire_slot
spmc_acquire_slot-full m pending size timeout r e = ground (
  arith,
  r.available,
  with_permit_eq m.slot_semaphore timeout error_mailbox_is_full m (λ permits.
      replied success (some (init_slot m.slots m.next_free_slot size).0)
        (get_free_slot m size permits)),
)

acquire_slot_eq :
    (m : SpmcMailbox) (x : ℕ) (free pending : List ℕ) (size : ℕ) (timeout : Timeout)
    → Rep m (x ∷ free) pending
    → ltb m.slot_size size ≡ false
    → acquire_slot m size timeout
      ≡ replied success
          (some (record { cookie = m.next_free_slot; id = uninit_id }))
          (get_free_slot m size (length free))
unfolding acquire_slot init_slot
acquire_slot_eq m x free pending size timeout r e = ground (
  arith,
  r.available,
  with_permit_eq m.slot_semaphore timeout error_mailbox_is_full m (λ permits.
      replied success (some (init_slot m.slots m.next_free_slot size).0)
        (get_free_slot m size permits)),
)

-- With a permit, `acquire_slot` with a size that fits hands out the first free slot, which is then
-- in neither chain.
pub spmc_acquire_slot-Rep :
    (m : SpmcMailbox) (x : ℕ) (free pending : List ℕ) (size : ℕ) (timeout : Timeout)
    → Rep m (x ∷ free) pending
    → ltb m.slot_size size ≡ false
    → (m' : SpmcMailbox) × (acquire_slot m size timeout
        ≡ replied success (some (record { cookie = m.next_free_slot; id = uninit_id })) m')
      × Rep m' free pending
      × Outside m' free pending m.next_free_slot
unfolding get_free_slot init_slot
spmc_acquire_slot-Rep m x free pending size timeout r e =
    let (next_x, c, o) = take-Chains x r.chains in
    (
      get_free_slot m size (length free),
      acquire_slot_eq m x free pending size timeout r e,
      record { chains = rw next_x c; available = refl; counted = r.counted },
      rw next_x o,
    )

-- `send` puts the message of a slot in a sender's hands behind those that are waiting.
pub spmc_send-Rep :
    (m : SpmcMailbox) (slot : Slot) (f : SendFlags) (free pending : List ℕ)
    → Rep m free pending
    → Outside m free pending slot.cookie
    → Rep (send m slot f).1 free (pending ++ slot.cookie ∷ [])
unfolding send set_sent prep_slot release
spmc_send-Rep m slot f free pending r o = record {
  chains = send-Chains slot.cookie r.chains o;
  available = r.available;
  counted = ground (arith, r.counted, length-append pending (slot.cookie ∷ []));
}

-- A slot of neither chain goes behind the last free one.
pub spmc_return_message-Rep :
    (m : SpmcMailbox) (x : ℕ) (free pending : List ℕ)
    → Rep m free pending
    → Outside m free pending x
    → Rep (return_message m x) (free ++ x ∷ []) pending
unfolding return_message release
spmc_return_message-Rep m x free pending r o = record {
  chains = put-Chains x r.chains o;
  available = ground (arith, r.available, length-append free (x ∷ []));
  counted = r.counted;
}

-- The free slots once the hold on `x` is released.
abbrev pub freed : SpmcMailbox → ℕ → List ℕ → List ℕ
freed m x free = if (m.slots.flags x).is_condemned then free ++ x ∷ [] else free

-- The mailbox once `x` is the message on hold and its predecessor has these slots.
abbrev moved : SpmcMailbox → ℕ → Slots → SpmcMailbox
moved m x s = record m { slots = s; previous_received_message = x }

free_hold_eq :
    (m : SpmcMailbox) (x y : ℕ)
    → record (free_hold m y) { previous_received_message = x } ≡ (
        if (m.slots.flags y).is_condemned
        then return_message (moved m x (cleanup_message (reset_in_use m.slots y).1 y)) y
        else moved m x (reset_in_use m.slots y).1)
unfolding free_hold reset_in_use return_message
free_hold_eq m x y = ground arith

moved-Rep :
    (m : SpmcMailbox) (x : ℕ) (free pending : List ℕ) (s : Slots)
    → Rep m free (x ∷ pending)
    → s.next ≡ m.slots.next
    → (left : ℕ) → left + 1 ≡ m.queued_messages
    → Rep (record (moved m x s) { queued_messages = left }) free pending
moved-Rep m x free pending s r n left e = record {
  chains =
      subst (λ nx. Chains nx m.next_free_slot free m.last_free_slot x pending m.last_queued_slot)
        (sym n) (advance-Chains x r.chains).1;
  available = r.available;
  counted = omega (arith, r.counted, e);
}

get_queued_message_eq :
    (m : SpmcMailbox) (x : ℕ)
    → m.slots.next m.previous_received_message ≡ x
    → get_queued_message m ≡ (
        if (m.slots.flags m.previous_received_message).is_condemned
        then return_message
            (moved m x (
              cleanup_message
                (reset_in_use m.slots m.previous_received_message).1
                m.previous_received_message))
            m.previous_received_message
        else moved m x (reset_in_use m.slots m.previous_received_message).1)
unfolding get_queued_message
get_queued_message_eq m x e =
    ap (λ y. record (free_hold m m.previous_received_message) { previous_received_message = y }) e
    ∙ free_hold_eq m x m.previous_received_message

if_Rep :
    (b : Bool) (m n : SpmcMailbox) (f g pending : List ℕ)
    → Rep m f pending
    → Rep n g pending
    → Rep (if b then m else n) (if b then f else g) pending
if_Rep true m n f g pending r s = r
if_Rep false m n f g pending r s = s

get_queued_message-Rep :
    (m : SpmcMailbox) (x : ℕ) (free pending : List ℕ) (left : ℕ)
    → Rep m free (x ∷ pending)
    → left + 1 ≡ m.queued_messages
    → Rep
        (get_queued_message (record m { queued_messages = left }))
        (freed m m.previous_received_message free)
        pending
unfolding reset_in_use
get_queued_message-Rep m x free pending left r e =
    subst (λ k. Rep k (freed m m.previous_received_message free) pending)
      (sym (
        get_queued_message_eq (record m { queued_messages = left }) x
          (advance-Chains x r.chains).0))
      (if_Rep (m.slots.flags m.previous_received_message).is_condemned _ _ _ _ pending
        (spmc_return_message-Rep _ m.previous_received_message free pending
          (moved-Rep m x free pending
            (cleanup_message (reset_in_use m.slots m.previous_received_message).1
              m.previous_received_message)
            r (next-cleanup_message _ m.previous_received_message) left e)
          (advance-Chains x r.chains).2)
        (moved-Rep m x free pending (reset_in_use m.slots m.previous_received_message).1 r refl left
          e))

received_eq :
    (m : SpmcMailbox) (x : ℕ) (left : ℕ)
    → m.slots.next m.previous_received_message ≡ x
    → m.previous_received_message ≢ x
    → received m left
      ≡ replied success
          (some (read_msg m.slots x))
          (get_queued_message (record m { queued_messages = left }))
unfolding received get_queued_message read_msg free_hold return_message cleanup_message reset_in_use
received_eq m x left e n = ground (arith, e)

receive_eq :
    (m : SpmcMailbox) (n : ℕ) (timeout : Timeout)
    → suc n ≡ m.queued_messages
    → receive m timeout ≡ received m n
unfolding receive
receive_eq m n timeout e =
    with_permit_eq m.queued_messages timeout error_mailbox_is_empty m (received m)
    ∙ ground (arith, e)

-- With a message waiting, `receive` takes the oldest one, however long it was ready to wait.
pub spmc_receive-Rep :
    (m : SpmcMailbox) (x : ℕ) (free pending : List ℕ) (timeout : Timeout)
    → Rep m free (x ∷ pending)
    → (m' : SpmcMailbox) × (receive m timeout ≡ replied success (some (read_msg m.slots x)) m')
      × Rep m' (freed m m.previous_received_message free) pending
spmc_receive-Rep m x free pending timeout r = (
  get_queued_message (record m { queued_messages = length pending }),
  receive_eq m (length pending) timeout r.counted
      ∙ received_eq m x (length pending) (advance-Chains x r.chains).0
          (advance-Chains x r.chains).2.1,
  get_queued_message-Rep m x free pending (length pending) r (omega (arith, r.counted)),
)
