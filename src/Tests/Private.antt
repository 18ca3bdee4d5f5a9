-- ===== src/Tests/Private.antt =====
-- A private mailbox with three slots.
use jemsys.Base.{◌≡◌, refl, false, some, [], ◌∷◌, arith}
use jemsys.Agate.Message.{
  success, SendFlags, Slot, read_msg, init_slot, set_sent, reset_in_use, cleanup_message,
}
use jemsys.Agate.Private.{
  PrivateMailbox, make_private_mailbox, init_slots, acquire_slot, send, receive, free_hold,
  return_message,
}
use jemsys.Agate.Private.Rep.{Rep, Outside, send-Rep}
use jemsys.Agate.Private.Receive.{released, receive-Rep}
use jemsys.Agate.Private.Fifo.{make_private_mailbox-Rep, send_all, receive_n, receive_n-send_all}

abbrev plain : SendFlags
plain = record { must_check_result = false; ignore_result = false; fast_cleanup = false }

abbrev fresh : PrivateMailbox
fresh = make_private_mailbox 3 64

fresh-Rep : Rep fresh (0 ∷ 1 ∷ []) []
fresh-Rep = make_private_mailbox-Rep 2 64

abbrev first : Slot
first = record { cookie = 0; id = 21 }

abbrev second : Slot
second = record { cookie = 1; id = 22 }

-- Both free slots are in the sender's hands.
abbrev emptied : PrivateMailbox
emptied = (acquire_slot (acquire_slot fresh 8).2 8).2

emptied-Rep : Rep emptied [] []
unfolding make_private_mailbox acquire_slot init_slot
emptied-Rep = record {
  stack = tt;
  available = refl;
  links = refl;
  counted = omega arith;
  free_once = tt;
  queued_once = (tt, tt);
  apart = tt;
  flagged = λ x n. refl;
}

emptied-Outside : Outside emptied [] [] 0
unfolding make_private_mailbox acquire_slot init_slot
emptied-Outside = (tt, (ground arith), tt)

emptied-Outside_second : Outside emptied [] [] 1
unfolding make_private_mailbox acquire_slot init_slot
emptied-Outside_second = (tt, (ground arith), tt)

sent-Rep : Rep (send emptied first plain).1 [] (0 ∷ [])
sent-Rep = send-Rep emptied first plain [] [] emptied-Rep emptied-Outside

receive-Rep_example :
    (m' : PrivateMailbox) × (receive (send emptied first plain).1
      ≡ (success, some (read_msg (send emptied first plain).1.slots 0), m'))
    × Rep m'
        (released
          (send emptied first plain).1
          (send emptied first plain).1.prev_received_message
          [])
        []
    × (m'.prev_received_message ≡ 0)
receive-Rep_example = receive-Rep (send emptied first plain).1 0 [] [] sent-Rep

receive_n-send_all_example : receive_n 2 (send_all emptied (second ∷ first ∷ []) plain) ≡ 1 ∷ 0 ∷ []
receive_n-send_all_example =
    receive_n-send_all emptied (second ∷ first ∷ []) plain [] emptied-Rep
      (((λ e. ground (arith, e)), tt), (tt, tt)) (emptied-Outside_second, (emptied-Outside, tt))

-- The message of slot 0 has been received, and is on hold.
abbrev held : PrivateMailbox
held = (receive (send emptied first plain).1).2

held-Rep : Rep held [] []
unfolding make_private_mailbox acquire_slot init_slot send set_sent receive free_hold reset_in_use
    read_msg cleanup_message return_message init_slots
held-Rep = record {
  stack = tt;
  available = refl;
  links = refl;
  counted = omega arith;
  free_once = tt;
  queued_once = (tt, tt);
  apart = tt;
  flagged = λ x n. ground arith;
}
