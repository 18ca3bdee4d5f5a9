-- ===== src/Tests/Local.antt =====
-- Local mailboxes with four slots.
use jemsys.Base.{true, suc, ◌≡◌, refl, false, some, [], ◌∷◌, arith}
use jemsys.Support.Semaphore.{Timeout}
use jemsys.Agate.Message.{success, SendFlags, Slot, uninit_id, read_msg, init_slot}
use jemsys.Agate.Private.{init_slots}
use jemsys.Agate.Local.{replied}
use jemsys.Agate.Local.Mpsc
use jemsys.Agate.Local.Spmc
use jemsys.Agate.Local.Mpmc
use jemsys.Agate.Local.Race.{Memory, start, run, turn, access, linked, Lost, mpsc_send-overlapping}

abbrev plain : SendFlags
plain = record { must_check_result = false; ignore_result = false; fast_cleanup = false }

abbrev first : Slot
first = record { cookie = 0; id = 21 }

abbrev mpsc_fresh : Mpsc.MpscMailbox
mpsc_fresh = Mpsc.make_local_mpsc_mailbox 2 4 64

mpsc_fresh-Rep : Mpsc.Rep.Rep mpsc_fresh (1 ∷ 2 ∷ []) []
mpsc_fresh-Rep = Mpsc.Rep.mpsc_make-Rep 2 2 64

-- A sender holds slot 0.
abbrev mpsc_taken : Mpsc.MpscMailbox
mpsc_taken = Mpsc.get_free_slot mpsc_fresh 8 1

mpsc_taken-Rep : Mpsc.Rep.Rep mpsc_taken (2 ∷ []) []
unfolding Mpsc.make_local_mpsc_mailbox Mpsc.get_free_slot init_slot init_slots
mpsc_taken-Rep = record { chains = ground arith; available = refl; counted = ground arith }

mpsc_taken-Outside : Mpsc.Rep.Outside mpsc_taken (2 ∷ []) [] 0
unfolding Mpsc.make_local_mpsc_mailbox Mpsc.get_free_slot init_slot init_slots
mpsc_taken-Outside = ground arith

mpsc_sent-Rep : Mpsc.Rep.Rep (Mpsc.send mpsc_taken first plain).1 (2 ∷ []) (0 ∷ [])
mpsc_sent-Rep =
    Mpsc.Rep.mpsc_send-Rep mpsc_taken first plain (2 ∷ []) [] mpsc_taken-Rep mpsc_taken-Outside
      (ground arith)

mpsc_receive-Rep_example :
    (m' : Mpsc.MpscMailbox) × (Mpsc.receive (Mpsc.send mpsc_taken first plain).1 Timeout.within
      ≡ replied success (some (read_msg (Mpsc.send mpsc_taken first plain).1.slots 0)) m')
    × Mpsc.Rep.Rep m'
        (Mpsc.Rep.freed
          (Mpsc.send mpsc_taken first plain).1
          (Mpsc.send mpsc_taken first plain).1.previous_received_message
          (2 ∷ []))
        []
mpsc_receive-Rep_example =
    Mpsc.Rep.mpsc_receive-Rep (Mpsc.send mpsc_taken first plain).1 0 (2 ∷ []) [] Timeout.within
      mpsc_sent-Rep

abbrev spmc_fresh : Spmc.SpmcMailbox
spmc_fresh = Spmc.make_local_spmc_mailbox 2 4 64

spmc_fresh-Rep : Spmc.Rep.Rep spmc_fresh (1 ∷ 2 ∷ []) []
spmc_fresh-Rep = Spmc.Rep.spmc_make-Rep 2 2 64

spmc_acquire_slot-Rep_example :
    (m' : Spmc.SpmcMailbox) × (Spmc.acquire_slot spmc_fresh 8 Timeout.wait
      ≡ replied success (some (record { cookie = spmc_fresh.next_free_slot; id = uninit_id })) m')
    × Spmc.Rep.Rep m' (2 ∷ []) []
    × Spmc.Rep.Outside m' (2 ∷ []) [] spmc_fresh.next_free_slot
unfolding Spmc.make_local_spmc_mailbox
spmc_acquire_slot-Rep_example =
    Spmc.Rep.spmc_acquire_slot-Rep spmc_fresh 1 (2 ∷ []) [] 8 Timeout.wait spmc_fresh-Rep
      (ground arith)

-- A sender holds slot 0.
abbrev spmc_taken : Spmc.SpmcMailbox
spmc_taken = Spmc.get_free_slot spmc_fresh 8 1

spmc_taken-Rep : Spmc.Rep.Rep spmc_taken (2 ∷ []) []
unfolding Spmc.make_local_spmc_mailbox Spmc.get_free_slot init_slot init_slots
spmc_taken-Rep = record { chains = ground arith; available = refl; counted = ground arith }

spmc_taken-Outside : Spmc.Rep.Outside spmc_taken (2 ∷ []) [] 0
unfolding Spmc.make_local_spmc_mailbox Spmc.get_free_slot init_slot init_slots
spmc_taken-Outside = ground arith

spmc_sent-Rep : Spmc.Rep.Rep (Spmc.send spmc_taken first plain).1 (2 ∷ []) (0 ∷ [])
spmc_sent-Rep =
    Spmc.Rep.spmc_send-Rep spmc_taken first plain (2 ∷ []) [] spmc_taken-Rep spmc_taken-Outside

abbrev mpmc_fresh : Mpmc.MpmcMailbox
mpmc_fresh = Mpmc.make_local_mpmc_mailbox 2 2 4 64

mpmc_make-Rep_example : Mpmc.Rep.Rep mpmc_fresh (0 ∷ 1 ∷ 2 ∷ []) []
mpmc_make-Rep_example = Mpmc.Rep.mpmc_make-Rep 2 2 3 64

mpmc_fresh-Rep : Mpmc.Rep.Rep mpmc_fresh (0 ∷ 1 ∷ 2 ∷ []) []
mpmc_fresh-Rep = Mpmc.Rep.mpmc_make-Rep 2 2 3 64

mpmc_acquire_slot-Rep_example :
    (m' : Mpmc.MpmcMailbox) × (Mpmc.acquire_slot mpmc_fresh 8 Timeout.wait
      ≡ replied success (some (record { cookie = mpmc_fresh.next_free_slot; id = uninit_id })) m')
    × Mpmc.Rep.Rep m' (1 ∷ 2 ∷ []) []
    × Mpmc.Rep.Outside m' (1 ∷ 2 ∷ []) [] 0
unfolding Mpmc.make_local_mpmc_mailbox
mpmc_acquire_slot-Rep_example =
    Mpmc.Rep.mpmc_acquire_slot-Rep mpmc_fresh 0 (1 ∷ 2 ∷ []) [] 8 Timeout.wait mpmc_fresh-Rep
      (ground arith)

-- A sender holds slot 0.
abbrev mpmc_taken : Mpmc.MpmcMailbox
mpmc_taken = Mpmc.get_free_slot mpmc_fresh 8 2

mpmc_taken-Rep : Mpmc.Rep.Rep mpmc_taken (1 ∷ 2 ∷ []) []
unfolding Mpmc.make_local_mpmc_mailbox Mpmc.get_free_slot init_slot init_slots
mpmc_taken-Rep = record { chains = ground arith; available = refl; counted = ground arith }

mpmc_taken-Outside : Mpmc.Rep.Outside mpmc_taken (1 ∷ 2 ∷ []) [] 0
unfolding Mpmc.make_local_mpmc_mailbox Mpmc.get_free_slot init_slot init_slots
mpmc_taken-Outside = ground arith

mpmc_sent-Rep : Mpmc.Rep.Rep (Mpmc.send mpmc_taken first plain).1 (1 ∷ 2 ∷ []) (0 ∷ [])
mpmc_sent-Rep =
    Mpmc.Rep.mpmc_send-Rep mpmc_taken first plain (1 ∷ 2 ∷ []) [] mpmc_taken-Rep mpmc_taken-Outside

-- The last queued slot is 3, and both senders have linked, the sender of 1 later.
abbrev memory : Memory
memory =
    (run 0 1 (true ∷ false ∷ true ∷ false ∷ [])
      (start (record { next = suc; last_queued_slot = 3 }))).memory

mpsc_send-overlapping_example : Lost 3 0 1 (
    run 0 1
      (false ∷ false ∷ false ∷ [])
      (run 0 1 (false ∷ true ∷ []) (turn 0 1 true (linked memory))))
unfolding run turn access
mpsc_send-overlapping_example =
    mpsc_send-overlapping memory 0 1 (false ∷ true ∷ []) (λ e. ground (arith, e)) refl
