-- ===== src/Tests/Requests.antt =====
-- A request mailbox with three slots.
use jemsys.Base.{◌≡◌, ◌==◌, if◌then◌else◌, refl, true, false, some, none, [], ◌∷◌, arith}
use jemsys.Support.Wake.{acquired, expired}
use jemsys.Support.Semaphore.{Timeout}
use jemsys.Quartz.Request.{Payload, Requests, allocate_mailbox, success, fresh_flags, init}
use jemsys.Quartz.Request.Lifecycle.{
  locks, notifies, unlocks, discards, left, right, done, run, AtTheEnd, run-notifies,
}
use jemsys.Quartz.Mailbox.{
  Mailbox, Allocators, make_mailbox, enqueue_request, acquire_next_queued_request,
}
use jemsys.Quartz.Mailbox.Rep.{Rep, Outside, taken, request_mailbox-Rep, enqueue_request-Rep}
use jemsys.Quartz.Mailbox.Take.{released, acquire_next_queued_request-Rep}
use jemsys.Quartz.Mailbox.Process.{process_next_message, fill_request, qtz_send}
use jemsys.Quartz.Mailbox.Process.Laws.{Answered, process_next_message-Rep}
use jemsys.Quartz.Mailbox.Process.Client.{qtz_send-Rep, fill_request-Rep}
use jemsys.Quartz.Mailbox.Process.Defects.{Faulty}

-- The client discards the request while it is locked.
run-notifies_example : AtTheEnd (run fresh_flags (locks ∷ discards ∷ notifies ∷ unlocks ∷ []))
run-notifies_example = run-notifies (left (right (left (left done))))

abbrev request : Payload
request = record {
  exit_code = 0;
  start_time = 0;
  handle = 5;
  slots_address = 0;
  slot_size = 64;
  slot_count = 4;
  is_shared = false;
  message = [];
  callback = 0;
  user_data = 0;
}

abbrev zeroed : Requests
zeroed = record {
  next_slot = λ _. 0;
  message_kind = λ _. none;
  queue_priority = λ _. 0;
  flags = λ _. record { is_ready = false; is_discarded = false; not_preserved = false };
  status = λ _. success;
  sender_object = λ _. 0;
  from_foreign_process = λ _. false;
  payload = λ _. request;
}

abbrev fresh : Mailbox
fresh = make_mailbox 3 zeroed

fresh-Rep : Rep fresh (0 ∷ 1 ∷ []) []
fresh-Rep = request_mailbox-Rep 2 zeroed

qtz_send-Rep_example :
    (m' : Mailbox) × (qtz_send fresh false 9 0 allocate_mailbox request Timeout.wait
      ≡ acquired (some 0, m') (expired ∷ []))
    × Rep m' (1 ∷ []) (0 ∷ [])
    × (m'.message_slots.message_kind 0 ≡ some allocate_mailbox)
    × (m'.message_slots.queue_priority 0 ≡ (if 0 == 0 then fresh.default_priority else 0))
qtz_send-Rep_example =
    qtz_send-Rep fresh 0 (1 ∷ []) [] false 9 0 allocate_mailbox request Timeout.wait fresh-Rep
      (ground arith)

-- Both free slots are taken by clients.
abbrev emptied : Mailbox
emptied = taken (taken fresh)

emptied-Rep : Rep emptied [] []
unfolding make_mailbox init
emptied-Rep = record {
  stack = tt;
  available = refl;
  links = refl;
  counted = omega arith;
  free_once = tt;
  queued_once = (tt, tt);
  apart = tt;
}

emptied-Outside : Outside emptied [] [] 0
unfolding make_mailbox init
emptied-Outside = (tt, ground arith, tt)

-- Slot 0 has been answered and unlocked.
abbrev answered : Mailbox
answered = record emptied {
  message_slots = record slots {
    flags = λ _. record { is_ready = true; is_discarded = false; not_preserved = true };
  };
}
  where
    slots : Requests
    slots = emptied.message_slots

answered-Rep : Rep answered [] []
unfolding make_mailbox init
answered-Rep = record {
  stack = tt;
  available = refl;
  links = refl;
  counted = omega arith;
  free_once = tt;
  queued_once = (tt, tt);
  apart = tt;
}

-- A request for a mailbox waits in slot 0.
abbrev sent : Mailbox
sent = enqueue_request (fill_request emptied 0 false 9 0 allocate_mailbox request) 0

sent-Rep : Rep sent [] (0 ∷ [])
unfolding fill_request
sent-Rep =
    enqueue_request-Rep (fill_request emptied 0 false 9 0 allocate_mailbox request) 0 [] []
      (fill_request-Rep emptied 0 [] [] false 9 0 allocate_mailbox request emptied-Rep)
      (ground arith) emptied-Outside

acquire_next_queued_request-Rep_example :
    (m' : Mailbox) × (acquire_next_queued_request sent ≡ acquired (0, m') [])
    × Rep m' (released sent []) []
    × (m'.previous_request ≡ 0)
    × ((m'.message_slots.flags 0).not_preserved ≡ false)
    × (m'.message_slots.message_kind 0 ≡ sent.message_slots.message_kind 0)
acquire_next_queued_request-Rep_example =
    acquire_next_queued_request-Rep sent 0 [] [] sent-Rep (ground arith)

abbrev allocators : Allocators
allocators = record { block = some 7; memory = some 8 }

kind_sent : sent.message_slots.message_kind 0 ≡ some allocate_mailbox
unfolding fill_request enqueue_request
kind_sent = refl

sane : ¬ Faulty allocators allocate_mailbox (sent.message_slots.payload 0)
unfolding fill_request enqueue_request
sane f = ground (arith, f)

process_next_message-Rep_example :
    (m' : Mailbox) × (process_next_message allocators sent ≡ acquired (some m') [])
    × Rep m' (released sent []) []
    × (m'.previous_request ≡ 0)
    × Answered allocate_mailbox allocators sent m' 0
process_next_message-Rep_example =
    process_next_message-Rep allocators sent 0 allocate_mailbox [] [] sent-Rep (ground arith)
      kind_sent sane

-- There is a block, and no memory.
abbrev exhausted : Allocators
exhausted = record { block = some 7; memory = none }
