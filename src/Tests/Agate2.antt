-- ===== src/Tests/Agate2.antt =====
-- src/agate2 at concrete inputs.
use jemsys.Base.{
  ℕ, suc, ◌*◌, ◌^◌, ◌<◌, ◌≡◌, ◌≢◌, refl, Bool, true, false, none, some, List, [], ◌∷◌, arith, Links,
  Distinct, member, All,
}
use jemsys.Agate2.Async.{
  Memory, Async, unbound_flags, waiting_flags, data_attach, data_arrive, any_flag, and_flags,
}
use jemsys.Support.Semaphore.{Timeout}
use jemsys.Agate2.Async.Handle.{reset, is_waiting, wait, Status}
use jemsys.Agate2.Async.Waits.{wait-at_once}
use jemsys.Agate2.Async.Counts.{Answer, answers, answers-Counted, Counted}
use jemsys.Agate2.Async.Resets.{Restarted, reset-Restarted, reset-last}
use jemsys.Agate2.Pool.{
  Pool, alloc_block, free_block, lookup_slab, make_pool, empty_pool, make_new_slab, add_slab, grow,
  bit_ceil,
}
use jemsys.Agate2.Pool.Blocks.{allocs}
use jemsys.Agate2.Pool.Exhausted.{make_pool-allocs}
use jemsys.Agate2.Pool.Reuse.{alloc_block-free_block}
use jemsys.Agate2.Context.Page.{Cell, make_page, make_page-allocs, cell_size, full, cell_offset}
use jemsys.Agate2.Context.PageList.{
  PageList, make_list, push_front, push_back, pop_front, push_back-lost, push-Entries,
}
use jemsys.Agate2.Channel.Private.{
  no_flags, default_state, PrivateChannel, destroy_message, set_state, release_hold, condemn,
}
use jemsys.Agate2.Channel.Private.Lifecycle.{release_hold-condemn}
use jemsys.Agate2.Channel.{access, run, begin}
use jemsys.Agate2.Channel.Chain.{Done}
use jemsys.Agate2.Channel.Sends.{has_swapped, run-Links}

-- Data with three references, in which a waiter is counted.
abbrev shared_data : Memory
shared_data = record {
  cell = λ _. record {
    context_id = 1;
    ref_count = 3;
    waiter_ref_count = 1;
    attached_ref_count = 2;
    response_count = 0;
    current_key = 9;
    max_response_count = 2;
    is_shared = false;
  };
  live = λ _. true;
}

-- The same with one reference.
abbrev last_data : Memory
last_data = record shared_data { cell = λ a. record (shared_data.cell a) { ref_count = 1 } }

abbrev handle : Async
handle = record {
  context = 1;
  desired_response_count = 0;
  flags = unbound_flags;
  data_key = 0;
  address = 4;
}

abbrev two_answers : List Answer
two_answers = Answer.arrived 9 ∷ Answer.dropped 8 ∷ []

answers-Counted_example : Counted shared_data (answers shared_data 4 two_answers) 4 1 1
answers-Counted_example =
    answers-Counted shared_data 4 two_answers (omega arith) (omega arith) (omega arith)
      (omega arith)

reset-Restarted_example :
    (r : Memory × Async) × (reset shared_data handle 5 1 2 ≡ some r)
    × Restarted r.0 r.1 (shared_data.cell 4) 4 5 1 2
reset-Restarted_example = reset-Restarted shared_data handle 5 1 2 (omega arith)

idle : is_waiting handle ≡ false
unfolding is_waiting any_flag and_flags
idle = refl

reset-last_example :
    (r : Memory × Async) × (reset last_data handle 5 1 2 ≡ some r)
    × (r.1.address ≡ 4)
    × ((data_arrive (data_attach r.0 4 1).0 4 1).live 4 ≡ false)
reset-last_example = reset-last last_data handle 5 1 2 1 1 idle (omega arith) refl

make_pool-allocs_example :
    (p : Pool) × (allocs 8192 true 3 (make_pool 32 4 4096 true) ≡ some (p, 4128 ∷ 4160 ∷ 4192 ∷ []))
    × (alloc_block 8192 true p ≡ none)
make_pool-allocs_example = make_pool-allocs 32 2 4096 8192 true true (omega arith) (omega arith)

-- The first block of a new pool, freed.
abbrev new_pool : Pool
new_pool = make_pool 32 4 4096 true

in_slab : lookup_slab new_pool 4128 ≢ 0
unfolding make_pool make_new_slab add_slab grow empty_pool lookup_slab bit_ceil
in_slab = omega arith

few : suc (new_pool.available (lookup_slab new_pool 4128)) < 2 ^ 64
unfolding make_pool make_new_slab add_slab grow empty_pool lookup_slab bit_ceil
few = omega arith

alloc_block-free_block_example :
    (q : Pool) × (alloc_block 8192 true (free_block 4128 new_pool) ≡ some (q, 4128))
    × (q.available (lookup_slab new_pool 4128) ≡ new_pool.available (lookup_slab new_pool 4128))
    × (q.next_free (lookup_slab new_pool 4128) ≡ new_pool.next_free (lookup_slab new_pool 4128))
    × ((b : ℕ) → b ≢ 4128 → q.word b ≡ new_pool.word b)
    × ((s : ℕ)
        → s ≢ lookup_slab new_pool 4128
        → (q.available s ≡ new_pool.available s) × (q.next_free s ≡ new_pool.next_free s))
alloc_block-free_block_example = alloc_block-free_block 8192 true new_pool 4128 in_slab few

-- Two senders; the second one fails once and swaps first.
abbrev turns : List (ℕ × Bool)
turns =
    (5, false)
    ∷ (6, false)
    ∷ (6, false)
    ∷ (6, true)
    ∷ (6, false)
    ∷ (5, false)
    ∷ (5, false)
    ∷ (5, false)
    ∷ (6, false)
    ∷ (5, false)
    ∷ []

links_made :
    All
      (λ q. Done ((run turns (begin (λ _. 0) 1 0)).phase q))
      (run turns (begin (λ _. 0) 1 0)).swapped
unfolding run access begin
links_made = (tt, (tt, tt))

run-Links_example :
    let s = run turns (begin (λ _. 0) 1 0) in
    Links s.next 1 s.swapped s.last_queued_slot
    × Distinct (1 ∷ s.swapped)
    × ((a : ℕ) → member a s.swapped ≡ has_swapped (s.phase a))
run-Links_example = run-Links (λ _. 0) 1 0 turns (omega arith) links_made

-- Bound, waiting for a response that has not come.
abbrev waiter : Async
waiter = record handle { desired_response_count = 1; flags = waiting_flags }

wait-at_once_example :
    wait waiter Timeout.wait (record { value = 0; expired = false } ∷ [])
    ≡ some (waiter, Status.success)
wait-at_once_example = wait-at_once waiter Timeout.wait (record { value = 0; expired = false } ∷ [])

-- A page of four times 32 bytes.
abbrev fresh_cell : ℕ → Cell
fresh_cell _ = record { next_free_cell = 0; epoch = 0; flags = 0; this_index = 0 }

make_page-allocs_example :
    let r = jemsys.Agate2.Context.Page.allocs 3 (make_page fresh_cell (4 * cell_size) 0) in
    (r.1 ≡ 1 ∷ 2 ∷ 3 ∷ []) × (full r.0 ≡ true) × (cell_offset 3 ≡ 4 * cell_size)
make_page-allocs_example = make_page-allocs fresh_cell 2 0 (omega arith)

-- A list with the node 5.
abbrev one_page : PageList
one_page = push_front 5 make_list

push_back-lost_example :
    let r = push_back 7 one_page in
    let s = pop_front r in (s.1 ≡ 7) × (r.next 7 ≡ 0) × ((pop_front s.0).1 ≡ 7)
unfolding push_front make_list
push_back-lost_example =
    push_back-lost one_page 7 5 [] ((λ e. omega (arith, e)), ((λ e. omega (arith, e)), tt))
      (push-Entries make_list 5 (omega arith) ((refl, refl), (tt, tt))).0

-- Message 6 is on hold, and its asynchronous data stand at 4.
abbrev held_message : PrivateChannel
held_message = record {
  messages = record {
    next = λ x. suc x;
    return_handle = λ _. 0;
    async_data = λ _. some 4;
    async_data_key = λ _. 9;
    flags = λ _. no_flags;
    state = λ _. record default_state { is_on_hold = true };
    ref_count = λ _. 1;
    id = λ _. 0;
    payload_size = λ _. 8;
    inline_buffer = λ _ _. 3;
  };
  asyncs = record shared_data { cell = λ a. record (shared_data.cell a) { ref_count = 2 } };
  inline_buffer_size = 64;
  supports_out_of_line = false;
  available_slot_count = 2;
  queued_message_count = 0;
  next_free_slot = 7;
  prev_received_message = 5;
  prev_queued_message = 5;
}

release_hold-condemn_example :
    (condemn 6 held_message
      ≡ set_state 6 (record (held_message.messages.state 6) { is_condemned = true }) held_message)
    × (release_hold 6 held_message
        ≡ set_state 6 (record (held_message.messages.state 6) { is_on_hold = false }) held_message)
    × (release_hold 6 (condemn 6 held_message) ≡ destroy_message 6 held_message)
    × (condemn 6 (release_hold 6 held_message) ≡ destroy_message 6 held_message)
release_hold-condemn_example = release_hold-condemn 6 held_message refl refl
