-- ===== src/Quartz/Log/Buffered/Thread.antt =====
-- src/quartz/internal.hpp, thread_proc of async_buffered_output_log: what the log's thread prints,
-- and the calls on a log in the order in which they take effect.
use jemsys.Base.{ℕ, zero, suc, Bool, true, false, Option, none, some, List, [], ◌∷◌, ◌++◌}
use jemsys.Support.Wake.{expired}
use jemsys.Quartz.Log.Buffered.{
  Log, Result, ok, waiting, ◌>>=◌, push_to_queue, try_pop_from_queue, try_pop_from_queue_for,
  Attempt, wrote, print_buffer, write_char, write_bytes, write_number, newline, make_log,
}

-- The log, the variable `buf` of its thread, and what has been printed.
pub record System : Type 0 where
  pub log : Log
  pub buf : ℕ
  pub printed : List ℕ

-- A pop that found a buffer prints it. `none` if that does not come to an end.
unfoldable pub print_popped :
    System → List Attempt → Option (Bool × Log × ℕ) → Option (Bool × System)
print_popped y attempts none = none
print_popped y attempts (some (false, s, p)) = some (false, record y { log = s; buf = p })
print_popped y attempts (some (true, s, p)) =
    elim (print_buffer (s.text p) (s.bytes_to_write p) attempts) [
      | none ↦ none
      | some bs ↦ some (true, record { log = s; buf = p; printed = y.printed ++ bs })
    ]

-- A round of the loop: where nothing is queued, it waits until the time is up.
unfoldable pub round : System → List Attempt → Option (Bool × System)
unfolding print_popped
round y attempts = print_popped y attempts (try_pop_from_queue_for y.buf y.log (expired ∷ []))

-- The second loop, once the thread is asked to stop.
unfoldable pub drain : ℕ → System → Option System
unfolding print_popped
drain zero y = none
drain (suc fuel) y = elim (print_popped y (wrote ∷ []) (try_pop_from_queue y.buf y.log)) [
  | none ↦ none
  | some (false, z) ↦ some z
  | some (true, z) ↦ drain fuel z
]

-- The calls of `write`, `flush` and `newline`, and the rounds of the thread.
pub data Call : Type 0 where
  char : ℕ → Call
  text : List ℕ → Call
  number : List ℕ → Call
  line : Call
  flush : Call
  turn : Call

unfoldable pub finished : System → Option (Bool × System) → Result System
finished y none = waiting
finished y (some (b, z)) = ok z

unfoldable pub step : Call → System → Result System
unfolding round finished
step (char c) y = write_char c y.log >>= λ s. ok (record y { log = s })
step (text bs) y = write_bytes bs y.log >>= λ s. ok (record y { log = s })
step (number digits) y = write_number digits y.log >>= λ s. ok (record y { log = s })
step line y = newline y.log >>= λ s. ok (record y { log = s })
step flush y = push_to_queue y.log >>= λ s. ok (record y { log = s })
step turn y = finished y (round y (wrote ∷ []))

unfoldable pub run : List Call → System → Result System
unfolding step
run [] y = ok y
run (c ∷ cs) y = step c y >>= λ z. run cs z

-- A new log and its thread, before they do anything.
unfoldable pub start : (ℕ → ℕ) → ℕ → (ℕ → ℕ → ℕ) → ℕ → ℕ → System
unfolding make_log
start fresh_next fresh_bytes fresh_text size count = record {
  log = make_log fresh_next fresh_bytes fresh_text size count;
  buf = 1;
  printed = [];
}

unfoldable pub drained : ℕ → System → Result System
unfolding drain
drained fuel y = elim (drain fuel y) [ none ↦ waiting | some z ↦ ok z ]

-- The destructor: the caller queues the last buffer, after a round of the thread that may have to
-- give it another one, and the thread prints what is left.
unfoldable pub close : System → Result System
unfolding step drained
close y = step turn y >>= λ z. step flush z >>= λ w. drained w.log.total_buffer_count w
