-- ===== src/Tests/Log.antt =====
-- The logs of src/quartz/internal.hpp at concrete inputs.
use jemsys.Base.{ℕ, ◌≡◌, refl, inl, some, none, List, [], ◌∷◌, arith}
use jemsys.Support.Counter.{try_decrease_for}
use jemsys.Quartz.Log.Buffered.{
  Result, ok, waiting, overrun, push_to_queue, write_bytes, write_char, try_pop_from_queue_for,
  print_buffer,
}
use jemsys.Quartz.Log.Buffered.Fifo.{outputs}
use jemsys.Quartz.Log.Buffered.Thread.{System, Call, start, run, close}
use jemsys.Quartz.Log.Buffered.Close.{close-run}
use jemsys.Quartz.Log.Big.{Log, load, make_log, write, newline, print_round}
use jemsys.Quartz.Log.Big.Prints.{Pending, write-prints}
use jemsys.Quartz.Log.Big.Wraps.{write-newline_faults}

-- A log of three buffers of eight bytes.
abbrev opened : System
opened = start (λ _. 0) 0 (λ _ _. 0) 8 3

-- Two buffers of text are queued, of which the thread prints one.
abbrev calls : List Call
calls =
    Call.text (97 ∷ 98 ∷ [])
    ∷ Call.flush
    ∷ Call.char 99
    ∷ Call.turn
    ∷ Call.line
    ∷ Call.turn
    ∷ Call.text (100 ∷ [])
    ∷ []

abbrev or_opened : Result System → System
or_opened (ok y) = y
or_opened waiting = opened
or_opened overrun = opened

abbrev used : System
used = or_opened (run calls opened)

close-run_example : (z : System) × (close used ≡ ok z) × (z.printed ≡ 97 ∷ 98 ∷ 99 ∷ 10 ∷ 100 ∷ [])
unfolding run write_bytes start push_to_queue write_char try_pop_from_queue_for try_decrease_for
    print_buffer jemsys.Quartz.Log.Buffered.newline outputs
close-run_example = close-run (λ _. 0) 0 (λ _ _. 0) 8 0 calls used (omega arith) refl

-- A new log with a buffer of 16 bytes, of which 4 are flushed.
abbrev fresh_log : Log
fresh_log = make_log (λ _. 0) 16

fresh_log-Pending : Pending fresh_log 0 0 []
unfolding make_log load
fresh_log-Pending = record {
  ends = refl;
  at = inl refl;
  read = refl;
  inside = omega arith;
  counted = refl;
}

write-prints_example :
    (t : Log) × (u : Log) × (k : ℕ) × (write (97 ∷ 98 ∷ 99 ∷ 100 ∷ 101 ∷ []) fresh_log ≡ some t)
    × (print_round (λ n. n) 0 t ≡ some (97 ∷ 98 ∷ 99 ∷ 100 ∷ 101 ∷ [], k, u))
    × Pending u u.cursor k []
unfolding make_log
write-prints_example =
    write-prints (λ n. n) fresh_log 0 0 [] (97 ∷ 98 ∷ 99 ∷ 100 ∷ 101 ∷ []) fresh_log-Pending
      (omega arith) (omega arith) (omega arith) refl

-- Everything up to offset 14 has been printed.
abbrev late_log : Log
late_log = record fresh_log { cursor = 14; print_cursor = 14 }

late_log-Pending : Pending late_log 14 14 []
unfolding make_log load
late_log-Pending = record {
  ends = refl;
  at = inl refl;
  read = refl;
  inside = omega arith;
  counted = refl;
}

write-newline_faults_example :
    (t : Log) × (u : Log) × (write (97 ∷ 98 ∷ 99 ∷ []) late_log ≡ some t)
    × (newline t ≡ some u)
    × (print_round (λ n. n) 14 u ≡ none)
unfolding make_log
write-newline_faults_example =
    write-newline_faults (λ n. n) late_log 14 [] (97 ∷ 98 ∷ 99 ∷ []) late_log-Pending (omega arith)
      (omega arith) (omega arith) (omega arith)
