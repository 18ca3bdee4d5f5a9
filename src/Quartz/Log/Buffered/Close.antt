-- ===== src/Quartz/Log/Buffered/Close.antt =====
-- The end of an async_buffered_output_log of src/quartz/internal.hpp: its thread prints all.
use mathlib.Core.List.{append-nil}
use jemsys.Base.{
  ℕ, zero, suc, ◌<◌, ◌≡◌, refl, sym, ap, ◌∙◌, true, false, some, List, [], ◌∷◌, ◌++◌, arith, length,
  length-append,
}
use jemsys.Support.Counter.{u32}
use jemsys.Support.Counter.Laws.{try_decrease-none}
use jemsys.Quartz.Log.Buffered.{
  Log, ok, ◌>>=◌, popped, release_to_pool, try_pop_from_queue, pop_outcome, bytes, wrote, enqueue,
}
use jemsys.Quartz.Log.Buffered.Contents.{queue_text, current_text}
use jemsys.Quartz.Log.Buffered.Rep.{
  pushed, push_to_queue_eq, push_to_queue-Rep, try_pop_from_queue_eq,
}
use jemsys.Quartz.Log.Buffered.Writes.{pushed-unprinted}
use jemsys.Quartz.Log.Buffered.Thread.{
  System, print_popped, Call, step, finished, run, drain, drained, start, close,
}
use jemsys.Quartz.Log.Buffered.Fifo.{
  Ready, after, after-Ready, idle, idle-Ready, round-idle, round-after, print_popped_eq, outputs,
  run-Sound,
}
use jemsys.Quartz.Log.Buffered.Start.{start-Sound}

current_text-empty : (s : Log) → s.current_cursor ≡ 0 → current_text s ≡ []
unfolding current_text bytes
current_text-empty s e = rw e refl

pop-idle :
    (y : System) (free written : List ℕ)
    → Ready y free [] written
    → print_popped y (wrote ∷ []) (try_pop_from_queue y.buf y.log) ≡ some (false, idle y)
unfolding try_pop_from_queue print_popped
pop-idle y free written r =
    rw ((try_decrease-none y.log.queued_buffers [] r.rep.counted).0, pop_outcome, print_popped) refl

pop-after :
    (y : System) (free : List ℕ) (x : ℕ) (queue written : List ℕ)
    → Ready y free (x ∷ queue) written
    → print_popped y (wrote ∷ []) (try_pop_from_queue y.buf y.log) ≡ some (true, after y)
pop-after y free x queue written r =
    ap (print_popped y (wrote ∷ [])) (try_pop_from_queue_eq y.log y.buf x free queue r.rep)
    ∙ print_popped_eq y

after-cursor : (y : System) → (after y).log.current_cursor ≡ y.log.current_cursor
unfolding popped release_to_pool
after-cursor y = refl

-- With nothing in the current buffer, the second loop of the thread ends within as many rounds as
-- there are buffers in the queue, and one, and has then printed everything.
drain-prints :
    (fuel : ℕ) (y : System) (free queue written : List ℕ)
    → Ready y free queue written
    → y.log.current_cursor ≡ 0
    → length queue < fuel
    → (z : System) × (drain fuel y ≡ some z) × (z.printed ≡ written)
unfolding drain queue_text
drain-prints zero y free queue written r c h = absurd (omega arith)
drain-prints (suc fuel) y free [] written r c h = (
  idle y,
  rw (pop-idle y free written r, drain) refl,
  sym (append-nil y.printed)
      ∙ ap (λ u. y.printed ++ u) (sym (current_text-empty y.log c))
      ∙ r.content,
)
drain-prints (suc fuel) y free (x ∷ queue) written r c h =
    let (z, ends, all) =
      drain-prints fuel (after y) (y.buf ∷ free) queue written
        (after-Ready y free x queue written r) (after-cursor y ∙ c) (omega arith) in
    (z, rw (pop-after y free x queue written r, drain) ends, all)

-- The log once the last buffer is queued.
flushed : System → System
flushed y = record y { log = pushed y.log }

flushed-Ready :
    (y : System) (x : ℕ) (free queue written : List ℕ)
    → Ready y (x ∷ free) queue written
    → Ready (flushed y) free (queue ++ y.log.current_buffer ∷ []) written
unfolding flushed
flushed-Ready y x free queue written r = record {
  rep = push_to_queue-Rep y.log y.buf x free queue r.rep;
  content = ap (λ u. y.printed ++ u) (pushed-unprinted y.log queue r.rep.outside.1.1) ∙ r.content;
}

flushed-kept :
    (y : System)
    → ((flushed y).log.current_cursor ≡ 0)
      × ((flushed y).log.total_buffer_count ≡ y.log.total_buffer_count)
unfolding flushed enqueue
flushed-kept y = (refl, refl)

-- With a buffer in the pool, the last flush and the thread's second loop print everything.
flush-prints :
    (y : System) (x : ℕ) (free queue written : List ℕ)
    → Ready y (x ∷ free) queue written
    → (z : System) × ((step Call.flush y >>= λ w. drained w.log.total_buffer_count w) ≡ ok z)
      × (z.printed ≡ written)
unfolding step drained flushed
flush-prints y x free queue written r =
    let made = push_to_queue_eq y.log y.buf x free queue r.rep in
    let kept = flushed-kept y in
    let (z, ends, all) =
      drain-prints (flushed y).log.total_buffer_count (flushed y) free
        (queue ++ y.log.current_buffer ∷ []) written (flushed-Ready y x free queue written r) kept.0
        (omega (arith, kept.1, r.rep.whole, length-append queue (y.log.current_buffer ∷ []))) in
    (z, rw made (rw (ends, drained) refl), all)

-- A round leaves a buffer in the pool.
close-prints :
    (y : System) (free queue written : List ℕ)
    → Ready y free queue written
    → (z : System) × (close y ≡ ok z) × (z.printed ≡ written)
unfolding close step finished
close-prints y [] [] written r = absurd (omega (arith, r.rep.whole, r.rep.enough))
close-prints y (x ∷ free) [] written r =
    let (z, ends, all) =
      flush-prints (idle y) x free [] written (idle-Ready y (x ∷ free) written r) in
    (z, rw (round-idle y (x ∷ free) written r, finished) ends, all)
close-prints y free (x ∷ queue) written r =
    let (z, ends, all) =
      flush-prints (after y) y.buf free queue written (after-Ready y free x queue written r) in
    (z, rw (round-after y free x queue written r, finished) ends, all)

-- A log of three to 2^32 - 1 buffers, after any calls of `write`, `flush` and `newline` that
-- return, with rounds of its thread between them, of which each call of WriteFile writes
-- everything: closing it comes to an end, and then what the calls put into buffers has been
-- printed, in order and once. That is every byte of a text or a number, a line end for `newline`,
-- a character that `write` is given unless it is a line end, and nothing for that, which `write`
-- drops.
pub close-run :
    (fresh_next : ℕ → ℕ) (fresh_bytes : ℕ) (fresh_text : ℕ → ℕ → ℕ) (size n : ℕ) (calls : List Call)
    (y : System)
    → suc (suc (suc n)) < u32
    → run calls (start fresh_next fresh_bytes fresh_text size (suc (suc (suc n)))) ≡ ok y
    → (z : System) × (close y ≡ ok z) × (z.printed ≡ outputs calls)
close-run fresh_next fresh_bytes fresh_text size n calls y h e =
    let o =
      run-Sound calls (start fresh_next fresh_bytes fresh_text size (suc (suc (suc n)))) y []
        (start-Sound fresh_next fresh_bytes fresh_text size n h) e in
    close-prints y o.free o.queue (outputs calls) o.ready
