-- ===== src/Quartz/Log/Buffered/Fifo.antt =====
-- What the thread of async_buffered_output_log of src/quartz/internal.hpp prints, for any calls.
use mathlib.Core.List.{append_assoc, append-nil}
use jemsys.Base.{
  ℕ, ◌≡◌, refl, sym, ap, ◌∙◌, subst, Bool, true, false, some, List, [], ◌∷◌, ◌++◌, arith,
}
use jemsys.Support.Wake.{expired}
use jemsys.Support.Counter.{settle}
use jemsys.Support.Counter.Laws.{try_decrease-none, try_decrease-ready, try_decrease_for-ready}
use jemsys.Quartz.Log.Buffered.{
  Log, Result, ok, ◌>>=◌, popped, release_to_pool, try_pop_from_queue_for, pop_outcome, bytes,
  wrote, print_buffer, push_to_queue, write_bytes, newline_code, newline, write_char, write_number,
}
use jemsys.Quartz.Log.Buffered.Contents.{queue_text, current_text, queue_text-of_same}
use jemsys.Quartz.Log.Buffered.Rep.{Rep, popped-Rep, taken, taken-tokens}
use jemsys.Quartz.Log.Buffered.Writes.{
  Held, unprinted, >>=-eq-ok, Result-inj, char_bytes, push_to_queue-Held, write_bytes-Held,
  write_char-Held, newline-Held, write_number-Held,
}
use jemsys.Quartz.Log.Buffered.Thread.{System, print_popped, round, finished, Call, step, run}

-- `written` has been written to the log, and what of it has not been printed is in its buffers.
pub record Ready (y : System) (free queue written : List ℕ) : Type 0 where
  pub rep : Rep y.log y.buf free queue
  pub content : y.printed ++ unprinted y.log queue ≡ written

-- The system after a pop that found a buffer.
abbrev pub after : System → System
after y =
    let (s, p) = popped y.buf y.log (taken y.log) in
    record { log = s; buf = p; printed = y.printed ++ bytes (s.text p) (s.bytes_to_write p) }

pub print_popped_eq :
    (y : System)
    → print_popped y
        (wrote ∷ [])
        (some (true, (popped y.buf y.log (taken y.log)).0, (popped y.buf y.log (taken y.log)).1))
      ≡ some (true, after y)
unfolding print_popped print_buffer
print_popped_eq y = refl

-- A pop prints the oldest buffer of the queue.
pub after-Ready :
    (y : System) (free : List ℕ) (x : ℕ) (queue written : List ℕ)
    → Ready y free (x ∷ queue) written
    → Ready (after y) (y.buf ∷ free) queue written
unfolding popped release_to_pool queue_text current_text
after-Ready y free x queue written r =
    let moved =
      popped-Rep y.log y.buf x free queue (taken y.log) r.rep
        (taken-tokens y.log y.buf x free queue r.rep) in
    let s = (popped y.buf y.log (taken y.log)).0 in
    let p = (popped y.buf y.log (taken y.log)).1 in
    let same : p ≡ x = moved.1 in
    let block = λ (k : ℕ). bytes (y.log.text k) (y.log.bytes_to_write k) in
    record {
      rep = subst (λ k. Rep s k (y.buf ∷ free) queue) (sym same) moved.0;
      content =
          append_assoc y.printed (block p) (unprinted s queue)
          ∙ ap (λ k. y.printed ++ (block k ++ unprinted s queue)) same
          ∙ ap (λ q. y.printed ++ (block x ++ (q ++ current_text y.log)))
              (queue_text-of_same y.log s queue refl refl)
          ∙ ap (λ u. y.printed ++ u)
              (sym (append_assoc (block x) (queue_text y.log queue) (current_text y.log)))
          ∙ r.content;
    }

-- The log after a pop that found nothing.
abbrev pub idle : System → System
idle y = record y { log = record (y.log) { queued_buffers = settle y.log.queued_buffers 1 } }

pub idle-Ready :
    (y : System) (free written : List ℕ) → Ready y free [] written → Ready (idle y) free [] written
unfolding queue_text current_text
idle-Ready y free written r = record {
  rep = record {
    stack = r.rep.stack;
    available = r.rep.available;
    links = r.rep.links;
    counted = (try_decrease-none y.log.queued_buffers [] r.rep.counted).2;
    whole = r.rep.whole;
    few = r.rep.few;
    enough = r.rep.enough;
    free_once = r.rep.free_once;
    queued_once = r.rep.queued_once;
    apart = r.rep.apart;
    outside = r.rep.outside;
  };
  content = r.content;
}

pub round-idle :
    (y : System) (free written : List ℕ)
    → Ready y free [] written
    → round y (wrote ∷ []) ≡ some (false, idle y)
unfolding round try_pop_from_queue_for
round-idle y free written r =
    rw ((try_decrease-none y.log.queued_buffers [] r.rep.counted).1, pop_outcome, print_popped) refl

pub round-after :
    (y : System) (free : List ℕ) (x : ℕ) (queue written : List ℕ)
    → Ready y free (x ∷ queue) written
    → round y (wrote ∷ []) ≡ some (true, after y)
unfolding round try_pop_from_queue_for
round-after y free x queue written r =
    let c = y.log.queued_buffers in
    let at_once =
      try_decrease_for-ready c (expired ∷ []) (omega (arith, r.rep.counted))
      ∙ try_decrease-ready c 1 (expired ∷ []) (omega (arith, r.rep.counted, r.rep.whole, r.rep.few))
          (omega (arith, r.rep.counted)) in
    rw (at_once, pop_outcome) (print_popped_eq y)

-- The bytes that a call writes, in the order in which they are to be printed.
unfoldable pub output : Call → List ℕ
output (Call.char c) = char_bytes c
output (Call.text bs) = bs
output (Call.number digits) = digits
output Call.line = newline_code ∷ []
output Call.flush = []
output Call.turn = []

pub record Sound (y : System) (written : List ℕ) : Type 0 where
  pub free : List ℕ
  pub queue : List ℕ
  pub ready : Ready y free queue written

-- Every round of the thread ends.
pub round-Sound :
    (y : System) (free queue written : List ℕ)
    → Ready y free queue written
    → (b : Bool) × (z : System) × (round y (wrote ∷ []) ≡ some (b, z)) × Sound z written
round-Sound y free [] written r = (
  false,
  idle y,
  round-idle y free written r,
  record { free = free; queue = []; ready = idle-Ready y free written r },
)
round-Sound y free (x ∷ queue) written r = (
  true,
  after y,
  round-after y free x queue written r,
  record { free = y.buf ∷ free; queue = queue; ready = after-Ready y free x queue written r },
)

-- A call of the writer that returns.
wrote-Sound :
    (m : Result Log) (y z : System) (written bs : List ℕ)
    → Sound y written
    → ((s : Log) → (text : List ℕ) → Held y.log y.buf text → m ≡ ok s → Held s y.buf (text ++ bs))
    → (m >>= λ s. ok (record y { log = s })) ≡ ok z
    → Sound z (written ++ bs)
wrote-Sound m y z written bs o keep e =
    let (s, made, same) = >>=-eq-ok m (λ s. ok (record y { log = s })) e in
    let held =
      keep s (unprinted y.log o.queue)
        (record { free = o.free; queue = o.queue; rep = o.ready.rep; content = refl }) made in
    subst (λ k. Sound k (written ++ bs)) (Result-inj same)
      (record {
        free = held.free;
        queue = held.queue;
        ready = record {
          rep = held.rep;
          content =
              ap (λ u. y.printed ++ u) held.content
              ∙ sym (append_assoc y.printed (unprinted y.log o.queue) bs)
              ∙ ap (λ w. w ++ bs) o.ready.content;
        };
      })

-- Every call that returns adds what it writes.
pub step-Sound :
    (c : Call) (y z : System) (written : List ℕ)
    → Sound y written
    → step c y ≡ ok z
    → Sound z (written ++ output c)
unfolding step output
step-Sound (Call.char c) y z written o e =
    wrote-Sound (write_char c y.log) y z written (char_bytes c) o
      (λ s text h made. write_char-Held c y.log s y.buf text h made) e
step-Sound (Call.text bs) y z written o e =
    wrote-Sound (write_bytes bs y.log) y z written bs o
      (λ s text h made. write_bytes-Held bs y.log s y.buf text h made) e
step-Sound (Call.number digits) y z written o e =
    wrote-Sound (write_number digits y.log) y z written digits o
      (λ s text h made. write_number-Held digits y.log s y.buf text h made) e
step-Sound Call.line y z written o e =
    wrote-Sound (newline y.log) y z written (newline_code ∷ []) o
      (λ s text h made. newline-Held y.log s y.buf text h made) e
step-Sound Call.flush y z written o e =
    wrote-Sound (push_to_queue y.log) y z written [] o
      (λ s text h made. rw (append-nil text) (push_to_queue-Held y.log s y.buf text h made)) e
step-Sound Call.turn y z written o e =
    let (b, w, done, sound) = round-Sound y o.free o.queue written o.ready in
    let same : w ≡ z = Result-inj (rw (done, finished) at e) in
    subst (λ k. Sound k (written ++ [])) same (rw (append-nil written) sound)

-- What some calls write.
unfoldable pub outputs : List Call → List ℕ
unfolding output
outputs [] = []
outputs (c ∷ cs) = output c ++ outputs cs

pub run-Sound :
    (cs : List Call) (y z : System) (written : List ℕ)
    → Sound y written
    → run cs y ≡ ok z
    → Sound z (written ++ outputs cs)
unfolding run outputs
run-Sound [] y z written o e =
    subst (λ k. Sound k (written ++ [])) (Result-inj e) (rw (append-nil written) o)
run-Sound (c ∷ cs) y z written o e =
    let (u, first, others) = >>=-eq-ok (step c y) (λ u. run cs u) e in
    subst (λ w. Sound z w) (append_assoc written (output c) (outputs cs))
      (run-Sound cs u z (written ++ output c) (step-Sound c y u written o first) others)
