-- ===== src/Quartz/Log/Big/Wraps.antt =====
-- Where big_buffered_log of src/quartz/internal.hpp goes wrong: text that runs over the end of the
-- buffer before it is long enough to be flushed.
use jemsys.Base.{
  ℕ, ◌+◌, ◌-◌, ◌≤◌, ◌<◌, ◌≡◌, refl, true, false, ltb, leb, none, some, List, [], ◌∷◌, arith, length,
}
use jemsys.Quartz.Log.Big.{Log, wrap, normalize, write, newline, print_upto, print_round}
use jemsys.Quartz.Log.Big.Prints.{Pending, wrote, raw_write_string_eq, flushed, flush_eq}

normalize-wrap :
    (s : Log)
    → s.chars_written < s.flush_limit
    → s.buffer_size ≤ s.cursor
    → normalize s ≡ some (record s { cursor = s.cursor - s.buffer_size })
unfolding normalize wrap
normalize-wrap s h over =
    let short : leb s.flush_limit s.chars_written ≡ false = ground arith in
    let past : leb s.buffer_size s.cursor ≡ true = ground arith in rw (short, past) refl

write-wrap :
    (bs : List ℕ) (s : Log)
    → 0 < length bs
    → s.chars_written + length bs < s.flush_limit
    → s.buffer_size ≤ s.cursor + length bs
    → s.cursor + length bs ≤ s.buffer_size + s.buffer_size
    → write bs s ≡ some (record (wrote bs s) { cursor = s.cursor + length bs - s.buffer_size })
unfolding write wrote
write-wrap [] s n h over fits = absurd (omega arith)
write-wrap (b ∷ bs) s n h over fits =
    rw (raw_write_string_eq (b ∷ bs) s fits, write) (normalize-wrap (wrote (b ∷ bs) s) h over)

-- The thread has caught up but for the text from its cursor on, and no byte of that stands behind
-- the end of the buffer. Bytes that reach the end while the whole is shorter than the flush limit,
-- which is less than the buffer: once they are written and the line is ended, the thread's next
-- round reads in front of the buffer.
pub write-newline_faults :
    (file : ℕ → ℕ) (s : Log) (b : ℕ) (text bs : List ℕ)
    → Pending s b b text
    → 0 < length bs
    → length text + length bs < s.flush_limit
    → s.flush_limit < s.buffer_size
    → s.buffer_size ≤ s.cursor + length bs
    → (t : Log) × (u : Log) × (write bs s ≡ some t)
      × (newline t ≡ some u)
      × (print_round file b u ≡ none)
unfolding newline print_round flushed wrote
write-newline_faults file s b text bs p n h l over =
    let t = record (wrote bs s) { cursor = s.cursor + length bs - s.buffer_size } in
    let behind : leb b (s.cursor + length bs - s.buffer_size + 1) ≡ false =
      ground (arith, p.ends) in
    let front : ltb b s.buffer_size ≡ true = ground (arith, p.ends, p.inside) in
    (
      t,
      flushed t,
      write-wrap bs s n (omega (arith, p.counted)) over (omega (arith, p.inside)),
      flush_eq t (omega (arith, p.inside)),
      rw (behind, front, print_upto) refl,
    )
