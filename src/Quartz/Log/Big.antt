-- ===== src/Quartz/Log/Big.antt =====
-- src/quartz/internal.hpp, class big_buffered_log: a buffer whose memory is mapped twice in a row,
-- so that a write may run over its end, and a thread that prints up to `print_buffer_end`. A
-- pointer is its distance from `buffer`; `none` is an access outside both mappings.
pub mod Mapped
pub mod Prints
pub mod Wraps
use mathlib.Core.Option
use jemsys.Base.{
  ℕ, zero, suc, ◌+◌, ◌-◌, ◌*◌, ◌/◌, Bool, true, false, ltb, leb, ◌==◌, ◌||◌, if◌then◌else◌, Option,
  none, some, List, [], ◌∷◌, length, update,
}

pub record Log : Type 0 where
  pub memory : ℕ → ℕ
  pub buffer_size : ℕ
  pub chars_written : ℕ
  pub flush_limit : ℕ
  pub cursor : ℕ
  pub print_cursor : ℕ
  pub print_buffer_end : Option ℕ

-- The byte of memory at an offset of the two mappings.
unfoldable pub place : ℕ → ℕ → ℕ
place size k = if ltb k size then k else k - size

-- memcpy to the offset `k`.
unfoldable pub store : ℕ → (ℕ → ℕ) → ℕ → List ℕ → ℕ → ℕ
unfolding place
store size memory k [] = memory
store size memory k (b ∷ bs) = store size (update memory (place size k) b) (suc k) bs

-- The `n` bytes from the offset `k` on.
unfoldable pub load : ℕ → (ℕ → ℕ) → ℕ → ℕ → List ℕ
unfolding place
load size memory k zero = []
load size memory k (suc n) = memory (place size k) ∷ load size memory (suc k) n

unfoldable pub raw_write_string : List ℕ → Log → Option Log
unfolding store
raw_write_string bs s =
    if ltb (s.buffer_size + s.buffer_size) (s.cursor + length bs)
    then none
    else some (record s {
      memory = store s.buffer_size s.memory s.cursor bs;
      chars_written = s.chars_written + length bs;
      cursor = s.cursor + length bs;
    })

abbrev pub newline_code : ℕ
newline_code = 10

unfoldable pub raw_write_char : ℕ → Log → Option Log
unfolding raw_write_string
raw_write_char c s = raw_write_string (c ∷ []) s

-- std::to_chars writes `digits` if they fit in front of what the thread has yet to print.
unfoldable pub raw_write_integer : List ℕ → Log → Option Log
unfolding raw_write_string
raw_write_integer digits s =
    let buffer_end =
      if leb s.print_cursor s.cursor then s.print_cursor + s.buffer_size else s.print_cursor in
    if ltb buffer_end (s.cursor + length digits) then some s else raw_write_string digits s

unfoldable pub flush : Log → Option Log
unfolding raw_write_char
flush s = elim (raw_write_char newline_code s) [
  | none ↦ none
  | some t ↦ some (record t { chars_written = 0; print_buffer_end = some t.cursor })
]

unfoldable pub wrap : Log → Log
wrap s = if leb s.buffer_size s.cursor then record s { cursor = s.cursor - s.buffer_size } else s

unfoldable pub normalize : Log → Option Log
normalize s = Option.map wrap (if leb s.flush_limit s.chars_written then flush s else some s)

unfoldable pub write : List ℕ → Log → Option Log
write [] s = some s
write (b ∷ bs) s = elim (raw_write_string (b ∷ bs) s) [ none ↦ none | some t ↦ normalize t ]

unfoldable pub write_integer : List ℕ → Log → Option Log
unfolding raw_write_integer normalize
write_integer digits s = elim (raw_write_integer digits s) [ none ↦ none | some t ↦ normalize t ]

unfoldable pub newline : Log → Option Log
unfolding flush
newline s = flush s

-- The destructor: what is left is flushed, or the thread is woken to stop.
unfoldable pub close : Log → Option Log
unfolding flush
close s = if ltb 0 s.chars_written then flush s else some (record s { print_buffer_end = none })

-- The constructor, with a size that is a multiple of a page and what fresh memory reads as.
unfoldable pub make_log : (ℕ → ℕ) → ℕ → Log
make_log fresh size = record {
  memory = fresh;
  buffer_size = size;
  chars_written = 0;
  flush_limit = size / 4;
  cursor = 0;
  print_cursor = 0;
  print_buffer_end = some 0;
}

-- What is printed from `k` to `end`, where WriteFile writes `file n` of `n` bytes. If that is all
-- of them, the thread passes over the line end too.
unfoldable pub print_from : (ℕ → ℕ) → ℕ → ℕ → Log → List ℕ × ℕ × Log
unfolding load
print_from file k end s =
    let written = file (end - k - 1) in
    let next = if written == end - k - 1 then k + written + 1 else k + written in
    if end == k
    then ([], k, record s { print_cursor = k })
    else (load s.buffer_size s.memory k written, next, record s { print_cursor = next })

-- A round of the thread, with its own cursor `local`, once it is woken: what it prints, its
-- cursor, and the log. Offsets in front of the buffer are outside, and so is what is read where
-- `totalBytes` is negative.
unfoldable pub print_upto : (ℕ → ℕ) → Option ℕ → ℕ → Log → Option (List ℕ × ℕ × Log)
print_upto file none local s = some ([], local, s)
print_upto file (some end) local s =
    if leb local end
    then some (print_from file local end s)
    else if ltb local s.buffer_size || ltb end (local - s.buffer_size)
    then none
    else some (print_from file (local - s.buffer_size) end s)

unfoldable pub print_round : (ℕ → ℕ) → ℕ → Log → Option (List ℕ × ℕ × Log)
unfolding print_upto
print_round file local s = print_upto file s.print_buffer_end local s
