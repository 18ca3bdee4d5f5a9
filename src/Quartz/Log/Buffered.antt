-- ===== src/Quartz/Log/Buffered.antt =====
-- src/quartz/internal.hpp, class async_buffered_output_log: the caller fills a buffer and queues
-- it, the log's thread prints the oldest one and gives the one before it back to the pool. Buffer
-- `i` of `bufferArray` is named `suc i`, and 0 is the null pointer; a cursor is an offset in a
-- buffer. A call runs alone, so that its compare-exchange succeeds.
pub mod Contents
pub mod Rep
pub mod Writes
pub mod Thread
pub mod Fifo
pub mod Start
pub mod Close
use jemsys.Base.{
  ℕ, zero, suc, ◌+◌, ◌-◌, ◌/◌, Bool, true, false, ltb, leb, ◌==◌, if◌then◌else◌, Option, none, some,
  List, [], ◌∷◌, ◌++◌, length, update,
}
use jemsys.Support.Wake.{Wake, expired, Outcome, acquired, refused, blocked}
use jemsys.Support.Counter.{Counter, increase, decrease, try_decrease, try_decrease_for}

-- How a call of the writer ends. A call that waits for a buffer is `waiting`; `overrun` is a write
-- behind the end of the buffer.
pub data Result {κ} (S : Type κ) : Type κ where
  waiting overrun : Result S
  ok : S → Result S

infixl 5 ◌>>=◌
abbrev pub ◌>>=◌ {κ ι} : {S : Type κ} {T : Type ι} → Result S → (S → Result T) → Result T
overrun >>= k = overrun
waiting >>= k = waiting
ok s >>= k = k s

pub record Log : Type 0 where
  pub buffer_size : ℕ
  pub total_buffer_count : ℕ
  pub next : ℕ → ℕ
  pub bytes_to_write : ℕ → ℕ
  pub text : ℕ → ℕ → ℕ
  pub pool_tokens : ℕ
  pub queued_buffers : Counter
  pub current_buffer : ℕ
  pub buffer_list_head : ℕ
  pub queue_tail : ℕ
  pub current_cursor : ℕ

unfoldable pub acquire_from_pool : Log → Result (Log × ℕ)
acquire_from_pool s =
    if s.pool_tokens == 0
    then waiting
    else ok (
      record s { pool_tokens = s.pool_tokens - 1; buffer_list_head = s.next s.buffer_list_head },
      s.buffer_list_head,
    )

unfoldable pub release_to_pool : ℕ → Log → Log
release_to_pool buf s = record s {
  next = update s.next buf s.buffer_list_head;
  buffer_list_head = buf;
  pool_tokens = s.pool_tokens + 1;
}

-- The end of push_to_queue, with the buffer that was acquired.
unfoldable pub enqueue : Log → ℕ → Log
unfolding increase
enqueue s old_head = record s {
  current_buffer = old_head;
  current_cursor = 0;
  next = update s.next s.queue_tail s.current_buffer;
  queue_tail = s.current_buffer;
  queued_buffers = increase s.queued_buffers 1;
}

unfoldable pub push_to_queue : Log → Result Log
unfolding acquire_from_pool enqueue
push_to_queue s =
    acquire_from_pool
      (record s { bytes_to_write = update s.bytes_to_write s.current_buffer s.current_cursor })
    >>= λ (s', old_head). ok (enqueue s' old_head)

-- The end of the pops: the buffer behind `prev`, which goes back to the pool.
unfoldable pub popped : ℕ → Log → Counter → Log × ℕ
unfolding release_to_pool
popped prev s left = (release_to_pool prev (record s { queued_buffers = left }), s.next prev)

-- A pop that is refused leaves `prev`.
unfoldable pub pop_outcome : ℕ → Log → Outcome Counter → Option (Bool × Log × ℕ)
unfolding popped
pop_outcome prev s (acquired left _) =
    let (s', prev') = popped prev s left in some (true, s', prev')
pop_outcome prev s (refused left _) = some (false, record s { queued_buffers = left }, prev)
pop_outcome prev s blocked = none

unfoldable pub pop_from_queue : ℕ → Log → List Wake → Option (Bool × Log × ℕ)
unfolding pop_outcome
pop_from_queue prev s w = pop_outcome prev s (decrease s.queued_buffers 1 w)

unfoldable pub try_pop_from_queue : ℕ → Log → Option (Bool × Log × ℕ)
unfolding pop_outcome
try_pop_from_queue prev s = pop_outcome prev s (try_decrease s.queued_buffers 1 [])

unfoldable pub try_pop_from_queue_for : ℕ → Log → List Wake → Option (Bool × Log × ℕ)
unfolding pop_outcome
try_pop_from_queue_for prev s w = pop_outcome prev s (try_decrease_for s.queued_buffers 1 w)

-- The first `n` bytes of a buffer.
unfoldable pub bytes : (ℕ → ℕ) → ℕ → List ℕ
bytes f zero = []
bytes f (suc n) = bytes f n ++ f n ∷ []

-- What a call of WriteFile does: it writes everything, or fails after so many bytes.
pub data Attempt : Type 0 where
  wrote : Attempt
  failed : ℕ → Attempt

-- The loop of print_buffer, of which each attempt starts at `from`; `none` if no attempt succeeds.
-- A retry starts behind the bytes of the attempt before it, counted from the start of the buffer.
unfoldable pub print_attempts : (ℕ → ℕ) → (ℕ → ℕ) → ℕ → List Attempt → Option (List ℕ)
print_attempts f from total [] = none
print_attempts f from total (wrote ∷ attempts) = some (bytes from total)
print_attempts f from total (failed n ∷ attempts) =
    elim (print_attempts f (λ i. f (n + i)) (total - n) attempts) [
      | none ↦ none
      | some rest ↦ some (bytes from n ++ rest)
    ]

unfoldable pub print_buffer : (ℕ → ℕ) → ℕ → List Attempt → Option (List ℕ)
unfolding print_attempts
print_buffer f total attempts = print_attempts f f total attempts

-- The loop of `initialize` from buffer `i` down to buffer 1.
unfoldable pub link_buffers : ℕ → ℕ → (ℕ → ℕ) → (ℕ → ℕ) × ℕ
link_buffers zero last next = (next, last)
link_buffers (suc i) last next = link_buffers i (suc (suc i)) (update next (suc (suc i)) last)

-- The constructor, with what fresh memory reads as.
unfoldable pub make_log : (ℕ → ℕ) → ℕ → (ℕ → ℕ → ℕ) → ℕ → ℕ → Log
make_log fresh_next fresh_bytes fresh_text size count =
    let (next, last) = link_buffers (count - 1) 0 fresh_next in
    record {
      buffer_size = size;
      total_buffer_count = count;
      next = next;
      bytes_to_write = update (λ _. size) 1 fresh_bytes;
      text = fresh_text;
      pool_tokens = count - 2;
      queued_buffers = record { mp_value = 0; sc_value = 0 };
      current_buffer = last;
      buffer_list_head = next last;
      queue_tail = 1;
      current_cursor = 0;
    }

-- memcpy to `at`.
unfoldable pub copy : (ℕ → ℕ) → ℕ → List ℕ → ℕ → ℕ
copy f at [] = f
copy f at (b ∷ bs) = copy (update f at b) (suc at) bs

unfoldable pub write_bytes : List ℕ → Log → Result Log
write_bytes bs s =
    if ltb s.buffer_size (s.current_cursor + length bs)
    then overrun
    else ok (record s {
      text = update s.text s.current_buffer (copy (s.text s.current_buffer) s.current_cursor bs);
      current_cursor = s.current_cursor + length bs;
    })

abbrev pub newline_code : ℕ
newline_code = 10

unfoldable pub write_char : ℕ → Log → Result Log
unfolding push_to_queue write_bytes
write_char c s =
    if c == newline_code
    then push_to_queue s
    else (if s.current_cursor == s.buffer_size then push_to_queue s else ok s)
      >>= write_bytes (c ∷ [])

-- write_number and write_hex_number, of which `digits` is what std::to_chars writes. Each retry
-- takes a token of the pool, so that there are at most `fuel` of them.
unfoldable pub write_digits : ℕ → List ℕ → Log → Result Log
unfolding push_to_queue write_bytes
write_digits zero digits s = waiting
write_digits (suc fuel) digits s = elim (ltb s.buffer_size (s.current_cursor + length digits)) [
  | true ↦ (push_to_queue s >>= λ t. write_digits fuel digits t)
  | false ↦ write_bytes digits s
]

unfoldable pub write_number : List ℕ → Log → Result Log
unfolding write_digits
write_number digits s = write_digits (suc (suc s.pool_tokens)) digits s

unfoldable pub newline : Log → Result Log
unfolding write_bytes push_to_queue
newline s = write_bytes (newline_code ∷ []) s >>= λ t.
    if leb (t.buffer_size / 4) (t.buffer_size - t.current_cursor) then push_to_queue t else ok t
