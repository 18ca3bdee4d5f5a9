-- ===== src/Quartz/Log/Buffered/Rep.antt =====
-- What async_buffered_output_log of src/quartz/internal.hpp holds between the calls: the pool of
-- free buffers, the queue of those to print, and the one that is being filled.
use jemsys.Base.{
  ℕ, ◌+◌, ◌-◌, ◌<◌, ◌≡◌, refl, sym, subst, true, false, ◌==◌, some, List, [], ◌∷◌, ◌++◌, arith,
  length, length-append, update, Fresh, Distinct, Disjoint, Stack, Links, Fresh-append,
  Distinct-append, Disjoint-append, Disjoint-head, Disjoint-tail, Stack-update, Stack-push,
  Links-append, Links-update, Links-Fresh,
}
use jemsys.Support.Counter.{Counter, take, settle, u32}
use jemsys.Support.Counter.Laws.{tokens, increase-tokens, decrease-ready, try_decrease-ready}
use jemsys.Quartz.Log.Buffered.{
  Log, ok, release_to_pool, enqueue, push_to_queue, popped, pop_outcome, try_pop_from_queue,
}

-- `prev` is the buffer that the thread of the log printed last; it stands before the queue.
pub record Rep (s : Log) (prev : ℕ) (free queue : List ℕ) : Type 0 where
  pub stack : Stack s.next s.buffer_list_head free
  pub available : length free ≡ s.pool_tokens
  pub links : Links s.next prev queue s.queue_tail
  pub counted : tokens s.queued_buffers ≡ length queue
  pub whole : length free + length queue + 2 ≡ s.total_buffer_count
  pub few : s.total_buffer_count < u32
  pub enough : 2 < s.total_buffer_count
  pub free_once : Distinct free
  pub queued_once : Distinct (prev ∷ queue)
  pub apart : Disjoint free (prev ∷ queue)
  pub outside : Fresh s.current_buffer free × Fresh s.current_buffer (prev ∷ queue)

-- The log once the first free buffer has taken the place of the current one.
abbrev pub pushed : Log → Log
pushed s =
    enqueue
      (record s {
        bytes_to_write = update s.bytes_to_write s.current_buffer s.current_cursor;
        pool_tokens = s.pool_tokens - 1;
        buffer_list_head = s.next s.buffer_list_head;
      })
      s.buffer_list_head

pub push_to_queue_eq :
    (s : Log) (prev x : ℕ) (free queue : List ℕ)
    → Rep s prev (x ∷ free) queue
    → push_to_queue s ≡ ok (pushed s)
unfolding push_to_queue
push_to_queue_eq s prev x free queue r =
    let given : (s.pool_tokens == 0) ≡ false = ground (arith, r.available) in rw given refl

-- A push puts the current buffer at the end of the queue, and fills the first one of the pool.
pub push_to_queue-Rep :
    (s : Log) (prev x : ℕ) (free queue : List ℕ)
    → Rep s prev (x ∷ free) queue
    → Rep (pushed s) prev free (queue ++ s.current_buffer ∷ [])
unfolding enqueue
push_to_queue-Rep s prev x free queue r =
    let h : s.buffer_list_head ≡ x = r.stack.0 in
    record {
      stack =
          Stack-update s.next (s.next s.buffer_list_head) free s.queue_tail s.current_buffer
            (Links-Fresh s.next free prev queue s.queue_tail r.apart.1 r.links) (rw h r.stack.1);
      available = omega (arith, r.available);
      links = Links-append s.next prev queue s.queue_tail s.current_buffer r.queued_once r.links;
      counted = omega (
        arith,
        r.counted,
        r.whole,
        r.few,
        length-append queue (s.current_buffer ∷ []),
        increase-tokens s.queued_buffers 1 (omega (arith, r.counted, r.whole, r.few)),
      );
      whole = omega (arith, r.whole, length-append queue (s.current_buffer ∷ []));
      few = r.few;
      enough = r.enough;
      free_once = r.free_once.1;
      queued_once = Distinct-append (prev ∷ queue) s.current_buffer r.queued_once r.outside.1;
      apart = Disjoint-append free (prev ∷ queue) s.current_buffer r.apart.1 r.outside.0.1;
      outside =
          subst (λ k. Fresh k free × Fresh k (prev ∷ queue ++ s.current_buffer ∷ [])) (sym h)
            (
              r.free_once.0,
              Fresh-append x (prev ∷ queue) s.current_buffer r.apart.0 (λ e. r.outside.0.0 (sym e)),
            );
    }

-- A pop moves the thread on to the oldest buffer of the queue, and the one before it to the pool.
pub popped-Rep :
    (s : Log) (prev x : ℕ) (free queue : List ℕ) (left : Counter)
    → Rep s prev free (x ∷ queue)
    → tokens left + 1 ≡ tokens s.queued_buffers
    → Rep (popped prev s left).0 x (prev ∷ free) queue × ((popped prev s left).1 ≡ x)
unfolding popped release_to_pool
popped-Rep s prev x free queue left r e = (
  record {
    stack =
        Stack-push s.next s.buffer_list_head free prev (Disjoint-head free prev (x ∷ queue) r.apart)
          r.stack;
    available = omega (arith, r.available);
    links =
        Links-update s.next x queue s.queue_tail prev s.buffer_list_head r.queued_once.0.0
          r.queued_once.0.1 r.links.1;
    counted = omega (arith, r.counted, e);
    whole = omega (arith, r.whole);
    few = r.few;
    enough = r.enough;
    free_once = (Disjoint-head free prev (x ∷ queue) r.apart, r.free_once);
    queued_once = r.queued_once.1;
    apart = (r.queued_once.0, Disjoint-tail free prev (x ∷ queue) r.apart);
    outside = ((r.outside.1.0, r.outside.0), r.outside.1.1);
  },
  r.links.0,
)

-- The counter after a pop that found a buffer.
abbrev pub taken : Log → Counter
taken s = take (settle s.queued_buffers 1) 1

pub try_pop_from_queue_eq :
    (s : Log) (prev x : ℕ) (free queue : List ℕ)
    → Rep s prev free (x ∷ queue)
    → try_pop_from_queue prev s
      ≡ some (true, (popped prev s (taken s)).0, (popped prev s (taken s)).1)
unfolding try_pop_from_queue
try_pop_from_queue_eq s prev x free queue r =
    rw
      (
        try_decrease-ready s.queued_buffers 1 [] (omega (arith, r.counted, r.whole, r.few))
            (omega (arith, r.counted)),
        pop_outcome,
      )
      refl

pub taken-tokens :
    (s : Log) (prev x : ℕ) (free queue : List ℕ)
    → Rep s prev free (x ∷ queue)
    → tokens (taken s) + 1 ≡ tokens s.queued_buffers
taken-tokens s prev x free queue r =
    (decrease-ready s.queued_buffers 1 (omega (arith, r.counted, r.whole, r.few))
      (omega (arith, r.counted))).1
