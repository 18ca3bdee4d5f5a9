-- ===== src/Agate2/Async/Handle.antt =====
-- src/agate2/async.cpp: the calls on a handle that reset it and wait for it, and its creation.
use jemsys.Base.{ℕ, Bool, true, false, Option, none, some, List, ◌==◌, not, if◌then◌else◌}
use jemsys.Support.Semaphore.{Timeout}
use jemsys.Agate2.Atomic.{release, Round}
use jemsys.Agate2.Async.{
  unbound_flags, bound_flags, ready_flags, waiting_flags, and_flags, or_flags, any_flag, AsyncData,
  Memory, Async, write, data_do_reset, data_reset_waiter, data_reset_non_waiter, data_wait,
  create_async_data, create_unbound_async_data,
}

-- The statuses that asyncWait returns.
pub data Status : Type 0 where
  success not_ready not_bound : Status

unfoldable pub is_waiting : Async → Bool
is_waiting s = any_flag (and_flags s.flags (record unbound_flags { waiting = true }))

-- asyncReset where the data could not be reset: the handle gives up its reference, and takes the
-- data all the same if it was the last, or makes new data at `fresh`.
unfoldable pub leave_data : Memory → Async → ℕ → ℕ → Memory × Async
leave_data m s fresh max =
    let d = m.cell s.address in
    let count = release d.ref_count in
    if count == 0
    then (let d' = data_do_reset (record d { ref_count = count; waiter_ref_count = 1 }) max in
        (write m s.address d', record s { data_key = d'.current_key }))
    else (
      create_async_data (write m s.address (record d { ref_count = count })) fresh s.context max,
      record s { address = fresh },
    )

unfoldable pub reset_data : Bool → Memory → Async → ℕ → Bool × AsyncData → ℕ → Memory × Async
reset_data true m s fresh (done, d) max =
    (write m s.address d, record s { data_key = d.current_key })
reset_data false m s fresh (done, d) max = leave_data (write m s.address d) s fresh max

-- The reset of the data that asyncReset chooses, and what it does with the outcome; `none` stands
-- for a loop that goes on.
unfoldable pub try_reset : Async → AsyncData → ℕ → Option (Bool × AsyncData)
try_reset s d max = if is_waiting s then data_reset_waiter d max else data_reset_non_waiter d max

unfoldable pub finish_reset :
    Memory → Async → ℕ → ℕ → ℕ → Option (Bool × AsyncData) → Option (Memory × Async)
finish_reset m s fresh target max none = none
finish_reset m s fresh target max (some r) =
    let (m', s') = reset_data r.0 m s fresh r max in
    some (m', record s' { flags = waiting_flags; desired_response_count = target })

-- asyncReset.
unfoldable pub reset : Memory → Async → ℕ → ℕ → ℕ → Option (Memory × Async)
reset m s fresh target max = finish_reset m s fresh target max (try_reset s (m.cell s.address) max)

-- asyncWait; `none` if the rounds end before the wait does.
unfoldable pub wait : Async → Timeout → List Round → Option (Async × Status)
wait s timeout rounds =
    if any_flag (and_flags s.flags ready_flags)
    then some (s, Status.success)
    else if not (any_flag (and_flags s.flags bound_flags))
    then some (s, Status.not_bound)
    else elim (data_wait s.desired_response_count timeout rounds) [
      | none ↦ none
      | some true ↦ some (record s { flags = or_flags s.flags ready_flags }, Status.success)
      | some false ↦ some (s, Status.not_ready)
    ]

-- createAsync, with the data at `fresh`.
unfoldable pub create : Memory → ℕ → ℕ → Memory × Async
create m fresh context = (
  create_unbound_async_data m fresh context,
  record {
    context = context;
    desired_response_count = 0;
    flags = unbound_flags;
    data_key = 0;
    address = fresh;
  },
)
