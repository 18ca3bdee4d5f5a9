-- ===== src/Agate2/Async.antt =====
-- src/agate2/async.cpp: asynchronous operations. A handle, AgtAsync_st, refers to data that the
-- messages under way share with it. Data stand in a memory by their address; an address that the
-- context's allocator returns is an argument. The calls are serialised, asserts are off.
pub mod Handle
pub mod Counts
pub mod Waits
pub mod Resets
use jemsys.Base.{
  ℕ, zero, suc, ◌+◌, ◌-◌, ◌%◌, ◌^◌, Bool, true, false, ◌&&◌, ◌||◌, Option, none, some, List, [],
  ◌∷◌, ◌==◌, ltb, if◌then◌else◌, update,
}
use jemsys.Support.Semaphore.{Timeout}
use jemsys.Agate2.Atomic.{
  add32, sub32, compare_exchange, acquire, release, increment, Round, wait_for,
}

-- The bits of AsyncFlags.
pub record AsyncFlags : Type 0 where
  pub bound : Bool
  pub ready : Bool
  pub waiting : Bool

abbrev pub unbound_flags : AsyncFlags
unbound_flags = record { bound = false; ready = false; waiting = false }

-- eAsyncBound, eAsyncReady and eAsyncWaiting.
abbrev pub bound_flags : AsyncFlags
bound_flags = record { bound = true; ready = false; waiting = false }

abbrev pub ready_flags : AsyncFlags
ready_flags = record { bound = true; ready = true; waiting = false }

abbrev pub waiting_flags : AsyncFlags
waiting_flags = record { bound = true; ready = false; waiting = true }

unfoldable pub and_flags : AsyncFlags → AsyncFlags → AsyncFlags
and_flags f g = record {
  bound = f.bound && g.bound;
  ready = f.ready && g.ready;
  waiting = f.waiting && g.waiting;
}

unfoldable pub or_flags : AsyncFlags → AsyncFlags → AsyncFlags
or_flags f g = record {
  bound = f.bound || g.bound;
  ready = f.ready || g.ready;
  waiting = f.waiting || g.waiting;
}

-- The test of `static_cast<AgtUInt32>(flags)`.
unfoldable pub any_flag : AsyncFlags → Bool
any_flag f = f.bound || (f.ready || f.waiting)

-- AgtAsyncData_st.
pub record AsyncData : Type 0 where
  pub context_id : ℕ
  pub ref_count : ℕ
  pub waiter_ref_count : ℕ
  pub attached_ref_count : ℕ
  pub response_count : ℕ
  pub current_key : ℕ
  pub max_response_count : ℕ
  pub is_shared : Bool

pub record Memory : Type 0 where
  pub cell : ℕ → AsyncData
  pub live : ℕ → Bool

-- AgtAsync_st; a context is its id.
pub record Async : Type 0 where
  pub context : ℕ
  pub desired_response_count : ℕ
  pub flags : AsyncFlags
  pub data_key : ℕ
  pub address : ℕ

unfoldable pub write : Memory → ℕ → AsyncData → Memory
write m a d = record m { cell = update m.cell a d }

-- The data after asyncDataDoReset; the key that is returned is the new current one.
unfoldable pub data_do_reset : AsyncData → ℕ → AsyncData
data_do_reset d max = record d {
  current_key = add32 d.current_key 1;
  attached_ref_count = max;
  response_count = 0;
  max_response_count = max;
}

-- The loop of asyncDataResetWaiter over the values that its attempts find: the count that the last
-- one wrote, or `none` if the list ends before one succeeds.
unfoldable pub leave_waiters : ℕ → ℕ → List ℕ → Option ℕ
leave_waiters expected next [] = none
leave_waiters expected next (value ∷ values) =
    let again = leave_waiters value (if ltb (sub32 value 1) 1 then 1 else sub32 value 1) values in
    if (compare_exchange value expected next).0 then some next else again

-- Two attempts are enough when no one else writes the count.
unfoldable pub data_reset_waiter : AsyncData → ℕ → Option (Bool × AsyncData)
unfolding leave_waiters
data_reset_waiter d max = elim (leave_waiters 1 1 (d.waiter_ref_count ∷ d.waiter_ref_count ∷ [])) [
  | none ↦ none
  | some next ↦
      let d' = record d { waiter_ref_count = next } in
      some (if next == 1 then (true, data_do_reset d' max) else (false, d'))
]

unfoldable pub data_reset_non_waiter : AsyncData → ℕ → Option (Bool × AsyncData)
data_reset_non_waiter d max = some (
    if d.waiter_ref_count == 0
    then (true, data_do_reset (record d { waiter_ref_count = 1 }) max)
    else (false, d))

unfoldable pub data_wait : ℕ → Timeout → List Round → Option Bool
data_wait expected timeout rounds =
    if expected == 0 then some true else wait_for expected timeout rounds

-- asyncDataDestroy: the data go back to the allocator of their context.
unfoldable pub data_destroy : Memory → ℕ → Memory
data_destroy m a = record m { live = update m.live a false }

unfoldable pub create_async_data : Memory → ℕ → ℕ → ℕ → Memory
create_async_data m a context max = record m {
  cell = update m.cell a (record {
    context_id = context;
    ref_count = 1;
    waiter_ref_count = 1;
    attached_ref_count = max;
    response_count = 0;
    current_key = 0;
    max_response_count = max;
    is_shared = false;
  });
  live = update m.live a true;
}

unfoldable pub create_unbound_async_data : Memory → ℕ → ℕ → Memory
create_unbound_async_data m a context = record m {
  cell = update m.cell a (record {
    context_id = context;
    ref_count = 1;
    waiter_ref_count = 0;
    attached_ref_count = 0;
    response_count = 0;
    current_key = 0;
    max_response_count = 0;
    is_shared = false;
  });
  live = update m.live a true;
}

-- The memory, and the key that the message keeps.
unfoldable pub data_attach : Memory → ℕ → ℕ → Memory × ℕ
unfolding write acquire
data_attach m a context =
    let d = m.cell a in
    (
      write m a (record d {
        ref_count = acquire d.ref_count;
        is_shared = if d.context_id == context then d.is_shared else true;
      }),
      d.current_key,
    )

-- What asyncDataDrop and asyncDataArrive do to the counts.
unfoldable pub respond : AsyncData → ℕ → AsyncData
unfolding increment
respond d key =
    if d.current_key == key then record d { response_count = increment d.response_count } else d

unfoldable pub data_drop : Memory → ℕ → ℕ → Memory
unfolding write respond release data_destroy
data_drop m a key =
    let d = respond (m.cell a) key in
    let m' = write m a (record d { ref_count = release d.ref_count }) in
    if release d.ref_count == 0 then data_destroy m' a else m'

unfoldable pub data_arrive : Memory → ℕ → ℕ → Memory
unfolding write respond release data_destroy
data_arrive m a key =
    let d = respond (m.cell a) key in
    let m' = write m a (record d { ref_count = release d.ref_count }) in
    if release d.ref_count == 0 then data_destroy m' a else m'

-- The start of asyncClear and asyncDestroy.
unfoldable pub stop_waiting : Memory → Async → Memory
unfolding write and_flags any_flag
stop_waiting m s =
    let d = m.cell s.address in
    if any_flag (and_flags s.flags (record unbound_flags { waiting = true }))
    then write m s.address (record d { waiter_ref_count = sub32 d.waiter_ref_count 1 })
    else m

unfoldable pub clear : Memory → Async → Memory × Async
unfolding stop_waiting and_flags
clear m s = (stop_waiting m s, record s { flags = and_flags s.flags bound_flags })

-- asyncDestroy; the handle is gone after it.
unfoldable pub destroy : Memory → Async → Memory
unfolding stop_waiting write release data_destroy
destroy m s =
    let m' = stop_waiting m s in
    let count = release (m'.cell s.address).ref_count in
    let m'' = write m' s.address (record (m'.cell s.address) { ref_count = count }) in
    if count == 0 then data_destroy m'' s.address else m''
