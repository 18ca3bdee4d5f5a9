-- ===== src/Agate2/Async/Resets.antt =====
-- What resetting a handle of src/agate2/async.cpp does to it, to its data and to the other handles
-- that wait for them.
use jemsys.Base.{
  ℕ, ◌^◌, ◌<◌, ◌≡◌, ◌≢◌, refl, ap, ◌∙◌, Bool, true, false, ◌||◌, some, ◌==◌, if◌then◌else◌, arith,
  Bool-cases, inl, inr, ◌⊎◌,
}
use jemsys.Agate2.Atomic.{add32, sub32, acquire, release, compare_exchange}
use jemsys.Agate2.Async.{
  AsyncData, Memory, Async, waiting_flags, write, respond, data_attach, data_arrive, data_destroy,
  data_do_reset, data_reset_waiter, data_reset_non_waiter, create_async_data,
}
use jemsys.Agate2.Async.Handle.{reset, reset_data, leave_data, is_waiting, try_reset, finish_reset}

-- asyncDataResetWaiter, run alone, comes to an end. With one waiter it resets the data. With two it
-- resets them too, although the other still waits; with any other number it lets go of the data
-- and leaves one waiter less.
pub data_reset_waiter_lem :
    (d : AsyncData) (max : ℕ)
    → d.waiter_ref_count < 2 ^ 32
    → data_reset_waiter d max
      ≡ some (
          if (d.waiter_ref_count == 1) || (d.waiter_ref_count == 2)
          then (true, data_do_reset (record d { waiter_ref_count = 1 }) max)
          else (false, record d { waiter_ref_count = sub32 d.waiter_ref_count 1 }))
unfolding data_reset_waiter compare_exchange
data_reset_waiter_lem d max h = ground arith

-- A handle that waits for the `max` responses of reset data, `target` of them wanted: those of
-- `before`, which stand at `address`, with the next key, or those at `fresh` with the key 0.
pub record Restarted (m : Memory) (s : Async) (before : AsyncData) (address fresh target max : ℕ)
    : Type 0 where
  pub responses : (m.cell s.address).response_count ≡ 0
  pub limit : (m.cell s.address).max_response_count ≡ max
  pub waiters : (m.cell s.address).waiter_ref_count ≡ 1
  pub wanted : s.desired_response_count ≡ target
  pub flags : s.flags ≡ waiting_flags
  pub renewed :
      ((s.address ≡ address) × ((m.cell s.address).current_key ≡ add32 before.current_key 1))
      ⊎ ((s.address ≡ fresh) × ((m.cell s.address).current_key ≡ 0))

-- The handle after reset, before its flags are set.
abbrev finish : ℕ → Memory × Async → Memory × Async
finish target (m, s) = (m, record s { flags = waiting_flags; desired_response_count = target })

leave_data-Restarted :
    (m : Memory) (s : Async) (fresh target max : ℕ)
    → Restarted
        (finish target (leave_data m s fresh max)).0
        (finish target (leave_data m s fresh max)).1
        (m.cell s.address)
        s.address
        fresh
        target
        max
unfolding leave_data write data_do_reset create_async_data
leave_data-Restarted m s fresh target max =
    elim (Bool-cases (release (m.cell s.address).ref_count == 0)) [
      | inl e ↦ rw e (record {
        responses = ground arith;
        limit = ground arith;
        waiters = ground arith;
        wanted = refl;
        flags = refl;
        renewed = inl (refl, ground arith);
      })
      | inr e ↦ rw e (record {
        responses = ground arith;
        limit = ground arith;
        waiters = ground arith;
        wanted = refl;
        flags = refl;
        renewed = inr (refl, ground arith);
      })
    ]

kept-Restarted :
    (m : Memory) (s : Async) (d : AsyncData) (fresh target max : ℕ)
    → let d' = data_do_reset (record d { waiter_ref_count = 1 }) max in
      Restarted
        (finish target (reset_data true m s fresh (true, d') max)).0
        (finish target (reset_data true m s fresh (true, d') max)).1
        d
        s.address
        fresh
        target
        max
unfolding reset_data write data_do_reset
kept-Restarted m s d fresh target max = record {
  responses = ground arith;
  limit = ground arith;
  waiters = ground arith;
  wanted = refl;
  flags = refl;
  renewed = inl (refl, ground arith);
}

-- What the reset of the data returned decides.
reset_eq :
    (m : Memory) (s : Async) (fresh target max : ℕ) (r : Bool × AsyncData)
    → try_reset s (m.cell s.address) max ≡ some r
    → reset m s fresh target max ≡ some (finish target (reset_data r.0 m s fresh r max))
unfolding reset finish_reset
reset_eq m s fresh target max r e = ap (finish_reset m s fresh target max) e

-- Reset data, or other data that were let go of.
abbrev outcome : Bool → AsyncData → AsyncData → ℕ → Bool × AsyncData
outcome b d other max =
    if b then (true, data_do_reset (record d { waiter_ref_count = 1 }) max) else (false, other)

write_self : (m : Memory) (a : ℕ) (d : AsyncData) → (write m a d).cell a ≡ d
unfolding write
write_self m a d = ground arith

-- Both ways to reset the data succeed with reset data, or let go of them.
reset_data-cases :
    (m : Memory) (s : Async) (fresh target max : ℕ) (b : Bool) (d other : AsyncData)
    → other.current_key ≡ d.current_key
    → let r = outcome b d other max in
      Restarted
        (finish target (reset_data r.0 m s fresh r max)).0
        (finish target (reset_data r.0 m s fresh r max)).1
        d
        s.address
        fresh
        target
        max
unfolding reset_data
reset_data-cases m s fresh target max true d other k = kept-Restarted m s d fresh target max
reset_data-cases m s fresh target max false d other k =
    let left = leave_data-Restarted (write m s.address other) s fresh target max in
    record {
      responses = left.responses;
      limit = left.limit;
      waiters = left.waiters;
      wanted = left.wanted;
      flags = left.flags;
      renewed = elim left.renewed [
        | inl (at, next) ↦ inl (
          at,
          next
              ∙ ap (λ (x : AsyncData). add32 x.current_key 1) (write_self m s.address other)
              ∙ ap (λ c. add32 c 1) k,
        )
        | inr new ↦ inr new
      ];
    }

-- asyncReset always comes to an end, run alone, and leaves a handle that waits, with the number of
-- responses wanted: for the same data under the next key, or for the data at `fresh` under the key
-- 0, in both cases with no responses yet, the limit given and one waiter.
pub reset-Restarted :
    (m : Memory) (s : Async) (fresh target max : ℕ)
    → (m.cell s.address).waiter_ref_count < 2 ^ 32
    → (r : Memory × Async) × (reset m s fresh target max ≡ some r)
      × Restarted r.0 r.1 (m.cell s.address) s.address fresh target max
unfolding data_reset_non_waiter try_reset reset_data
reset-Restarted m s fresh target max h =
    let d = m.cell s.address in
    elim (Bool-cases (is_waiting s)) [
      | inl w ↦
          let b = (d.waiter_ref_count == 1) || (d.waiter_ref_count == 2) in
          let other = record d { waiter_ref_count = sub32 d.waiter_ref_count 1 } in
          let r = outcome b d other max in
          (
            finish target (reset_data r.0 m s fresh r max),
            reset_eq m s fresh target max r (rw w (data_reset_waiter_lem d max h)),
            reset_data-cases m s fresh target max b d other refl,
          )
      | inr w ↦
          let b = d.waiter_ref_count == 0 in
          let r = outcome b d d max in
          (
            finish target (reset_data r.0 m s fresh r max),
            reset_eq m s fresh target max r (rw w refl),
            reset_data-cases m s fresh target max b d d refl,
          )
    ]

release_one : (n : ℕ) → n ≡ 1 → release n ≡ 0
unfolding release
release_one n e = omega arith

leave_data-last :
    (m : Memory) (s : Async) (fresh max : ℕ)
    → release (m.cell s.address).ref_count ≡ 0
    → ((leave_data m s fresh max).1.address ≡ s.address)
      × (((leave_data m s fresh max).0.cell s.address).ref_count ≡ 0)
unfolding leave_data write data_do_reset
leave_data-last m s fresh max e =
    let last : (release (m.cell s.address).ref_count == 0) ≡ true = ground arith in
    rw last (refl, ground arith)

freed_at_once :
    (m : Memory) (a context key : ℕ)
    → (m.cell a).ref_count ≡ 0
    → (data_arrive (data_attach m a context).0 a key).live a ≡ false
unfolding data_arrive data_attach respond write data_destroy release acquire
freed_at_once m a context key e = ground arith

-- A handle that does not wait, with the last reference to data for which a waiter is counted: the
-- reset keeps the data but leaves no reference, so that they are freed as soon as a message sent
-- with them is answered, while the handle still refers to them.
pub reset-last :
    (m : Memory) (s : Async) (fresh target max context key : ℕ)
    → is_waiting s ≡ false
    → (m.cell s.address).waiter_ref_count ≢ 0
    → (m.cell s.address).ref_count ≡ 1
    → (r : Memory × Async) × (reset m s fresh target max ≡ some r)
      × (r.1.address ≡ s.address)
      × ((data_arrive (data_attach r.0 s.address context).0 s.address key).live s.address ≡ false)
unfolding data_reset_non_waiter try_reset reset_data
reset-last m s fresh target max context key w n l =
    let d = m.cell s.address in
    let used : (d.waiter_ref_count == 0) ≡ false = ground arith in
    let m' = write m s.address d in
    let back : m'.cell s.address ≡ d = write_self m s.address d in
    let zero_left : release (m'.cell s.address).ref_count ≡ 0 =
      ap (λ c. release c.ref_count) back ∙ (release_one d.ref_count l) in
    let t = leave_data-last m' s fresh max zero_left in
    (
      finish target (leave_data m' s fresh max),
      reset_eq m s fresh target max (false, d) (rw (w, used) refl),
      t.0,
      freed_at_once (leave_data m' s fresh max).0 s.address context key t.1,
    )
