-- ===== src/Agate2/Async/Waits.antt =====
-- What the waits of src/agate2/async.cpp and src/agate2/atomic.hpp return.
use jemsys.Base.{
  ℕ, ◌≤◌, ◌≡◌, refl, ◌⊎◌, inl, inr, Bool, true, false, ◌||◌, not, some, List, [], ◌∷◌, ◌==◌, ltb,
  if◌then◌else◌, arith, Bool-cases,
}
use jemsys.Support.Semaphore.{Timeout}
use jemsys.Agate2.Atomic.{Round, deep_wait, deep_wait_until, is_at_least, wait_for}
use jemsys.Agate2.Async.{Async, and_flags, any_flag, data_wait}
use jemsys.Agate2.Async.Handle.{wait, Status}

-- Some round of the list loads `expected` or more.
abbrev pub Reaches : ℕ → List Round → Type 0
Reaches expected [] = ⊥
Reaches expected (r ∷ rounds) = (expected ≤ r.value) ⊎ Reaches expected rounds

-- Some round loads `expected` or more, or ends by its deadline.
abbrev pub Ends : ℕ → List Round → Type 0
Ends expected [] = ⊥
Ends expected (r ∷ rounds) = ((expected ≤ r.value) ⊎ (r.expired ≡ true)) ⊎ Ends expected rounds

deep_wait-ends :
    (expected : ℕ) (rounds : List Round)
    → Reaches expected rounds
    → deep_wait expected rounds ≡ some true
unfolding deep_wait
deep_wait-ends expected [] h = elim h [ ]
deep_wait-ends expected (r ∷ rounds) (inl h) = ground arith
deep_wait-ends expected (r ∷ rounds) (inr h) = ground (arith, deep_wait-ends expected rounds h)

until-Ends :
    (expected : ℕ) (rounds : List Round)
    → Ends expected rounds
    → (b : Bool) × (deep_wait_until expected rounds ≡ some b)
unfolding deep_wait_until
until-Ends expected [] h = elim h [ ]
until-Ends expected (r ∷ rounds) h = elim (Bool-cases (ltb r.value expected)) [
  | inr met ↦ (true, rw met)
  | inl short ↦ elim (Bool-cases r.expired) [
    | inl late ↦ (false, rw (short, late))
    | inr early ↦ elim h [
      | inl (inl reached) ↦ absurd (ground arith)
      | inl (inr late) ↦ cc
      | inr later ↦ rw (short, early) (until-Ends expected rounds later)
    ]
  ]
]

deep_wait-Reaches :
    (expected : ℕ) (rounds : List Round) (b : Bool)
    → deep_wait expected rounds ≡ some b
    → Reaches expected rounds
unfolding deep_wait
deep_wait-Reaches expected [] b h = cc
deep_wait-Reaches expected (r ∷ rounds) b h = elim (Bool-cases (ltb r.value expected)) [
  | inr met ↦ inl (ground arith)
  | inl short ↦ inr (deep_wait-Reaches expected rounds b (rw short at h))
]

until-Reaches :
    (expected : ℕ) (rounds : List Round)
    → deep_wait_until expected rounds ≡ some true
    → Reaches expected rounds
unfolding deep_wait_until
until-Reaches expected [] h = cc
until-Reaches expected (r ∷ rounds) h = elim (Bool-cases (ltb r.value expected)) [
  | inr met ↦ inl (ground arith)
  | inl short ↦ elim (Bool-cases r.expired) [
    | inl late ↦ cc (rw (short, late) at h)
    | inr early ↦ inr (until-Reaches expected rounds (rw (short, early) at h))
  ]
]

-- Where asyncDataWait says that the responses have come, whatever the timeout, the count was loaded
-- with that many at least, or none were asked for.
pub data_wait-Reaches :
    (expected : ℕ) (timeout : Timeout) (rounds : List Round)
    → data_wait expected timeout rounds ≡ some true
    → (expected ≡ 0) ⊎ Reaches expected rounds
unfolding data_wait wait_for is_at_least
data_wait-Reaches expected timeout rounds h = elim (Bool-cases (expected == 0)) [
  | inl none_asked ↦ inl (ground arith)
  | inr asked ↦ inr (reached timeout rounds (rw asked at h))
]
  where
    reached :
        (timeout : Timeout) (rounds : List Round)
        → wait_for expected timeout rounds ≡ some true
        → Reaches expected rounds
    reached Timeout.wait rounds h = deep_wait-Reaches expected rounds true h
    reached Timeout.do_not_wait [] h = cc
    reached Timeout.do_not_wait (r ∷ rounds) h = inl (ground arith)
    reached Timeout.within rounds h = until-Reaches expected rounds h

-- asyncDataWait comes to an end: with JEM_WAIT it returns true once the count is loaded with as
-- many responses as are asked for; a timed wait returns once that happens or its deadline passes;
-- with JEM_DO_NOT_WAIT one load is enough.
pub data_wait-Ends :
    (expected : ℕ) (rounds waited timed : List Round) (r : Round)
    → Reaches expected waited
    → Ends expected timed
    → (data_wait expected Timeout.wait waited ≡ some true)
      × ((b : Bool) × (data_wait expected Timeout.within timed ≡ some b))
      × ((b : Bool) × (data_wait expected Timeout.do_not_wait (r ∷ rounds) ≡ some b))
unfolding data_wait wait_for is_at_least
data_wait-Ends expected rounds waited timed r h g = elim (Bool-cases (expected == 0)) [
  | inl none_asked ↦ (rw none_asked refl, (true, rw none_asked refl), (true, rw none_asked refl))
  | inr asked ↦
      let t = until-Ends expected timed g in
      (
        rw asked (deep_wait-ends expected waited h),
        (t.0, rw asked t.1),
        (not (ltb r.value expected), rw asked refl),
      )
]

-- asyncWait waits for nothing: whatever the timeout, the responses asked for and the loads of the
-- count, it returns at once with the handle as it was, with success for every handle that is bound
-- or ready and with an error for every other.
pub wait-at_once :
    (s : Async) (timeout : Timeout) (rounds : List Round)
    → wait s timeout rounds
      ≡ some (s, if s.flags.bound || s.flags.ready then Status.success else Status.not_bound)
unfolding wait and_flags any_flag
wait-at_once s timeout rounds = ground arith
