-- ===== src/Support/Semaphore.antt =====
-- src/support/atomicutils.hpp, class semaphore_t. The state is its counter `value`; the calls are
-- serialised, so that a compare-exchange succeeds. `max` is not modelled.
pub mod Laws
use jemsys.Base.{ℕ, zero, suc, ◌+◌, ◌-◌, ◌==◌, if◌then◌else◌, Bool, true, false, List, [], ◌∷◌}
use jemsys.Support.Wake.{Wake, released, expired, Outcome, acquired, refused, blocked}

unfoldable pub release : ℕ → ℕ → ℕ
release value n = if n == 0 then value else value + n

-- The untimed wait ignores a deadline; it ends when the counter is not zero.
unfoldable pub acquire : ℕ → List Wake → Outcome ℕ
acquire value [] = if value == 0 then blocked else acquired (value - 1) []
acquire value (released n ∷ w) =
    let woken = acquire (value + n) w in
    if value == 0 then woken else acquired (value - 1) (released n ∷ w)
acquire value (expired ∷ w) =
    let woken = acquire value w in if value == 0 then woken else acquired (value - 1) (expired ∷ w)

unfoldable pub try_acquire : ℕ → List Wake → Outcome ℕ
try_acquire value w = if value == 0 then refused value w else acquired (value - 1) w

-- `try_acquire_for` sets the deadline and calls `try_acquire_until`.
unfoldable pub try_acquire_until : ℕ → List Wake → Outcome ℕ
try_acquire_until value [] = if value == 0 then blocked else acquired (value - 1) []
try_acquire_until value (released n ∷ w) =
    let woken = try_acquire_until (value + n) w in
    if value == 0 then woken else acquired (value - 1) (released n ∷ w)
try_acquire_until value (expired ∷ w) =
    if value == 0 then refused value w else acquired (value - 1) (expired ∷ w)

-- The loop of `acquire(n)` over the permits still wanted.
unfoldable pub acquire_n : ℕ → ℕ → List Wake → Outcome ℕ
acquire_n zero value w = acquired value w
acquire_n (suc n) value w = elim (acquire value w) [
  | acquired value' w' ↦ acquire_n n value' w'
  | refused value' w' ↦ refused value' w'
  | blocked ↦ blocked
]

-- The loop of `try_acquire(n)`, with the permits acquired so far, which a failure gives back.
unfoldable pub try_acquire_n : ℕ → ℕ → ℕ → List Wake → Outcome ℕ
unfolding try_acquire release
try_acquire_n zero got value w = acquired value w
try_acquire_n (suc n) got value w = elim (try_acquire value w) [
  | acquired value' w' ↦ try_acquire_n n (got + 1) value' w'
  | refused value' w' ↦ refused (release value' got) w'
  | blocked ↦ blocked
]

unfoldable pub try_acquire_until_n : ℕ → ℕ → ℕ → List Wake → Outcome ℕ
unfolding release
try_acquire_until_n zero got value w = acquired value w
try_acquire_until_n (suc n) got value w = elim (try_acquire_until value w) [
  | acquired value' w' ↦ try_acquire_until_n n (got + 1) value' w'
  | refused value' w' ↦ refused (release value' got) w'
  | blocked ↦ blocked
]

-- The timeouts of include/jemsys.h, as the mailboxes pass them on: the macro
-- AGT_acquire_semaphore of src/agate/impl_macros.hpp.
pub data Timeout : Type 0 where
  wait do_not_wait within : Timeout

unfoldable pub acquire_semaphore : ℕ → Timeout → List Wake → Outcome ℕ
unfolding try_acquire
acquire_semaphore value Timeout.wait w = acquire value w
acquire_semaphore value Timeout.do_not_wait w = try_acquire value w
acquire_semaphore value Timeout.within w = try_acquire_until value w
