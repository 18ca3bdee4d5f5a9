-- ===== src/Support/Wake.antt =====
-- What a thread sees while it waits on an atomic: src/support/atomicutils.hpp leaves the waiting
-- itself to the operating system (`atomic_wait`, `std::atomic::wait`), so its outcomes are an
-- argument of the waiting operations, in the order in which they happen.
use jemsys.Base.{ℕ, ◌+◌, List, [], ◌∷◌}

pub data Wake : Type 0 where
  -- The thread wakes up; meanwhile the other threads released this many permits (none, if
  -- spurious).
  released : ℕ → Wake
  -- The deadline passes.
  expired : Wake

-- How a waiting operation ends: with the state of the primitive and the events not yet consumed.
-- A thread that is never woken again is blocked.
pub data Outcome (S : Type 0) : Type 0 where
  acquired : S → List Wake → Outcome S
  refused : S → List Wake → Outcome S
  blocked : Outcome S

-- The permits that the other threads release in the course of some events.
unfoldable pub total : List Wake → ℕ
total [] = 0
total (released n ∷ w) = n + total w
total (expired ∷ w) = total w
