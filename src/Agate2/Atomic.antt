-- ===== src/Agate2/Atomic.antt =====
-- src/agate2/atomic.hpp: ReferenceCount and AtomicMonotonicCounter, and the compare-exchange of
-- src/agate2/atomic.cpp. Each call is one atomic access; a counter is a 32-bit word.
use jemsys.Base.{
  ℕ, ◌+◌, ◌-◌, ◌%◌, ◌^◌, Bool, true, false, Option, none, some, List, [], ◌∷◌, ◌==◌, ltb, not,
  if◌then◌else◌,
}
use jemsys.Support.Semaphore.{Timeout}

abbrev pub add32 : ℕ → ℕ → ℕ
add32 a b = (a + b) % 2 ^ 32

abbrev pub sub32 : ℕ → ℕ → ℕ
sub32 a b = (a + (2 ^ 32 - b)) % 2 ^ 32

-- The value found, and the word after it: the new value where `compare` was found.
unfoldable pub compare_exchange : ℕ → ℕ → ℕ → Bool × ℕ × ℕ
compare_exchange value compared new =
    (value == compared, value, (if value == compared then new else value))

-- ReferenceCount::acquire() and release(), and those of n: the new count, which they return.
unfoldable pub acquire : ℕ → ℕ
acquire count = add32 count 1

unfoldable pub release : ℕ → ℕ
release count = sub32 count 1

unfoldable pub acquire_n : ℕ → ℕ → ℕ
acquire_n count n = add32 count n

unfoldable pub release_n : ℕ → ℕ → ℕ
release_n count n = add32 count (sub32 0 n)

-- AtomicMonotonicCounter::operator++; the sleepers are not part of the state, as every load of a
-- wait is in its list.
unfoldable pub increment : ℕ → ℕ
increment value = add32 value 1

-- One round of a wait: the value loaded, and whether the wait behind the load ends by its deadline.
pub record Round : Type 0 where
  pub value : ℕ
  pub expired : Bool

-- deepWait: `none` if the list ends before the wait does.
unfoldable pub deep_wait : ℕ → List Round → Option Bool
deep_wait expected [] = none
deep_wait expected (r ∷ rounds) =
    let again = deep_wait expected rounds in if ltb r.value expected then again else some true

unfoldable pub deep_wait_until : ℕ → List Round → Option Bool
deep_wait_until expected [] = none
deep_wait_until expected (r ∷ rounds) =
    let again = deep_wait_until expected rounds in
    if ltb r.value expected then (if r.expired then some false else again) else some true

unfoldable pub is_at_least : ℕ → List Round → Option Bool
is_at_least expected [] = none
is_at_least expected (r ∷ rounds) = some (not (ltb r.value expected))

unfoldable pub wait_for : ℕ → Timeout → List Round → Option Bool
wait_for expected Timeout.wait rounds = deep_wait expected rounds
wait_for expected Timeout.do_not_wait rounds = is_at_least expected rounds
wait_for expected Timeout.within rounds = deep_wait_until expected rounds
