-- ===== src/Tests/Support.antt =====
-- The primitives of src/support/atomicutils.hpp at small counts.
use jemsys.Base.{◌+◌, List, [], ◌∷◌, arith}
use jemsys.Support.Wake.{Wake, released, expired, total}
use jemsys.Support.Semaphore.{Timeout, acquire_semaphore}
use jemsys.Support.Semaphore.Laws
use jemsys.Support.Counter.{Counter, decrease, try_decrease, try_decrease_for, u32}
use jemsys.Support.Counter.Laws.{tokens, decreases-Balanced}

-- Two permits come while the thread waits.
abbrev wakes : List Wake
wakes = expired ∷ released 2 ∷ []

acquire_semaphore-Balanced_example :
    Laws.Balanced (0 + total wakes) 1 (acquire_semaphore 0 Timeout.wait wakes)
acquire_semaphore-Balanced_example = Laws.acquire_semaphore-Balanced 0 Timeout.wait wakes

-- One token is the consumer's, two the producers'.
abbrev counter : Counter
counter = record { mp_value = 2; sc_value = 1 }

decreases-Balanced_example :
    jemsys.Support.Counter.Laws.Balanced (tokens counter + total wakes) 4 (decrease counter 4 wakes)
    × jemsys.Support.Counter.Laws.Balanced
        (tokens counter + total wakes)
        4
        (try_decrease counter 4 wakes)
    × jemsys.Support.Counter.Laws.Balanced
        (tokens counter + total wakes)
        4
        (try_decrease_for counter 4 wakes)
unfolding total
decreases-Balanced_example = decreases-Balanced counter 4 wakes (ground arith)
