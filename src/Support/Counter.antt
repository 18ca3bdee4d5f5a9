-- ===== src/Support/Counter.antt =====
-- src/support/atomicutils.hpp, class mpsc_counter_t: producers add to `mp_value`, the one consumer
-- takes from `sc_value` and moves the producers' share over when its own does not suffice.
pub mod Laws
use jemsys.Base.{ℕ, ◌+◌, ◌-◌, ◌%◌, ◌^◌, ltb, ◌==◌, if◌then◌else◌, List, [], ◌∷◌, ◌&&◌}
use jemsys.Support.Wake.{Wake, released, expired, Outcome, acquired, refused, blocked}

pub record Counter : Type 0 where
  pub mp_value : ℕ
  pub sc_value : ℕ

abbrev pub u32 : ℕ
u32 = 2 ^ 32

abbrev pub add_u32 : ℕ → ℕ → ℕ
add_u32 a b = (a + b) % u32

unfoldable pub increase : Counter → ℕ → Counter
increase c value = record c { mp_value = add_u32 c.mp_value value }

unfoldable pub update : Counter → Counter
update c = record { mp_value = 0; sc_value = add_u32 c.sc_value c.mp_value }

-- A wait on `mp_value` returns at once if that is not 0; if it is 0 the update changes nothing. So
-- a round of `decrease` looks for the producers' share before it waits for an event.
unfoldable pub settle : Counter → ℕ → Counter
unfolding update
settle c value = if ltb c.sc_value value then update c else c

unfoldable pub take : Counter → ℕ → Counter
take c value = record c { sc_value = c.sc_value - value }

unfoldable pub decrease : Counter → ℕ → List Wake → Outcome Counter
unfolding settle increase take
decrease c value [] =
    if ltb (settle c value).sc_value value
    then blocked
    else acquired (take (settle c value) value) []
decrease c value (released n ∷ w) =
    let woken = decrease (increase (settle c value) n) value w in
    if ltb (settle c value).sc_value value
    then woken
    else acquired (take (settle c value) value) (released n ∷ w)
decrease c value (expired ∷ w) =
    let woken = decrease (settle c value) value w in
    if ltb (settle c value).sc_value value
    then woken
    else acquired (take (settle c value) value) (expired ∷ w)

unfoldable pub try_decrease : Counter → ℕ → List Wake → Outcome Counter
unfolding settle take
try_decrease c value w =
    if ltb (settle c value).sc_value value
    then refused (settle c value) w
    else acquired (take (settle c value) value) w

-- The wait goes on while the producers' share is 0.
wait_once : Counter → ℕ → List Wake → Outcome Counter
unfolding increase try_decrease
wait_once c value [] = blocked
wait_once c value (released n ∷ w) =
    let again = wait_once (increase c n) value w in
    if (increase c n).mp_value == 0 then again else try_decrease (increase c n) value w
wait_once c value (expired ∷ w) = try_decrease c value w

-- The timed call waits once, and not at all where the producers' share is there.
unfoldable pub try_decrease_for : Counter → ℕ → List Wake → Outcome Counter
unfolding wait_once try_decrease
try_decrease_for c value w =
    if ltb c.sc_value value && (c.mp_value == 0)
    then wait_once c value w
    else try_decrease c value w

-- `take_all` where something is there already.
unfoldable pub take_all : Counter → ℕ × Counter
unfolding update
take_all c = ((update c).sc_value, record (update c) { sc_value = 0 })
