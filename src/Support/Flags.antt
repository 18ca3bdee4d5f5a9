-- ===== src/Support/Flags.antt =====
-- src/support/atomicutils.hpp, class template atomic_flags: a word of flags is the list of its
-- bits, the lowest first, as long as the type is wide. Each operation is one atomic access.
pub mod Laws
use jemsys.Base.{
  ℕ, if◌then◌else◌, Bool, true, false, not, ◌&&◌, ◌||◌, Option, none, some, List, [], ◌∷◌,
}

-- a & b, a | b, a ^ b, ~a
unfoldable pub bit_and : List Bool → List Bool → List Bool
bit_and [] b = []
bit_and (x ∷ a) [] = []
bit_and (x ∷ a) (y ∷ b) = (x && y) ∷ bit_and a b

unfoldable pub bit_or : List Bool → List Bool → List Bool
bit_or [] b = []
bit_or (x ∷ a) [] = x ∷ a
bit_or (x ∷ a) (y ∷ b) = (x || y) ∷ bit_or a b

unfoldable pub bit_xor : List Bool → List Bool → List Bool
bit_xor [] b = []
bit_xor (x ∷ a) [] = x ∷ a
bit_xor (x ∷ a) (y ∷ b) = (if x then not y else y) ∷ bit_xor a b

unfoldable pub bit_not : List Bool → List Bool
bit_not [] = []
bit_not (x ∷ a) = not x ∷ bit_not a

unfoldable pub zeros : List Bool → List Bool
zeros [] = []
zeros (x ∷ a) = false ∷ zeros a

-- a != 0, a == b
unfoldable pub non_zero : List Bool → Bool
non_zero [] = false
non_zero (x ∷ a) = x || non_zero a

unfoldable pub equal : List Bool → List Bool → Bool
equal [] [] = true
equal [] (y ∷ b) = false
equal (x ∷ a) [] = false
equal (x ∷ a) (y ∷ b) = (if x then y else not y) && equal a b

unfoldable pub test_any : List Bool → List Bool → Bool
unfolding non_zero bit_and
test_any bits flags = non_zero (bit_and bits flags)

unfoldable pub test_all : List Bool → List Bool → Bool
unfolding equal bit_and
test_all bits flags = equal (bit_and bits flags) flags

unfoldable pub set : List Bool → List Bool → List Bool
unfolding bit_or
set bits flags = bit_or bits flags

unfoldable pub reset : List Bool → List Bool → List Bool
unfolding bit_and bit_not
reset bits flags = bit_and bits (bit_not flags)

unfoldable pub flip : List Bool → List Bool → List Bool
unfolding bit_xor
flip bits flags = bit_xor bits flags

unfoldable pub test_any_and_set : List Bool → List Bool → Bool × List Bool
unfolding test_any set
test_any_and_set bits flags = (test_any bits flags, set bits flags)

unfoldable pub test_all_and_set : List Bool → List Bool → Bool × List Bool
unfolding test_all set
test_all_and_set bits flags = (test_all bits flags, set bits flags)

unfoldable pub test_any_and_reset : List Bool → List Bool → Bool × List Bool
unfolding test_any reset
test_any_and_reset bits flags = (test_any bits flags, reset bits flags)

unfoldable pub test_all_and_reset : List Bool → List Bool → Bool × List Bool
unfolding test_all reset
test_all_and_reset bits flags = (test_all bits flags, reset bits flags)

unfoldable pub test_any_and_flip : List Bool → List Bool → Bool × List Bool
unfolding test_any flip
test_any_and_flip bits flags = (test_any bits flags, flip bits flags)

unfoldable pub test_all_and_flip : List Bool → List Bool → Bool × List Bool
unfolding test_all flip
test_all_and_flip bits flags = (test_all bits flags, flip bits flags)

unfoldable pub fetch : List Bool → List Bool → List Bool
unfolding bit_and
fetch bits flags = bit_and bits flags

unfoldable pub fetch_and_set : List Bool → List Bool → List Bool × List Bool
unfolding set
fetch_and_set bits flags = (bits, set bits flags)

unfoldable pub fetch_and_reset : List Bool → List Bool → List Bool × List Bool
unfolding reset
fetch_and_reset bits flags = (bits, reset bits flags)

unfoldable pub fetch_and_flip : List Bool → List Bool → List Bool × List Bool
unfolding flip
fetch_and_flip bits flags = (bits, flip bits flags)

unfoldable pub fetch_and_clear : List Bool → List Bool × List Bool
unfolding zeros
fetch_and_clear bits = (bits, zeros bits)

unfoldable pub clear_and_set : List Bool → List Bool → List Bool
clear_and_set bits flags = flags

-- The loops of the waits: `bits` is what the first load finds, and `reads` what the load behind
-- each return of WaitOnAddress finds, which is up to the system, as no operation here notifies.
-- Where no load passes the test, the wait has no result.
unfoldable pub wait_until_test :
    (List Bool → Bool) → List Bool → List (List Bool) → Option (List Bool)
wait_until_test test bits [] = if test bits then some bits else none
wait_until_test test bits (next ∷ reads) =
    let woken = wait_until_test test next reads in if test bits then some bits else woken

unfoldable pub wait_exact : List Bool → List Bool → List (List Bool) → Option (List Bool)
unfolding wait_until_test equal
wait_exact bits flags reads = wait_until_test (λ b. equal b flags) bits reads

unfoldable pub wait_any : List Bool → List Bool → List (List Bool) → Option (List Bool)
unfolding wait_until_test test_any
wait_any bits flags reads = wait_until_test (λ b. test_any b flags) bits reads

unfoldable pub wait_all : List Bool → List Bool → List (List Bool) → Option (List Bool)
unfolding wait_until_test test_all
wait_all bits flags reads = wait_until_test (λ b. test_all b flags) bits reads
