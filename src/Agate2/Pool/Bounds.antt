-- ===== src/Agate2/Pool/Bounds.antt =====
-- Where the blocks of src/agate2/pool.hpp lie in their slabs, and how the slab of a block is found.
use Prim.Native.Nat.{bit_and}
use jemsys.Base.{ℕ, zero, suc, ◌+◌, ◌-◌, ◌*◌, ◌^◌, ◌<◌, ◌≡◌, refl, sym, ap, ◌∙◌, arith}
use native.Mathlib.Nat.{zero-add}
use jemsys.Base.Bits.{pow2, ones, bit_and-shift, bit_and-ones_self}
use jemsys.Agate2.Pool.{Pool, lookup_slab}

suc-ones : (j : ℕ) → suc (ones j) ≡ pow2 j
suc-ones zero = refl
suc-ones (suc j) = omega (arith, suc-ones j)

suc_mul : (a b : ℕ) → suc a * b ≡ a * b + b
suc_mul a b = grind arith

double_mul : (a b : ℕ) → 2 * a * b ≡ 2 * (a * b)
double_mul a b = grind arith

suc_add : (j k : ℕ) → suc j + k ≡ suc (j + k)
suc_add j k = omega arith

pow2-add : (j k : ℕ) → pow2 (j + k) ≡ pow2 j * pow2 k
pow2-add zero k = let same : pow2 (0 + k) ≡ pow2 k = ap pow2 (zero-add k) in omega (arith, same)
pow2-add (suc j) k =
    let shifted : pow2 (suc j + k) ≡ 2 * pow2 (j + k) = ap pow2 (suc_add j k) in
    omega (arith, shifted, pow2-add j k, double_mul (pow2 j) (pow2 k))

-- All the digits from the k-th of a 64-bit word on.
high_mask : (j k : ℕ) → j + k ≡ 64 → 2 ^ 64 - pow2 k ≡ ones j * pow2 k
high_mask j k h =
    let all : pow2 j * pow2 k ≡ 2 ^ 64 = sym (pow2-add j k) ∙ ap pow2 h in
    omega (arith, ap (λ (t : ℕ). t * pow2 k) (suc-ones j), suc_mul (ones j) (pow2 k), all)

-- The slab of a block is found from any address in it: for a slab at a multiple of the slabs'
-- alignment, a power of 2, the mask takes every address below the slab's end to its start.
pub lookup_slab-block :
    (p : Pool) (j k a offset : ℕ)
    → j + k ≡ 64
    → p.slab_alignment ≡ pow2 k
    → a < pow2 j
    → offset < pow2 k
    → lookup_slab p (a * pow2 k + offset) ≡ a * pow2 k
unfolding lookup_slab
lookup_slab-block p j k a offset w e ha ho =
    ap (bit_and (a * pow2 k + offset)) (ap (λ s. 2 ^ 64 - s) e ∙ high_mask j k w)
    ∙ bit_and-shift k a offset (ones j) ho
    ∙ ap (λ t. t * pow2 k) (bit_and-ones_self j a ha)
