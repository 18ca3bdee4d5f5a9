-- ===== src/Base/Bits.antt =====
-- The laws of bit_and and bit_or that masks and shifts of machine words need. A word of `k` ones
-- is `ones k`, a shift by `k` is a product or a quotient by `pow2 k`.
use Prim.Native.Nat.{
  ℕ, zero, suc, ◌+◌, ◌-◌, ◌*◌, ◌/◌, ◌%◌, ◌≤◌, ◌<◌, min, max, bit_and, bit_or, digits,
  bit_and-bitwise, bit_or-bitwise,
}
use mathlib.Core.Path.{◌≡◌, refl, sym, ap, ◌∙◌}
use native.Mathlib.Omega.{arith}

abbrev pub pow2 : ℕ → ℕ
pow2 zero = 1
pow2 (suc k) = 2 * pow2 k

abbrev pub ones : ℕ → ℕ
ones zero = 0
ones (suc k) = 2 * ones k + 1

-- The recursion on digits, for any operation: steps to spare change nothing, so that the number of
-- steps can be dropped from it.
module _ (z : ℕ → ℕ) (f : ℕ → ℕ → ℕ) where
  digits-none : (steps b : ℕ) → digits z f steps 0 b ≡ z b
  digits-none zero b = refl
  digits-none (suc steps) b = refl

  digits-suc : (steps x b : ℕ) → x ≤ steps → digits z f (suc steps) x b ≡ digits z f steps x b
  digits-suc steps zero b fits = sym (digits-none steps b)
  digits-suc zero (suc x) b fits = absurd (omega arith)
  digits-suc (suc steps) (suc x) b fits =
      ap (λ higher. higher * 2 + f (suc x % 2) (b % 2))
        (digits-suc steps (suc x / 2) (b / 2) (omega arith))

  digits-spare :
      (spare steps x b : ℕ) → x ≤ steps → digits z f (spare + steps) x b ≡ digits z f steps x b
  digits-spare zero steps x b fits =
      let total : 0 + steps ≡ steps = omega arith in ap (λ n. digits z f n x b) total
  digits-spare (suc spare) steps x b fits =
      let total : suc spare + steps ≡ suc (spare + steps) = omega arith in
      ap (λ n. digits z f n x b) total
      ∙ digits-suc (spare + steps) x b (omega arith)
      ∙ digits-spare spare steps x b fits

  digits-lowest :
      (x b : ℕ)
      → digits z f (suc x) (suc x) b
        ≡ digits z f (suc x / 2) (suc x / 2) (b / 2) * 2 + f (suc x % 2) (b % 2)
  digits-lowest x b =
      let half = suc x / 2 in
      let total : x - half + half ≡ x = omega arith in
      ap (λ higher. higher * 2 + f (suc x % 2) (b % 2))
        (ap (λ steps. digits z f steps half (b / 2)) (sym total)
          ∙ digits-spare (x - half) half half (b / 2) (omega arith))

-- Induction by halving.
halving {ℓ} :
    (P : ℕ → Type ℓ) (bound x : ℕ) → x ≤ bound → P 0 → ((y : ℕ) → P (suc y / 2) → P (suc y)) → P x
halving P bound zero fits base step = base
halving P zero (suc x) fits base step = absurd (omega arith)
halving P (suc bound) (suc x) fits base step =
    step x (halving P bound (suc x / 2) (omega arith) base step)

pub zero-bit_and : (mask : ℕ) → bit_and 0 mask ≡ 0
zero-bit_and mask = bit_and-bitwise 0 mask

pub zero-bit_or : (mask : ℕ) → bit_or 0 mask ≡ mask
zero-bit_or mask = bit_or-bitwise 0 mask

-- The lowest digit and the others.
bit_and-lowest : (x y : ℕ) → bit_and x y ≡ bit_and (x / 2) (y / 2) * 2 + min (x % 2) (y % 2)
bit_and-lowest zero y = omega (arith, zero-bit_and y, zero-bit_and (y / 2))
bit_and-lowest (suc x) y =
    let high = bit_and-bitwise (suc x / 2) (y / 2) in
    omega (arith, high, digits-lowest (λ _. 0) min x y, bit_and-bitwise (suc x) y)

bit_or-lowest : (x y : ℕ) → bit_or x y ≡ bit_or (x / 2) (y / 2) * 2 + max (x % 2) (y % 2)
bit_or-lowest zero y = omega (arith, zero-bit_or y, zero-bit_or (y / 2))
bit_or-lowest (suc x) y =
    let high = bit_or-bitwise (suc x / 2) (y / 2) in
    omega (arith, high, digits-lowest (λ w. w) max x y, bit_or-bitwise (suc x) y)

pub bit_and-zero : (x : ℕ) → bit_and x 0 ≡ 0
bit_and-zero x =
    halving (λ y. bit_and y 0 ≡ 0) x x (omega arith) (zero-bit_and 0)
      (λ y half. omega (arith, half, bit_and-lowest (suc y) 0))

pub bit_or-zero : (x : ℕ) → bit_or x 0 ≡ x
bit_or-zero x =
    halving (λ y. bit_or y 0 ≡ y) x x (omega arith) (zero-bit_or 0)
      (λ y half. omega (arith, half, bit_or-lowest (suc y) 0))

bit_and_halves :
    (x y q r : ℕ) → x / 2 ≡ q → y / 2 ≡ r → bit_and x y ≡ bit_and q r * 2 + min (x % 2) (y % 2)
bit_and_halves x y q r e f =
    bit_and-lowest x y
    ∙ ap (λ t. bit_and t (y / 2) * 2 + min (x % 2) (y % 2)) e
    ∙ ap (λ t. bit_and q t * 2 + min (x % 2) (y % 2)) f

bit_or_halves :
    (x y q r : ℕ) → x / 2 ≡ q → y / 2 ≡ r → bit_or x y ≡ bit_or q r * 2 + max (x % 2) (y % 2)
bit_or_halves x y q r e f =
    bit_or-lowest x y
    ∙ ap (λ t. bit_or t (y / 2) * 2 + max (x % 2) (y % 2)) e
    ∙ ap (λ t. bit_or q t * 2 + max (x % 2) (y % 2)) f

double_mul : (a p : ℕ) → a * (2 * p) ≡ 2 * (a * p)
double_mul a p = grind arith

-- A mask of k ones keeps the k lowest digits.
pub bit_and-ones : (k a b : ℕ) → b < pow2 k → bit_and (a * pow2 k + b) (ones k) ≡ b
bit_and-ones zero a b h = omega (arith, bit_and-zero (a * 1 + b))
bit_and-ones (suc k) a b h = omega (
  arith,
  bit_and_halves (a * (2 * pow2 k) + b) (2 * ones k + 1) (a * pow2 k + b / 2) (ones k)
      (omega (arith, double_mul a (pow2 k))) (omega arith),
  bit_and-ones k a (b / 2) (omega arith),
  double_mul a (pow2 k),
)

pub bit_and-ones_self : (k b : ℕ) → b < pow2 k → bit_and b (ones k) ≡ b
bit_and-ones_self k b h =
    let e : 0 * pow2 k + b ≡ b = omega arith in
    ap (λ t. bit_and t (ones k)) (sym e) ∙ bit_and-ones k 0 b h

-- A mask shifted by k reads the digits above k.
pub bit_and-shift :
    (k a b m : ℕ) → b < pow2 k → bit_and (a * pow2 k + b) (m * pow2 k) ≡ bit_and a m * pow2 k
bit_and-shift zero a b m h =
    let x : a * 1 + b ≡ a = omega arith in
    let y : m * 1 ≡ m = omega arith in rw (x, y) (omega arith)
bit_and-shift (suc k) a b m h = omega (
  arith,
  bit_and_halves (a * (2 * pow2 k) + b) (m * (2 * pow2 k)) (a * pow2 k + b / 2) (m * pow2 k)
      (omega (arith, double_mul a (pow2 k))) (omega (arith, double_mul m (pow2 k))),
  bit_and-shift k a (b / 2) m (omega arith),
  double_mul a (pow2 k),
  double_mul m (pow2 k),
  double_mul (bit_and a m) (pow2 k),
)

-- Digits below k and digits above k do not meet.
pub bit_or-disjoint : (k a b : ℕ) → b < pow2 k → bit_or (a * pow2 k) b ≡ a * pow2 k + b
bit_or-disjoint zero a b h =
    let e : b ≡ 0 = omega arith in rw e (omega (arith, bit_or-zero (a * 1)))
bit_or-disjoint (suc k) a b h = omega (
  arith,
  bit_or_halves (a * (2 * pow2 k)) b (a * pow2 k) (b / 2) (omega (arith, double_mul a (pow2 k)))
      refl,
  bit_or-disjoint k a (b / 2) (omega arith),
  double_mul a (pow2 k),
)

-- An `or` with digits above k keeps those below.
pub bit_or-shift :
    (k a b m : ℕ) → b < pow2 k → bit_or (a * pow2 k + b) (m * pow2 k) ≡ bit_or a m * pow2 k + b
bit_or-shift zero a b m h =
    let x : a * 1 + b ≡ a = omega arith in
    let y : m * 1 ≡ m = omega arith in rw (x, y) (omega arith)
bit_or-shift (suc k) a b m h = omega (
  arith,
  bit_or_halves (a * (2 * pow2 k) + b) (m * (2 * pow2 k)) (a * pow2 k + b / 2) (m * pow2 k)
      (omega (arith, double_mul a (pow2 k))) (omega (arith, double_mul m (pow2 k))),
  bit_or-shift k a (b / 2) m (omega arith),
  double_mul a (pow2 k),
  double_mul m (pow2 k),
  double_mul (bit_or a m) (pow2 k),
)

-- Ones absorb what is no wider.
pub bit_or-ones : (k a : ℕ) → a < pow2 k → bit_or a (ones k) ≡ ones k
bit_or-ones zero a h = let e : a ≡ 0 = omega arith in rw e (zero-bit_or 0)
bit_or-ones (suc k) a h = omega (
  arith,
  bit_or_halves a (2 * ones k + 1) (a / 2) (ones k) refl (omega arith),
  bit_or-ones k (a / 2) (omega arith),
)
