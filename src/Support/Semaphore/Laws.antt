-- ===== src/Support/Semaphore/Laws.antt =====
-- The permits of semaphore_t in src/support/atomicutils.hpp: what its calls take and give back.
use jemsys.Base.{
  ℕ, zero, suc, ◌+◌, ◌-◌, ◌≡◌, refl, ◌==◌, if◌then◌else◌, List, [], ◌∷◌, arith, Bool-cases, inl,
  inr, leb,
}
use native.Mathlib.Nat.{add_assoc}
use jemsys.Support.Wake.{Wake, released, expired, Outcome, acquired, refused, blocked, total}
use jemsys.Support.Semaphore.{
  release, acquire, try_acquire, try_acquire_until, try_acquire_n, try_acquire_until_n,
  acquire_semaphore, Timeout,
}

-- Of `all` permits, the call took `n` if it succeeded and none if it was refused; the others are
-- in the counter or not yet released.
abbrev pub Balanced : ℕ → ℕ → Outcome ℕ → Type 0
Balanced all n (acquired value w) = value + n + total w ≡ all
Balanced all n (refused value w) = value + total w ≡ all
Balanced all n blocked = Unit

acquire-Balanced : (value : ℕ) (w : List Wake) → Balanced (value + total w) 1 (acquire value w)
unfolding acquire total
acquire-Balanced value [] = elim (Bool-cases (value == 0)) [
  | inl e ↦ rw e tt
  | inr e ↦ rw e (ground arith)
]
acquire-Balanced value (released n ∷ w) = elim (Bool-cases (value == 0)) [
  | inl e ↦ rw (e, ← add_assoc) (acquire-Balanced (value + n) w)
  | inr e ↦ rw e (ground arith)
]
acquire-Balanced value (expired ∷ w) = elim (Bool-cases (value == 0)) [
  | inl e ↦ rw e (acquire-Balanced value w)
  | inr e ↦ rw e (ground arith)
]

until-Balanced :
    (value : ℕ) (w : List Wake) → Balanced (value + total w) 1 (try_acquire_until value w)
unfolding try_acquire_until total
until-Balanced value [] = elim (Bool-cases (value == 0)) [
  | inl e ↦ rw e tt
  | inr e ↦ rw e (ground arith)
]
until-Balanced value (released n ∷ w) = elim (Bool-cases (value == 0)) [
  | inl e ↦ rw (e, ← add_assoc) (until-Balanced (value + n) w)
  | inr e ↦ rw e (ground arith)
]
until-Balanced value (expired ∷ w) = elim (Bool-cases (value == 0)) [
  | inl e ↦ rw e refl
  | inr e ↦ rw e (ground arith)
]

try-Balanced : (value : ℕ) (w : List Wake) → Balanced (value + total w) 1 (try_acquire value w)
unfolding try_acquire
try-Balanced value w = elim (Bool-cases (value == 0)) [
  | inl e ↦ rw e refl
  | inr e ↦ rw e (ground arith)
]

-- AGT_acquire_semaphore neither loses a permit nor makes one up: whatever the timeout and whatever
-- the other threads release meanwhile, a success costs one permit and a refusal none.
pub acquire_semaphore-Balanced :
    (value : ℕ) (t : Timeout) (w : List Wake)
    → Balanced (value + total w) 1 (acquire_semaphore value t w)
unfolding acquire_semaphore try_acquire
acquire_semaphore-Balanced value Timeout.wait w = acquire-Balanced value w
acquire_semaphore-Balanced value Timeout.do_not_wait w = try-Balanced value w
acquire_semaphore-Balanced value Timeout.within w = until-Balanced value w

Balanced-cong : {a b m n : ℕ} (o : Outcome ℕ) → a ≡ b → m ≡ n → Balanced a m o → Balanced b n o
Balanced-cong (acquired v w) p q h = omega arith
Balanced-cong (refused v w) p q h = omega arith
Balanced-cong blocked p q h = tt

-- One round of the loops: `rest` is what the remaining rounds do with the state that it leaves.
module _ (n got all : ℕ) (rest : ℕ → List Wake → Outcome ℕ)
    (ih : (v : ℕ) (w : List Wake)
      → Balanced (v + (got + 1) + total w) (n + (got + 1)) (rest v w)) where
  round-Balanced :
      (o : Outcome ℕ)
      → Balanced all 1 o
      → Balanced (all + got) (suc n + got) (elim o [
        | acquired v w ↦ rest v w
        | refused v w ↦ refused (release v got) w
        | blocked ↦ blocked
      ])
  unfolding release
  round-Balanced (acquired v w) h = Balanced-cong (rest v w) (omega arith) (omega arith) (ih v w)
  round-Balanced (refused v w) h = ground arith
  round-Balanced blocked h = tt

until_n-Balanced :
    (n got value : ℕ) (w : List Wake)
    → Balanced (value + got + total w) (n + got) (try_acquire_until_n n got value w)
unfolding try_acquire_until_n
until_n-Balanced zero got value w = omega arith
until_n-Balanced (suc n) got value w = Balanced-cong _ (omega arith) refl (
    round-Balanced n got (value + total w) _ (until_n-Balanced n (got + 1)) _
      (until-Balanced value w))

try_n-Balanced :
    (n got value : ℕ) (w : List Wake)
    → Balanced (value + got + total w) (n + got) (try_acquire_n n got value w)
unfolding try_acquire_n
try_n-Balanced zero got value w = omega arith
try_n-Balanced (suc n) got value w =
    Balanced-cong _ (omega arith) refl (
      round-Balanced n got (value + total w) _ (try_n-Balanced n (got + 1)) _
        (try-Balanced value w))

-- `try_acquire(n)` and `try_acquire_until(n, deadline)` take all of the `n` permits or none: one
-- that fails half-way gives back what it had taken.
pub try_acquire_n-Balanced :
    (n value : ℕ) (w : List Wake)
    → Balanced (value + total w) n (try_acquire_n n 0 value w)
      × Balanced (value + total w) n (try_acquire_until_n n 0 value w)
try_acquire_n-Balanced n value w = (
  Balanced-cong _ (omega arith) (omega arith) (try_n-Balanced n 0 value w),
  Balanced-cong _ (omega arith) (omega arith) (until_n-Balanced n 0 value w),
)

-- `try_acquire(n)`, with `got` permits already taken, succeeds exactly when `n` more are there, and
-- otherwise leaves the counter as it was before the first.
pub try_acquire_n_lem :
    (n got value : ℕ) (w : List Wake)
    → try_acquire_n n got value w
      ≡ (if leb n value then acquired (value - n) w else refused (value + got) w)
unfolding try_acquire_n try_acquire release
try_acquire_n_lem zero got value w = ground arith
try_acquire_n_lem (suc n) got value w = ground (arith, try_acquire_n_lem n (got + 1) (value - 1) w)
