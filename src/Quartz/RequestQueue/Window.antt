-- ===== src/Quartz/RequestQueue/Window.antt =====
-- The queue's entries as an array from 1: positions that wrap round at the capacity do not meet.
use jemsys.Base.{
  ℕ, ◌+◌, ◌-◌, ◌%◌, ◌≤◌, ◌<◌, ◌≡◌, ◌∙◌, inl, inr, ◌⊎◌, ap, ◌==◌, if◌then◌else◌, arith, ==_false,
  ==_self, eq-cases,
}
use native.Mathlib.Nat.{mod-eq_of_lt, mod-eq-sub-mod}
use native.Mathlib.Decide.{dec_lt}
use jemsys.Quartz.RequestQueue.{RequestQueue, position, lookup, assign, exchange}

-- The index of an entry that the array has room for.
abbrev pub Within : RequestQueue → ℕ → Type 0
Within q i = (0 < i) × (i ≤ q.capacity)

-- Where the index `h + i` stands.
pub mod-add_cases :
    (c h i : ℕ)
    → h < c
    → i ≤ c
    → ((h + i < c) × ((h + i) % c ≡ h + i)) ⊎ ((c ≤ h + i) × ((h + i) % c ≡ h + i - c))
mod-add_cases c h i p w = elim (dec_lt (h + i) c) [
  | yes lt ↦ inl (lt, mod-eq_of_lt lt)
  | no ge ↦ inr (
    omega arith,
    mod-eq-sub-mod {n = h + i} {m = c} (omega arith)
        ∙ mod-eq_of_lt {n = h + i - c} {m = c} (omega arith),
  )
]

position-injective :
    (c h i j : ℕ)
    → h < c
    → (0 < i) × (i ≤ c)
    → (0 < j) × (j ≤ c)
    → (h + i) % c ≡ (h + j) % c
    → i ≡ j
position-injective c h i j p wi wj e =
    omega (arith, mod-add_cases c h i p wi.1, mod-add_cases c h j p wj.1)

-- Reading behind a write.
pub lookup-assign :
    (q : RequestQueue) (i j r : ℕ)
    → q.queue_head_index < q.capacity
    → Within q i
    → Within q j
    → lookup (assign q i r) j ≡ (if i == j then r else lookup q j)
unfolding lookup assign
lookup-assign q i j r h wi wj = elim (eq-cases i j) [
  | inl e ↦ rw (e, ==_self) (ground arith)
  | inr n ↦ rw (
    ==_false i j n,
    ==_false (position q i) (position q j)
        (λ e. n (position-injective q.capacity q.queue_head_index i j h wi wj e)),
  )
]

-- And behind an exchange.
pub lookup-exchange :
    (q : RequestQueue) (i j k : ℕ)
    → q.queue_head_index < q.capacity
    → Within q i
    → Within q j
    → Within q k
    → lookup (exchange q i j) k
      ≡ (if j == k then lookup q i else if i == k then lookup q j else lookup q k)
unfolding exchange assign
lookup-exchange q i j k h wi wj wk =
    lookup-assign (assign q i (lookup q j)) j k (lookup q i) h wj wk
    ∙ ap (λ v. if j == k then lookup q i else v) (lookup-assign q i k (lookup q j) h wi wk)
