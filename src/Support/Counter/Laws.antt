-- ===== src/Support/Counter/Laws.antt =====
-- The tokens of mpsc_counter_t in src/support/atomicutils.hpp, and what its calls take.
use jemsys.Base.{
  ℕ, ◌+◌, ◌≤◌, ◌<◌, ◌≡◌, ltb, ◌==◌, List, [], ◌∷◌, Bool-cases, inl, inr, arith, false, ◌&&◌,
}
use jemsys.Support.Wake.{Wake, released, expired, Outcome, acquired, refused, blocked, total}
use jemsys.Support.Counter.{
  Counter, u32, increase, settle, take, decrease, try_decrease, try_decrease_for, wait_once,
}

abbrev pub tokens : Counter → ℕ
tokens c = c.mp_value + c.sc_value

-- As for a semaphore: a success costs `n` of the tokens, a refusal none.
abbrev pub Balanced : ℕ → ℕ → Outcome Counter → Type 0
Balanced all n (acquired c w) = tokens c + n + total w ≡ all
Balanced all n (refused c w) = tokens c + total w ≡ all
Balanced all n blocked = Unit

Balanced-cong : {a b : ℕ} (n : ℕ) (o : Outcome Counter) → a ≡ b → Balanced a n o → Balanced b n o
Balanced-cong n (acquired v w) p h = omega arith
Balanced-cong n (refused v w) p h = omega arith
Balanced-cong n blocked p h = tt

settle-tokens : (c : Counter) (value : ℕ) → tokens c < u32 → tokens (settle c value) ≡ tokens c
unfolding settle
settle-tokens c value h = ground arith

pub increase-tokens :
    (c : Counter) (n : ℕ) → tokens c + n < u32 → tokens (increase c n) ≡ tokens c + n
unfolding increase
increase-tokens c n h = ground arith

take-tokens : (c : Counter) (n : ℕ) → ltb c.sc_value n ≡ false → tokens (take c n) + n ≡ tokens c
unfolding take
take-tokens c n h = ground arith

try_decrease-Balanced :
    (c : Counter) (n : ℕ) (w : List Wake)
    → tokens c + total w < u32
    → Balanced (tokens c + total w) n (try_decrease c n w)
unfolding try_decrease
try_decrease-Balanced c n w h = elim (Bool-cases (ltb (settle c n).sc_value n)) [
  | inl e ↦ rw e (omega (arith, settle-tokens c n))
  | inr e ↦ rw e (omega (arith, settle-tokens c n, take-tokens (settle c n) n e))
]

-- The waiting form: with fewer than 2^32 tokens in all, none is lost and none is taken twice.
decrease-Balanced :
    (c : Counter) (n : ℕ) (w : List Wake)
    → tokens c + total w < u32
    → Balanced (tokens c + total w) n (decrease c n w)
unfolding decrease total
decrease-Balanced c n [] h = elim (Bool-cases (ltb (settle c n).sc_value n)) [
  | inl e ↦ rw e tt
  | inr e ↦ rw e (omega (arith, settle-tokens c n, take-tokens (settle c n) n e))
]
decrease-Balanced c n (released k ∷ w) h = elim (Bool-cases (ltb (settle c n).sc_value n)) [
  | inl e ↦ rw e (
      Balanced-cong n _ (omega (arith, shift))
        (decrease-Balanced (increase (settle c n) k) n w (omega (arith, shift))))
  | inr e ↦ rw e (omega (arith, settle-tokens c n, take-tokens (settle c n) n e))
]
  where
    shift : tokens (increase (settle c n) k) ≡ tokens c + k
    shift = omega (arith, settle-tokens c n, increase-tokens (settle c n) k)
decrease-Balanced c n (expired ∷ w) h = elim (Bool-cases (ltb (settle c n).sc_value n)) [
  | inl e ↦ rw e (
      Balanced-cong n _ (omega (arith, settle-tokens c n))
        (decrease-Balanced (settle c n) n w (omega (arith, settle-tokens c n))))
  | inr e ↦ rw e (omega (arith, settle-tokens c n, take-tokens (settle c n) n e))
]

wait_once-Balanced :
    (c : Counter) (n : ℕ) (w : List Wake)
    → tokens c + total w < u32
    → Balanced (tokens c + total w) n (wait_once c n w)
unfolding wait_once total
wait_once-Balanced c n [] h = tt
wait_once-Balanced c n (released k ∷ w) h = elim (Bool-cases ((increase c k).mp_value == 0)) [
  | inl e ↦ rw e (
      Balanced-cong n _ (omega (arith, increase-tokens c k))
        (wait_once-Balanced (increase c k) n w (omega (arith, increase-tokens c k))))
  | inr e ↦ rw e (
      Balanced-cong n _ (omega (arith, increase-tokens c k))
        (try_decrease-Balanced (increase c k) n w (omega (arith, increase-tokens c k))))
]
wait_once-Balanced c n (expired ∷ w) h = try_decrease-Balanced c n w h

-- The three forms of `decrease`: with fewer than 2^32 tokens in all, a success takes exactly `n` of
-- the tokens that the producers added, and a refusal none.
pub decreases-Balanced :
    (c : Counter) (n : ℕ) (w : List Wake)
    → tokens c + total w < u32
    → Balanced (tokens c + total w) n (decrease c n w)
      × Balanced (tokens c + total w) n (try_decrease c n w)
      × Balanced (tokens c + total w) n (try_decrease_for c n w)
unfolding try_decrease_for
decreases-Balanced c n w h = (
  decrease-Balanced c n w h,
  try_decrease-Balanced c n w h,
  elim (Bool-cases (ltb c.sc_value n && (c.mp_value == 0))) [
    | inl e ↦ rw e (wait_once-Balanced c n w h)
    | inr e ↦ rw e (try_decrease-Balanced c n w h)
  ],
)

-- With enough tokens there, `decrease` waits for nothing.
pub decrease-ready :
    (c : Counter) (n : ℕ)
    → tokens c < u32
    → n ≤ tokens c
    → (decrease c n [] ≡ acquired (take (settle c n) n) [])
      × (tokens (take (settle c n) n) + n ≡ tokens c)
unfolding decrease settle take
decrease-ready c n h k = (ground arith, ground arith)

pub try_decrease-ready :
    (c : Counter) (n : ℕ) (w : List Wake)
    → tokens c < u32
    → n ≤ tokens c
    → try_decrease c n w ≡ acquired (take (settle c n) n) w
unfolding try_decrease settle take
try_decrease-ready c n w h k = ground arith

-- Without a token the calls that do not wait for ever refuse, and there is none after them.
pub try_decrease-none :
    (c : Counter) (w : List Wake)
    → tokens c ≡ 0
    → (try_decrease c 1 w ≡ refused (settle c 1) w)
      × (try_decrease_for c 1 (expired ∷ []) ≡ refused (settle c 1) [])
      × (tokens (settle c 1) ≡ 0)
unfolding try_decrease try_decrease_for settle
try_decrease-none c w h = (ground arith, ground arith, ground arith)

pub try_decrease_for-ready :
    (c : Counter) (w : List Wake) → 1 ≤ tokens c → try_decrease_for c 1 w ≡ try_decrease c 1 w
unfolding try_decrease_for
try_decrease_for-ready c w h = ground arith
