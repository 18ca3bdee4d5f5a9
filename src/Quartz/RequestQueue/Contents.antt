-- ===== src/Quartz/RequestQueue/Contents.antt =====
-- Which requests the priority queue of src/quartz/internal.hpp holds, and what an exchange does to
-- them.
use jemsys.Base.{
  ℕ, zero, suc, ◌+◌, ◌≤◌, ◌<◌, ◌≡◌, refl, ◌∙◌, inl, inr, ap, ◌==◌, if◌then◌else◌, true, false,
  update, arith, eq-cases, Bool,
}
use jemsys.Quartz.RequestQueue.{RequestQueue, lookup, assign, exchange}
use jemsys.Quartz.RequestQueue.Window.{lookup-exchange}

-- How often `r` stands among the first `n` values of `f`, from 1.
pub tally : (ℕ → ℕ) → ℕ → ℕ → ℕ
tally f zero r = 0
tally f (suc n) r = tally f n r + (if f (suc n) == r then 1 else 0)

pub tally-cong :
    (f g : ℕ → ℕ) (n r : ℕ) → ((i : ℕ) → 0 < i → i ≤ n → f i ≡ g i) → tally f n r ≡ tally g n r
unfolding tally
tally-cong f g zero r e = refl
tally-cong f g (suc n) r e =
    ground (arith, e (suc n), tally-cong f g n r (λ i l u. e i l (omega arith)))

tally_above : (f : ℕ → ℕ) (n i v r : ℕ) → n < i → tally (update f i v) n r ≡ tally f n r
tally_above f n i v r h = tally-cong (update f i v) f n r (λ j l u. ground arith)

pub tally-suc :
    (f : ℕ → ℕ) (n r : ℕ) → tally f (suc n) r ≡ tally f n r + (if f (suc n) == r then 1 else 0)
unfolding tally
tally-suc f n r = refl

tally-update :
    (f : ℕ → ℕ) (n i v r : ℕ)
    → 0 < i
    → i ≤ n
    → tally (update f i v) n r + (if f i == r then 1 else 0)
      ≡ tally f n r + (if v == r then 1 else 0)
tally-update f zero i v r l u = absurd (omega arith)
tally-update f (suc n) i v r l u = elim (eq-cases i (suc n)) [
  | inl e ↦
      ground
        (arith, tally_above f n i v r (omega arith), tally-suc f n r, tally-suc (update f i v) n r)
  | inr ne ↦
      ground (
        arith,
        tally-update f n i v r l (omega arith),
        tally-suc f n r,
        tally-suc (update f i v) n r,
      )
]

tally-swap :
    (f : ℕ → ℕ) (n i j r : ℕ)
    → (0 < i) × (i ≤ n)
    → (0 < j) × (j ≤ n)
    → tally (update (update f i (f j)) j (f i)) n r ≡ tally f n r
tally-swap f n i j r wi wj = ground (
  arith,
  tally-update f n i (f j) r wi.0 wi.1,
  tally-update (update f i (f j)) n j (f i) r wj.0 wj.1,
)

-- An exchange within the queue keeps every request as often as it was.
pub tally-exchange :
    (q : RequestQueue) (n i j r : ℕ)
    → q.queue_head_index < q.capacity
    → n ≤ q.capacity
    → (0 < i) × (i ≤ n)
    → (0 < j) × (j ≤ n)
    → tally (lookup (exchange q i j)) n r ≡ tally (lookup q) n r
tally-exchange q n i j r h c wi wj =
    tally-cong _ (update (update (lookup q) i (lookup q j)) j (lookup q i)) n r
      (λ k l u. lookup-exchange q i j k h (wi.0, omega arith) (wj.0, omega arith) (l, omega arith))
    ∙ tally-swap (lookup q) n i j r wi wj

-- The same first `n` entries in another order, and nothing else changed.
pub record Rearranged (n : ℕ) (q q' : RequestQueue) : Type 0 where
  pub size : q'.queue_size ≡ q.queue_size
  pub room : q'.capacity ≡ q.capacity
  pub head : q'.queue_head_index ≡ q.queue_head_index
  pub contents : (r : ℕ) → tally (lookup q') n r ≡ tally (lookup q) n r

pub Rearranged-refl : (n : ℕ) (q : RequestQueue) → Rearranged n q q
Rearranged-refl n q = record { size = refl; room = refl; head = refl; contents = λ r. refl }

pub Rearranged-trans :
    (n : ℕ) (p q r : RequestQueue) → Rearranged n p q → Rearranged n q r → Rearranged n p r
Rearranged-trans n p q r a b = record {
  size = b.size ∙ a.size;
  room = b.room ∙ a.room;
  head = b.head ∙ a.head;
  contents = λ x. b.contents x ∙ a.contents x;
}

-- The queue's entries lie within its array.
abbrev pub Fits : ℕ → RequestQueue → Type 0
Fits n q = (q.queue_head_index < q.capacity) × (n ≤ q.capacity)

pub Fits-Rearranged : (n : ℕ) (q q' : RequestQueue) → Rearranged n q q' → Fits n q → Fits n q'
Fits-Rearranged n q q' r f = omega (arith, r.room, r.head)

pub exchange-Rearranged :
    (q : RequestQueue) (n i j : ℕ)
    → Fits n q
    → (0 < i) × (i ≤ n)
    → (0 < j) × (j ≤ n)
    → Rearranged n q (exchange q i j)
unfolding exchange assign
exchange-Rearranged q n i j f wi wj = record {
  size = refl;
  room = refl;
  head = refl;
  contents = λ r. tally-exchange q n i j r f.0 f.1 wi wj;
}

pub if_Rearranged :
    (n : ℕ) (q a b : RequestQueue) (c : Bool)
    → Rearranged n q a
    → Rearranged n q b
    → Rearranged n q (if c then a else b)
if_Rearranged n q a b true x y = x
if_Rearranged n q a b false x y = y

pub tally-zero : (f : ℕ → ℕ) (r : ℕ) → tally f zero r ≡ 0
unfolding tally
tally-zero f r = refl

pub tally_next :
    (f : ℕ → ℕ) (n r : ℕ) → tally f (n + 1) r ≡ tally f n r + (if f (n + 1) == r then 1 else 0)
tally_next f n r =
    ap (λ m. tally f m r) (omega arith)
    ∙ tally-suc f n r
    ∙ ap (λ m. tally f n r + (if f m == r then 1 else 0)) (omega arith)
