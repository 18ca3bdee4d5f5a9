-- ===== src/Quartz/RequestQueue/Insert.antt =====
-- `insert` of the priority queue in src/quartz/internal.hpp, and the order of a heap.
use jemsys.Base.{
  ℕ, zero, suc, ◌+◌, ◌/◌, ◌≤◌, ◌<◌, ◌≡◌, ◌≢◌, refl, inl, inr, ◌==◌, leb, if◌then◌else◌, arith,
  Bool-cases,
}
use jemsys.Quartz.RequestQueue.{
  RequestQueue, lookup, assign, exchange, parent, rise, insert, append,
}
use jemsys.Quartz.RequestQueue.Window.{lookup-assign, lookup-exchange}

-- On the keys by index: every entry of 2 .. n but `x` is at least its parent, and those below `x`
-- are at least the parent of `x`.
module _ (k : ℕ → ℕ) (n : ℕ) where
  abbrev pub HeapBut : ℕ → Type 0
  HeapBut x =
      ((i : ℕ) → 2 ≤ i → i ≤ n → i ≢ x → k (i / 2) ≤ k i)
      × ((i : ℕ) → 2 ≤ x → i ≤ n → i / 2 ≡ x → k (x / 2) ≤ k i)

  abbrev pub IsHeap : Type 0
  IsHeap = (i : ℕ) → 2 ≤ i → i ≤ n → k (i / 2) ≤ k i

-- The keys after the exchange of `x` and its parent.
abbrev pub swapped : (ℕ → ℕ) → ℕ → ℕ → ℕ
swapped k x i = if x / 2 == i then k x else if x == i then k (x / 2) else k i

swapped-HeapBut :
    (k : ℕ → ℕ) (n x : ℕ)
    → 2 ≤ x
    → x ≤ n
    → k x < k (x / 2)
    → HeapBut k n x
    → HeapBut (swapped k x) n (x / 2)
swapped-HeapBut k n x lo hi lt (a, b) = (
  (λ i l h ne. ground (arith, a i l h, b i lo h, a (x / 2))),
  (λ i l h e. ground (arith, a i, a (x / 2), b i)),
)

HeapBut-cong :
    (k k' : ℕ → ℕ) (n x : ℕ)
    → x ≤ n
    → ((i : ℕ) → 0 < i → i ≤ n → k' i ≡ k i)
    → HeapBut k n x
    → HeapBut k' n x
HeapBut-cong k k' n x hx e (a, b) = (
  (λ i l h ne. ground (arith, a i l h, e i, e (i / 2))),
  (λ i l h f. ground (arith, b i l h f, e i, e (x / 2))),
)

lookup-size : (q : RequestQueue) (n i : ℕ) → lookup (record q { queue_size = n }) i ≡ lookup q i
unfolding lookup
lookup-size q n i = refl

size-append :
    (q : RequestQueue) (r : ℕ)
    → ((append q r).queue_size ≡ q.queue_size + 1)
      × ((append q r).capacity ≡ q.capacity)
      × ((append q r).queue_head_index ≡ q.queue_head_index)
unfolding append assign
size-append q r = (refl, refl, refl)

module _ (priority : ℕ → ℕ) where
  abbrev pub key : RequestQueue → ℕ → ℕ
  key q i = priority (lookup q i)

  pub key-exchange :
      (q : RequestQueue) (x i : ℕ)
      → q.queue_head_index < q.capacity
      → 2 ≤ x
      → x ≤ q.capacity
      → 0 < i
      → i ≤ q.capacity
      → key (exchange q x (parent x)) i ≡ swapped (key q) x i
  key-exchange q x i h lo hi wi wi' =
      ground (arith, lookup-exchange q x (x / 2) i h (omega arith) (omega arith) (wi, wi'))

  pub size-exchange :
      (q : RequestQueue) (x y : ℕ)
      → ((exchange q x y).queue_size ≡ q.queue_size)
        × ((exchange q x y).capacity ≡ q.capacity)
        × ((exchange q x y).queue_head_index ≡ q.queue_head_index)
  unfolding exchange assign
  size-exchange q x y = (refl, refl, refl)

  -- The entry at `x` rises until the heap is in order.
  rise-IsHeap :
      (fuel : ℕ) (q : RequestQueue) (n x : ℕ)
      → x ≤ fuel
      → q.queue_head_index < q.capacity
      → n ≤ q.capacity
      → 0 < x
      → x ≤ n
      → HeapBut (key q) n x
      → IsHeap (key (rise priority fuel q x)) n
  unfolding rise
  rise-IsHeap zero q n x f h c lo hi hb = absurd (omega arith)
  rise-IsHeap (suc fuel) q n x f h c lo hi hb = elim (Bool-cases (parent x == 0)) [
    | inl root ↦ rw root (λ i l u. ground (arith, hb.0 i l u))
    | inr inner ↦ elim (Bool-cases (leb (key q (parent x)) (key q x))) [
      | inl ordered ↦ rw (inner, ordered) (λ i l u. ground (arith, hb.0 i l u))
      | inr above ↦
          rw (inner, above)
            (rise-IsHeap fuel (exchange q x (parent x)) n (x / 2) (omega arith)
              (omega (arith, size-exchange q x (parent x)))
              (omega (arith, size-exchange q x (parent x))) (ground arith) (omega arith)
              (HeapBut-cong (swapped (key q) x) (key (exchange q x (parent x))) n (x / 2)
                (omega arith)
                (λ i l u. key-exchange q x i h (ground arith) (omega arith) l (omega arith))
                (swapped-HeapBut (key q) n x (ground arith) hi (ground arith) hb)))
    ]
  ]

  size-rise :
      (fuel : ℕ) (q : RequestQueue) (x : ℕ)
      → ((rise priority fuel q x).queue_size ≡ q.queue_size)
        × ((rise priority fuel q x).capacity ≡ q.capacity)
        × ((rise priority fuel q x).queue_head_index ≡ q.queue_head_index)
  unfolding rise
  size-rise zero q x = (refl, refl, refl)
  size-rise (suc fuel) q x =
      ground
        (arith, size-exchange q x (parent x), size-rise fuel (exchange q x (parent x)) (parent x))

  key-append :
      (q : RequestQueue) (r i : ℕ)
      → q.queue_head_index < q.capacity
      → q.queue_size < q.capacity
      → 0 < i
      → i ≤ q.queue_size
      → key (append q r) i ≡ key q i
  unfolding append assign
  key-append q r i h c l u = ground (
    arith,
    lookup-assign (record q { queue_size = q.queue_size + 1 }) (q.queue_size + 1) i r h
        (omega arith) (omega arith),
    lookup-size q (q.queue_size + 1) i,
  )

  append-HeapBut :
      (q : RequestQueue) (r : ℕ)
      → q.queue_head_index < q.capacity
      → q.queue_size < q.capacity
      → IsHeap (key q) q.queue_size
      → HeapBut (key (append q r)) (q.queue_size + 1) (q.queue_size + 1)
  append-HeapBut q r h c heap = (
    (λ i l u n. ground (arith, heap i l, key-append q r i h c, key-append q r (i / 2) h c)),
    (λ i l u e. absurd (omega arith)),
  )

  -- Inserting a request into a heap that has room leaves a heap with one entry more.
  pub insert-IsHeap :
      (q : RequestQueue) (r : ℕ)
      → q.queue_head_index < q.capacity
      → q.queue_size < q.capacity
      → IsHeap (key q) q.queue_size
      → IsHeap (key (insert priority q r)) (q.queue_size + 1)
        × ((insert priority q r).queue_size ≡ q.queue_size + 1)
  unfolding insert append assign
  insert-IsHeap q r h c heap = (
    rise-IsHeap (q.queue_size + 1) (append q r) (q.queue_size + 1) (q.queue_size + 1) (omega arith)
        (omega (arith, size-append q r)) (omega (arith, size-append q r)) (omega arith)
        (omega arith) (append-HeapBut q r h c heap),
    (size-rise (q.queue_size + 1) (append q r) (q.queue_size + 1)).0,
  )
