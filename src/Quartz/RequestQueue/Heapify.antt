-- ===== src/Quartz/RequestQueue/Heapify.antt =====
-- `heapify` and `build_heap` of the priority queue in src/quartz/internal.hpp.
use jemsys.Base.{
  ℕ, zero, suc, ◌+◌, ◌*◌, ◌/◌, ◌≤◌, ◌<◌, ◌≡◌, ◌≢◌, refl, ◌∙◌, inl, inr, ◌⊎◌, subst, ltb,
  if◌then◌else◌, arith, Bool-cases, eq-cases,
}
use jemsys.Quartz.RequestQueue.{
  RequestQueue, lookup, exchange, parent, left, right, is_less_than, heapify, build_from,
  build_heap,
}
use jemsys.Quartz.RequestQueue.Contents.{
  tally, Rearranged, Rearranged-refl, Rearranged-trans, exchange-Rearranged, if_Rearranged,
}
use jemsys.Quartz.RequestQueue.Insert.{IsHeap, key, swapped, key-exchange, size-exchange}

-- The entries from the parents `lo` on are in order.
abbrev pub Sifted : (ℕ → ℕ) → ℕ → ℕ → Type 0
Sifted k n lo = (j : ℕ) → 2 ≤ j → j ≤ n → lo ≤ j / 2 → k (j / 2) ≤ k j

-- They are, but for the children of `x`, which are at least the parent of `x`.
abbrev SiftedBut : (ℕ → ℕ) → ℕ → ℕ → ℕ → Type 0
SiftedBut k n lo x =
    ((j : ℕ) → 2 ≤ j → j ≤ n → lo ≤ j / 2 → j / 2 ≢ x → k (j / 2) ≤ k j)
    × ((j : ℕ) → lo ≤ x / 2 → j ≤ n → j / 2 ≡ x → k (x / 2) ≤ k j)

sink-SiftedBut :
    (k : ℕ → ℕ) (n lo s : ℕ)
    → 2 ≤ s
    → s ≤ n
    → lo ≤ s / 2
    → k s < k (s / 2)
    → ((j : ℕ) → j ≤ n → j / 2 ≡ s / 2 → k s ≤ k j)
    → SiftedBut k n lo (s / 2)
    → SiftedBut (swapped k s) n lo s
sink-SiftedBut k n lo s l u h lt m (a, b) = (
  (λ j l' u' h' ne. ground (arith, a j l' u' h', a (s / 2), b j, b s, m j)),
  (λ j h' u' e. ground (arith, a j, b j, m j)),
)

stop-Sifted :
    (k : ℕ → ℕ) (n lo x : ℕ)
    → SiftedBut k n lo x
    → ((j : ℕ) → 2 ≤ j → j ≤ n → j / 2 ≡ x → k x ≤ k j)
    → Sifted k n lo
stop-Sifted k n lo x (a, b) m j l u h = elim (eq-cases (j / 2) x) [
  | inl e ↦ rw e (m j l u e)
  | inr ne ↦ a j l u h ne
]

SiftedBut-cong :
    (k k' : ℕ → ℕ) (n lo x : ℕ)
    → 0 < lo
    → ((i : ℕ) → 0 < i → i ≤ n → k' i ≡ k i)
    → SiftedBut k n lo x
    → SiftedBut k' n lo x
SiftedBut-cong k k' n lo x p e (a, b) = (
  (λ j l u h ne. ground (arith, a j l u h ne, e j, e (j / 2))),
  (λ j h u f. ground (arith, b j h u f, e j, e (x / 2))),
)

child-cases : (j x : ℕ) → j / 2 ≡ x → (j ≡ 2 * x) ⊎ (j ≡ 2 * x + 1)
child-cases j x e = ground arith

abbrev pub Fitting : RequestQueue → ℕ → Type 0
Fitting q n = (q.queue_size ≡ n) × (q.queue_head_index < q.capacity) × (n ≤ q.capacity)

module _ (priority : ℕ → ℕ) where
  exchange-Fitting : (q : RequestQueue) (n s x : ℕ) → Fitting q n → Fitting (exchange q s x) n
  exchange-Fitting q n s x f = ground (arith, size-exchange priority q s x)

  exchange-SiftedBut :
      (q : RequestQueue) (n lo s x : ℕ)
      → Fitting q n
      → 0 < lo
      → 2 ≤ s
      → s ≤ n
      → s / 2 ≡ x
      → lo ≤ x
      → key priority q s < key priority q x
      → ((j : ℕ) → j ≤ n → j / 2 ≡ x → key priority q s ≤ key priority q j)
      → SiftedBut (key priority q) n lo x
      → SiftedBut (key priority (exchange q s x)) n lo s
  exchange-SiftedBut q n lo s x f p l u e h lt m b =
      subst (λ y. SiftedBut (key priority (exchange q s y)) n lo s) e
        (SiftedBut-cong (swapped (key priority q) s) (key priority (exchange q s (s / 2))) n lo s p
          (λ i li ui. key-exchange priority q s i f.1 l (omega arith) li (omega arith))
          (sink-SiftedBut (key priority q) n lo s l u (omega arith) (rw e lt)
            (λ j uj ej. m j uj (ej ∙ e)) (rw e b)))

  -- What sinks at `x` with `s` its least child.
  abbrev least : RequestQueue → ℕ → ℕ
  least q x = if is_less_than priority q (left x) (right x) then left x else right x

  least-range :
      (q : RequestQueue) (x : ℕ)
      → (least q x / 2 ≡ x) × (2 * x ≤ least q x) × (least q x ≤ 2 * x + 1)
  least-range q x = elim (Bool-cases (is_less_than priority q (left x) (right x))) [
    | inl t ↦ rw t (omega arith)
    | inr f ↦ rw f (omega arith)
  ]

  least-least :
      (q : RequestQueue) (x j : ℕ) → j / 2 ≡ x → key priority q (least q x) ≤ key priority q j
  least-least q x j e = elim (Bool-cases (is_less_than priority q (left x) (right x))) [
    | inl t ↦
        rw t (elim (child-cases j x e) [
          | inl a ↦ rw a (omega arith)
          | inr a ↦ rw a (ground (arith, t))
        ])
    | inr f ↦
        rw f (elim (child-cases j x e) [
          | inl a ↦ rw a (ground (arith, f))
          | inr a ↦ rw a (omega arith)
        ])
  ]

  heapify_eq :
      (fuel : ℕ) (q : RequestQueue) (x : ℕ)
      → heapify priority (suc fuel) q x ≡ (
          if ltb q.queue_size (left x)
          then q
          else if ltb q.queue_size (right x)
          then (if is_less_than priority q (left x) x then exchange q (left x) x else q)
          else if is_less_than priority q (least q x) x
          then heapify priority fuel (exchange q (least q x) x) (least q x)
          else q)
  unfolding heapify
  heapify_eq fuel q x = refl

  heapify-zero : (q : RequestQueue) (x : ℕ) → heapify priority zero q x ≡ q
  unfolding heapify
  heapify-zero q x = refl

  leaf-Sifted : (k : ℕ → ℕ) (n lo x : ℕ) → n < 2 * x → SiftedBut k n lo x → Sifted k n lo
  leaf-Sifted k n lo x h b = stop-Sifted k n lo x b (λ j l u e. absurd (omega arith))

  heapify-Sifted :
      (fuel : ℕ) (q : RequestQueue) (n lo x : ℕ)
      → Fitting q n
      → 0 < lo
      → lo ≤ x
      → n < fuel + x
      → SiftedBut (key priority q) n lo x
      → Sifted (key priority (heapify priority fuel q x)) n lo
  heapify-Sifted zero q n lo x f p h c b =
      rw (heapify-zero q x) (leaf-Sifted _ n lo x (omega arith) b)
  heapify-Sifted (suc fuel) q n lo x f p h c b = elim (Bool-cases (ltb q.queue_size (left x))) [
    | inl leaf ↦ rw (heapify_eq fuel q x, leaf) (leaf-Sifted _ n lo x (ground (arith, f.0)) b)
    | inr inner ↦ elim (Bool-cases (ltb q.queue_size (right x))) [
      | inl one ↦ elim (Bool-cases (is_less_than priority q (left x) x)) [
        | inl lt ↦
            rw (heapify_eq fuel q x, inner, one, lt)
              (leaf-Sifted (key priority (exchange q (left x) x)) n lo (left x)
                (ground (arith, one, f.0))
                (exchange-SiftedBut q n lo (left x) x f p (omega arith) (ground (arith, inner, f.0))
                  (omega arith) h (ground (arith, lt))
                  (λ j u e. ground (arith, child-cases j x e, one, f.0)) b))
        | inr ge ↦
            rw (heapify_eq fuel q x, inner, one, ge)
              (stop-Sifted (key priority q) n lo x b
                (λ j l u e. ground (arith, child-cases j x e, one, f.0, ge)))
      ]
      | inr two ↦ elim (Bool-cases (is_less_than priority q (least q x) x)) [
        | inl lt ↦
            rw (heapify_eq fuel q x, inner, two, lt)
              (heapify-Sifted fuel (exchange q (least q x) x) n lo (least q x)
                (exchange-Fitting q n (least q x) x f) p (omega (arith, least-range q x))
                (omega (arith, least-range q x))
                (exchange-SiftedBut q n lo (least q x) x f p (omega (arith, least-range q x))
                  (ground (arith, two, f.0, least-range q x)) (least-range q x).0 h
                  (ground (arith, lt)) (λ j u e. least-least q x j e) b))
        | inr ge ↦
            rw (heapify_eq fuel q x, inner, two, ge)
              (stop-Sifted (key priority q) n lo x b
                (λ j l u e. ground (arith, least-least q x j e, ge)))
      ]
    ]
  ]

  heapify-Fitting :
      (fuel : ℕ) (q : RequestQueue) (n x : ℕ) → Fitting q n → Fitting (heapify priority fuel q x) n
  heapify-Fitting zero q n x f = rw (heapify-zero q x) f
  heapify-Fitting (suc fuel) q n x f = ground (
    arith,
    heapify_eq fuel q x,
    exchange-Fitting q n (left x) x f,
    heapify-Fitting fuel (exchange q (least q x) x) n (least q x)
        (exchange-Fitting q n (least q x) x f),
  )

  build_from-Sifted :
      (i : ℕ) (q : RequestQueue) (n : ℕ)
      → Fitting q n
      → Sifted (key priority q) n (suc i)
      → Sifted (key priority (build_from priority i q)) n 1
  unfolding build_from
  build_from-Sifted zero q n f s = s
  build_from-Sifted (suc i) q n f s =
      build_from-Sifted i (heapify priority q.queue_size q (suc i)) n
        (heapify-Fitting q.queue_size q n (suc i) f)
        (heapify-Sifted q.queue_size q n (suc i) (suc i) f (omega arith) (omega arith)
          (omega (arith, f.0))
          ((λ j l u h ne. s j l u (omega arith)), (λ j h u e. absurd (omega arith))))

  -- Nothing is lost: each round exchanges two entries of the queue.
  heapify-Rearranged :
      (fuel : ℕ) (q : RequestQueue) (n x : ℕ)
      → Fitting q n
      → 0 < x
      → Rearranged n q (heapify priority fuel q x)
  heapify-Rearranged zero q n x f p = rw (heapify-zero q x) (Rearranged-refl n q)
  heapify-Rearranged (suc fuel) q n x f p = elim (Bool-cases (ltb q.queue_size (left x))) [
    | inl leaf ↦ rw (heapify_eq fuel q x, leaf) (Rearranged-refl n q)
    | inr inner ↦ elim (Bool-cases (ltb q.queue_size (right x))) [
      | inl one ↦
          rw (heapify_eq fuel q x, inner, one)
            (if_Rearranged n q (exchange q (left x) x) q (is_less_than priority q (left x) x)
              (exchange-Rearranged q n (left x) x (f.1, f.2)
                (omega arith, ground (arith, inner, f.0)) (p, ground (arith, inner, f.0)))
              (Rearranged-refl n q))
      | inr two ↦
          let s = least q x in
          let range = least-range q x in
          let inside : s ≤ n = ground (arith, two, f.0, range) in
          rw (heapify_eq fuel q x, inner, two)
            (if_Rearranged n q (heapify priority fuel (exchange q s x) s) q
              (is_less_than priority q s x)
              (Rearranged-trans n q (exchange q s x) (heapify priority fuel (exchange q s x) s)
                (exchange-Rearranged q n s x (f.1, f.2) (omega (arith, range), inside)
                  (p, omega (arith, range, inside)))
                (heapify-Rearranged fuel (exchange q s x) n s (exchange-Fitting q n s x f)
                  (omega (arith, range))))
              (Rearranged-refl n q))
    ]
  ]

  build_from-Rearranged :
      (i : ℕ) (q : RequestQueue) (n : ℕ) → Fitting q n → Rearranged n q (build_from priority i q)
  unfolding build_from
  build_from-Rearranged zero q n f = Rearranged-refl n q
  build_from-Rearranged (suc i) q n f =
      let q' = heapify priority q.queue_size q (suc i) in
      Rearranged-trans n q q' (build_from priority i q')
        (heapify-Rearranged q.queue_size q n (suc i) f (omega arith))
        (build_from-Rearranged i q' n (heapify-Fitting q.queue_size q n (suc i) f))

  -- `build_heap` puts the entries of a queue that fits its array in heap order, whatever they are:
  -- the queue keeps its size, and every request is in it as often as before.
  pub build_heap-IsHeap :
      (q : RequestQueue)
      → q.queue_head_index < q.capacity
      → q.queue_size ≤ q.capacity
      → let q' = build_heap priority q in
        IsHeap (key priority q') q.queue_size
        × (q'.queue_size ≡ q.queue_size)
        × ((r : ℕ) → tally (lookup q') q.queue_size r ≡ tally (lookup q) q.queue_size r)
  unfolding build_heap
  build_heap-IsHeap q h c =
      let kept = build_from-Rearranged (parent q.queue_size) q q.queue_size (refl, h, c) in
      (
        (λ i l u.
            build_from-Sifted (parent q.queue_size) q q.queue_size (refl, h, c)
              (λ j lj uj hj. absurd (omega arith)) i l u (omega arith)),
        kept.size,
        kept.contents,
      )
